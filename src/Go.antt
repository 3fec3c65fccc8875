-- ===== src/Go.antt =====
-- The functions of Go's standard library that internal/provider/proxmox calls on texts. `/`, the
-- digits and the signs are ASCII, so characters serve for bytes.
pub mod Strings
pub mod Strconv
