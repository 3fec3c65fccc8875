-- ===== src/Cmd.antt =====
-- cmd/main.go: from the command line to the running manager.
pub mod Options
pub mod Main
pub mod Http
pub mod Plan
pub mod Namespace
pub mod Known
