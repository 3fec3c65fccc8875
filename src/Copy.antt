-- ===== src/Copy.antt =====
-- Go's pointers, slices and maps, and api/v1/zz_generated.deepcopy.go over them.
pub mod Memory
pub mod Deep
pub mod Items
pub mod Objects
pub mod Generated
pub mod Views
pub mod Copies
pub mod Pointers
pub mod Kinds
