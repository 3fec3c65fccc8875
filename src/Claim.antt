-- ===== src/Claim.antt =====
-- internal/controller/xenonnodeclaim_controller.go: the life of one XenonNodeClaim. A claim that
-- a method mutates is returned; a write returns the object that the server stored, as the client
-- decodes it into the pointer that it was given.
pub mod Objects
pub mod Methods
pub mod Reconcile
pub mod Quiet
pub mod Guard
pub mod OfPool
pub mod TearDown
pub mod Release
pub mod Ends
pub mod Clean
pub mod Settles
pub mod Launched
pub mod Bounded
pub mod Recording
pub mod Readiness
pub mod Sizes
