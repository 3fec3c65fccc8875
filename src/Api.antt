-- ===== src/Api.antt =====
-- The API types of api/v1 and the parts of the Kubernetes types that the controllers read.
pub mod Core
pub mod Labels
pub mod NodeClaim
pub mod NodePool
pub mod ProxmoxProvider
pub mod Scheme
