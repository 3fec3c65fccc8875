-- ===== src/Provisioner.antt =====
-- internal/controller/provisioner_controller.go: XenonNodeClaims for the pods of one XenonNodePool.
pub mod Pods
pub mod Watches
pub mod ScaleUp
pub mod ScaleDown
pub mod Reconcile
