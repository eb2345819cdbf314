-- ===== src/Images.antt =====
-- internal/controller/imagerepository_controller.go.
pub mod Client
pub mod Files
pub mod Sync
pub mod Reconcile
pub mod Reading
pub mod Ownership
pub mod Keyed
pub mod Refinement
pub mod Reports
pub mod Resync
pub mod Tests
