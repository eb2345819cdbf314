-- ===== src/User.antt =====
-- internal/controller/user_controller.go.
pub mod Client
pub mod Bindings
pub mod Namespaces
pub mod Reconcile
pub mod Revocation
pub mod Ownership
pub mod Deletion
pub mod Access
pub mod Tests
