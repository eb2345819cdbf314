-- ===== src/Auth.antt =====
-- internal/controller/authconfig_controller.go and localauth.go.
pub mod Client
pub mod Slug
pub mod Local
pub mod Bootstrap
pub mod Reconcile
pub mod Adoption
pub mod Bootstrapping
pub mod Usable
pub mod Verdict
pub mod Names
pub mod Tests
