-- ===== src/Windows.antt =====
-- The life cycle of a Windows guest: vm_windows_guest.go, vm_windows_gpu.go, vm_profile_types.go.
pub mod Client
pub mod Names
pub mod Bootstrap
pub mod Lifecycle
pub mod Stages
pub mod Transitions
pub mod Boot
pub mod Stored
pub mod FirstBoot
pub mod Credentials
pub mod Profile
pub mod Resolve
pub mod Preflight
pub mod Approval
pub mod Soundness
pub mod Fixtures
pub mod Tests
