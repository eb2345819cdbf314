-- ===== src/Workspace.antt =====
-- internal/controller/workspace_controller.go and the parts of it in container_init.go,
-- vm_execution_epoch.go and vm_management_bootstrap.go.
pub mod Client
pub mod Execution
pub mod Epochs
pub mod Bootstrap
pub mod Credentials
pub mod Services
pub mod Workloads
pub mod InitTemplate
pub mod ContainerInit
pub mod Status
pub mod Deploy
pub mod Reset
pub mod Exposure
pub mod InitSafety
pub mod Readiness
pub mod Resets
pub mod Tests
pub mod Resources
pub mod Memory
pub mod Fixtures
