-- ===== src/Machine.antt =====
-- The VirtualMachine of a workspace: vm_disks.go, vm_root_disk.go, vm_linux_agent.go, and the parts of
-- workspace_controller.go that call them.
pub mod Client
pub mod Disks
pub mod Agent
pub mod CloudInit
pub mod GuestBootstrap
pub mod UserData
pub mod Mounts
pub mod Secrets
pub mod Dispatch
pub mod Order
pub mod Claims
pub mod Tests
