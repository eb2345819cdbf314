-- ===== src/Api.antt =====
-- The Kubernetes types of api/v1alpha1 and the parts of the cluster's own types that are used.
pub mod Meta
pub mod User
pub mod Auth
pub mod Workspace
pub mod Image
pub mod ImageRepository
pub mod SshKey
