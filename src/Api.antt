-- ===== src/Api.antt =====
-- The custom resources of api/v1alpha1: one child module for each resource.
pub mod Meta
pub mod Call
pub mod Provider
pub mod PersistentDisk
pub mod NamePool
pub mod Machine
pub mod CopySpec
