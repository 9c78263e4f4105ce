-- ===== src/Controllers.antt =====
-- The reconcilers of the other resources: providers, persistent disks and clusters.
pub mod Provider
pub mod Disk
pub mod Cluster
