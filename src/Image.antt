-- ===== src/Image.antt =====
-- The writers of the cloud-init image: the file systems of helper_vfat.go and helper_iso9660.go and the
-- disks of helper_vhd.go, helper_vhdx.go and helper_plain.go, under internal/controllers.
pub mod Sector
pub mod Writer
pub mod Iso
pub mod Vfat
pub mod Vhd
pub mod Vhdx
pub mod Handlers
