-- ===== src/Image/Handlers.antt =====
-- `FilesystemHandlers` and `DeviceHandlers`, as the `init` functions of the writers fill them.
use cluster_api_provider_scv.Base.{
  Str, codes, str_eq, ◌||◌, Option, none, some, List, [], if◌then◌else◌,
}
use cluster_api_provider_scv.Machine.Env.{CloudInitFile}
use cluster_api_provider_scv.Image.Sector.{Time}
use cluster_api_provider_scv.Image.Writer.{Writing, WriterAt}
use cluster_api_provider_scv.Image.Iso.{write_iso9660}
use cluster_api_provider_scv.Image.Vfat.{write_vfat}
use cluster_api_provider_scv.Image.Vhd.{FilesystemHandler, write_vhd, write_plain}
use cluster_api_provider_scv.Image.Vhdx.{Libraries, write_vhdx}

-- The file systems by name, with the ISO image for the empty name.
unfoldable pub filesystem_handler : Time → Str → Option FilesystemHandler
filesystem_handler now name =
    if str_eq name [] || str_eq name (codes "iso9660")
    then some (write_iso9660 now)
    else if str_eq name (codes "vfat")
    then some (write_vfat now)
    else none

-- `CloudInitDeviceHandler`
abbrev pub DeviceHandler : Type 0
DeviceHandler = Option WriterAt → FilesystemHandler → List CloudInitFile → Writing (Unit {0})

-- The devices by type, with the plain file for the empty one.
unfoldable pub device_handler : Libraries → Time → Str → Option DeviceHandler
device_handler l now name =
    if str_eq name [] || (str_eq name (codes "dvd") || str_eq name (codes "floppy"))
    then some write_plain
    else if str_eq name (codes "vhd")
    then some (write_vhd now (l.new_uuid 0))
    else if str_eq name (codes "ide") || str_eq name (codes "scsi")
    then some (write_vhdx l)
    else none
