-- ===== src/Machine/Commands.antt =====
-- Which commands each call of the machine controller can send to SCVMM.
pub mod Shared
pub mod Live
pub mod Normal
pub mod Deleted
pub mod Guards
pub mod Whole
use cluster_api_provider_scv.Base.{Bool, true, false}
use cluster_api_provider_scv.Scvmm.Command.{
  Command, get_vm, get_vm_ids_by_name, create_vm, set_vm_properties, add_vm_spec, expand_vm_disks,
  set_vm_network, add_cloud_init, start_vm, read_vm, remove_disk_from_vm, remove_vm,
  remove_persistent_disk, get_library_share,
}
use cluster_api_provider_scv.Machine.Event.{Event, sent}

-- Events that are no command are allowed.
abbrev pub by_command : (Command → Bool) → Event → Bool
by_command cmd (sent ref c r) = cmd c
by_command cmd _ = true

-- The commands of a live machine: all that take nothing away.
abbrev pub is_live_command : Command → Bool
is_live_command (remove_disk_from_vm i l) = false
is_live_command (remove_vm i) = false
is_live_command (remove_persistent_disk h p f) = false
is_live_command _ = true

-- The commands of a machine that is deleted: reading the VM, detaching a disk and removing the VM.
abbrev pub is_deletion_command : Command → Bool
is_deletion_command (get_vm i) = true
is_deletion_command (remove_disk_from_vm i l) = true
is_deletion_command (remove_vm i) = true
is_deletion_command _ = false

-- The commands of a deleted machine that has persistent disks.
abbrev pub is_detaching_command : Command → Bool
is_detaching_command (get_vm i) = true
is_detaching_command (remove_disk_from_vm i l) = true
is_detaching_command _ = false

abbrev pub is_not_start : Command → Bool
is_not_start (start_vm i) = false
is_not_start _ = true
