-- ===== src/Scvmm/Command.antt =====
-- The calls of PowerShell functions that the controllers send, and the command lines that
-- `fmt.Sprintf` makes of them.
use cluster_api_provider_scv.Base.{ℕ, Str, String, codes, List, [], ◌∷◌, ◌++◌, Option, none, some}
use cluster_api_provider_scv.Base.Decimal.{show}
use cluster_api_provider_scv.Scvmm.Escape.{quote, escape_single_quotes}

-- The arguments of `CreateVM`. A number that may be -1 is `none` there.
pub record CreateArgs : Type 0 where
  pub cloud : Str
  pub host_group : Str
  pub vm_name : Str
  pub vm_template : Str
  pub memory : Option ℕ
  pub memory_min : Option ℕ
  pub memory_max : Option ℕ
  pub memory_buffer : Option ℕ
  pub cpu_count : ℕ
  pub disks : Str
  pub network_devices : Str
  pub fibre_channel : Str
  pub hardware_profile : Str
  pub operating_system : Str
  pub availability_set : Str
  pub vm_options : Str

pub data Command : Type 0 where
  get_vm : Str → Command
  get_vm_ids_by_name : Str → Command
  create_vm : CreateArgs → Command
  set_vm_properties : Str → Str → Str → Str → Command
  add_vm_spec : Str → Str → Command
  expand_vm_disks : Str → Str → Command
  set_vm_network : Str → Str → Command
  add_cloud_init : Str → Str → Str → Str → Command
  start_vm : Str → Command
  read_vm : Str → Command
  remove_disk_from_vm : Str → ℕ → Command
  remove_vm : Str → Command
  remove_persistent_disk : Str → Str → Str → Command
  get_library_share : Command

-- `'%s'` of an escaped text, `'%s'` of a text as it is, and `%d`.
pub data Arg : Type 0 where
  quoted : Str → Arg
  raw : Str → Arg
  number : Option ℕ → Arg

show_arg : Arg → Str
show_arg (quoted s) = quote ∷ (escape_single_quotes s ++ (quote ∷ []))
show_arg (raw s) = quote ∷ (s ++ (quote ∷ []))
show_arg (number none) = codes "-1"
show_arg (number (some n)) = show n

show_args : List (String × Arg) → Str
unfolding show_arg
show_args [] = []
show_args ((name, a) ∷ args) =
    codes " -" ++ (codes name ++ (codes " " ++ (show_arg a ++ show_args args)))

-- `funcName, _, _ := strings.Cut(command, " ")`
pub function_name : Command → Str
function_name (get_vm i) = codes "GetVM"
function_name (get_vm_ids_by_name n) = codes "GetVMIDsByName"
function_name (create_vm a) = codes "CreateVM"
function_name (set_vm_properties i p t o) = codes "SetVMProperties"
function_name (add_vm_spec s m) = codes "AddVMSpec"
function_name (expand_vm_disks i d) = codes "ExpandVMDisks"
function_name (set_vm_network i d) = codes "SetVMNetwork"
function_name (add_cloud_init f i p d) = f
function_name (start_vm i) = codes "StartVM"
function_name (read_vm i) = codes "ReadVM"
function_name (remove_disk_from_vm i l) = codes "RemoveDiskFromVM"
function_name (remove_vm i) = codes "RemoveVM"
function_name (remove_persistent_disk h p f) = codes "RemovePersistentDisk"
function_name get_library_share = codes "GetLibraryShare"

create_args : CreateArgs → List (String × Arg)
create_args a =
    ("Cloud", quoted a.cloud)
    ∷ ("HostGroup", quoted a.host_group)
    ∷ ("VMName", quoted a.vm_name)
    ∷ ("VMTemplate", quoted a.vm_template)
    ∷ ("Memory", number a.memory)
    ∷ ("MemoryMin", number a.memory_min)
    ∷ ("MemoryMax", number a.memory_max)
    ∷ ("MemoryBuffer", number a.memory_buffer)
    ∷ ("CPUCount", number (some a.cpu_count))
    ∷ ("Disks", quoted a.disks)
    ∷ ("NetworkDevices", quoted a.network_devices)
    ∷ ("FibreChannel", quoted a.fibre_channel)
    ∷ ("HardwareProfile", quoted a.hardware_profile)
    ∷ ("OperatingSystem", quoted a.operating_system)
    ∷ ("AvailabilitySet", quoted a.availability_set)
    ∷ ("VMOptions", quoted a.vm_options)
    ∷ []

command_args : Command → List (String × Arg)
unfolding create_args
command_args (get_vm i) = ("Id", quoted i) ∷ []
command_args (get_vm_ids_by_name n) = ("VMName", quoted n) ∷ []
command_args (create_vm a) = create_args a
command_args (set_vm_properties i p t o) =
    ("ID", quoted i)
    ∷ ("CustomProperty", quoted p)
    ∷ ("Tag", quoted t)
    ∷ ("VMOptions", quoted o)
    ∷ []
command_args (add_vm_spec s m) = ("spec", quoted s) ∷ ("metadata", quoted m) ∷ []
command_args (expand_vm_disks i d) = ("ID", quoted i) ∷ ("Disks", quoted d) ∷ []
command_args (set_vm_network i d) = ("ID", quoted i) ∷ ("NetworkDevices", quoted d) ∷ []
command_args (add_cloud_init f i p d) =
    ("ID", quoted i) ∷ ("CIPath", quoted p) ∷ ("DeviceType", quoted d) ∷ []
command_args (start_vm i) = ("ID", quoted i) ∷ []
command_args (read_vm i) = ("ID", quoted i) ∷ []
command_args (remove_disk_from_vm i l) = ("ID", raw i) ∷ ("LUN", raw (show l)) ∷ []
command_args (remove_vm i) = ("ID", quoted i) ∷ []
command_args (remove_persistent_disk h p f) =
    ("VMHost", quoted h) ∷ ("Path", quoted p) ∷ ("Filename", quoted f) ∷ []
command_args get_library_share = []

-- `fmt.Sprintf(command+"\n", args...)`
unfoldable pub command_line : Command → Str
unfolding function_name command_args show_args
command_line c = function_name c ++ (show_args (command_args c) ++ codes "\n")
