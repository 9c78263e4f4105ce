-- ===== src/Api/Machine.antt =====
-- api/v1alpha1/scvmmmachine_types.go. A quantity is its `Value()`. A slice whose nil the code
-- tests is an `Option`; a pointer is an `Option`.
use cluster_api_provider_scv.Base.{ℕ, Str, Bool, Option, none, some, List, []}
use cluster_api_provider_scv.Api.Meta.{ObjectMeta}
use cluster_api_provider_scv.Api.Provider.{ScvmmProviderReference}
use cluster_api_provider_scv.Api.PersistentDisk.{ScvmmPersistentDiskReference}

abbrev pub Slice : Type 0 → Type 0
Slice A = Option (List A)

abbrev pub items : {A : Type 0} → Slice A → List A
items none = []
items (some xs) = xs

pub record VmOptions : Type 0 where
  pub description : Str
  pub start_action : Str
  pub stop_action : Str
  pub cpu_limit_for_migration : Option Bool
  pub cpu_limit_functionality : Option Bool
  pub enable_nested_virtualization : Option Bool
  pub checkpoint_type : Str
  pub havm_priority : ℕ
  pub cpu_relative_weight : ℕ
  pub cpu_cycles_reserve_percent : ℕ
  pub enable_backup : Option Bool
  pub block_dynamic_optimization : Option Bool

-- `Pool` is the name of the pool.
pub record VmPersistentDisk : Type 0 where
  pub pool : Str
  pub disk : Option ScvmmPersistentDiskReference

pub record VmDisk : Type 0 where
  pub size : Option ℕ
  pub dynamic : Bool
  pub vh_disk : Str
  pub volume_type : Str
  pub storage_qos_policy : Str
  pub iops_maximum : Option ℕ
  pub persistent_disk : Option VmPersistentDisk

-- `corev1.TypedLocalObjectReference`, with a pool's API group.
pub record PoolRef : Type 0 where
  pub api_group : Option Str
  pub kind : Str
  pub name : Str

pub record NetworkDevice : Type 0 where
  pub device_name : Str
  pub vm_network : Str
  pub ip_addresses : List Str
  pub gateway : Str
  pub nameservers : List Str
  pub search_domains : List Str
  pub addresses_from_pools : List PoolRef
  pub static_ip_address_pools : List Str

pub record Networking : Type 0 where
  pub devices : List NetworkDevice
  pub domain : Str

pub record FibreChannel : Type 0 where
  pub storage_fabric_classification : Str
  pub virtual_san : Str

pub record DynamicMemory : Type 0 where
  pub minimum : Option ℕ
  pub maximum : Option ℕ
  pub buffer_percentage : Option ℕ

-- `clusterv1.Bootstrap`, of which the name of the data secret is read.
pub record Bootstrap : Type 0 where
  pub data_secret_name : Option Str

pub record ScvmmMachineSpec : Type 0 where
  pub provider_id : Str
  pub id : Str
  pub cloud : Str
  pub host_group : Str
  pub vm_name : Str
  pub vm_name_from_pool : Option Str
  pub hostname : Str
  pub vm_template : Str
  pub disks : Slice VmDisk
  pub fibre_channel : List FibreChannel
  pub cpu_count : ℕ
  pub memory : Option ℕ
  pub dynamic_memory : Option DynamicMemory
  pub hardware_profile : Str
  pub operating_system : Str
  pub networking : Option Networking
  pub availability_set : Str
  pub vm_options : Option VmOptions
  pub custom_property : List (Str × Str)
  pub tag : Str
  pub provider_ref : Option ScvmmProviderReference
  pub metadata : List (Str × Str)
  pub bootstrap : Option Bootstrap

-- `Try` and `Wait` are int32, as bit patterns below 2 ^ 32.
pub record ScvmmMachineBackoff : Type 0 where
  pub reason : Str
  pub try : ℕ
  pub wait : ℕ

pub record ScvmmCondition : Type 0 where
  pub type : Str
  pub status : Bool
  pub reason : Str
  pub message : Str

pub record ScvmmMachineStatus : Type 0 where
  pub provisioned : Bool
  pub vm_status : Str
  pub bios_guid : Str
  pub creation_time : Str
  pub modified_time : Str
  pub hostname : Str
  pub addresses : List Str
  pub conditions : List ScvmmCondition
  pub backoff : Option ScvmmMachineBackoff

pub record ScvmmMachine : Type 0 where
  pub meta : ObjectMeta
  pub spec : ScvmmMachineSpec
  pub status : ScvmmMachineStatus
