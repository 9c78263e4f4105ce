-- ===== src/Machine/Env.antt =====
-- What the machine controller calls and does not implement: the API server behind `client.Client`
-- and the patch helper, the PowerShell session behind the winrm workers, the encoders, and the
-- helpers of cluster-api and controller-runtime. Each answer may depend on all that happened before.
use cluster_api_provider_scv.Base.{ℕ, Str, Bool, Option, List}
use cluster_api_provider_scv.Api.Meta.{ObjectMeta, OwnerReference, Error, Result}
use cluster_api_provider_scv.Api.Provider.{ScvmmProviderReference, ScvmmProvider}
use cluster_api_provider_scv.Api.PersistentDisk.{
  ScvmmPersistentDisk, ScvmmPersistentDiskPool, LabelSelector,
}
use cluster_api_provider_scv.Api.NamePool.{ScvmmNamePool}
use cluster_api_provider_scv.Api.CopySpec.{SpecEquality}
use cluster_api_provider_scv.Api.Machine.{
  NetworkDevice, FibreChannel, VmOptions, ScvmmMachineSpec, ScvmmCondition, ScvmmMachine, Bootstrap,
  Networking,
}
use cluster_api_provider_scv.Scvmm.Command.{Command}
use cluster_api_provider_scv.Scvmm.Answer.{WinrmResult, VmResult, VmIdsResult, VmSpecResult}
use cluster_api_provider_scv.Machine.Event.{History, IpAddressClaim}

-- `VmDiskElem`, the schema of the disks that the scripts read.
pub record VmDiskElem : Type 0 where
  pub size_mb : ℕ
  pub vh_disk : Str
  pub dynamic : Bool
  pub volume_type : Str
  pub storage_qos_policy : Str
  pub iops_maximum : ℕ
  pub path : Str
  pub filename : Str
  pub vm_host : Str

-- `clusterv1.Machine` and `clusterv1.Cluster`, with the fields that are read.
pub record OwnerMachine : Type 0 where
  pub meta : ObjectMeta
  pub failure_domain : Str
  pub bootstrap : Bootstrap
  pub is_control_plane : Bool

pub record Cluster : Type 0 where
  pub meta : ObjectMeta
  pub infrastructure_ref : Str
  pub infrastructure_provisioned : Option Bool
  pub control_plane_initialized : Option Bool

pub record FailureDomain : Type 0 where
  pub control_plane : Bool
  pub cloud : Str
  pub host_group : Str
  pub networking : Option Networking

pub record ScvmmClusterSpec : Type 0 where
  pub provider_ref : Option ScvmmProviderReference
  pub failure_domains : List (Str × FailureDomain)

-- `ipamv1.IPAddress`
pub record IpAddress : Type 0 where
  pub address : Str
  pub prefix : Option ℕ
  pub gateway : Str

pub record CloudInitFile : Type 0 where
  pub filename : Str
  pub contents : Str

pub record CloudInitNameserver : Type 0 where
  pub addresses : List Str
  pub search_domains : List Str

pub record CloudInitEthernet : Type 0 where
  pub addresses : List Str
  pub gateway4 : Str
  pub nameservers : CloudInitNameserver

-- A file on a share, with the account that opens it.
pub record SmbTarget : Type 0 where
  pub host : Str
  pub share : Str
  pub path : Str
  pub domain : Str
  pub user : Str

pub record Env : Type 0 where
  -- the winrm workers, and `json.Unmarshal` of what they return
  pub winrm : History → ScvmmProviderReference → Command → WinrmResult
  pub decode_vm : Str → Option VmResult
  pub decode_vm_ids : Str → Option VmIdsResult
  pub decode_vm_spec : Str → Option VmSpecResult
  -- `json.Marshal`
  pub marshal_disks : List VmDiskElem → Result Str
  pub marshal_options : Option VmOptions → Result Str
  pub marshal_devices : List NetworkDevice → Result Str
  pub marshal_fibre_channel : List FibreChannel → Result Str
  pub marshal_properties : List (Str × Str) → Result Str
  pub marshal_spec : ScvmmMachineSpec → Result Str
  pub marshal_meta : ObjectMeta → Result Str
  -- the API server, with the namespace and the name of what is read
  pub get_machine : History → Str → Str → Result ScvmmMachine
  pub get_disk : History → Str → Str → Result ScvmmPersistentDisk
  pub get_disk_pool : History → Str → Str → Result ScvmmPersistentDiskPool
  pub list_disks : History → LabelSelector → Result (List ScvmmPersistentDisk)
  pub get_name_pool : History → Str → Str → Result ScvmmNamePool
  pub list_machines : History → Str → Result (List ScvmmMachine)
  pub get_claim : History → Str → Str → Result IpAddressClaim
  pub get_address : History → Str → Str → Result IpAddress
  pub get_secret_value : History → Str → Str → Result (Option Str)
  pub get_scvmm_cluster : History → Str → Str → Result ScvmmClusterSpec
  pub patch_machine : History → ScvmmMachine → Option Error
  pub update_disk : History → ScvmmPersistentDisk → Option Error
  pub update_disk_status : History → ScvmmPersistentDisk → Option Error
  pub create_disk : History → ScvmmPersistentDisk → Option Error
  pub update_pool_status : History → ScvmmNamePool → Option Error
  -- whether `CreateOrPatch` made the claim, and the claim as the server then has it
  pub apply_claim : History → IpAddressClaim → Result (IpAddressClaim × Bool)
  pub update_claim : History → IpAddressClaim → Option Error
  -- cluster-api and controller-runtime
  pub patch_helper_error : ScvmmMachine → Option Error
  pub get_owner_machine : History → ObjectMeta → Result (Option OwnerMachine)
  pub get_cluster : History → ObjectMeta → Result (Option Cluster)
  pub is_paused : Cluster → OwnerMachine → Bool
  pub has_paused : ObjectMeta → Bool
  pub contains_finalizer : List Str → Str → Bool
  pub add_finalizer : List Str → Str → List Str
  pub remove_finalizer : List Str → Str → List Str
  pub ensure_owner_ref : List OwnerReference → OwnerReference → List OwnerReference
  pub remove_owner_ref : List OwnerReference → OwnerReference → List OwnerReference
  pub selector_error : LabelSelector → Option Error
  pub set_condition : List ScvmmCondition → ScvmmCondition → List ScvmmCondition
  pub set_aggregate_condition : List IpAddressClaim → List ScvmmCondition → List ScvmmCondition
  -- the provider cache of the workers, the text templates, and the SMB library
  pub winrm_providers : History → ScvmmProviderReference → Option ScvmmProvider
  pub execute_template : Str → ScvmmMachine → Result Str
  pub marshal_metadata : List (Str × Str) → Result Str
  pub marshal_network_data : List (Str × CloudInitEthernet) → Result Str
  pub smb_create : History → SmbTarget → Option Error
  pub smb_write : History → SmbTarget → Str → Str → List CloudInitFile → Option Error
  -- the rounds that the loop over a name range may take, and `fmt.Sprintf` of a format from a spec
  pub rounds : ℕ
  pub sprintf_int : Str → ℕ → Str
  -- the text of an error, and comparisons of pointers and by reflection
  pub error_text : Error → Str
  pub spec_equality : SpecEquality
