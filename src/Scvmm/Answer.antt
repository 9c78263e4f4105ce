-- ===== src/Scvmm/Answer.antt =====
-- What comes back from a command: `WinrmResult`, `VMResult` and the other decoded answers of
-- internal/controllers/helper_winrmcommand.go.
use cluster_api_provider_scv.Base.{ℕ, Str, Option, List}
use cluster_api_provider_scv.Api.Meta.{Error}
use cluster_api_provider_scv.Api.Machine.{Slice, ScvmmMachineSpec}

pub record WinrmResult : Type 0 where
  pub stdout : Str
  pub stderr : Str
  pub err : Option Error

pub record VmResultNetwork : Type 0 where
  pub ipv4_addresses : List Str
  pub ipv4_prefix_lengths : List ℕ
  pub default_ip_gateways : List Str

-- The int64 numbers of SCVMM are sizes, counts and places, and not negative.
pub record VmResultDisk : Type 0 where
  pub size : ℕ
  pub maximum_size : ℕ
  pub bus : ℕ
  pub lun : ℕ
  pub vm_host : Str
  pub path : Str
  pub filename : Str
  pub iops_maximum : ℕ

pub record VmIso : Type 0 where
  pub size : ℕ
  pub filename : Str

pub record VmResult : Type 0 where
  pub cloud : Str
  pub name : Str
  pub hostname : Str
  pub status : Str
  pub memory : ℕ
  pub cpu_count : ℕ
  pub virtual_network : Str
  pub ipv4_addresses : Slice Str
  pub network_adapters : List VmResultNetwork
  pub virtual_disks : List VmResultDisk
  pub isos : List VmIso
  pub bios_guid : Str
  pub id : Str
  pub vm_id : Str
  pub availability_set_names : List Str
  pub tag : Str
  pub custom_property : List (Str × Str)
  pub error : Str
  pub script_errors : Str
  pub message : Str
  pub creation_time : Str
  pub modified_time : Str
  pub result : Str

pub record VmIdsResult : Type 0 where
  pub error : Str
  pub vm_ids : List Str

pub record VmSpecResult : Type 0 where
  pub spec : ScvmmMachineSpec
  pub error : Str
  pub script_errors : Str
  pub message : Str
