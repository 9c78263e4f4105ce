-- ===== src/Api/Provider.antt =====
-- api/v1alpha1/scvmmprovider_types.go.
pub mod ExecHosts
use cluster_api_provider_scv.Base.{ℕ, Str, str_eq, Option, none, some, List, [], ◌∷◌, if◌then◌else◌}
use cluster_api_provider_scv.Api.Meta.{ObjectMeta}

pub record ScvmmProviderReference : Type 0 where
  pub name : Str
  pub namespace : Str

pub record ScvmmCloudInitSpec : Type 0 where
  pub library_share : Str
  pub file_system : Str
  pub device_type : Str

-- `ExecHosts` is `none` where the Go slice is nil.
pub record ScvmmProviderSpec : Type 0 where
  pub scvmm_host : Str
  pub scvmm_secret : Option Str
  pub exec_hosts : Option (List Str)
  pub exec_host : Str
  pub keep_alive_seconds : ℕ
  pub timeout_seconds : ℕ
  pub cloud_init : ScvmmCloudInitSpec
  pub extra_functions : List (Str × Str)
  pub scvmm_username : Str
  pub scvmm_password : Str
  pub env : List (Str × Str)
  pub sensitive_env : List (Str × Str)

pub record ScvmmExecHostStatus : Type 0 where
  pub host : Str
  pub status : Str
  pub message : Str

pub record ScvmmProviderStatus : Type 0 where
  pub exec_hosts : List ScvmmExecHostStatus

pub record ScvmmProvider : Type 0 where
  pub meta : ObjectMeta
  pub resource_version : Str
  pub spec : ScvmmProviderSpec
  pub status : ScvmmProviderStatus

unfoldable pub find_host : Str → List ScvmmExecHostStatus → Option ScvmmExecHostStatus
find_host h [] = none
find_host h (s ∷ rest) = if str_eq s.host h then some s else find_host h rest

-- `GetExecHostStatus`
unfoldable pub get_exec_host_status : ScvmmProviderStatus → Str → Option ScvmmExecHostStatus
unfolding find_host
get_exec_host_status sts h = find_host h sts.exec_hosts

unfoldable pub put_host : Str → Str → Str → List ScvmmExecHostStatus → List ScvmmExecHostStatus
put_host h st m [] = record { host = h; status = st; message = m } ∷ []
put_host h st m (s ∷ rest) =
    if str_eq s.host h
    then record s { status = st; message = m } ∷ rest
    else s ∷ put_host h st m rest

-- `SetExecHostStatus`
unfoldable pub set_exec_host_status : ScvmmProviderStatus → Str → Str → Str → ScvmmProviderStatus
unfolding put_host
set_exec_host_status sts h st m = record { exec_hosts = put_host h st m sts.exec_hosts }
