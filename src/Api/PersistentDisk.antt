-- ===== src/Api/PersistentDisk.antt =====
-- api/v1alpha1/scvmmpersistentdisk_types.go and scvmmpersistentdiskpool_types.go.
use cluster_api_provider_scv.Base.{ℕ, Str, Bool, Option, List}
use cluster_api_provider_scv.Api.Meta.{ObjectMeta}
use cluster_api_provider_scv.Api.Provider.{ScvmmProviderReference}

pub record ScvmmPersistentDiskSpec : Type 0 where
  pub provider_ref : Option ScvmmProviderReference
  pub vm_host : Str
  pub path : Str
  pub filename : Str
  pub dynamic : Bool
  pub size : ℕ

pub record ScvmmPersistentDiskStatus : Type 0 where
  pub size : Option ℕ

-- `Index` is not serialised: the machine controller fills it from the name.
pub record ScvmmPersistentDisk : Type 0 where
  pub meta : ObjectMeta
  pub spec : ScvmmPersistentDiskSpec
  pub status : ScvmmPersistentDiskStatus
  pub index : ℕ

pub record ScvmmPersistentDiskReference : Type 0 where
  pub name : Str
  pub path : Str
  pub filename : Str
  pub vm_host : Str

-- `matchLabels` of a label selector; the expressions are text that only the selector reads.
pub record LabelSelector : Type 0 where
  pub match_labels : List (Str × Str)
  pub match_expressions : List Str

pub record ScvmmPersistentDiskPoolSpec : Type 0 where
  pub max_disks : ℕ
  pub selector : LabelSelector
  pub template_labels : List (Str × Str)
  pub template_annotations : List (Str × Str)
  pub template_spec : ScvmmPersistentDiskSpec

pub record ScvmmPersistentDiskPool : Type 0 where
  pub meta : ObjectMeta
  pub spec : ScvmmPersistentDiskPoolSpec
