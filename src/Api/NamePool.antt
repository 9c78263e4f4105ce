-- ===== src/Api/NamePool.antt =====
-- api/v1alpha1/scvmmnamepool_types.go. The counts are Go ints, as integers.
use cluster_api_provider_scv.Base.{Str, Option, List}
use cluster_api_provider_scv.Base.Int.{ℤ}
use cluster_api_provider_scv.Api.Meta.{ObjectMeta}

pub record ScvmmPoolCounts : Type 0 where
  pub total : ℤ
  pub free : ℤ
  pub used : ℤ

pub record VmNameRange : Type 0 where
  pub start : Str
  pub end : Str  -- "" if there is none
  pub postfix : Str

-- The owners are a Go map, as an association list with one entry for a name.
pub record ScvmmNamePoolStatus : Type 0 where
  pub vm_name_owners : List (Str × Str)
  pub counts : Option ScvmmPoolCounts

pub record ScvmmNamePool : Type 0 where
  pub meta : ObjectMeta
  pub vm_name_ranges : List VmNameRange
  pub status : ScvmmNamePoolStatus
