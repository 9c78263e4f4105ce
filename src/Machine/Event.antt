-- ===== src/Machine/Event.antt =====
-- What a reconciliation does to the world outside, as a history with the newest event first.
use cluster_api_provider_scv.Base.{Str, Bool, List}
use cluster_api_provider_scv.Api.Meta.{ObjectMeta}
use cluster_api_provider_scv.Api.Provider.{ScvmmProviderReference}
use cluster_api_provider_scv.Api.PersistentDisk.{ScvmmPersistentDisk}
use cluster_api_provider_scv.Api.NamePool.{ScvmmNamePool}
use cluster_api_provider_scv.Api.Machine.{PoolRef, ScvmmMachine}
use cluster_api_provider_scv.Scvmm.Command.{Command}
use cluster_api_provider_scv.Scvmm.Answer.{WinrmResult}

-- `ipamv1.IPAddressClaim`, with the fields that the controller reads and writes.
pub record IpAddressClaim : Type 0 where
  pub meta : ObjectMeta
  pub pool_ref : PoolRef
  pub address_ref : Str  -- `Status.AddressRef.Name`
  pub has_ready : Bool  -- `conditions.Has(claim, ReadyCondition)`

-- The kinds of objects that are read from the API server.
pub data Kind : Type 0 where
  machine_kind disk_kind disk_pool_kind name_pool_kind claim_kind address_kind secret_kind : Kind
  owner_machine_kind cluster_kind scvmm_cluster_kind provider_kind : Kind

pub data Event : Type 0 where
  sent : ScvmmProviderReference → Command → WinrmResult → Event
  read : Kind → Str → Str → Event  -- a Get, or a List with the name ""
  recorded : Bool → Str → Str → Event  -- `Eventf`: is it a warning, the reason, the message
  patched : ScvmmMachine → Event
  updated_disk : ScvmmPersistentDisk → Event
  updated_disk_status : ScvmmPersistentDisk → Event
  created_disk : ScvmmPersistentDisk → Event
  updated_pool_status : ScvmmNamePool → Event
  applied_claim : IpAddressClaim → Event  -- `CreateOrPatch`
  updated_claim : IpAddressClaim → Event
  created_cloud_init wrote_cloud_init removed_cloud_init : Str → Event  -- the path on the share

abbrev pub History : Type 0
History = List Event
