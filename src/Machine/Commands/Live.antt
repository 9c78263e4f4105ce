-- ===== src/Machine/Commands/Live.antt =====
-- The commands of `reconcileNormal`.
use cluster_api_provider_scv.Base.{ℕ, zero, suc, Str, Bool, Option, List, [], ◌∷◌}
use cluster_api_provider_scv.Api.Meta.{Error}
use cluster_api_provider_scv.Api.Provider.{ScvmmProviderReference}
use cluster_api_provider_scv.Api.PersistentDisk.{
  ScvmmPersistentDisk, ScvmmPersistentDiskPool, ScvmmPersistentDiskReference,
}
use cluster_api_provider_scv.Api.NamePool.{ScvmmNamePool, VmNameRange}
use cluster_api_provider_scv.Api.Machine.{VmDisk, VmPersistentDisk, ScvmmMachine}
use cluster_api_provider_scv.Scvmm.Answer.{VmResult, VmResultDisk}
use cluster_api_provider_scv.Machine.Event.{Event}
use cluster_api_provider_scv.Machine.Env.{Env}
use cluster_api_provider_scv.Machine.Emits.{Emits}
use cluster_api_provider_scv.Machine.Send.{send_vm_spec, vm_ids_by_name}
use cluster_api_provider_scv.Machine.Disks.{update_persistent_disk, vm_update_persistent_disks}
use cluster_api_provider_scv.Machine.DiskClaim.{
  create_disk, take_disk, claim_persistent_disk, claim_slot, vm_claim_persistent_disks,
}
use cluster_api_provider_scv.Machine.NamePool.{
  Search, try_name, search_range, search_ranges, store_names, search_names, generate_vm_name,
}
use cluster_api_provider_scv.Machine.Create.{
  fail_create, fail_encode, name_from_pool, send_create, create_named, create_machine,
}
use cluster_api_provider_scv.Machine.Commands.{by_command, is_live_command}
use cluster_api_provider_scv.Machine.Commands.Shared.{shared_rules}

abbrev allowed : Event → Bool
allowed = by_command is_live_command

module _ (env : Env) where
  pub send_vm_ids-Emits :
      (ref : Option ScvmmProviderReference) (name : Str)
      → Emits allowed (vm_ids_by_name env ref name)
  unfolding vm_ids_by_name
  send_vm_ids-Emits ref name = search shared_rules depth 12

  pub send_vm_spec-Emits : Emits allowed (send_vm_spec env)
  unfolding send_vm_spec
  send_vm_spec-Emits = search shared_rules depth 12

  -- Persistent disks.
  create_disk-Emits :
      (m : ScvmmMachine) (pool : ScvmmPersistentDiskPool) (i : ℕ)
      → Emits allowed (create_disk env m pool i)
  unfolding create_disk
  create_disk-Emits m pool i = search shared_rules depth 12

  take_disk-Emits : (d : ScvmmPersistentDisk) → Emits allowed (take_disk env d)
  unfolding take_disk
  take_disk-Emits d = search shared_rules depth 12

  claim_persistent_disk-Emits :
      (slot : VmPersistentDisk) (seen : List ScvmmPersistentDiskReference)
      → Emits allowed (claim_persistent_disk env slot seen)
  unfolding claim_persistent_disk
  claim_persistent_disk-Emits slot seen =
      search (shared_rules, create_disk-Emits, take_disk-Emits) depth 12

  claim_slot-Emits :
      (seen : List ScvmmPersistentDiskReference) (i : ℕ) (d : VmDisk) (slot : VmPersistentDisk)
      → Emits allowed (claim_slot env seen i d slot)
  unfolding claim_slot
  claim_slot-Emits seen i d slot = search (shared_rules, claim_persistent_disk-Emits) depth 12

  pub vm_claim_persistent_disks-Emits : Emits allowed (vm_claim_persistent_disks env)
  unfolding vm_claim_persistent_disks
  vm_claim_persistent_disks-Emits = search (shared_rules, claim_slot-Emits) depth 12

  update_persistent_disk-Emits :
      (ref : ScvmmPersistentDiskReference) (vd : VmResultDisk)
      → Emits allowed (update_persistent_disk env ref vd)
  unfolding update_persistent_disk
  update_persistent_disk-Emits ref vd = search shared_rules depth 12

  pub vm_update_persistent_disks-Emits :
      (vm : VmResult) → Emits allowed (vm_update_persistent_disks env vm)
  unfolding vm_update_persistent_disks
  vm_update_persistent_disks-Emits vm = search (shared_rules, update_persistent_disk-Emits) depth 12

  -- Names.
  try_name-Emits : (c : Str) (s : Search) → Emits allowed (try_name env c s)
  unfolding try_name
  try_name-Emits c s = search (shared_rules, send_vm_ids-Emits) depth 12

  search_range-Emits :
      (rounds : ℕ) (r : VmNameRange) (c : Str) (s : Search)
      → Emits allowed (search_range env rounds r c s)
  unfolding search_range
  search_range-Emits zero r c s = search shared_rules depth 12
  search_range-Emits (suc rounds) r c s =
      search (shared_rules, try_name-Emits, search_range-Emits rounds) depth 12

  search_ranges-Emits :
      (rs : List VmNameRange) (s : Search) → Emits allowed (search_ranges env rs s)
  unfolding search_ranges
  search_ranges-Emits [] s = search shared_rules depth 12
  search_ranges-Emits (r ∷ rs) s =
      search (shared_rules, search_range-Emits, search_ranges-Emits rs) depth 12

  store_names-Emits : (p : ScvmmNamePool) (s : Search) → Emits allowed (store_names env p s)
  unfolding store_names
  store_names-Emits p s = search shared_rules depth 12

  search_names-Emits : (p : ScvmmNamePool) → Emits allowed (search_names env p)
  unfolding search_names
  search_names-Emits p = search (shared_rules, search_ranges-Emits, store_names-Emits) depth 12

  generate_vm_name-Emits : (pool : Str) → Emits allowed (generate_vm_name env pool)
  unfolding generate_vm_name
  generate_vm_name-Emits pool = search (shared_rules, search_names-Emits) depth 12

  -- Creation.
  fail_create-Emits : (t : Str) (e : Error) → Emits allowed (fail_create env t e)
  unfolding fail_create
  fail_create-Emits t e = search shared_rules

  fail_encode-Emits : (t : Str) (e : Error) → Emits allowed (fail_encode env t e)
  unfolding fail_encode
  fail_encode-Emits t e = search (shared_rules, fail_create-Emits)

  name_from_pool-Emits : (pool : Str) → Emits allowed (name_from_pool env pool)
  unfolding name_from_pool
  name_from_pool-Emits pool =
      search (shared_rules, generate_vm_name-Emits, send_vm_ids-Emits, fail_create-Emits) depth 12

  send_create-Emits : (n d o v c : Str) → Emits allowed (send_create env n d o v c)
  unfolding send_create
  send_create-Emits n d o v c = search (shared_rules, fail_create-Emits) depth 12

  create_named-Emits : (n : Str) → Emits allowed (create_named env n)
  unfolding create_named
  create_named-Emits n = search (shared_rules, send_create-Emits, fail_encode-Emits) depth 14

  pub create_machine-Emits : Emits allowed (create_machine env)
  unfolding create_machine
  create_machine-Emits = search (shared_rules, create_named-Emits, name_from_pool-Emits) depth 12
