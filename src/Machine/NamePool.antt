-- ===== src/Machine/NamePool.antt =====
-- `generateVMName` and `removeVMNameInPool`: the names of a ScvmmNamePool and their owners.
pub mod Counts
pub mod Release
use cluster_api_provider_scv.Base.{
  ℕ, zero, suc, ◌+◌, Str, codes, str_eq, str_ltb, is_empty, Bool, true, false, not, ◌&&◌, ◌||◌,
  Option, none, some, List, [], ◌∷◌, ◌++◌, any, if◌then◌else◌,
}
use cluster_api_provider_scv.Base.Int.{ℤ, pos, suc_ℤ, pred_ℤ}
use cluster_api_provider_scv.Api.Meta.{
  Error, message, is_not_found, Result, ok, timeout, find_key, read_key, put_key,
}
use cluster_api_provider_scv.Api.NamePool.{ScvmmPoolCounts, VmNameRange, ScvmmNamePool}
use cluster_api_provider_scv.Api.Machine.{ScvmmMachine}
use cluster_api_provider_scv.Names.Increment.{increment_string}
use cluster_api_provider_scv.Names.Range.{range_done}
use cluster_api_provider_scv.Machine.Event.{read, name_pool_kind, machine_kind, updated_pool_status}
use cluster_api_provider_scv.Machine.Env.{Env}
use cluster_api_provider_scv.Machine.Send.{vm_ids_by_name}
use cluster_api_provider_scv.Machine.Action.{
  Action, pure, raise, lift, get_machine, write, fetch, on_option, check, ◌>>=◌, ◌>>◌,
}

-- The map from names to owners.
abbrev pub Owners : Type 0
Owners = List (Str × Str)

-- The name that a machine holds already.
unfoldable pub name_of_owner : Str → Owners → Option Str
name_of_owner m [] = none
name_of_owner m ((name, owner) ∷ os) = if str_eq owner m then some name else name_of_owner m os

-- The test of one range, which leaves out the postfix.
unfoldable pub in_range : Str → VmNameRange → Bool
in_range name r =
    (is_empty r.end && str_eq r.start name)
    || (not (str_ltb name r.start) && not (str_ltb r.end name))

-- A machine's name is registered if it is free and lies in a range.
unfoldable pub register_machine : List VmNameRange → Owners → ScvmmMachine → Owners
unfolding in_range
register_machine ranges owners m =
    if not (is_empty m.spec.vm_name)
      && (is_empty (read_key m.spec.vm_name owners) && any (in_range m.spec.vm_name) ranges)
    then put_key m.spec.vm_name m.meta.name owners
    else owners

unfoldable pub register_machines : List VmNameRange → Owners → List ScvmmMachine → Owners
unfolding register_machine
register_machines ranges owners [] = owners
register_machines ranges owners (m ∷ ms) =
    register_machines ranges (register_machine ranges owners m) ms

-- The variables of the loop over the ranges.
pub record Search : Type 0 where
  pub name : Str  -- "" until a name is found
  pub owners : Owners
  pub total : ℕ
  pub free : ℕ
  pub used : ℕ

unfoldable pub count_name : Str → Search → Search
count_name candidate s =
    if is_empty (read_key candidate s.owners)
    then record s { total = s.total + 1; free = s.free + 1 }
    else record s { total = s.total + 1; used = s.used + 1 }

unfoldable pub counts_of : Search → ScvmmPoolCounts
counts_of s = record { total = pos s.total; free = pos s.free; used = pos s.used }

-- `removeVMNameInPool` keeps the names of other machines that are still there, and moves one
-- name of the machine at a time from used to free.
unfoldable pub release_count : ScvmmPoolCounts → ScvmmPoolCounts
release_count c = record c { used = pred_ℤ c.used; free = suc_ℤ c.free }

unfoldable pub is_machine : List ScvmmMachine → Str → Bool
is_machine ms name = any (λ m. str_eq m.meta.name name) ms

unfoldable pub release_names :
    List ScvmmMachine → Str → Owners → Option ScvmmPoolCounts → Owners × Option ScvmmPoolCounts
unfolding release_count is_machine
release_names ms me [] counts = ([], counts)
release_names ms me ((name, owner) ∷ os) counts =
    let mine = is_machine ms owner && str_eq owner me in
    let counts' =
      if mine then (elim counts [ none ↦ none | some c ↦ some (release_count c) ]) else counts in
    let rest = release_names ms me os counts' in
    if is_machine ms owner && not (str_eq owner me) then ((name, owner) ∷ rest.0, rest.1) else rest

module _ (env : Env) where
  -- A free name is asked for in SCVMM, and taken if no VM has it.
  unfoldable pub try_name : Str → Search → Action Search
  try_name candidate s =
      if is_empty s.name && is_empty (read_key candidate s.owners)
      then (do
        m ← get_machine
        ids ← vm_ids_by_name env m.spec.provider_ref candidate
        pure (
            if is_empty ids
            then record s { name = candidate; owners = put_key candidate m.meta.name s.owners }
            else s))
      else pure s

  unfoldable pub search_range : ℕ → VmNameRange → Str → Search → Action Search
  unfolding try_name count_name
  search_range zero r c s = lift timeout
  search_range (suc rounds) r c s = try_name (c ++ r.postfix) s >>= λ t.
      let next = search_range rounds r (increment_string c) (count_name (c ++ r.postfix) t) in
      if range_done r.end (increment_string c) then pure (count_name (c ++ r.postfix) t) else next

  unfoldable pub search_ranges : List VmNameRange → Search → Action Search
  unfolding search_range
  search_ranges [] s = pure s
  search_ranges (r ∷ rs) s = search_range env.rounds r r.start s >>= λ t. search_ranges rs t

  unfoldable pub store_names : ScvmmNamePool → Search → Action Str
  unfolding counts_of
  store_names pool s =
      let pool' = record pool {
        status = record { vm_name_owners = s.owners; counts = some (counts_of s) };
      } in
      write (λ h. env.update_pool_status h pool') (updated_pool_status pool')
      >> (if is_empty s.name
          then raise
              (message (codes "All vmnames in range " ++ (pool.meta.name ++ codes " claimed")))
          else pure s.name)

  unfoldable pub search_names : ScvmmNamePool → Action Str
  unfolding search_ranges register_machines store_names
  search_names pool = do
    ms ←
        fetch (λ h. env.list_machines h pool.meta.namespace)
          (read machine_kind pool.meta.namespace [])
    s ← search_ranges pool.vm_name_ranges (record {
      name = [];
      owners = register_machines pool.vm_name_ranges pool.status.vm_name_owners ms;
      total = 0;
      free = 0;
      used = 0;
    })
    store_names pool s

  unfoldable pub generate_vm_name : Str → Action Str
  unfolding name_of_owner search_names
  generate_vm_name pool_name = do
    m ← get_machine
    pool ←
        fetch (λ h. env.get_name_pool h m.meta.namespace pool_name)
          (read name_pool_kind m.meta.namespace pool_name)
    on_option (name_of_owner m.meta.name pool.status.vm_name_owners) (search_names pool) pure

  unfoldable pub remove_vm_name_in_pool : Str → Action (Unit {0})
  unfolding release_names
  remove_vm_name_in_pool pool_name = do
    m ← get_machine
    check
        (fetch (λ h. env.get_name_pool h m.meta.namespace pool_name)
          (read name_pool_kind m.meta.namespace pool_name))
        (λ e. if is_not_found e then pure tt else raise e)
        (λ pool.
          fetch (λ h. env.list_machines h pool.meta.namespace)
            (read machine_kind pool.meta.namespace [])
          >>= λ ms.
              let r = release_names ms m.meta.name pool.status.vm_name_owners pool.status.counts in
              let pool' = record pool { status = record { vm_name_owners = r.0; counts = r.1 } } in
              write (λ h. env.update_pool_status h pool') (updated_pool_status pool'))
