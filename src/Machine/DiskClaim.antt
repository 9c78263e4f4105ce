-- ===== src/Machine/DiskClaim.antt =====
-- `vmClaimPersistentDisks` and `claimPersistentDisk`: an unfilled slot gets a persistent disk of its
-- pool, or a new one if there is room.
pub mod Index
pub mod Pick
use cluster_api_provider_scv.Base.{
  ℕ, suc, ◌+◌, ◌^◌, Str, codes, str_eq, is_empty, Bool, true, false, not, ◌&&◌, ◌||◌, Option, none,
  some, List, [], ◌∷◌, ◌++◌, ltb, leb, ◌==◌, any, map, set, if◌then◌else◌,
}
use cluster_api_provider_scv.Base.Decimal.{show, parse}
use cluster_api_provider_scv.Api.Meta.{OwnerReference, ObjectMeta, Error, wrap}
use cluster_api_provider_scv.Api.PersistentDisk.{
  ScvmmPersistentDisk, ScvmmPersistentDiskReference, ScvmmPersistentDiskPool,
}
use cluster_api_provider_scv.Api.Machine.{Slice, items, VmDisk, VmPersistentDisk, ScvmmMachine}
use cluster_api_provider_scv.Machine.Event.{
  read, disk_kind, disk_pool_kind, updated_disk, created_disk,
}
use cluster_api_provider_scv.Machine.Env.{Env}
use cluster_api_provider_scv.Machine.Words.{api_version, persistent_disk_finalizer}
use cluster_api_provider_scv.Machine.Action.{
  Action, pure, raise, get_machine, modify, write, fetch, for_each, on_option, check, ◌>>=◌, ◌>>◌,
}
use cluster_api_provider_scv.Machine.Disks.{claimed_disk, fetch_disk, value_or_zero}

-- The text behind the last dash.
unfoldable pub after_last_dash : Str → Option Str
after_last_dash [] = none
after_last_dash (c ∷ s) =
    let rest = after_last_dash s in
    elim rest [ some t ↦ some t | none ↦ if c == b'-' then some s else none ]

-- `strconv.ParseInt(s, 10, 64)` where it succeeds: the name of an object has no plus, and a minus
-- cannot stand behind the last dash.
abbrev pub in_int64 : Option ℕ → Option ℕ
in_int64 none = none
in_int64 (some n) = if ltb n (2 ^ 63) then some n else none

unfoldable pub parse_int : Str → Option ℕ
parse_int s = in_int64 (parse s)

unfoldable pub index_of_part : Option Str → ℕ
index_of_part none = 0
index_of_part (some s) = value_or_zero (parse_int s)

unfoldable pub index_of_name : Str → ℕ
index_of_name name = index_of_part (after_last_dash name)

unfoldable pub with_index : ScvmmPersistentDisk → ScvmmPersistentDisk
unfolding index_of_name
with_index d = record d { index = index_of_name d.meta.name }

-- `sort.Slice` by the index.
unfoldable pub insert_disk :
    ScvmmPersistentDisk → List ScvmmPersistentDisk → List ScvmmPersistentDisk
insert_disk d [] = d ∷ []
insert_disk d (e ∷ es) = if leb d.index e.index then d ∷ e ∷ es else e ∷ insert_disk d es

unfoldable pub sort_disks : List ScvmmPersistentDisk → List ScvmmPersistentDisk
unfolding insert_disk
sort_disks [] = []
sort_disks (d ∷ ds) = insert_disk d (sort_disks ds)

unfoldable pub machine_owner : ScvmmMachine → Bool → OwnerReference
machine_owner m controller = record {
  api_version = api_version;
  kind = codes "ScvmmMachine";
  name = m.meta.name;
  uid = m.meta.uid;
  controller = some controller;
}

unfoldable pub pool_owner : ScvmmPersistentDiskPool → OwnerReference
pool_owner pool = record {
  api_version = api_version;
  kind = codes "ScvmmPersistentDiskPool";
  name = pool.meta.name;
  uid = pool.meta.uid;
  controller = some true;
}

-- `seen[ScvmmPersistentDiskReference{Name: name}]`: the key has the other fields empty.
unfoldable pub is_seen : List ScvmmPersistentDiskReference → Str → Bool
is_seen seen name =
    any
      (λ r. str_eq r.name name && (is_empty r.path && (is_empty r.filename && is_empty r.vm_host)))
      seen

unfoldable pub is_owned :
    OwnerReference → List ScvmmPersistentDiskReference → ScvmmPersistentDisk → Bool
unfolding is_seen
is_owned owner seen d =
    any
      (λ o.
        str_eq o.api_version owner.api_version
        && (str_eq o.kind owner.kind && (not (str_eq o.uid owner.uid) || is_seen seen d.meta.name)))
      d.meta.owner_references

-- Whether the loop passes over a disk.
unfoldable pub is_skipped :
    OwnerReference → List ScvmmPersistentDiskReference → ℕ → ScvmmPersistentDisk → Bool
unfolding is_owned
is_skipped owner seen max_disks d =
    d.meta.deleting || ((ltb 0 max_disks && ltb max_disks d.index) || is_owned owner seen d)

-- The loop over the sorted disks: the first that can be claimed, else the lowest free index.
unfoldable pub pick_disk :
    OwnerReference
    → List ScvmmPersistentDiskReference
    → ℕ
    → ℕ
    → List ScvmmPersistentDisk
    → Option ScvmmPersistentDisk × ℕ
unfolding is_skipped
pick_disk owner seen max_disks lowest [] = (none, lowest)
pick_disk owner seen max_disks lowest (d ∷ ds) =
    let lowest' = if lowest == d.index then lowest + 1 else lowest in
    let rest = pick_disk owner seen max_disks lowest' ds in
    if is_skipped owner seen max_disks d then rest else (some d, lowest')

module _ (env : Env) where
  unfoldable pub claimed_by : ScvmmMachine → ScvmmPersistentDisk → ScvmmPersistentDisk
  unfolding machine_owner
  claimed_by m d = record d {
    meta = record (d.meta) {
      owner_references = env.ensure_owner_ref d.meta.owner_references (machine_owner m false);
      finalizers = env.add_finalizer d.meta.finalizers persistent_disk_finalizer;
    };
    spec = record (d.spec) {
      provider_ref = elim (m.spec.provider_ref) [ none ↦ d.spec.provider_ref | some r ↦ some r ];
    };
  }

  -- The persistent disk that is created at a free index.
  unfoldable pub new_disk : ScvmmMachine → ScvmmPersistentDiskPool → ℕ → ScvmmPersistentDisk
  unfolding machine_owner pool_owner
  new_disk m pool i = record {
    meta = record {
      name = pool.meta.name ++ (codes "-" ++ show i);
      namespace = m.meta.namespace;
      uid = [];
      deleting = false;
      finalizers = env.add_finalizer [] persistent_disk_finalizer;
      owner_references = pool_owner pool ∷ machine_owner m false ∷ [];
      labels = pool.spec.template_labels;
      annotations = pool.spec.template_annotations;
    };
    spec = record (pool.spec.template_spec) {
      provider_ref = elim (m.spec.provider_ref) [
        | none ↦ pool.spec.template_spec.provider_ref
        | some r ↦ some r
      ];
      filename =
          env.sprintf_int
            (if is_empty pool.spec.template_spec.filename
              then pool.meta.name ++ codes "-%d"
              else pool.spec.template_spec.filename)
            i;
    };
    status = record { size = none };
    index = 0;
  }

  unfoldable pub create_disk :
      ScvmmMachine → ScvmmPersistentDiskPool → ℕ → Action (Option ScvmmPersistentDisk)
  create_disk m pool lowest =
      if ltb 0 pool.spec.max_disks && ltb pool.spec.max_disks lowest
      then pure none
      else let d = new_disk m pool lowest in
        check (write (λ h. env.create_disk h d) (created_disk d))
          (λ e. raise (wrap (codes "Failed to create persistent disk " ++ d.meta.name) e))
          (λ _. pure (some d))

  unfoldable pub take_disk : ScvmmPersistentDisk → Action (Option ScvmmPersistentDisk)
  take_disk d =
      check (write (λ h. env.update_disk h d) (updated_disk d))
        (λ e. raise (wrap (codes "Failed to claim persistent disk " ++ d.meta.name) e))
        (λ _. pure (some d))

  unfoldable pub claim_persistent_disk :
      VmPersistentDisk → List ScvmmPersistentDiskReference → Action (Option ScvmmPersistentDisk)
  unfolding create_disk take_disk
  claim_persistent_disk slot seen = do
    m ← get_machine
    pool ←
        fetch (λ h. env.get_disk_pool h m.meta.namespace slot.pool)
          (read disk_pool_kind m.meta.namespace slot.pool)
    on_option (env.selector_error pool.spec.selector) (pure tt) raise
    disks ← fetch (λ h. env.list_disks h pool.spec.selector) (read disk_kind [] [])
    let picked =
        pick_disk (machine_owner m false) seen pool.spec.max_disks 1
          (sort_disks (map with_index disks))
    on_option picked.0 (create_disk m pool picked.1) (λ d. take_disk (claimed_by m d))

  -- `scvmmMachine.Spec.Disks[i]` after a disk was claimed for it.
  unfoldable pub fill_slot : ScvmmPersistentDisk → VmPersistentDisk → VmDisk → VmDisk
  fill_slot pd slot d = record d {
    persistent_disk = some (record slot {
      disk = some (record {
        name = pd.meta.name;
        path = pd.spec.path;
        filename = pd.spec.filename;
        vm_host = pd.spec.vm_host;
      });
    });
    size = some pd.spec.size;
    dynamic = pd.spec.dynamic;
  }

  unfoldable pub set_disk : ℕ → VmDisk → ScvmmMachine → ScvmmMachine
  set_disk i d m = record m {
    spec = record (m.spec) {
      disks = elim (m.spec.disks) [ none ↦ none | some ds ↦ some (set ds i d) ];
    };
  }

  unfoldable pub claim_slot :
      List ScvmmPersistentDiskReference → ℕ → VmDisk → VmPersistentDisk → Action (Unit {0})
  unfolding claim_persistent_disk fill_slot set_disk
  claim_slot seen i d slot = do
    pd ←
        on_option slot.disk (claim_persistent_disk slot seen)
          (λ ref. fetch_disk env ref.name >>= λ pd. pure (some pd))
    on_option pd (pure tt) (λ p. modify (set_disk i (fill_slot p slot d)))

  unfoldable pub seen_disks : List VmDisk → List ScvmmPersistentDiskReference
  seen_disks [] = []
  seen_disks (d ∷ ds) = elim (claimed_disk d) [ none ↦ seen_disks ds | some r ↦ r ∷ seen_disks ds ]

  unfoldable pub vm_claim_persistent_disks : Action (Unit {0})
  unfolding claim_slot seen_disks
  vm_claim_persistent_disks = do
    m ← get_machine
    let seen = seen_disks (items m.spec.disks)
    for_each 0 (items m.spec.disks)
        (λ i d. on_option d.persistent_disk (pure tt) (claim_slot seen i d))
