-- ===== src/Machine/Disks.antt =====
-- The disks of a machine: `vmDiskByLun`, `vmNeedsExpandDisks`, `vmHasPersistentDisks`,
-- `makeDisksJSON`, `vmUpdatePersistentDisks`. A slot of the spec and the disk of the VM with its
-- LUN belong together.
use cluster_api_provider_scv.Base.{
  ℕ, suc, ◌+◌, ◌*◌, ◌/◌, Str, str_eq, Bool, true, false, not, ◌&&◌, ◌||◌, Option, none, some, List,
  [], ◌∷◌, ltb, ◌==◌, is_some, any, map, if◌then◌else◌,
}
use cluster_api_provider_scv.Api.Meta.{Result}
use cluster_api_provider_scv.Api.PersistentDisk.{ScvmmPersistentDisk, ScvmmPersistentDiskReference}
use cluster_api_provider_scv.Api.Machine.{Slice, items, VmDisk, ScvmmMachine}
use cluster_api_provider_scv.Scvmm.Answer.{VmResult, VmResultDisk}
use cluster_api_provider_scv.Machine.Event.{read, disk_kind, updated_disk, updated_disk_status}
use cluster_api_provider_scv.Machine.Env.{Env, VmDiskElem}
use cluster_api_provider_scv.Machine.Action.{
  Action, pure, get_machine, write, fetch, for_each, on_option, ◌>>=◌, ◌>>◌,
}

unfoldable pub disk_by_lun : ℕ → List VmResultDisk → Option VmResultDisk
disk_by_lun lun [] = none
disk_by_lun lun (d ∷ ds) = if d.lun == lun then some d else disk_by_lun lun ds

unfoldable pub vm_disk_by_lun : VmResult → ℕ → Option VmResultDisk
unfolding disk_by_lun
vm_disk_by_lun vm lun = disk_by_lun lun vm.virtual_disks

-- The reference of a slot that has its persistent disk.
unfoldable pub claimed_disk : VmDisk → Option ScvmmPersistentDiskReference
claimed_disk d = elim (d.persistent_disk) [ none ↦ none | some p ↦ p.disk ]

abbrev mebibyte : ℕ
mebibyte = 1024 * 1024

-- Sizes are not negative, so `max < size - 1 MiB` is `max + 1 MiB < size`.
unfoldable pub is_too_small : Option ℕ → VmResultDisk → Bool
is_too_small none vd = false
is_too_small (some size) vd = ltb (vd.maximum_size + mebibyte) size

unfoldable pub is_other_iops : Option ℕ → VmResultDisk → Bool
is_other_iops none vd = false
is_other_iops (some iops) vd = not (iops == vd.iops_maximum)

-- One round of the loop of `vmNeedsExpandDisks`.
unfoldable pub slot_needs_expand : VmDisk → Option VmResultDisk → Bool
unfolding is_too_small is_other_iops claimed_disk
slot_needs_expand d (some vd) = is_too_small d.size vd || is_other_iops d.iops_maximum vd
slot_needs_expand d none = not (is_some d.persistent_disk) || is_some (claimed_disk d)

unfoldable pub needs_expand_from : VmResult → ℕ → List VmDisk → Bool
unfolding slot_needs_expand vm_disk_by_lun
needs_expand_from vm i [] = false
needs_expand_from vm i (d ∷ ds) =
    slot_needs_expand d (vm_disk_by_lun vm i) || needs_expand_from vm (suc i) ds

unfoldable pub vm_needs_expand_disks : ScvmmMachine → VmResult → Bool
unfolding needs_expand_from
vm_needs_expand_disks m vm = needs_expand_from vm 0 (items m.spec.disks)

unfoldable pub vm_has_persistent_disks : ScvmmMachine → Bool
unfolding claimed_disk
vm_has_persistent_disks m = any (λ d. is_some (claimed_disk d)) (items m.spec.disks)

abbrev pub value_or_zero : Option ℕ → ℕ
value_or_zero none = 0
value_or_zero (some n) = n

unfoldable pub disk_elem : VmDisk → VmDiskElem
unfolding claimed_disk
disk_elem d =
    let ref = claimed_disk d in
    record {
      size_mb = value_or_zero d.size / 1024 / 1024;
      vh_disk = d.vh_disk;
      dynamic = d.dynamic;
      volume_type = d.volume_type;
      storage_qos_policy = d.storage_qos_policy;
      iops_maximum = value_or_zero d.iops_maximum;
      path = elim ref [ none ↦ [] | some r ↦ r.path ];
      filename = elim ref [ none ↦ [] | some r ↦ r.filename ];
      vm_host = elim ref [ none ↦ [] | some r ↦ r.vm_host ];
    }

unfoldable pub make_disks_json : Env → Slice VmDisk → Result Str
unfolding disk_elem
make_disks_json env disks = env.marshal_disks (map disk_elem (items disks))

-- The fields of a persistent disk that follow the disk of the VM.
unfoldable pub is_moved : ScvmmPersistentDisk → VmResultDisk → Bool
is_moved pd vd =
    not (str_eq pd.spec.vm_host vd.vm_host)
    || (not (str_eq pd.spec.path vd.path) || not (str_eq pd.spec.filename vd.filename))

unfoldable pub move_disk : ScvmmPersistentDisk → VmResultDisk → ScvmmPersistentDisk
move_disk pd vd = record pd {
  spec = record (pd.spec) { vm_host = vd.vm_host; path = vd.path; filename = vd.filename };
}

unfoldable pub resize_disk : ScvmmPersistentDisk → VmResultDisk → ScvmmPersistentDisk
resize_disk pd vd = record pd { status = record { size = some vd.size } }

unfoldable pub is_resized : ScvmmPersistentDisk → VmResultDisk → Bool
is_resized pd vd =
    not (vd.size == 0) && (elim (pd.status.size) [ none ↦ true | some s ↦ not (s == vd.size) ])

module _ (env : Env) where
  unfoldable pub write_disk : ScvmmPersistentDisk → Action (Unit {0})
  write_disk pd = write (λ h. env.update_disk h pd) (updated_disk pd)

  unfoldable pub write_disk_status : ScvmmPersistentDisk → Action (Unit {0})
  write_disk_status pd = write (λ h. env.update_disk_status h pd) (updated_disk_status pd)

  unfoldable pub fetch_disk : Str → Action ScvmmPersistentDisk
  fetch_disk name = do
    m ← get_machine
    fetch (λ h. env.get_disk h m.meta.namespace name) (read disk_kind m.meta.namespace name)

  unfoldable pub update_persistent_disk :
      ScvmmPersistentDiskReference → VmResultDisk → Action (Unit {0})
  update_persistent_disk ref vd = do
    pd ← fetch_disk ref.name
    let moved = if is_moved pd vd then move_disk pd vd else pd
    if is_moved pd vd then write_disk moved else pure tt
    if is_resized moved vd then write_disk_status (resize_disk moved vd) else pure tt

  unfoldable pub vm_update_persistent_disks : VmResult → Action (Unit {0})
  vm_update_persistent_disks vm = do
    m ← get_machine
    for_each 0 (items m.spec.disks) (λ i d.
        on_option (claimed_disk d) (pure tt)
          (λ ref. on_option (vm_disk_by_lun vm i) (pure tt) (λ vd. update_persistent_disk ref vd)))
