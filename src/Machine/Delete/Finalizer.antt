-- ===== src/Machine/Delete/Finalizer.antt =====
-- The finalizer of a machine that is deleted, until SCVMM has answered that its VM is removed.
use cluster_api_provider_scv.Base.{
  ℕ, suc, Str, str_eq, is_empty, Bool, true, false, ◌&&◌, Option, List, [], ◌∷◌, ◌≡◌, refl, inl,
  inr, Bool-cases,
}
use cluster_api_provider_scv.Api.Meta.{ObjectMeta, Error, ok}
use cluster_api_provider_scv.Api.Provider.{ScvmmProviderReference}
use cluster_api_provider_scv.Api.PersistentDisk.{ScvmmPersistentDisk}
use cluster_api_provider_scv.Api.Machine.{VmDisk, ScvmmMachine, ScvmmCondition}
use cluster_api_provider_scv.Scvmm.Command.{Command, remove_vm}
use cluster_api_provider_scv.Scvmm.Answer.{VmResult, VmResultDisk}
use cluster_api_provider_scv.Machine.Env.{Env}
use cluster_api_provider_scv.Machine.Words.{removed, running, machine_finalizer}
use cluster_api_provider_scv.Machine.Action.{World, Action, get_machine, ◌>>=◌}
use cluster_api_provider_scv.Machine.Send.{send_vm}
use cluster_api_provider_scv.Machine.Reason.{
  CtrlResult, patch_reason_condition, emit_reason, set_machine_condition,
}
use cluster_api_provider_scv.Machine.Disks.{
  vm_has_persistent_disks, fetch_disk, write_disk, write_disk_status,
}
use cluster_api_provider_scv.Machine.DiskClaim.{set_disk}
use cluster_api_provider_scv.Machine.Create.{with_provider_id, with_status}
use cluster_api_provider_scv.Machine.Steps.{read_machine_vm, with_found, found_vm}
use cluster_api_provider_scv.Machine.Delete.{
  fail_disk, detach_disk, release_disk, remove_disks, remove_persistent_disks, removal_answer,
  remove_machine_vm, delete_vm, delete_machine, reconcile_delete, with_times,
}
use cluster_api_provider_scv.Machine.Holds.{
  Kept, Holds, holds_rules, Holds-check, Holds-check_ok, Holds-on_option, Holds-pure, Holds-raise,
  Holds-if, Holds-then, Holds-modify, Holds-bind, Holds-get_machine, Holds-patch,
}

with_found-meta : (vm : VmResult) (m : ScvmmMachine) → (with_found vm m).meta ≡ m.meta
unfolding with_found with_provider_id with_status
with_found-meta vm m = elim (Bool-cases (str_eq vm.status running)) [
  | inl h ↦ rw h refl
  | inr h ↦ rw h refl
]

module _ (env : Env) {P : ObjectMeta → Bool} where
  send_vm-Holds : (ref : Option ScvmmProviderReference) (c : Command) → Holds P (send_vm env ref c)
  unfolding send_vm
  send_vm-Holds ref c = search holds_rules

  emit_reason-Holds :
      (e : Option Error) (reason text : Str) → Holds P (emit_reason env e reason text)
  unfolding emit_reason
  emit_reason-Holds e reason text = search holds_rules

  set_machine_condition-Holds : (c : ScvmmCondition) → Holds P (set_machine_condition env c)
  unfolding set_machine_condition
  set_machine_condition-Holds c = search holds_rules

  patch_reason_condition-Holds :
      (requeue : ℕ) (e : Option Error) (condition reason text : Str)
      → Holds P (patch_reason_condition env requeue e condition reason text)
  unfolding patch_reason_condition
  patch_reason_condition-Holds requeue e condition reason text =
      search (holds_rules, emit_reason-Holds, set_machine_condition-Holds) depth 12

  fetch_disk-Holds : (name : Str) → Holds P (fetch_disk env name)
  unfolding fetch_disk
  fetch_disk-Holds name = search holds_rules

  write_disk-Holds : (d : ScvmmPersistentDisk) → Holds P (write_disk env d)
  unfolding write_disk
  write_disk-Holds d = search holds_rules

  write_disk_status-Holds : (d : ScvmmPersistentDisk) → Holds P (write_disk_status env d)
  unfolding write_disk_status
  write_disk_status-Holds d = search holds_rules

  found_vm-Holds : (id : Str) (vm : VmResult) → Holds P (found_vm env id vm)
  unfolding found_vm
  found_vm-Holds id vm = Holds-if (is_empty vm.id) _ _ (Holds-pure vm) (
      Holds-if (str_eq vm.id id) _ _
        (Holds-then _ _ (Holds-modify (with_found vm) (with_found-meta vm)) (Holds-pure vm))
        (Holds-raise _))

  read_machine_vm-Holds : Holds P (read_machine_vm env)
  unfolding read_machine_vm
  read_machine_vm-Holds = Holds-bind _ _ Holds-get_machine (λ m.
      Holds-if (is_empty m.spec.id) _ _ (Holds-pure _) (
        Holds-check _ _ _ (send_vm-Holds _ _) (λ e. search holds_rules) (found_vm-Holds m.spec.id)))

  -- Persistent disks.
  fail_disk-Holds : (what : Str) (i : ℕ) (e : Error) → Holds P (fail_disk env what i e)
  unfolding fail_disk
  fail_disk-Holds what i e = patch_reason_condition-Holds _ _ _ _ _

  detach_disk-Holds :
      (vm : VmResult) (i : ℕ) (pd : ScvmmPersistentDisk) (vd : VmResultDisk)
      → Holds P (detach_disk env vm i pd vd)
  unfolding detach_disk
  detach_disk-Holds vm i pd vd =
      search
        (
          holds_rules, send_vm-Holds, write_disk-Holds, write_disk_status-Holds,
          patch_reason_condition-Holds,
        )
        depth 14

  release_disk-Holds :
      (vm : VmResult) (i : ℕ) (d : VmDisk) (pd : ScvmmPersistentDisk) (next : Action CtrlResult)
      → Holds P next
      → Holds P (release_disk env vm i d pd next)
  unfolding release_disk set_disk
  release_disk-Holds vm i d pd next h =
      search (holds_rules, write_disk-Holds, patch_reason_condition-Holds) depth 14

  remove_disks-Holds :
      (vm : VmResult) (i : ℕ) (ds : List VmDisk) → Holds P (remove_disks env vm i ds)
  unfolding remove_disks
  remove_disks-Holds vm i [] = search (holds_rules, patch_reason_condition-Holds) depth 12
  remove_disks-Holds vm i (d ∷ ds) =
      let rest = remove_disks-Holds vm (suc i) ds in
      Holds-on_option _ _ _ rest (λ ref.
        Holds-check _ _ _ (fetch_disk-Holds ref.name) (fail_disk-Holds _ i) (λ pd.
          Holds-on_option _ _ _ (release_disk-Holds vm i d pd _ rest) (detach_disk-Holds vm i pd)))

  remove_persistent_disks-Holds : Holds P (remove_persistent_disks env)
  unfolding remove_persistent_disks
  remove_persistent_disks-Holds =
      search (holds_rules, read_machine_vm-Holds, remove_disks-Holds) depth 12

  -- The VM is not removed yet.
  removal_answer-Holds :
      (vm : VmResult) → str_eq vm.message removed ≡ false → Holds P (removal_answer env vm)
  unfolding removal_answer with_times
  removal_answer-Holds vm h = Holds-bind _ _ Holds-get_machine (λ m.
      rw h (Holds-then _ _ (Holds-modify _ (λ m'. refl)) (patch_reason_condition-Holds _ _ _ _ _)))

  -- No answer to the removal of the VM says that it is removed.
  delete_vm-Holds :
      (m : ScvmmMachine)
      → ((ref : Option ScvmmProviderReference) (id : Str) (w : World) (vm : VmResult)
          → (send_vm env ref (remove_vm id) w).0 ≡ ok vm
          → str_eq vm.message removed ≡ false)
      → Holds P (delete_vm env m)
  unfolding delete_vm remove_machine_vm
  delete_vm-Holds m h = Holds-then _ _ (set_machine_condition-Holds _) (
      Holds-check _ _ _ (Holds-patch env) (λ e. Holds-raise _)
        (λ _. Holds-if (vm_has_persistent_disks m) _ _ remove_persistent_disks-Holds (
          Holds-bind _ _ Holds-get_machine (λ m'.
            Holds-check_ok _ _ _ (send_vm-Holds _ _) (λ e. patch_reason_condition-Holds _ _ _ _ _)
              (λ w vm p. removal_answer-Holds vm (h _ _ w vm p))))))

-- The metadata has the finalizer of the machine controller.
abbrev pub has_finalizer : Env → ObjectMeta → Bool
has_finalizer env m = env.contains_finalizer m.finalizers machine_finalizer

-- If the machine has the finalizer of the machine controller, has a VM name or a VM id, and no
-- answer of SCVMM to remove_vm has the message Removed, then reconcile_delete leaves the finalizer
-- on the machine and on the machine of every patch that it writes.
pub reconcile_delete-Kept :
    (env : Env) (w : World)
    → has_finalizer env w.machine.meta ≡ true
    → (is_empty w.machine.spec.vm_name && is_empty w.machine.spec.id) ≡ false
    → ((ref : Option ScvmmProviderReference) (id : Str) (w' : World) (vm : VmResult)
        → (send_vm env ref (remove_vm id) w').0 ≡ ok vm
        → str_eq vm.message removed ≡ false)
    → Kept (has_finalizer env) (reconcile_delete env w).1 w
unfolding reconcile_delete delete_machine get_machine ◌>>=◌
reconcile_delete-Kept env w f e h = rw (f, e) ((delete_vm-Holds env w.machine h).at w f)
