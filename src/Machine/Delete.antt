-- ===== src/Machine/Delete.antt =====
-- `reconcileDelete` and `removePersistentDisks`: the persistent disks are detached one at a time, then
-- the VM is removed, and only then the finalizer.
pub mod Finalizer
use cluster_api_provider_scv.Base.{
  ℕ, suc, Str, codes, str_eq, is_empty, false, not, ◌&&◌, none, some, List, [], ◌∷◌, ◌++◌, ◌==◌,
  if◌then◌else◌,
}
use cluster_api_provider_scv.Base.Decimal.{show}
use cluster_api_provider_scv.Api.Meta.{Error, wrap}
use cluster_api_provider_scv.Api.PersistentDisk.{ScvmmPersistentDisk}
use cluster_api_provider_scv.Api.Machine.{items, VmDisk, ScvmmMachine}
use cluster_api_provider_scv.Scvmm.Command.{remove_disk_from_vm, remove_vm}
use cluster_api_provider_scv.Scvmm.Answer.{VmResult, VmResultDisk}
use cluster_api_provider_scv.Machine.Event.{recorded}
use cluster_api_provider_scv.Machine.Env.{Env}
use cluster_api_provider_scv.Machine.Words.{
  vm_created, vm_running, vm_deleting, vm_failed, vm_deleting_disks, vm_deleting_disks_done,
  running, power_off, removed, machine_finalizer,
}
use cluster_api_provider_scv.Machine.Send.{send_vm}
use cluster_api_provider_scv.Machine.Reason.{
  CtrlResult, done, patch_reason_condition, patch_scvmm_machine, set_machine_condition,
}
use cluster_api_provider_scv.Machine.Disks.{
  claimed_disk, vm_disk_by_lun, vm_has_persistent_disks, move_disk, resize_disk, fetch_disk,
  write_disk, write_disk_status,
}
use cluster_api_provider_scv.Machine.DiskClaim.{machine_owner, set_disk}
use cluster_api_provider_scv.Machine.NamePool.{remove_vm_name_in_pool}
use cluster_api_provider_scv.Machine.Claims.Reconcile.{delete_ip_address_claims}
use cluster_api_provider_scv.Machine.Steps.{read_machine_vm}
use cluster_api_provider_scv.Machine.Action.{
  Action, pure, raise, get_machine, modify, emit, on_option, check, ◌>>=◌, ◌>>◌,
}

unfoldable pub with_times : VmResult → ScvmmMachine → ScvmmMachine
with_times vm m = record m {
  status = record (m.status) {
    vm_status = vm.status;
    creation_time = vm.creation_time;
    modified_time = vm.modified_time;
  };
}

-- `scvmmMachine.Spec.Disks[i].PersistentDisk.Disk = nil`
unfoldable pub without_claim : VmDisk → VmDisk
without_claim d = record d {
  persistent_disk = elim (d.persistent_disk) [
    | none ↦ none
    | some p ↦ some (record p { disk = none })
  ];
}

module _ (env : Env) where
  unfoldable pub fail_disk : Str → ℕ → Error → Action CtrlResult
  fail_disk what i e =
      patch_reason_condition env 0 (some e) vm_created vm_failed
        (codes "failed to " ++ (what ++ (codes " persistent disk " ++ show i)))

  -- A disk that the VM still has: note where it lies, and have it detached. Either way the loop ends.
  unfoldable pub detach_disk : VmResult → ℕ → ScvmmPersistentDisk → VmResultDisk → Action CtrlResult
  unfolding fail_disk
  detach_disk vm i pd vd =
      check (write_disk env (move_disk pd vd)) (fail_disk (codes "update") i) (λ _.
        check
          (if vd.size == 0
            then pure tt
            else write_disk_status env (resize_disk (move_disk pd vd) vd))
          (fail_disk (codes "update") i)
          (λ _. get_machine >>= λ m.
            if not (str_eq vm.status running) && not (str_eq vm.status power_off)
            then patch_reason_condition env 15 none vm_deleting vm_deleting_disks
                (vm.status ++ (codes " " ++ m.spec.vm_name))
            else check (send_vm env m.spec.provider_ref (remove_disk_from_vm m.spec.id i))
                (fail_disk (codes "remove") i)
                (λ r.
                  patch_reason_condition env 15 none vm_deleting vm_deleting_disks
                    (r.status ++ (codes " " ++ m.spec.vm_name)))))

  -- A disk that the VM no longer has: the machine gives up its ownership.
  unfoldable pub release_disk :
      VmResult → ℕ → VmDisk → ScvmmPersistentDisk → Action CtrlResult → Action CtrlResult
  unfolding with_times without_claim fail_disk
  release_disk vm i d pd next =
      modify (with_times vm)
      >> (get_machine >>= λ m.
          let pd' = record pd {
            meta = record (pd.meta) {
              owner_references =
                  env.remove_owner_ref pd.meta.owner_references (machine_owner m false);
            };
          } in
          check (write_disk env pd') (fail_disk (codes "update") i)
            (λ _. modify (set_disk env i (without_claim d)) >> next))

  unfoldable pub remove_disks : VmResult → ℕ → List VmDisk → Action CtrlResult
  remove_disks vm i [] = get_machine >>= λ m.
      patch_reason_condition env 1 none vm_deleting vm_deleting_disks_done
        (vm.status ++ (codes " " ++ m.spec.vm_name))
  remove_disks vm i (d ∷ ds) = on_option (claimed_disk d) (remove_disks vm (suc i) ds) (λ ref.
      check (fetch_disk env ref.name) (fail_disk (codes "get") i) (λ pd.
        on_option (vm_disk_by_lun vm i) (release_disk vm i d pd (remove_disks vm (suc i) ds))
          (detach_disk vm i pd)))

  unfoldable pub remove_persistent_disks : Action CtrlResult
  unfolding remove_disks
  remove_persistent_disks = do
    vm ← read_machine_vm env
    m ← get_machine
    remove_disks vm 0 (items m.spec.disks)

  unfoldable pub remove_machine_finalizer : ScvmmMachine → ScvmmMachine
  remove_machine_finalizer m = record m {
    meta = record (m.meta) {
      finalizers = env.remove_finalizer m.meta.finalizers machine_finalizer;
    };
  }

  -- After SCVMM has answered "Removed".
  unfoldable pub finish_removal : Action CtrlResult
  unfolding remove_machine_finalizer
  finish_removal = do
    delete_ip_address_claims env
    modify remove_machine_finalizer
    patch_scvmm_machine env
    m ← get_machine
    emit (recorded false vm_deleting (codes "Removed vm " ++ m.spec.vm_name))
    pure done

  unfoldable pub removal_answer : VmResult → Action CtrlResult
  unfolding finish_removal with_times
  removal_answer vm = get_machine >>= λ m.
      if str_eq vm.message removed
      then on_option m.spec.vm_name_from_pool finish_removal (λ pool.
        check (remove_vm_name_in_pool env pool)
          (λ e.
            patch_reason_condition env 5 (some e) vm_deleting vm_failed
              (codes "Failed to remove namepool entry"))
          (λ _. finish_removal))
      else modify (with_times vm)
        >> patch_reason_condition env 15 none vm_deleting vm_deleting
            (vm.status ++ (codes " " ++ m.spec.vm_name))

  unfoldable pub remove_machine_vm : Action CtrlResult
  unfolding removal_answer
  remove_machine_vm = get_machine >>= λ m.
      check (send_vm env m.spec.provider_ref (remove_vm m.spec.id))
        (λ e.
          patch_reason_condition env 0 (some e) vm_created vm_failed (codes "Failed to delete VM"))
        removal_answer

  -- The deletion of a machine that has, or may have, a VM.
  unfoldable pub delete_vm : ScvmmMachine → Action CtrlResult
  unfolding remove_persistent_disks remove_machine_vm
  delete_vm m =
      set_machine_condition env (record {
        type = vm_running;
        status = false;
        reason = vm_deleting;
        message = codes "VM Deleting";
      })
      >> check (patch_scvmm_machine env)
          (λ e. raise (wrap (codes "failed to patch ScvmmMachine") e))
          (λ _. if vm_has_persistent_disks m then remove_persistent_disks else remove_machine_vm)

  -- A machine without the finalizer is finished; one that never got a name or a VM only loses it.
  unfoldable pub delete_machine : ScvmmMachine → Action CtrlResult
  unfolding remove_machine_finalizer
  delete_machine m =
      if env.contains_finalizer m.meta.finalizers machine_finalizer
      then (if is_empty m.spec.vm_name && is_empty m.spec.id
          then (modify remove_machine_finalizer >> (patch_scvmm_machine env >> pure done))
          else delete_vm m)
      else pure done

  unfoldable pub reconcile_delete : Action CtrlResult
  unfolding delete_machine
  reconcile_delete = get_machine >>= delete_machine
