-- ===== src/Machine/Commands/Guards.antt =====
-- The tests that stand before the commands that cannot be taken back: `RemoveVM` and `StartVM`.
use cluster_api_provider_scv.Base.{
  ◌<◌, Str, true, Option, List, ◌≡◌, refl, length, lt→ltb, is_empty, ◌&&◌,
}
use cluster_api_provider_scv.Api.Meta.{Result, ok}
use cluster_api_provider_scv.Api.Provider.{ScvmmProviderReference}
use cluster_api_provider_scv.Api.Machine.{ScvmmMachine}
use cluster_api_provider_scv.Machine.Env.{Env}
use cluster_api_provider_scv.Machine.Action.{World, get_machine, ◌>>=◌}
use cluster_api_provider_scv.Machine.Send.{vm_ids_by_name}
use cluster_api_provider_scv.Machine.Words.{machine_finalizer}
use cluster_api_provider_scv.Machine.Disks.{vm_has_persistent_disks}
use cluster_api_provider_scv.Machine.Steps.{start_machine}
use cluster_api_provider_scv.Machine.Delete.{delete_vm, delete_machine, reconcile_delete}
use cluster_api_provider_scv.Machine.Emits.{
  Emits, Extends, Emits-if, Emits-then, Emits-check, Emits-raise, Emits-if_true,
  Extends-get_machine, Extends-check,
}
use cluster_api_provider_scv.Machine.Commands.{by_command, is_detaching_command, is_not_start}
use cluster_api_provider_scv.Machine.Commands.Shared.{
  shared_rules, set_machine_condition-Emits, patch_scvmm_machine-Emits,
}
use cluster_api_provider_scv.Machine.Commands.Deleted.{remove_persistent_disks-Emits}

delete_vm-detaches :
    (env : Env) (m : ScvmmMachine)
    → vm_has_persistent_disks m ≡ true
    → Emits (by_command is_detaching_command) (delete_vm env m)
unfolding delete_vm
delete_vm-detaches env m h =
    let detach = remove_persistent_disks-Emits env is_detaching_command (λ i. refl) (λ i l. refl) in
    Emits-then _ _ (set_machine_condition-Emits env _ _) (
      Emits-check _ _ _ (patch_scvmm_machine-Emits env _) (λ e. Emits-raise _)
        (λ _. Emits-if_true _ _ _ h detach))

delete_machine-detaches :
    (env : Env) (m : ScvmmMachine)
    → vm_has_persistent_disks m ≡ true
    → Emits (by_command is_detaching_command) (delete_machine env m)
unfolding delete_machine
delete_machine-detaches env m h =
    Emits-if (env.contains_finalizer m.meta.finalizers machine_finalizer) _ _
      (Emits-if (is_empty m.spec.vm_name && is_empty m.spec.id) _ _ (search shared_rules)
        (delete_vm-detaches env m h))
      (search shared_rules)

-- If the machine has a persistent disk, reconcile_delete sends no other command than get_vm and
-- remove_disk_from_vm, whatever the outside answers: it does not remove the VM.
pub reconcile_delete-detaches :
    (env : Env) (w : World)
    → vm_has_persistent_disks w.machine ≡ true
    → Extends (by_command is_detaching_command) (reconcile_delete env w).1.log w.log
unfolding reconcile_delete
reconcile_delete-detaches env w h =
    Extends-get_machine (delete_machine env) w (delete_machine-detaches env w.machine h)

-- The answer to the question that `startVM` asks first, for the VMs of the machine's name.
abbrev pub same_name_answer : Env → World → Result (List Str)
same_name_answer env w = (vm_ids_by_name env w.machine.spec.provider_ref w.machine.spec.vm_name w).0

module _ (env : Env) where
  vm_ids_by_name-Emits :
      (ref : Option ScvmmProviderReference) (name : Str)
      → Emits (by_command is_not_start) (vm_ids_by_name env ref name)
  unfolding vm_ids_by_name
  vm_ids_by_name-Emits ref name = search shared_rules depth 12

  -- If every list of VMs that SCVMM gives for the name of the machine has more than one, or it
  -- gives none at all, start_machine does not send start_vm.
  pub start_machine-guarded :
      (w : World)
      → ((ids : List Str) → same_name_answer env w ≡ ok ids → 1 < length ids)
      → Extends (by_command is_not_start) (start_machine env w).1.log w.log
  unfolding start_machine get_machine ◌>>=◌
  start_machine-guarded w h =
      Extends-check _ _ _ w (vm_ids_by_name-Emits _ _) (λ e. search shared_rules)
        (λ ids p. Emits-if_true _ _ _ (lt→ltb 1 (length ids) (h ids p)) (search shared_rules))
