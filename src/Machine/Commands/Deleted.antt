-- ===== src/Machine/Commands/Deleted.antt =====
-- The commands of `reconcileDelete`.
use cluster_api_provider_scv.Base.{ℕ, suc, Str, Bool, true, List, [], ◌∷◌, ◌≡◌}
use cluster_api_provider_scv.Api.Meta.{Error}
use cluster_api_provider_scv.Api.PersistentDisk.{ScvmmPersistentDisk}
use cluster_api_provider_scv.Api.Machine.{VmDisk, ScvmmMachine}
use cluster_api_provider_scv.Scvmm.Command.{Command, get_vm, remove_disk_from_vm}
use cluster_api_provider_scv.Scvmm.Answer.{VmResult, VmResultDisk}
use cluster_api_provider_scv.Machine.Event.{Event}
use cluster_api_provider_scv.Machine.Env.{Env}
use cluster_api_provider_scv.Machine.Reason.{CtrlResult}
use cluster_api_provider_scv.Machine.Action.{Action}
use cluster_api_provider_scv.Machine.Emits.{Emits, Emits-on_option, Emits-check}
use cluster_api_provider_scv.Machine.NamePool.{remove_vm_name_in_pool}
use cluster_api_provider_scv.Machine.Claims.Reconcile.{delete_ip_address_claims}
use cluster_api_provider_scv.Machine.Delete.{
  fail_disk, detach_disk, release_disk, remove_disks, remove_persistent_disks, finish_removal,
  removal_answer, delete_vm, delete_machine, reconcile_delete,
}
use cluster_api_provider_scv.Machine.Commands.{by_command, is_deletion_command}
use cluster_api_provider_scv.Machine.Commands.Shared.{
  shared_rules, fetch_disk-Emits, read_machine_vm-Emits,
}

abbrev allowed : Event → Bool
allowed = by_command is_deletion_command

-- The detaching of the disks, for every set of commands that has it.
module _ (env : Env) (cmd : Command → Bool) (get : (i : Str) → cmd (get_vm i) ≡ true)
    (remove : (i : Str) (l : ℕ) → cmd (remove_disk_from_vm i l) ≡ true) where
  fail_disk-Emits :
      (what : Str) (i : ℕ) (e : Error) → Emits (by_command cmd) (fail_disk env what i e)
  unfolding fail_disk
  fail_disk-Emits what i e = search shared_rules

  detach_disk-Emits :
      (vm : VmResult) (i : ℕ) (pd : ScvmmPersistentDisk) (vd : VmResultDisk)
      → Emits (by_command cmd) (detach_disk env vm i pd vd)
  unfolding detach_disk
  detach_disk-Emits vm i pd vd = search shared_rules depth 12

  release_disk-Emits :
      (vm : VmResult) (i : ℕ) (d : VmDisk) (pd : ScvmmPersistentDisk) (next : Action CtrlResult)
      → Emits (by_command cmd) next
      → Emits (by_command cmd) (release_disk env vm i d pd next)
  unfolding release_disk
  release_disk-Emits vm i d pd next h = search shared_rules depth 12

  remove_disks-Emits :
      (vm : VmResult) (i : ℕ) (ds : List VmDisk) → Emits (by_command cmd) (remove_disks env vm i ds)
  unfolding remove_disks
  remove_disks-Emits vm i [] = search shared_rules depth 12
  remove_disks-Emits vm i (d ∷ ds) =
      let rest = remove_disks-Emits vm (suc i) ds in
      Emits-on_option _ _ _ rest (λ ref.
        Emits-check _ _ _ (fetch_disk-Emits env cmd ref.name) (fail_disk-Emits _ i) (λ pd.
          Emits-on_option _ _ _ (release_disk-Emits vm i d pd _ rest) (detach_disk-Emits vm i pd)))

  pub remove_persistent_disks-Emits : Emits (by_command cmd) (remove_persistent_disks env)
  unfolding remove_persistent_disks
  remove_persistent_disks-Emits =
      search (shared_rules, read_machine_vm-Emits, remove_disks-Emits) depth 12

module _ (env : Env) where
  remove_vm_name_in_pool-Emits : (pool : Str) → Emits allowed (remove_vm_name_in_pool env pool)
  unfolding remove_vm_name_in_pool
  remove_vm_name_in_pool-Emits pool = search shared_rules depth 12

  delete_ip_address_claims-Emits : Emits allowed (delete_ip_address_claims env)
  unfolding delete_ip_address_claims
  delete_ip_address_claims-Emits = search shared_rules depth 12

  finish_removal-Emits : Emits allowed (finish_removal env)
  unfolding finish_removal
  finish_removal-Emits = search (shared_rules, delete_ip_address_claims-Emits) depth 12

  removal_answer-Emits : (vm : VmResult) → Emits allowed (removal_answer env vm)
  unfolding removal_answer
  removal_answer-Emits vm =
      search (shared_rules, remove_vm_name_in_pool-Emits, finish_removal-Emits) depth 12

  delete_vm-Emits : (m : ScvmmMachine) → Emits allowed (delete_vm env m)
  unfolding delete_vm
  delete_vm-Emits m =
      search (shared_rules, remove_persistent_disks-Emits, removal_answer-Emits) depth 14

  delete_machine-Emits : (m : ScvmmMachine) → Emits allowed (delete_machine env m)
  unfolding delete_machine
  delete_machine-Emits m = search (shared_rules, delete_vm-Emits) depth 14

  -- Whatever SCVMM and the API server answer, reconcile_delete sends no other command than get_vm,
  -- remove_disk_from_vm and remove_vm.
  pub reconcile_delete-Emits : Emits (by_command is_deletion_command) (reconcile_delete env)
  unfolding reconcile_delete
  reconcile_delete-Emits = search (shared_rules, delete_machine-Emits) depth 14
