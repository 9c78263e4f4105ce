-- ===== src/Machine/Commands/Whole.antt =====
-- The commands of `Reconcile` after the machine was read.
use cluster_api_provider_scv.Base.{Bool, true, false, Option, ◌≡◌, refl}
use cluster_api_provider_scv.Api.Machine.{ScvmmMachine}
use cluster_api_provider_scv.Scvmm.Command.{Command}
use cluster_api_provider_scv.Machine.Event.{Event}
use cluster_api_provider_scv.Machine.Env.{Env, Cluster, OwnerMachine, ScvmmClusterSpec}
use cluster_api_provider_scv.Machine.Action.{World}
use cluster_api_provider_scv.Machine.Emits.{
  Emits, Extends, Extends-get_machine, Emits-if_true, Emits-if_false,
}
use cluster_api_provider_scv.Machine.Reconcile.{
  reconcile_live, place_machine, reconcile_in_cluster, reconcile_with_cluster, reconcile_with_owner,
  reconcile_standing, reconcile_machine, reconcile_found,
}
use cluster_api_provider_scv.Machine.Commands.{by_command, is_live_command, is_deletion_command}
use cluster_api_provider_scv.Machine.Commands.Shared.{shared_rules}
use cluster_api_provider_scv.Machine.Commands.Normal.{reconcile_normal-Emits}
use cluster_api_provider_scv.Machine.Commands.Deleted.{reconcile_delete-Emits}

abbrev allowed : Event → Bool
allowed = by_command is_live_command

module _ (env : Env) where
  reconcile_live-Emits :
      (cluster : Option Cluster) (machine : Option OwnerMachine)
      → Emits allowed (reconcile_live env cluster machine)
  unfolding reconcile_live
  reconcile_live-Emits cluster machine = search (shared_rules, reconcile_normal-Emits) depth 14

  place_machine-Emits :
      (spec : ScvmmClusterSpec) (owner : OwnerMachine)
      → Emits allowed (place_machine env spec owner)
  unfolding place_machine
  place_machine-Emits spec owner = search shared_rules depth 14

  reconcile_in_cluster-Emits :
      (cluster : Cluster) (owner : OwnerMachine)
      → Emits allowed (reconcile_in_cluster env cluster owner)
  unfolding reconcile_in_cluster
  reconcile_in_cluster-Emits cluster owner = search (shared_rules, reconcile_live-Emits) depth 12

  reconcile_with_cluster-Emits :
      (cluster : Cluster) (owner : OwnerMachine)
      → Emits allowed (reconcile_with_cluster env cluster owner)
  unfolding reconcile_with_cluster
  reconcile_with_cluster-Emits cluster owner =
      search (shared_rules, place_machine-Emits, reconcile_in_cluster-Emits) depth 14

  reconcile_with_owner-Emits :
      (owner : OwnerMachine) → Emits allowed (reconcile_with_owner env owner)
  unfolding reconcile_with_owner
  reconcile_with_owner-Emits owner = search (shared_rules, reconcile_with_cluster-Emits) depth 14

  reconcile_standing-Emits : (m : ScvmmMachine) → Emits allowed (reconcile_standing env m)
  unfolding reconcile_standing
  reconcile_standing-Emits m =
      search (shared_rules, reconcile_with_owner-Emits, reconcile_live-Emits) depth 14

-- The commands that a machine may have sent for it.
abbrev pub command_of : Bool → Command → Bool
command_of true = is_deletion_command
command_of false = is_live_command

reconcile_machine-Emits :
    (env : Env) (m : ScvmmMachine) (b : Bool)
    → m.meta.deleting ≡ b
    → Emits (by_command (command_of b)) (reconcile_machine env m)
unfolding reconcile_machine
reconcile_machine-Emits env m true h = Emits-if_true _ _ _ h (reconcile_delete-Emits env)
reconcile_machine-Emits env m false h = Emits-if_false _ _ _ h (reconcile_standing-Emits env m)

-- Whatever SCVMM and the API server answer: for a machine that is being deleted, reconcile_found
-- sends no other command than get_vm, remove_disk_from_vm and remove_vm, and for another it sends
-- neither remove_disk_from_vm, nor remove_vm, nor remove_persistent_disk.
pub reconcile_found-Extends :
    (env : Env) (w : World)
    → Extends (by_command (command_of w.machine.meta.deleting)) (reconcile_found env w).1.log w.log
unfolding reconcile_found
reconcile_found-Extends env w =
    Extends-get_machine (reconcile_machine env) w
      (reconcile_machine-Emits env w.machine w.machine.meta.deleting refl)
