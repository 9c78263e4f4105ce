-- ===== src/Machine/Commands/Shared.antt =====
-- The calls that the reconciliation of a live machine and that of a deleted one share.
use cluster_api_provider_scv.Base.{ℕ, Str, Bool, true, Option, ◌≡◌}
use cluster_api_provider_scv.Api.Meta.{Error}
use cluster_api_provider_scv.Api.PersistentDisk.{ScvmmPersistentDisk}
use cluster_api_provider_scv.Api.Provider.{ScvmmProviderReference}
use cluster_api_provider_scv.Api.Machine.{ScvmmCondition}
use cluster_api_provider_scv.Scvmm.Command.{Command, get_vm}
use cluster_api_provider_scv.Machine.Env.{Env}
use cluster_api_provider_scv.Machine.Emits.{Emits, emits_rules}
use cluster_api_provider_scv.Machine.Send.{send_vm}
use cluster_api_provider_scv.Machine.Reason.{
  patch_reason_condition, emit_reason, set_machine_condition, patch_scvmm_machine,
}
use cluster_api_provider_scv.Machine.Disks.{fetch_disk, write_disk, write_disk_status}
use cluster_api_provider_scv.Machine.Claims.Reconcile.{the_networking}
use cluster_api_provider_scv.Machine.Steps.{read_machine_vm}
use cluster_api_provider_scv.Machine.Commands.{by_command}

module _ (env : Env) (cmd : Command → Bool) where
  pub send_vm-Emits :
      (ref : Option ScvmmProviderReference) (c : Command)
      → cmd c ≡ true
      → Emits (by_command cmd) (send_vm env ref c)
  unfolding send_vm
  send_vm-Emits ref c h = search emits_rules

  emit_reason-Emits :
      (e : Option Error) (reason text : Str)
      → Emits (by_command cmd) (emit_reason env e reason text)
  unfolding emit_reason
  emit_reason-Emits e reason text = search emits_rules

  pub patch_scvmm_machine-Emits : Emits (by_command cmd) (patch_scvmm_machine env)
  unfolding patch_scvmm_machine
  patch_scvmm_machine-Emits = search emits_rules

  pub set_machine_condition-Emits :
      (c : ScvmmCondition) → Emits (by_command cmd) (set_machine_condition env c)
  unfolding set_machine_condition
  set_machine_condition-Emits c = search emits_rules

  pub patch_reason_condition-Emits :
      (requeue : ℕ) (e : Option Error) (condition reason text : Str)
      → Emits (by_command cmd) (patch_reason_condition env requeue e condition reason text)
  unfolding patch_reason_condition
  patch_reason_condition-Emits requeue e condition reason text =
      search
        (emits_rules, emit_reason-Emits, patch_scvmm_machine-Emits, set_machine_condition-Emits)
        depth 12

  pub the_networking-Emits : Emits (by_command cmd) the_networking
  unfolding the_networking
  the_networking-Emits = search emits_rules

  pub fetch_disk-Emits : (name : Str) → Emits (by_command cmd) (fetch_disk env name)
  unfolding fetch_disk
  fetch_disk-Emits name = search emits_rules

  pub write_disk-Emits : (d : ScvmmPersistentDisk) → Emits (by_command cmd) (write_disk env d)
  unfolding write_disk
  write_disk-Emits d = search emits_rules

  pub write_disk_status-Emits :
      (d : ScvmmPersistentDisk) → Emits (by_command cmd) (write_disk_status env d)
  unfolding write_disk_status
  write_disk_status-Emits d = search emits_rules

  pub read_machine_vm-Emits :
      ((i : Str) → cmd (get_vm i) ≡ true) → Emits (by_command cmd) (read_machine_vm env)
  unfolding read_machine_vm
  read_machine_vm-Emits h = search (emits_rules, send_vm-Emits) depth 12

pub ruleset shared_rules = (
  emits_rules, patch_scvmm_machine-Emits, set_machine_condition-Emits, patch_reason_condition-Emits,
  the_networking-Emits, fetch_disk-Emits, write_disk-Emits, write_disk_status-Emits, send_vm-Emits,
)
