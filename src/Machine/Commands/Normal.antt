-- ===== src/Machine/Commands/Normal.antt =====
-- The commands of `reconcileNormal`: the IP address claims, the cloud-init data and the steps on a VM
-- that exists.
use cluster_api_provider_scv.Base.{ℕ, Str, Bool, Option, List}
use cluster_api_provider_scv.Api.Provider.{ScvmmProviderReference, ScvmmProviderSpec}
use cluster_api_provider_scv.Api.Machine.{NetworkDevice, PoolRef}
use cluster_api_provider_scv.Scvmm.Answer.{VmResult, VmResultNetwork}
use cluster_api_provider_scv.Machine.Event.{Event, IpAddressClaim}
use cluster_api_provider_scv.Machine.Env.{Env, Cluster, OwnerMachine}
use cluster_api_provider_scv.Machine.Emits.{Emits}
use cluster_api_provider_scv.Machine.Claims.{Tally, DeviceTally}
use cluster_api_provider_scv.Machine.Claims.Reconcile.{
  create_or_patch_claim, read_address, reconcile_claim, reconcile_device, finish_claims,
  reconcile_ip_address_claims,
}
use cluster_api_provider_scv.Machine.CloudInit.{get_provider, cloud_init_path, write_cloud_init}
use cluster_api_provider_scv.Machine.CloudInit.Attach.{
  get_bootstrap_data, attach_cloud_init, attach_for_machine, add_cloud_init_to_vm,
}
use cluster_api_provider_scv.Machine.Steps.{
  set_static_addresses, set_adapter, expand_disks, add_spec, update_properties, start_machine,
  read_info,
}
use cluster_api_provider_scv.Machine.Reconcile.{
  vm_needs_static_addresses, start_or_prepare, reconcile_power_off, reconcile_powered,
  reconcile_created, reconcile_existing, reconcile_normal,
}
use cluster_api_provider_scv.Machine.Commands.{by_command, is_live_command}
use cluster_api_provider_scv.Machine.Commands.Shared.{shared_rules, read_machine_vm-Emits}
use cluster_api_provider_scv.Machine.Commands.Live.{
  send_vm_ids-Emits, send_vm_spec-Emits, vm_claim_persistent_disks-Emits,
  vm_update_persistent_disks-Emits, create_machine-Emits,
}

abbrev allowed : Event → Bool
allowed = by_command is_live_command

module _ (env : Env) where
  -- Claims.
  create_or_patch_claim-Emits :
      (name : Str) (pool : PoolRef) → Emits allowed (create_or_patch_claim env name pool)
  unfolding create_or_patch_claim
  create_or_patch_claim-Emits name pool = search shared_rules depth 14

  read_address-Emits :
      (ref : ℕ) (c : IpAddressClaim) (t : DeviceTally) → Emits allowed (read_address env ref c t)
  unfolding read_address
  read_address-Emits ref c t = search shared_rules depth 12

  reconcile_claim-Emits :
      (dev ref : ℕ) (pool : PoolRef) (t : DeviceTally)
      → Emits allowed (reconcile_claim env dev ref pool t)
  unfolding reconcile_claim
  reconcile_claim-Emits dev ref pool t =
      search (shared_rules, create_or_patch_claim-Emits, read_address-Emits) depth 12

  reconcile_device-Emits :
      (dev : ℕ) (d : NetworkDevice) (t : Tally) → Emits allowed (reconcile_device env dev d t)
  unfolding reconcile_device
  reconcile_device-Emits dev d t = search (shared_rules, reconcile_claim-Emits) depth 12

  finish_claims-Emits : (t : Tally) → Emits allowed (finish_claims env t)
  unfolding finish_claims
  finish_claims-Emits t = search shared_rules depth 12

  reconcile_ip_address_claims-Emits : Emits allowed (reconcile_ip_address_claims env)
  unfolding reconcile_ip_address_claims
  reconcile_ip_address_claims-Emits =
      search (shared_rules, reconcile_device-Emits, finish_claims-Emits) depth 12

  -- Cloud-init.
  get_provider-Emits : (ref : Option ScvmmProviderReference) → Emits allowed (get_provider env ref)
  unfolding get_provider
  get_provider-Emits ref = search shared_rules depth 12

  cloud_init_path-Emits : (p : ScvmmProviderSpec) → Emits allowed (cloud_init_path env p)
  unfolding cloud_init_path
  cloud_init_path-Emits p = search shared_rules depth 12

  write_cloud_init-Emits :
      (p : ScvmmProviderSpec) (i path d : Str) → Emits allowed (write_cloud_init env p i path d)
  unfolding write_cloud_init
  write_cloud_init-Emits p i path d = search shared_rules depth 16

  get_bootstrap_data-Emits :
      (namespace name : Str) → Emits allowed (get_bootstrap_data env namespace name)
  unfolding get_bootstrap_data
  get_bootstrap_data-Emits namespace name = search shared_rules depth 12

  attach_cloud_init-Emits :
      (p : ScvmmProviderSpec) (f : Str) (vm : VmResult) (path n s : Str)
      → Emits allowed (attach_cloud_init env p f vm path n s)
  unfolding attach_cloud_init
  attach_cloud_init-Emits p f vm path n s =
      search (shared_rules, get_bootstrap_data-Emits, write_cloud_init-Emits) depth 14

  attach_for_machine-Emits :
      (cluster : Option Cluster) (machine : OwnerMachine) (p : ScvmmProviderSpec) (f : Str)
      (vm : VmResult) (path : Str)
      → Emits allowed (attach_for_machine env cluster machine p f vm path)
  unfolding attach_for_machine
  attach_for_machine-Emits cluster machine p f vm path =
      search (shared_rules, attach_cloud_init-Emits) depth 14

  add_cloud_init_to_vm-Emits :
      (cluster : Option Cluster) (machine : Option OwnerMachine) (p : ScvmmProviderSpec)
      (vm : VmResult) (path : Str)
      → Emits allowed (add_cloud_init_to_vm env cluster machine p vm path)
  unfolding add_cloud_init_to_vm
  add_cloud_init_to_vm-Emits cluster machine p vm path =
      search (shared_rules, attach_for_machine-Emits, attach_cloud_init-Emits) depth 14

  -- Steps.
  update_properties-Emits : Emits allowed (update_properties env)
  unfolding update_properties
  update_properties-Emits = search shared_rules depth 12

  add_spec-Emits : Emits allowed (add_spec env)
  unfolding add_spec
  add_spec-Emits = search (shared_rules, send_vm_spec-Emits) depth 12

  expand_disks-Emits : Emits allowed (expand_disks env)
  unfolding expand_disks
  expand_disks-Emits = search shared_rules depth 12

  set_adapter-Emits :
      (ds : List NetworkDevice) (i : ℕ) (a : VmResultNetwork)
      → Emits allowed (set_adapter env ds i a)
  unfolding set_adapter
  set_adapter-Emits ds i a = search shared_rules depth 12

  set_static_addresses-Emits : Emits allowed (set_static_addresses env)
  unfolding set_static_addresses
  set_static_addresses-Emits = search (shared_rules, set_adapter-Emits) depth 14

  start_machine-Emits : Emits allowed (start_machine env)
  unfolding start_machine
  start_machine-Emits = search (shared_rules, send_vm_ids-Emits) depth 12

  read_info-Emits : (vm : VmResult) → Emits allowed (read_info env vm)
  unfolding read_info
  read_info-Emits vm = search shared_rules depth 14

  -- The tree of branches.
  vm_needs_static_addresses-Emits :
      (vm : VmResult) → Emits allowed (vm_needs_static_addresses env vm)
  unfolding vm_needs_static_addresses
  vm_needs_static_addresses-Emits vm = search shared_rules depth 12

  start_or_prepare-Emits :
      (cluster : Option Cluster) (machine : Option OwnerMachine) (vm : VmResult)
      → Emits allowed (start_or_prepare env cluster machine vm)
  unfolding start_or_prepare
  start_or_prepare-Emits cluster machine vm =
      search
        (
          shared_rules, get_provider-Emits, cloud_init_path-Emits, add_cloud_init_to_vm-Emits,
          update_properties-Emits, start_machine-Emits,
        )
        depth 14

  reconcile_power_off-Emits :
      (cluster : Option Cluster) (machine : Option OwnerMachine) (vm : VmResult)
      → Emits allowed (reconcile_power_off env cluster machine vm)
  unfolding reconcile_power_off
  reconcile_power_off-Emits cluster machine vm =
      search (shared_rules, add_spec-Emits, start_or_prepare-Emits) depth 12

  reconcile_created-Emits :
      (cluster : Option Cluster) (machine : Option OwnerMachine) (vm : VmResult)
      → Emits allowed (reconcile_created env cluster machine vm)
  unfolding reconcile_created reconcile_powered
  reconcile_created-Emits cluster machine vm =
      search
        (
          shared_rules, vm_needs_static_addresses-Emits, set_static_addresses-Emits,
          expand_disks-Emits, reconcile_power_off-Emits, update_properties-Emits, read_info-Emits,
        )
        depth 14

  reconcile_existing-Emits :
      (cluster : Option Cluster) (machine : Option OwnerMachine) (vm : VmResult)
      → Emits allowed (reconcile_existing env cluster machine vm)
  unfolding reconcile_existing
  reconcile_existing-Emits cluster machine vm =
      search
        (
          shared_rules, vm_update_persistent_disks-Emits, reconcile_ip_address_claims-Emits,
          reconcile_created-Emits,
        )
        depth 12

  -- Whatever SCVMM and the API server answer, reconcile_normal sends neither remove_disk_from_vm,
  -- nor remove_vm, nor remove_persistent_disk.
  pub reconcile_normal-Emits :
      (cluster : Option Cluster) (machine : Option OwnerMachine)
      → Emits (by_command is_live_command) (reconcile_normal env cluster machine)
  unfolding reconcile_normal
  reconcile_normal-Emits cluster machine =
      search
        (
          shared_rules, vm_claim_persistent_disks-Emits, read_machine_vm-Emits,
          create_machine-Emits, reconcile_existing-Emits,
        )
        depth 12
