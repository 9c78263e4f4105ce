-- ===== src/Machine/Reconcile.antt =====
-- `reconcileNormal` and `Reconcile`.
use cluster_api_provider_scv.Base.{
  Str, codes, str_eq, is_empty, Bool, true, false, not, ◌&&◌, ◌||◌, Option, none, some, [], ◌++◌,
  map, is_some, if◌then◌else◌,
}
use cluster_api_provider_scv.Api.Meta.{message, wrap, is_not_found, find_key}
use cluster_api_provider_scv.Api.Machine.{VmDisk, ScvmmMachine}
use cluster_api_provider_scv.Scvmm.Answer.{VmResult}
use cluster_api_provider_scv.Machine.Event.{
  read, machine_kind, owner_machine_kind, cluster_kind, scvmm_cluster_kind,
}
use cluster_api_provider_scv.Machine.Env.{
  Env, Cluster, OwnerMachine, ScvmmClusterSpec, FailureDomain,
}
use cluster_api_provider_scv.Machine.Words.{
  vm_created, vm_running, vm_failed, waiting_for_ip_address, provider_not_available,
  waiting_for_owner, missing_cluster, cluster_not_available, waiting_for_cluster_infrastructure,
  under_creation, under_update, power_off, running, machine_finalizer,
}
use cluster_api_provider_scv.Machine.Reason.{
  CtrlResult, done, patch_reason_condition, patch_scvmm_machine, set_machine_condition,
}
use cluster_api_provider_scv.Machine.Disks.{vm_needs_expand_disks, vm_update_persistent_disks}
use cluster_api_provider_scv.Machine.DiskClaim.{vm_claim_persistent_disks}
use cluster_api_provider_scv.Machine.Claims.{has_all_ip_addresses}
use cluster_api_provider_scv.Machine.Claims.Reconcile.{
  cluster_name_label, reconcile_ip_address_claims, the_networking,
}
use cluster_api_provider_scv.Machine.CloudInit.{get_provider, cloud_init_path, vm_needs_cloud_init}
use cluster_api_provider_scv.Machine.CloudInit.Attach.{add_cloud_init_to_vm, is_set}
use cluster_api_provider_scv.Machine.Create.{create_machine}
use cluster_api_provider_scv.Machine.Steps.{
  read_machine_vm, needs_static_addresses, needs_properties, set_static_addresses, expand_disks,
  add_spec, update_properties, start_machine, read_info,
}
use cluster_api_provider_scv.Machine.Delete.{reconcile_delete}
use cluster_api_provider_scv.Machine.Action.{
  Action, pure, raise, get_machine, modify, fetch, on_option, check, ◌>>=◌, ◌>>◌,
}

-- The workaround for the patch helper: a disk with no size gets the size 0.
unfoldable pub with_size : VmDisk → VmDisk
with_size d = elim (d.size) [ none ↦ record d { size = some 0 } | some s ↦ d ]

unfoldable pub with_sizes : ScvmmMachine → ScvmmMachine
unfolding with_size
with_sizes m = record m {
  spec = record (m.spec) {
    disks = elim (m.spec.disks) [ none ↦ none | some ds ↦ some (map with_size ds) ];
  };
}

unfoldable pub with_domain : FailureDomain → ScvmmMachine → ScvmmMachine
with_domain fd m = record m {
  spec = record (m.spec) {
    cloud = fd.cloud;
    host_group = fd.host_group;
    networking = if is_some m.spec.networking then m.spec.networking else fd.networking;
  };
}

unfoldable pub needs_placement : ScvmmMachine → Bool
needs_placement m = is_empty m.spec.cloud || is_empty m.spec.host_group

module _ (env : Env) where
  -- `vmNeedsStaticAddresses`: the networking is looked at only where the VM has an adapter.
  unfoldable pub vm_needs_static_addresses : VmResult → Action Bool
  vm_needs_static_addresses vm =
      if is_empty vm.network_adapters
      then pure false
      else the_networking >>= λ n. pure (needs_static_addresses vm.network_adapters n.devices)

  unfoldable pub start_or_prepare :
      Option Cluster → Option OwnerMachine → VmResult → Action CtrlResult
  start_or_prepare cluster machine vm = get_machine >>= λ m.
      check (get_provider env m.spec.provider_ref)
        (λ e. patch_reason_condition env 0 (some e) vm_created provider_not_available [])
        (λ provider.
          check (cloud_init_path env provider)
            (λ e. patch_reason_condition env 0 (some e) vm_created provider_not_available [])
            (λ path.
              if vm_needs_cloud_init path m vm
              then add_cloud_init_to_vm env cluster machine provider vm path
              else if needs_properties m vm
              then update_properties env
              else start_machine env))

  -- The branch of a VM that is powered off.
  unfoldable pub reconcile_power_off :
      Option Cluster → Option OwnerMachine → VmResult → Action CtrlResult
  unfolding start_or_prepare
  reconcile_power_off cluster machine vm =
      check (add_spec env)
        (λ e.
          patch_reason_condition env 0 (some e) vm_created vm_failed
            (codes "Failed calling add spec function"))
        (λ _. the_networking >>= λ n.
          if has_all_ip_addresses n
          then start_or_prepare cluster machine vm
          else patch_reason_condition env 0 none vm_created waiting_for_ip_address [])

  -- The branch of a VM in another state.
  unfoldable pub reconcile_powered : VmResult → Action CtrlResult
  reconcile_powered vm = get_machine >>= λ m.
      if needs_properties m vm
      then update_properties env
      else if str_eq vm.status running
      then read_info env vm
      else patch_reason_condition env 15 none vm_running [] []

  -- From the condition that the VM was created on.
  unfoldable pub reconcile_created :
      Option Cluster → Option OwnerMachine → VmResult → Action CtrlResult
  unfolding vm_needs_static_addresses reconcile_power_off reconcile_powered
  reconcile_created cluster machine vm = do
    set_machine_condition env (record {
      type = vm_created;
      status = true;
      reason = vm_created;
      message = codes "VM Created";
    })
    static ← vm_needs_static_addresses vm
    m ← get_machine
    if static
        then set_static_addresses env
        else if vm_needs_expand_disks m vm
        then expand_disks env
        else if str_eq vm.status power_off
        then reconcile_power_off cluster machine vm
        else reconcile_powered vm

  unfoldable pub reconcile_existing :
      Option Cluster → Option OwnerMachine → VmResult → Action CtrlResult
  unfolding reconcile_created
  reconcile_existing cluster machine vm =
      check (vm_update_persistent_disks env vm)
        (λ e.
          patch_reason_condition env 0 (some e) vm_created vm_failed
            (codes "Failed updating persistent disk resources"))
        (λ _.
          reconcile_ip_address_claims env
          >> (if str_eq vm.status under_creation || str_eq vm.status under_update
              then patch_reason_condition env 15 none vm_created [] []
              else reconcile_created cluster machine vm))

  unfoldable pub reconcile_normal : Option Cluster → Option OwnerMachine → Action CtrlResult
  unfolding reconcile_existing
  reconcile_normal cluster machine =
      check (vm_claim_persistent_disks env)
        (λ e.
          patch_reason_condition env 0 (some e) vm_created vm_failed
            (codes "Failed claiming persistent disk from pool"))
        (λ _. read_machine_vm env >>= λ vm.
          if is_empty vm.id then create_machine env else reconcile_existing cluster machine vm)

  -- The finalizer and the pause, before the reconciliation of a machine that is not deleted.
  unfoldable pub reconcile_live : Option Cluster → Option OwnerMachine → Action CtrlResult
  unfolding reconcile_normal
  reconcile_live cluster machine = do
    m ← get_machine
    if env.contains_finalizer m.meta.finalizers machine_finalizer
        then pure tt
        else (modify (λ m'. record m' {
          meta = record (m'.meta) {
            finalizers = env.add_finalizer m'.meta.finalizers machine_finalizer;
          };
        })
            >> patch_scvmm_machine env)
    let paused : Bool = elim cluster [
      | none ↦ false
      | some c ↦ elim machine [ none ↦ false | some o ↦ env.is_paused c o ]
    ]
    if paused || env.has_paused m.meta then pure done else reconcile_normal cluster machine

  -- The cloud and the host group of the failure domain.
  unfoldable pub place_machine : ScvmmClusterSpec → OwnerMachine → Action (Unit {0})
  unfolding with_domain needs_placement
  place_machine spec owner = do
    modify (λ m. record m { spec = record (m.spec) { provider_ref = spec.provider_ref } })
    m ← get_machine
    if needs_placement m
        then (if is_empty owner.failure_domain
            then raise (message (codes "missing failureDomain"))
            else on_option (find_key owner.failure_domain spec.failure_domains)
                (raise (message (codes "unknown failureDomain " ++ owner.failure_domain)))
                (λ fd. modify (with_domain fd)))
        else pure tt

  unfoldable pub reconcile_in_cluster : Cluster → OwnerMachine → Action CtrlResult
  unfolding reconcile_live
  reconcile_in_cluster cluster owner =
      if is_set cluster.infrastructure_provisioned
      then reconcile_live (some cluster) (some owner)
      else patch_reason_condition env 0 none vm_created waiting_for_cluster_infrastructure []

  unfoldable pub reconcile_with_cluster : Cluster → OwnerMachine → Action CtrlResult
  unfolding place_machine reconcile_in_cluster
  reconcile_with_cluster cluster owner = get_machine >>= λ m.
      if is_some m.spec.provider_ref && not (needs_placement m)
      then reconcile_in_cluster cluster owner
      else check
          (fetch (λ h. env.get_scvmm_cluster h cluster.meta.namespace cluster.infrastructure_ref)
            (read scvmm_cluster_kind cluster.meta.namespace cluster.infrastructure_ref))
          (λ e. patch_reason_condition env 0 none vm_created cluster_not_available [])
          (λ spec. place_machine spec owner >> reconcile_in_cluster cluster owner)

  unfoldable pub reconcile_with_owner : OwnerMachine → Action CtrlResult
  unfolding reconcile_with_cluster
  reconcile_with_owner owner =
      check
        (fetch (λ h. env.get_cluster h owner.meta)
          (read cluster_kind owner.meta.namespace owner.meta.name))
        (λ e.
          patch_reason_condition env 0 (some e) vm_created missing_cluster
            (codes "ScvmmMachine owner Machine is missing cluster label or cluster does not exist"))
        (λ c.
          on_option c
            (patch_reason_condition env 0 none vm_created missing_cluster (
              codes "Please associate this machine with a cluster using the label "
              ++ (cluster_name_label ++ codes ": <name of cluster>")))
            (λ cluster. reconcile_with_cluster cluster owner))

  -- A machine that is not deleted: on its own where it brings its bootstrap data.
  unfoldable pub reconcile_standing : ScvmmMachine → Action CtrlResult
  reconcile_standing m =
      on_option m.spec.bootstrap
        (check
          (fetch (λ h. env.get_owner_machine h m.meta)
            (read owner_machine_kind m.meta.namespace m.meta.name))
          (λ e. raise (wrap (codes "Get owner machine") e))
          (λ o.
            on_option o (patch_reason_condition env 0 none vm_created waiting_for_owner [])
              reconcile_with_owner))
        (λ b. reconcile_live none none)

  unfoldable pub reconcile_machine : ScvmmMachine → Action CtrlResult
  reconcile_machine m = if m.meta.deleting then reconcile_delete env else reconcile_standing m

  unfoldable pub reconcile_found : Action CtrlResult
  unfolding reconcile_machine
  reconcile_found = get_machine >>= reconcile_machine

  -- `Reconcile`, of the machine with a namespace and a name.
  unfoldable pub reconcile : Str → Str → Action CtrlResult
  unfolding with_sizes reconcile_found
  reconcile namespace name =
      check (fetch (λ h. env.get_machine h namespace name) (read machine_kind namespace name))
        (λ e. if is_not_found e then pure done else raise e)
        (λ m.
          modify (λ _. with_sizes m)
          >> on_option (env.patch_helper_error (with_sizes m)) reconcile_found
              (λ e. raise (wrap (codes "Get patchhelper") e)))
