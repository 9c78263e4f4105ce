-- ===== src/Machine/Steps.antt =====
-- The steps of `reconcileNormal` on a VM that exists: `getVM`, `setVMProperties`, `addVMSpec`,
-- `expandDisks`, `setStaticAddresses`, `startVM`, `getVMInfo`.
pub mod Properties
use cluster_api_provider_scv.Base.{
  ℕ, suc, Str, codes, str_eq, is_empty, Bool, true, false, not, ◌&&◌, ◌||◌, Option, none, some,
  List, [], ◌∷◌, ◌++◌, ltb, any, all, length, get_elem?, is_some, if◌then◌else◌,
}
use cluster_api_provider_scv.Base.Decimal.{show}
use cluster_api_provider_scv.Api.Meta.{Error, message, wrap, find_key}
use cluster_api_provider_scv.Api.CopySpec.{copy_non_zero_to}
use cluster_api_provider_scv.Api.Machine.{
  Networking, NetworkDevice, ScvmmMachine, ScvmmMachineSpec, items,
}
use cluster_api_provider_scv.Scvmm.Command.{
  get_vm, set_vm_properties, expand_vm_disks, set_vm_network, start_vm, read_vm,
}
use cluster_api_provider_scv.Scvmm.Answer.{VmResult, VmResultNetwork}
use cluster_api_provider_scv.Machine.Event.{recorded}
use cluster_api_provider_scv.Machine.Env.{Env}
use cluster_api_provider_scv.Machine.Words.{
  vm_created, vm_running, vm_failed, vm_starting, vm_updating_properties, vm_updating_disks,
  vm_updating_network, running,
}
use cluster_api_provider_scv.Machine.Send.{send_vm, send_vm_spec, vm_ids_by_name, join_ids}
use cluster_api_provider_scv.Machine.Reason.{
  CtrlResult, done, patch_reason_condition, patch_scvmm_machine, set_machine_condition,
}
use cluster_api_provider_scv.Machine.Disks.{make_disks_json}
use cluster_api_provider_scv.Machine.Claims.Reconcile.{the_networking, set_device}
use cluster_api_provider_scv.Machine.Create.{with_provider_id, with_status}
use cluster_api_provider_scv.Machine.Action.{
  Action, pure, raise, lift, get_machine, modify, emit, on_option, check, for_each, ◌>>=◌, ◌>>◌,
}

-- `VMResult{}`
unfoldable pub empty_vm : VmResult
empty_vm = record {
  cloud = [];
  name = [];
  hostname = [];
  status = [];
  memory = 0;
  cpu_count = 0;
  virtual_network = [];
  ipv4_addresses = none;
  network_adapters = [];
  virtual_disks = [];
  isos = [];
  bios_guid = [];
  id = [];
  vm_id = [];
  availability_set_names = [];
  tag = [];
  custom_property = [];
  error = [];
  script_errors = [];
  message = [];
  creation_time = [];
  modified_time = [];
  result = [];
}

-- `equalStringMap`: every entry of the first map is in the second.
unfoldable pub equal_string_map : List (Str × Str) → List (Str × Str) → Bool
equal_string_map [] target = true
equal_string_map ((k, v) ∷ source) target =
    (elim (find_key k target) [ none ↦ false | some w ↦ str_eq v w ])
    && equal_string_map source target

-- The test before `setVMProperties`.
unfoldable pub needs_properties : ScvmmMachine → VmResult → Bool
unfolding equal_string_map
needs_properties m vm =
    (not (is_empty m.spec.tag) && not (str_eq vm.tag m.spec.tag))
    || not (equal_string_map m.spec.custom_property vm.custom_property)

-- `vmNeedsStaticAddresses`, over the adapters and the devices side by side.
unfoldable pub needs_static_addresses : List VmResultNetwork → List NetworkDevice → Bool
needs_static_addresses [] ds = false
needs_static_addresses (a ∷ as') [] = false
needs_static_addresses (a ∷ as') (d ∷ ds) =
    (not (is_empty d.static_ip_address_pools) && is_empty a.ipv4_addresses)
    || needs_static_addresses as' ds

unfoldable pub cidrs : List Str → List ℕ → List Str
cidrs [] ps = []
cidrs (a ∷ as') [] = []
cidrs (a ∷ as') (p ∷ ps) = (a ++ (codes "/" ++ show p)) ∷ cidrs as' ps

-- A device after `setStaticAddresses` has read its adapter.
unfoldable pub with_adapter : VmResultNetwork → NetworkDevice → NetworkDevice
unfolding cidrs
with_adapter a d = record d {
  ip_addresses = cidrs a.ipv4_addresses a.ipv4_prefix_lengths;
  gateway = elim (a.default_ip_gateways) [ [] ↦ d.gateway | g ∷ gs ↦ g ];
}

-- What `getVM` notes of the VM that it found.
unfoldable pub with_found : VmResult → ScvmmMachine → ScvmmMachine
unfolding with_provider_id with_status
with_found vm m =
    let m' = with_status vm (record m { spec = with_provider_id vm m.spec }) in
    if str_eq vm.status running
    then record m' { status = record (m'.status) { provisioned = true } }
    else m'

unfoldable pub with_info : VmResult → ScvmmMachine → ScvmmMachine
with_info vm m = record m {
  status = record (m.status) {
    addresses = elim (vm.ipv4_addresses) [ none ↦ m.status.addresses | some as' ↦ as' ];
    hostname = if is_empty vm.hostname then m.status.hostname else vm.hostname;
    provisioned = true;
    backoff = none;
  };
}

module _ (env : Env) where
  unfoldable pub found_vm : Str → VmResult → Action VmResult
  unfolding with_found
  found_vm id vm =
      if is_empty vm.id
      then pure vm
      else if str_eq vm.id id
      then modify (with_found vm) >> pure vm
      else raise (
          message (
            codes "GetVM returned VM with different ID ("
            ++ (vm.id ++ (codes " <> " ++ (id ++ codes ")")))))

  unfoldable pub read_machine_vm : Action VmResult
  unfolding found_vm empty_vm
  read_machine_vm = do
    m ← get_machine
    if is_empty m.spec.id
        then pure empty_vm
        else check (send_vm env m.spec.provider_ref (get_vm m.spec.id))
            (λ e.
              emit (recorded true (codes "GetVM") (env.error_text e))
              >> raise (wrap (codes "failed to get vm") e))
            (found_vm m.spec.id)

  unfoldable pub update_properties : Action CtrlResult
  update_properties =
      check
        (do
          m ← get_machine
          properties ← lift (env.marshal_properties m.spec.custom_property)
          options ← lift (env.marshal_options m.spec.vm_options)
          send_vm env m.spec.provider_ref
              (set_vm_properties m.spec.id properties m.spec.tag options))
        (λ e.
          patch_reason_condition env 0 (some e) vm_created vm_failed
            (codes "Failed to set vm properties"))
        (λ _.
          patch_reason_condition env 10 none vm_created vm_updating_properties
            (codes "Setting properties"))

  unfoldable pub add_spec : Action (Unit {0})
  add_spec = do
    new ← send_vm_spec env
    m ← get_machine
    let copied = copy_non_zero_to env.spec_equality new.spec m.spec
    modify (λ m'. record m' { spec = copied.0 })
    if copied.1 then patch_scvmm_machine env else pure tt

  unfoldable pub expand_disks : Action CtrlResult
  expand_disks =
      check
        (do
          m ← get_machine
          disks ← lift (make_disks_json env m.spec.disks)
          send_vm env m.spec.provider_ref (expand_vm_disks m.spec.id disks))
        (λ e.
          patch_reason_condition env 0 (some e) vm_created vm_failed
            (codes "Failed to expand disks"))
        (λ vm.
          modify (with_status vm)
          >> patch_reason_condition env 10 none vm_created vm_updating_disks
              (codes "Updating Disks"))

  unfoldable pub set_adapter : List NetworkDevice → ℕ → VmResultNetwork → Action (Unit {0})
  unfolding with_adapter
  set_adapter devices i a = on_option (get_elem? devices i) (pure tt) (λ d.
      if ltb (length a.ipv4_prefix_lengths) (length a.ipv4_addresses)
      then raise (message (codes "GetVM returned fewer subnets than addresses"))
      else modify (set_device i (with_adapter a d)))

  unfoldable pub set_static_addresses : Action CtrlResult
  unfolding set_adapter
  set_static_addresses = the_networking >>= λ n.
      check
        (do
          m ← get_machine
          devices ← lift (env.marshal_devices n.devices)
          send_vm env m.spec.provider_ref (set_vm_network m.spec.id devices))
        (λ e.
          patch_reason_condition env 0 (some e) vm_created vm_failed
            (codes "Failed to set static network ips"))
        (λ vm.
          modify (with_status vm)
          >> (for_each 0 vm.network_adapters (set_adapter n.devices)
              >> patch_reason_condition env 10 none vm_created vm_updating_network
                  (codes "Setting Static Network")))

  -- A VM is started only if at most one VM has its name.
  unfoldable pub start_machine : Action CtrlResult
  start_machine = do
    m ← get_machine
    check (vm_ids_by_name env m.spec.provider_ref m.spec.vm_name)
        (λ e.
          patch_reason_condition env 0 (some e) vm_created vm_failed
            (codes "Failed to check if VMName already exists in SCVMM before start"))
        (λ ids.
          if ltb 1 (length ids)
          then patch_reason_condition env 0 none vm_created vm_failed (
              codes "VMName already exists in SCVMM before start, cannot use it; VMName: '"
              ++ (m.spec.vm_name
                  ++ (codes "', VMIDs: '"
                      ++ (join_ids ids
                          ++ (codes "', expected ID: '" ++ (m.spec.id ++ codes "'"))))))
          else check (send_vm env m.spec.provider_ref (start_vm m.spec.id))
              (λ e. raise (wrap (codes "Failed to start vm") e))
              (λ vm.
                modify (λ m'. record m' { status = record (m'.status) { vm_status = vm.status } })
                >> patch_reason_condition env 10 none vm_created vm_starting
                    (codes "Powering on " ++ vm.name)))

  unfoldable pub read_info : VmResult → Action CtrlResult
  unfolding with_info
  read_info vm = do
    modify (with_info vm)
    set_machine_condition env (record {
      type = vm_running;
      status = true;
      reason = vm_running;
      message = codes "VM Running";
    })
    patch_scvmm_machine env
    if not (is_some vm.ipv4_addresses) || is_empty vm.hostname
        then (do
          m ← get_machine
          r ←
              check (send_vm env m.spec.provider_ref (read_vm m.spec.id))
                (λ e. raise (wrap (codes "Failed to read vm") e)) pure
          emit (recorded false vm_running (codes "Waiting for IP of " ++ r.name))
          pure (record { requeue_after = 60 }))
        else (emit (recorded false vm_running (codes "VM " ++ (vm.name ++ codes " up and running")))
            >> pure done)
