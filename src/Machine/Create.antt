-- ===== src/Machine/Create.antt =====
-- `createVM`: the name of the VM, then its creation.
use cluster_api_provider_scv.Base.{
  ℕ, ◌/◌, Str, codes, is_empty, Option, none, some, ◌++◌, if◌then◌else◌,
}
use cluster_api_provider_scv.Api.Meta.{Error, wrap}
use cluster_api_provider_scv.Api.Machine.{ScvmmMachine, ScvmmMachineSpec}
use cluster_api_provider_scv.Scvmm.Command.{CreateArgs, create_vm}
use cluster_api_provider_scv.Scvmm.Answer.{VmResult}
use cluster_api_provider_scv.Machine.Env.{Env}
use cluster_api_provider_scv.Machine.Words.{vm_created, vm_creating, vm_failed}
use cluster_api_provider_scv.Machine.Send.{send_vm, vm_ids_by_name, join_ids}
use cluster_api_provider_scv.Machine.Reason.{CtrlResult, patch_reason_condition}
use cluster_api_provider_scv.Machine.Disks.{make_disks_json}
use cluster_api_provider_scv.Machine.NamePool.{generate_vm_name}
use cluster_api_provider_scv.Machine.Claims.Reconcile.{the_networking}
use cluster_api_provider_scv.Machine.Action.{
  Action, lift, get_machine, modify, on_option, check, ◌>>=◌, ◌>>◌,
}

-- A quantity in MiB; `none` is the -1 of the source.
unfoldable pub in_mib : Option ℕ → Option ℕ
in_mib none = none
in_mib (some n) = some (n / 1024 / 1024)

unfoldable pub create_args : ScvmmMachineSpec → Str → Str → Str → Str → Str → CreateArgs
unfolding in_mib
create_args spec name disks options devices channels = record {
  cloud = spec.cloud;
  host_group = spec.host_group;
  vm_name = name;
  vm_template = spec.vm_template;
  memory = in_mib spec.memory;
  memory_min = elim (spec.dynamic_memory) [ none ↦ none | some d ↦ in_mib d.minimum ];
  memory_max = elim (spec.dynamic_memory) [ none ↦ none | some d ↦ in_mib d.maximum ];
  memory_buffer = elim (spec.dynamic_memory) [ none ↦ none | some d ↦ d.buffer_percentage ];
  cpu_count = spec.cpu_count;
  disks = disks;
  network_devices = devices;
  fibre_channel = channels;
  hardware_profile = spec.hardware_profile;
  operating_system = spec.operating_system;
  availability_set = spec.availability_set;
  vm_options = options;
}

-- What the answer changes in the machine.
unfoldable pub with_provider_id : VmResult → ScvmmMachineSpec → ScvmmMachineSpec
with_provider_id vm spec =
    if is_empty vm.vm_id then spec else record spec { provider_id = codes "scvmm://" ++ vm.vm_id }

unfoldable pub with_status : VmResult → ScvmmMachine → ScvmmMachine
with_status vm m = record m {
  status = record (m.status) {
    vm_status = vm.status;
    bios_guid = vm.bios_guid;
    creation_time = vm.creation_time;
    modified_time = vm.modified_time;
  };
}

unfoldable pub with_created : Str → VmResult → ScvmmMachine → ScvmmMachine
unfolding with_provider_id with_status
with_created name vm m =
    with_status vm
      (record m { spec = record (with_provider_id vm m.spec) { vm_name = name; id = vm.id } })

unfoldable pub set_vm_name : Str → ScvmmMachine → ScvmmMachine
set_vm_name name m = record m { spec = record (m.spec) { vm_name = name } }

module _ (env : Env) where
  unfoldable pub fail_create : Str → Error → Action CtrlResult
  fail_create text e = patch_reason_condition env 0 (some e) vm_created vm_failed text

  -- A name is taken from the pool, checked once more, and stored; the VM is made the next time.
  unfoldable pub name_from_pool : Str → Action CtrlResult
  unfolding fail_create set_vm_name
  name_from_pool pool =
      check (generate_vm_name env pool) (fail_create (codes "Failed generate vmname")) (λ name.
        get_machine >>= λ m.
        check (vm_ids_by_name env m.spec.provider_ref name)
          (fail_create (codes "Failed to check if VMName already exists in SCVMM"))
          (λ ids.
            if is_empty ids
            then modify (set_vm_name name)
              >> patch_reason_condition env 0 none vm_created vm_creating
                  (codes "Set VMName " ++ name)
            else patch_reason_condition env 0 none vm_created vm_failed (
                codes "VMName already exists in SCVMM, cannot use it; VMName: '"
                ++ (name ++ (codes "', VMIDs: '" ++ (join_ids ids ++ codes "'"))))))

  unfoldable pub send_create : Str → Str → Str → Str → Str → Action CtrlResult
  unfolding with_created create_args fail_create
  send_create name disks options devices channels = get_machine >>= λ m.
      check
        (send_vm env m.spec.provider_ref
          (create_vm (create_args m.spec name disks options devices channels)))
        (fail_create (codes "Failed to create vm"))
        (λ vm.
          modify (with_created name vm)
          >> patch_reason_condition env 10 none vm_created vm_creating
              (codes "Creating VM " ++ name))

  -- An error of an encoder is wrapped with what was encoded.
  unfoldable pub fail_encode : Str → Error → Action CtrlResult
  unfolding fail_create
  fail_encode what e = fail_create (codes "Failed to create vm") (wrap what e)

  unfoldable pub create_named : Str → Action CtrlResult
  unfolding send_create fail_encode
  create_named name = get_machine >>= λ m.
      check (lift (make_disks_json env m.spec.disks))
        (fail_encode (codes "Failed to serialize disks"))
        (λ disks.
          check (lift (env.marshal_options m.spec.vm_options))
            (fail_encode (codes "Failed to serialize vmoptions"))
            (λ options. the_networking >>= λ n.
              check (lift (env.marshal_devices n.devices))
                (fail_encode (codes "Failed to serialize networking"))
                (λ devices.
                  check (lift (env.marshal_fibre_channel m.spec.fibre_channel))
                    (fail_encode (codes "Failed to serialize fibrechannel"))
                    (send_create name disks options devices))))

  unfoldable pub create_machine : Action CtrlResult
  unfolding name_from_pool create_named
  create_machine = do
    m ← get_machine
    if is_empty m.spec.vm_name
        then on_option m.spec.vm_name_from_pool (create_named m.meta.name) name_from_pool
        else create_named m.spec.vm_name
