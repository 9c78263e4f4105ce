-- ===== src/Machine/CloudInit/Attach.antt =====
-- `addCloudInitToVM` and `getBootstrapData`.
use cluster_api_provider_scv.Base.{
  Str, codes, Bool, false, not, ◌&&◌, Option, none, some, [], ◌∷◌, ◌++◌, if◌then◌else◌,
}
use cluster_api_provider_scv.Api.Meta.{message, wrap, find_key}
use cluster_api_provider_scv.Api.Provider.{ScvmmProviderSpec}
use cluster_api_provider_scv.Scvmm.Command.{add_cloud_init}
use cluster_api_provider_scv.Scvmm.Answer.{VmResult}
use cluster_api_provider_scv.Machine.Event.{read, secret_kind}
use cluster_api_provider_scv.Machine.Env.{Env, Cluster, OwnerMachine}
use cluster_api_provider_scv.Machine.Words.{
  vm_created, vm_running, vm_starting, waiting_for_bootstrap_data, waiting_for_control_plane,
  vm_updating_cloud_init,
}
use cluster_api_provider_scv.Machine.Send.{send_vm}
use cluster_api_provider_scv.Machine.Reason.{
  CtrlResult, patch_reason_condition, patch_scvmm_machine, set_machine_condition,
}
use cluster_api_provider_scv.Machine.CloudInit.{write_cloud_init}
use cluster_api_provider_scv.Machine.Action.{
  Action, pure, raise, panics, get_machine, fetch, on_option, check, ◌>>=◌, ◌>>◌,
}

-- `cloudInitDeviceTypeFunctions`
unfoldable pub device_function : Str → Option Str
device_function t = find_key t (
    ([], codes "AddISOToVM")
    ∷ (codes "dvd", codes "AddISOToVM")
    ∷ (codes "floppy", codes "AddFloppyToVM")
    ∷ (codes "scsi", codes "AddVHDToVM")
    ∷ (codes "ide", codes "AddVHDToVM")
    ∷ [])

-- A flag behind a pointer that is set and true.
abbrev pub is_set : Option Bool → Bool
is_set none = false
is_set (some b) = b

module _ (env : Env) where
  unfoldable pub get_bootstrap_data : Str → Str → Action Str
  get_bootstrap_data namespace name =
      check (fetch (λ h. env.get_secret_value h namespace name) (read secret_kind namespace name))
        (λ e. raise (
          wrap
            (codes "failed to retrieve bootstrap data secret for ScvmmMachine "
              ++ (namespace ++ (codes "/" ++ name)))
            e))
        (λ v.
          on_option v
            (raise (message (codes "error retrieving bootstrap data: secret value key is missing")))
            pure)

  -- From the bootstrap data on: the file is written, then the function of the device is called.
  unfoldable pub attach_cloud_init :
      ScvmmProviderSpec → Str → VmResult → Str → Str → Str → Action CtrlResult
  unfolding get_bootstrap_data
  attach_cloud_init provider function vm path namespace secret =
      check (get_bootstrap_data namespace secret)
        (λ e.
          patch_reason_condition env 0 (some e) vm_created waiting_for_bootstrap_data
            (codes "Failed to get bootstrap data"))
        (λ user_data.
          check (write_cloud_init env provider vm.vm_id path user_data)
            (λ e.
              patch_reason_condition env 0 (some e) vm_created waiting_for_bootstrap_data
                (codes "Failed to create cloud init data"))
            (λ _.
              set_machine_condition env (record {
                type = vm_running;
                status = false;
                reason = vm_starting;
                message = codes "VM Starting";
              })
              >> (patch_scvmm_machine env
                  >> (get_machine >>= λ m.
                      check
                        (send_vm env m.spec.provider_ref
                          (add_cloud_init function m.spec.id path provider.cloud_init.device_type))
                        (λ e.
                          patch_reason_condition env 0 (some e) vm_created
                            waiting_for_bootstrap_data (codes "Failed to add iso to vm"))
                        (λ r.
                          patch_reason_condition env 10 none vm_created vm_updating_cloud_init
                            (codes "Adding cloud-init to VM " ++ r.name))))))

  -- The secret of the owning machine, or what it waits for.
  unfoldable pub attach_for_machine :
      Option Cluster → OwnerMachine → ScvmmProviderSpec → Str → VmResult → Str → Action CtrlResult
  unfolding attach_cloud_init
  attach_for_machine cluster machine provider function vm path =
      on_option machine.bootstrap.data_secret_name
        (on_option cluster
          (if machine.is_control_plane
            then patch_reason_condition env 0 none vm_created waiting_for_bootstrap_data []
            else panics (codes "nil Cluster"))
          (λ c.
            if not machine.is_control_plane && not (is_set c.control_plane_initialized)
            then patch_reason_condition env 0 none vm_created waiting_for_control_plane []
            else patch_reason_condition env 0 none vm_created waiting_for_bootstrap_data []))
        (attach_cloud_init provider function vm path machine.meta.namespace)

  unfoldable pub add_cloud_init_to_vm :
      Option Cluster → Option OwnerMachine → ScvmmProviderSpec → VmResult → Str → Action CtrlResult
  unfolding device_function attach_for_machine
  add_cloud_init_to_vm cluster machine provider vm path =
      on_option (device_function provider.cloud_init.device_type)
        (patch_reason_condition env 0 none vm_created waiting_for_bootstrap_data
          (codes "Unknown devicetype " ++ provider.cloud_init.device_type))
        (λ function. get_machine >>= λ m.
          on_option m.spec.bootstrap
            (on_option machine
              (raise (message (codes "No machine and no bootstrap data, CANTHAPPEN")))
              (λ o. attach_for_machine cluster o provider function vm path))
            (λ b.
              on_option b.data_secret_name
                (raise (message (codes "No bootstrap secret, CANTHAPPEN")))
                (attach_cloud_init provider function vm path m.meta.namespace)))
