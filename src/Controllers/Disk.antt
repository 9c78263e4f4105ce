-- ===== src/Controllers/Disk.antt =====
-- internal/controllers/scvmmpersistentdisk_controller.go: a persistent disk that is being deleted.
pub mod Removal
use cluster_api_provider_scv.Base.{
  ℕ, Str, codes, str_eq, Option, none, some, List, [], ◌∷◌, if◌then◌else◌,
}
use cluster_api_provider_scv.Api.Meta.{Error, not_found, is_not_found, ok}
use cluster_api_provider_scv.Api.Call.{
  Call, Reply, gives, fails, pure, raise, lift, asks, exchange, reads, changes, ◌>>=◌, ◌>>◌, check,
}
use cluster_api_provider_scv.Api.Provider.{ScvmmProviderReference}
use cluster_api_provider_scv.Api.PersistentDisk.{ScvmmPersistentDisk}
use cluster_api_provider_scv.Scvmm.Command.{Command, remove_persistent_disk}
use cluster_api_provider_scv.Scvmm.Answer.{WinrmResult, VmResult}
use cluster_api_provider_scv.Machine.Words.{persistent_disk_finalizer}
use cluster_api_provider_scv.Machine.Send.{the_provider, read_answer}

pub data Event : Type 0 where
  sent : ScvmmProviderReference → Command → WinrmResult → Event
  updated : ScvmmPersistentDisk → Event

abbrev pub History : Type 0
History = List Event

pub record Env : Type 0 where
  pub get_disk : Str → Str → Reply ScvmmPersistentDisk  -- namespace and name
  pub winrm : History → ScvmmProviderReference → Command → WinrmResult
  pub decode_vm : Str → Option VmResult
  pub update : History → ScvmmPersistentDisk → Reply (Unit {0})
  pub remove_finalizer : List Str → Str → List Str

-- `sendWinrmCommand` with the command "RemovePersistentDisk"
unfoldable pub send_remove : Env → ScvmmPersistentDisk → Call History VmResult
send_remove env d =
    let ref = the_provider d.spec.provider_ref in
    let c = remove_persistent_disk d.spec.vm_host d.spec.path d.spec.filename in
    reads (λ h. env.winrm h ref c) >>= λ r.
    changes (λ h. sent ref c r ∷ h) >> lift (read_answer env.decode_vm (λ v. v.error) c r)

-- `client.IgnoreNotFound`
unfoldable pub ignore_not_found : Error → Call History (Option ℕ)
ignore_not_found e = if is_not_found e then pure none else raise e

-- `controllerutil.RemoveFinalizer` and the update.
unfoldable pub free_disk : Env → ScvmmPersistentDisk → Call History (Option ℕ)
unfolding ignore_not_found
free_disk env d =
    let d' = record d {
      meta = record d.meta {
        finalizers = env.remove_finalizer d.meta.finalizers persistent_disk_finalizer;
      };
    } in
    check (exchange (λ h. env.update h d') (λ h. updated d' ∷ h)) ignore_not_found (λ _. pure none)

-- What is done with the answer of SCVMM.
unfoldable pub finish_disk_removal : Env → ScvmmPersistentDisk → VmResult → Call History (Option ℕ)
unfolding free_disk
finish_disk_removal env d vm =
    if str_eq vm.message (codes "Not Found") then free_disk env d else pure (some 10)

unfoldable pub reconcile_found_disk : Env → ScvmmPersistentDisk → Call History (Option ℕ)
unfolding send_remove finish_disk_removal
reconcile_found_disk env d =
    if d.meta.deleting then (send_remove env d >>= finish_disk_removal env d) else pure none

-- `Reconcile`; the answer is the seconds after which it is called again.
unfoldable pub reconcile_disk : Env → Str → Str → Call History (Option ℕ)
unfolding ignore_not_found reconcile_found_disk
reconcile_disk env namespace name =
    check (asks (λ h. env.get_disk namespace name)) ignore_not_found (reconcile_found_disk env)
