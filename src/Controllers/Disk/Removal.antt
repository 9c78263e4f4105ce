-- ===== src/Controllers/Disk/Removal.antt =====
-- When the finalizer of a persistent disk goes, and when its reconciliation is called again.
use cluster_api_provider_scv.Base.{
  ℕ, Str, codes, str_eq, Bool, true, false, Option, none, some, ◌∷◌, ◌≡◌, refl, if◌then◌else◌,
}
use cluster_api_provider_scv.Api.Meta.{Error, Result, ok, err, panic, timeout, is_not_found}
use cluster_api_provider_scv.Api.Call.{
  Reply, gives, fails, reply, pure, raise, lift, asks, exchange, reads, changes, ◌>>=◌, ◌>>◌, check,
  bind_result, check_result,
}
use cluster_api_provider_scv.Api.PersistentDisk.{ScvmmPersistentDisk}
use cluster_api_provider_scv.Scvmm.Command.{Command, remove_persistent_disk}
use cluster_api_provider_scv.Scvmm.Answer.{WinrmResult, VmResult}
use cluster_api_provider_scv.Machine.Words.{persistent_disk_finalizer}
use cluster_api_provider_scv.Machine.Send.{the_provider, read_answer}
use cluster_api_provider_scv.Controllers.Disk.{
  History, sent, updated, Env, send_remove, ignore_not_found, free_disk, finish_disk_removal,
  reconcile_found_disk, reconcile_disk,
}

-- The call ends well and asks for no further one.
abbrev pub is_finished : Result (Option ℕ) → Bool
is_finished (ok none) = true
is_finished _ = false

-- SCVMM answers that the disk is not there.
abbrev pub is_gone : Result VmResult → Bool
is_gone (ok vm) = str_eq vm.message (codes "Not Found")
is_gone _ = false

-- An answer of the API server that ends the call well: a disk that is not there counts.
abbrev pub is_settled : {A : Type 0} → Reply A → Bool
is_settled (gives a) = true
is_settled (fails e) = is_not_found e

-- An answer that is ignored or raised leaves the history.
ignored_lem :
    (e : Error) (h : History)
    → ((ignore_not_found e h).1 ≡ h) × (is_finished (ignore_not_found e h).0 ≡ is_not_found e)
unfolding ignore_not_found pure raise
ignored_lem e h = by_kind (is_not_found e)
  where
    by_kind :
        (b : Bool)
        → (((if b then pure {A = Option ℕ} none else raise e) h).1 ≡ h)
          × (is_finished ((if b then pure {A = Option ℕ} none else raise e) h).0 ≡ b)
    by_kind true = (refl, refl)
    by_kind false = (refl, refl)

module _ (env : Env) (old : History) (d : ScvmmPersistentDisk) where
  abbrev pub removal : Command
  removal = remove_persistent_disk d.spec.vm_host d.spec.path d.spec.filename

  abbrev pub removal_result : WinrmResult
  removal_result = env.winrm old (the_provider d.spec.provider_ref) removal

  abbrev pub disk_answer : Result VmResult
  disk_answer = read_answer env.decode_vm (λ v. v.error) removal removal_result

  abbrev pub after_removal : History
  after_removal = sent (the_provider d.spec.provider_ref) removal removal_result ∷ old

  abbrev pub released : ScvmmPersistentDisk
  released = record d {
    meta = record d.meta {
      finalizers = env.remove_finalizer d.meta.finalizers persistent_disk_finalizer;
    };
  }

  -- The command is sent once, and `gone` says whether SCVMM answers that the disk is not there. If it
  -- does, the disk is written without its finalizer, and the call is finished where that write is. If
  -- it does not, nothing is written, and the call fails or asks to be called again.
  abbrev pub Removes : Bool → Result (Option ℕ) × History → Type 0
  Removes true x =
      (x.1 ≡ updated released ∷ after_removal)
      × (is_finished x.0 ≡ is_settled (env.update after_removal released))
  Removes false x = (x.1 ≡ after_removal) × (is_finished x.0 ≡ false)

  Removes-free_disk : Removes true (free_disk env d after_removal)
  unfolding free_disk check exchange reply pure
  Removes-free_disk = by_reply (env.update after_removal released)
    where
      by_reply :
          (r : Reply (Unit {0}))
          → ((check_result
                (reply r, updated released ∷ after_removal)
                ignore_not_found
                (λ _. pure none)).1
              ≡ updated released ∷ after_removal)
            × (is_finished
                  (check_result
                    (reply r, updated released ∷ after_removal)
                    ignore_not_found
                    (λ _. pure none)).0
                ≡ is_settled r)
      by_reply (gives a) = (refl, refl)
      by_reply (fails e) = ignored_lem e (updated released ∷ after_removal)

  Removes-answer :
      (r : Result VmResult)
      → Removes (is_gone r) (bind_result (r, after_removal) (finish_disk_removal env d))
  unfolding finish_disk_removal pure
  Removes-answer (ok vm) = by_message (str_eq vm.message (codes "Not Found"))
    where
      by_message :
          (b : Bool) → Removes b ((if b then free_disk env d else pure (some 10)) after_removal)
      by_message true = Removes-free_disk
      by_message false = (refl, refl)
  Removes-answer (err x) = (refl, refl)
  Removes-answer (panic s) = (refl, refl)
  Removes-answer timeout = (refl, refl)

  -- For a disk that is not being deleted nothing is done, and the call is finished.
  abbrev pub Stands : Bool → Result (Option ℕ) × History → Type 0
  Stands true x = Removes (is_gone disk_answer) x
  Stands false x = (x.1 ≡ old) × (is_finished x.0 ≡ true)

  Stands-reconcile_found_disk : Stands d.meta.deleting (reconcile_found_disk env d old)
  unfolding reconcile_found_disk pure send_remove ◌>>=◌ ◌>>◌ reads changes lift
  Stands-reconcile_found_disk = by_deleting d.meta.deleting
    where
      by_deleting :
          (b : Bool)
          → Stands b
              ((if b then (send_remove env d >>= finish_disk_removal env d) else pure none) old)
      by_deleting true = Removes-answer disk_answer
      by_deleting false = (refl, refl)

-- By the answer of the API server for the disk; where it cannot be read, nothing is done.
abbrev pub Reconciles :
    Env → History → Reply ScvmmPersistentDisk → Result (Option ℕ) × History → Type 0
Reconciles env old (gives d) x = Stands env old d d.meta.deleting x
Reconciles env old (fails e) x = (x.1 ≡ old) × (is_finished x.0 ≡ is_not_found e)

-- If the disk cannot be read, or is read and is not being deleted, reconcile_disk does nothing to
-- SCVMM and the API server, and is finished unless the read failed with another error than that of
-- a missing disk. If it is being deleted, reconcile_disk sends remove_persistent_disk for it once;
-- then, if SCVMM answers Not Found, it writes the disk with the finalizer removed, once, and is
-- finished where that write succeeds or the disk is missing; if SCVMM does not, it writes nothing
-- and fails or asks to be called again.
pub reconcile_disk-Reconciles :
    (env : Env) (namespace name : Str) (old : History)
    → Reconciles env old (env.get_disk namespace name) (reconcile_disk env namespace name old)
unfolding reconcile_disk check asks exchange reply
reconcile_disk-Reconciles env namespace name old = by_reply (env.get_disk namespace name)
  where
    by_reply :
        (r : Reply ScvmmPersistentDisk)
        → Reconciles env old r
            (check_result (reply r, old) ignore_not_found (reconcile_found_disk env))
    by_reply (gives d) = Stands-reconcile_found_disk env old d
    by_reply (fails e) = ignored_lem e old
