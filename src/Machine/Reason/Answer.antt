-- ===== src/Machine/Reason/Answer.antt =====
-- What `patchReasonCondition` returns to the controller runtime.
use cluster_api_provider_scv.Base.{
  ℕ, ◌^◌, ◌≤◌, ◌<◌, Str, true, false, Option, none, some, ◌≡◌, refl, arith, inl, inr, Bool-cases,
}
use cluster_api_provider_scv.Api.Meta.{Error, is_script_error, wrap, Result, ok, err}
use cluster_api_provider_scv.Machine.Env.{Env}
use cluster_api_provider_scv.Machine.Action.{World}
use cluster_api_provider_scv.Machine.Reason.{
  CtrlResult, lt32, finish_reason, patch_reason_condition,
}
use cluster_api_provider_scv.Machine.Reason.Bounds.{
  tries, next_backoff-le, patch_reason_condition_lem,
}

-- An error of a script is tried again after one to ten minutes, another error is returned, wrapped
-- with the reason, and without an error the wait is at most ten minutes.
abbrev pub IsAnswer : Option Error → Str → Result CtrlResult → Type 0
IsAnswer none reason (ok r) = r.requeue_after ≤ 600
IsAnswer (some e) reason (ok r) =
    (is_script_error e ≡ true) × (60 ≤ r.requeue_after) × (r.requeue_after ≤ 600)
IsAnswer (some e) reason (err f) = (is_script_error e ≡ false) × (f ≡ wrap reason e)
IsAnswer _ reason _ = ⊥

finish_reason-IsAnswer :
    (requeue : ℕ) (e : Option Error) (reason : Str)
    → requeue ≤ 600
    → IsAnswer e reason (finish_reason requeue e reason)
unfolding finish_reason lt32
finish_reason-IsAnswer requeue none reason h = h
finish_reason-IsAnswer requeue (some e) reason h = elim (Bool-cases (is_script_error e)) [
  | inl s ↦ rw s (s, ground arith, ground arith)
  | inr s ↦ rw s (s, refl)
]

-- For a requeue of at most 600 seconds and a backoff of fewer than 2 ^ 27 tries,
-- patch_reason_condition answers thus, whatever the API server answers: without an error a wait of
-- at most 600 seconds, for an error of a script a wait of 60 to 600 seconds, and for another error
-- that error wrapped with the reason.
pub patch_reason_condition-IsAnswer :
    (env : Env) (requeue : ℕ) (e : Option Error) (condition reason text : Str) (w : World)
    → requeue ≤ 600
    → tries w.machine.status.backoff < 2 ^ 27
    → IsAnswer e reason (patch_reason_condition env requeue e condition reason text w).0
patch_reason_condition-IsAnswer env requeue e condition reason text w h k =
    rw (patch_reason_condition_lem env requeue e condition reason text w) (
      finish_reason-IsAnswer _ e reason
        (next_backoff-le requeue reason w.machine.status.backoff h k))
