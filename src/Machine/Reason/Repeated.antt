-- ===== src/Machine/Reason/Repeated.antt =====
-- Calls of `patchReasonCondition` one after the other: the backoff in the object that is patched, the
-- wait, and what each call adds to the history.
use cluster_api_provider_scv.Base.{
  ℕ, zero, suc, ◌+◌, ◌*◌, ◌^◌, ◌≤◌, ◌<◌, Str, is_empty, false, none, some, if◌then◌else◌, ◌≡◌, refl,
  ap, inl, inr, Bool-cases, ◌∷◌, ◌∙◌,
}
use cluster_api_provider_scv.Api.Meta.{Result, ok}
use cluster_api_provider_scv.Machine.Event.{History, recorded, patched}
use cluster_api_provider_scv.Machine.Env.{Env}
use cluster_api_provider_scv.Machine.Reason.{
  CtrlResult, next_backoff, finish_reason, reason_event, patch_reason_condition,
}
use cluster_api_provider_scv.Machine.Reason.Bounds.{
  smaller, repeat_reason, repeat_reason_lem, after_event, patch_reason_condition_lem,
}
use cluster_api_provider_scv.Machine.Action.{Action, World}

-- The world after some calls, one after the other.
abbrev pub after_calls : Action CtrlResult → ℕ → World → World
after_calls m zero w = w
after_calls m (suc n) w = (m (after_calls m n w)).1

module _ (env : Env) (requeue : ℕ) (condition reason text : Str) where
  abbrev pub call : Action CtrlResult
  call = patch_reason_condition env requeue none condition reason text

  -- An event where there is a text, and no warning.
  abbrev pub heard : History → History
  heard log = if is_empty text then log else recorded false reason text ∷ log

  heard_lem : (w : World) → after_event env none reason text w ≡ heard w.log
  unfolding reason_event
  heard_lem w = elim (Bool-cases (is_empty text)) [ inl e ↦ rw e refl | inr e ↦ rw e refl ]

  -- A call ends with `wait`, the object has the backoff with `tries`, and it is patched with it, after
  -- the event and with nothing else.
  abbrev pub Waits : ℕ → ℕ → World → Result CtrlResult × World → Type 0
  Waits wait tries before x =
      (x.0 ≡ ok (record { requeue_after = wait }))
      × (x.1.machine.status.backoff ≡ some (record { reason = reason; try = tries; wait = 0 }))
      × (x.1.log ≡ patched x.1.machine ∷ heard before.log)

  module _ (w : World) (starts : w.machine.status.backoff ≡ none) where
    -- The backoff of the object goes through that of the repeated reason.
    backoff_lem :
        (n : ℕ)
        → next_backoff requeue reason (after_calls call n w).machine.status.backoff
          ≡ repeat_reason n requeue reason
    unfolding repeat_reason
    backoff_lem zero = rw starts refl
    backoff_lem (suc n) =
        ap (λ x. next_backoff requeue reason x.1.machine.status.backoff)
          (patch_reason_condition_lem env requeue none condition reason text (after_calls call n w))
        ∙ ap (λ b. next_backoff requeue reason b.0) (backoff_lem n)

    -- For a machine without a backoff, a requeue of 1 to 600 seconds, a reason that is not empty
    -- and n below 2 ^ 27: after n calls of patch_reason_condition without an error, the next one
    -- gives the smaller of 600 and requeue plus 10 for each of the n calls as the wait, whatever
    -- the API server answers; the machine then has a backoff with that reason, n tries and no
    -- waits, and the call adds to the history the event of its text, if it has one, and then a
    -- patch of that machine, and nothing else.
    pub call-Waits :
        (n : ℕ)
        → 0 < requeue
        → requeue ≤ 600
        → is_empty reason ≡ false
        → n < 2 ^ 27
        → Waits
            (smaller (requeue + 10 * n) 600)
            n
            (after_calls call n w)
            (call (after_calls call n w))
    unfolding finish_reason
    call-Waits n pos le named few =
        let steps = backoff_lem n ∙ repeat_reason_lem n requeue reason pos le named few in
        rw
          (
            patch_reason_condition_lem env requeue none condition reason text
                (after_calls call n w),
            steps,
            heard_lem (after_calls call n w),
          )
          (refl, refl, refl)
