-- ===== src/Machine/Reason/Bounds.antt =====
-- How long `patchReasonCondition` waits, and which errors it returns.
use cluster_api_provider_scv.Base.{
  ℕ, zero, suc, ◌+◌, ◌*◌, ◌^◌, ◌≤◌, ◌<◌, Str, str_eq_refl, is_empty, false, Bool, Option, none,
  some, ltb, if◌then◌else◌, ◌≡◌, refl, arith, inl, inr, Option-cases, ◌∷◌,
}
use cluster_api_provider_scv.Api.Meta.{Error, Result, ok}
use cluster_api_provider_scv.Api.Machine.{ScvmmMachineBackoff}
use cluster_api_provider_scv.Api.Machine.{ScvmmMachine}
use cluster_api_provider_scv.Machine.Event.{History, recorded, patched}
use cluster_api_provider_scv.Machine.Env.{Env}
use cluster_api_provider_scv.Machine.Reason.{
  CtrlResult, add32, mul32, lt32, cap_requeue, step_backoff, next_backoff, finish_reason,
  reason_event, emit_reason, set_machine_condition, patch_scvmm_machine, patch_reason_condition,
}
use cluster_api_provider_scv.Machine.Action.{
  World, pure, lift, get_machine, modify, emit, write, on_option, check, ◌>>=◌, ◌>>◌,
}

-- How often the reason of a backoff came again.
abbrev pub tries : Option ScvmmMachineBackoff → ℕ
tries none = 0
tries (some b) = b.try

-- The backoff and the wait after a reason has come n more times.
unfoldable pub repeat_reason : ℕ → ℕ → Str → Option ScvmmMachineBackoff × ℕ
repeat_reason zero requeue reason = next_backoff requeue reason none
repeat_reason (suc n) requeue reason =
    next_backoff requeue reason (repeat_reason n requeue reason).0

-- A wait of at most 600 seconds stays at most 600, while the count of tries is far from its bound.
pub next_backoff-le :
    (requeue : ℕ) (reason : Str) (b : Option ScvmmMachineBackoff)
    → requeue ≤ 600
    → tries b < 2 ^ 27
    → (next_backoff requeue reason b).1 ≤ 600
unfolding next_backoff step_backoff cap_requeue add32 mul32 lt32
next_backoff-le requeue reason none h k = ground arith
next_backoff-le requeue reason (some b) h k = ground arith

abbrev pub smaller : ℕ → ℕ → ℕ
smaller a b = if ltb b a then b else a

pub repeat_reason_lem :
    (n requeue : ℕ) (reason : Str)
    → 0 < requeue
    → requeue ≤ 600
    → is_empty reason ≡ false
    → n < 2 ^ 27
    → repeat_reason n requeue reason
      ≡ (some (record { reason = reason; try = n; wait = 0 }), smaller (requeue + 10 * n) 600)
unfolding repeat_reason next_backoff step_backoff cap_requeue add32 mul32 lt32
repeat_reason_lem zero requeue reason p h e k = ground arith
repeat_reason_lem (suc n) requeue reason p h e k =
    ground (arith, repeat_reason_lem n requeue reason, str_eq_refl reason)

-- The history with the event, if there is one.
abbrev pub logged : Str → Option (Bool × Str) → History → History
logged reason none h = h
logged reason (some (warns, text)) h = recorded warns reason text ∷ h

module _ (env : Env) where
  abbrev pub after_event : Option Error → Str → Str → World → History
  after_event e reason text w = logged reason (reason_event env e text) w.log

  emit_reason_lem :
      (e : Option Error) (reason text : Str) (w : World)
      → emit_reason env e reason text w ≡ (ok tt, record w { log = after_event e reason text w })
  unfolding emit_reason on_option emit pure
  emit_reason_lem e reason text w = by_event (reason_event env e text)
    where
      by_event :
          (o : Option (Bool × Str))
          → on_option o (pure tt) (λ v. emit (recorded v.0 reason v.1)) w
            ≡ (ok tt, record w { log = logged reason o w.log })
      by_event none = refl
      by_event (some v) = refl

  patch_then_lem :
      (r : Result CtrlResult) (w : World)
      → check (patch_scvmm_machine env) (λ _. lift r) (λ _. lift r) w
        ≡ (r, record w { log = patched w.machine ∷ w.log })
  unfolding check lift patch_scvmm_machine write get_machine ◌>>=◌
  patch_then_lem r w = elim (Option-cases (env.patch_machine w.log w.machine)) [
    | inl h ↦ rw h refl
    | inr (x, h) ↦ rw h refl
  ]

module _ (env : Env) (requeue : ℕ) (e : Option Error) (condition reason text : Str)
    (w : World) where
  -- What the machine's status becomes.
  abbrev pub noted : ScvmmMachine
  noted = record (w.machine) {
    status = record (w.machine.status) {
      conditions =
          env.set_condition w.machine.status.conditions
            (record { type = condition; status = false; reason = reason; message = text });
      backoff = (next_backoff requeue reason w.machine.status.backoff).0;
    };
  }

  -- For every answer of the API server: what the call gives, what becomes of the machine, and what it
  -- adds to the history.
  pub patch_reason_condition_lem : patch_reason_condition env requeue e condition reason text w ≡ (
    finish_reason (next_backoff requeue reason w.machine.status.backoff).1 e reason,
    record w { machine = noted; log = patched noted ∷ after_event env e reason text w },
  )
  unfolding patch_reason_condition set_machine_condition modify get_machine ◌>>=◌ ◌>>◌
  patch_reason_condition_lem = rw (emit_reason_lem env e reason text w) (patch_then_lem env _ _)
