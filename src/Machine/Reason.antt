-- ===== src/Machine/Reason.antt =====
-- `patchReasonCondition` and `patchScvmmMachine`: the condition, the backoff and the time of the
-- next reconciliation. The Prometheus counters are left out.
pub mod Bounds
pub mod Repeated
pub mod Answer
use cluster_api_provider_scv.Base.{
  ℕ, ◌+◌, ◌*◌, ◌%◌, ◌^◌, Str, codes, str_eq, is_empty, Bool, true, false, not, Option, none, some,
  ltb, ◌==◌, if◌then◌else◌,
}
use cluster_api_provider_scv.Api.Meta.{Error, is_script_error, wrap, Result, ok, err}
use cluster_api_provider_scv.Api.Machine.{ScvmmMachine, ScvmmMachineBackoff, ScvmmCondition}
use cluster_api_provider_scv.Machine.Event.{Event, recorded, patched}
use cluster_api_provider_scv.Machine.Env.{Env}
use cluster_api_provider_scv.Machine.Action.{
  Action, pure, raise, lift, get_machine, modify, emit, write, on_option, check, ◌>>=◌, ◌>>◌,
}

-- `ctrl.Result`: the int32 number of seconds of `RequeueAfter`, 0 for none.
pub record CtrlResult : Type 0 where
  pub requeue_after : ℕ

abbrev pub done : CtrlResult
done = record { requeue_after = 0 }

-- int32 arithmetic on bit patterns.
unfoldable pub add32 : ℕ → ℕ → ℕ
add32 a b = (a + b) % 2 ^ 32

unfoldable pub mul32 : ℕ → ℕ → ℕ
mul32 a b = (a * b) % 2 ^ 32

unfoldable pub lt32 : ℕ → ℕ → Bool
lt32 a b = ltb ((a + 2 ^ 31) % 2 ^ 32) ((b + 2 ^ 31) % 2 ^ 32)

-- `if requeue > 600 { requeue = 600 }`
unfoldable pub cap_requeue : ℕ → ℕ
unfolding lt32
cap_requeue r = if lt32 600 r then 600 else r

-- The new backoff and the new number of seconds, for a number that is not 0.
unfoldable pub step_backoff : ℕ → Str → Option ScvmmMachineBackoff → Option ScvmmMachineBackoff × ℕ
unfolding add32 mul32 cap_requeue
step_backoff requeue reason none =
    if is_empty reason
    then (none, requeue)
    else (some (record { reason = reason; try = 0; wait = 0 }), requeue)
step_backoff requeue reason (some b) =
    if is_empty reason
    then (some (record b { wait = add32 b.wait 1 }), cap_requeue (add32 requeue (mul32 10 b.try)))
    else if str_eq b.reason reason
    then (
      some (record b { try = add32 b.try 1 }),
      cap_requeue (add32 requeue (mul32 10 (add32 b.try 1))),
    )
    else (some (record { reason = reason; try = 0; wait = 0 }), requeue)

unfoldable pub next_backoff : ℕ → Str → Option ScvmmMachineBackoff → Option ScvmmMachineBackoff × ℕ
unfolding step_backoff
next_backoff requeue reason b = if requeue == 0 then (b, requeue) else step_backoff requeue reason b

-- What is returned: an error that is no script error, else the time to wait.
unfoldable pub finish_reason : ℕ → Option Error → Str → Result CtrlResult
unfolding lt32
finish_reason requeue none reason = ok (record { requeue_after = requeue })
finish_reason requeue (some e) reason =
    if is_script_error e
    then ok (record { requeue_after = if lt32 requeue 60 then 60 else requeue })
    else err (wrap reason e)

-- `fmt.Sprintf(message, args...)` is written out by the caller: it is "" where the format is "". The
-- event is a warning if there is an error.
unfoldable pub reason_event : Env → Option Error → Str → Option (Bool × Str)
reason_event env none text = if is_empty text then none else some (false, text)
reason_event env (some e) text = some (true, if is_empty text then env.error_text e else text)

module _ (env : Env) where
  unfoldable pub patch_scvmm_machine : Action (Unit {0})
  patch_scvmm_machine = do m ← get_machine; write (λ h. env.patch_machine h m) (patched m)

  unfoldable pub set_machine_condition : ScvmmCondition → Action (Unit {0})
  set_machine_condition c = modify λ m. record m {
    status = record (m.status) { conditions = env.set_condition m.status.conditions c };
  }

  unfoldable pub emit_reason : Option Error → Str → Str → Action (Unit {0})
  unfolding reason_event
  emit_reason e reason text =
      on_option (reason_event env e text) (pure tt) (λ v. emit (recorded v.0 reason v.1))

  -- An error of the patch is logged and dropped.
  unfoldable pub patch_reason_condition : ℕ → Option Error → Str → Str → Str → Action CtrlResult
  patch_reason_condition requeue e condition reason text = do
    emit_reason e reason text
    set_machine_condition
        (record { type = condition; status = false; reason = reason; message = text })
    m ← get_machine
    let next = next_backoff requeue reason m.status.backoff
    modify (λ m'. record m' { status = record (m'.status) { backoff = next.0 } })
    check patch_scvmm_machine (λ _. lift (finish_reason next.1 e reason))
        (λ _. lift (finish_reason next.1 e reason))
