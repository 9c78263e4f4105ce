-- ===== src/Winrm/Session/Ending.antt =====
-- When the loop that reads the output of a command ends.
use cluster_api_provider_scv.Base.{
  codes, ℕ, zero, suc, ◌<◌, ◌||◌, not, Str, Bool, true, false, ◌∷◌, ◌++◌, ◌≡◌, refl, is_empty,
  if◌then◌else◌, arith,
}
use cluster_api_provider_scv.Api.Meta.{Result, ok, err, panic, timeout, message}
use cluster_api_provider_scv.Api.Call.{
  Reply, gives, fails, reply, pure, check, check_result, exchange,
}
use cluster_api_provider_scv.Winrm.Event.{Env, History, World, Output, read_output, note}
use cluster_api_provider_scv.Winrm.Connect.{read_reply}
use cluster_api_provider_scv.Winrm.Session.{Reading, complete, broken, read_result}

-- An answer with output on stdout, with nothing at all, or with an error ends the loop.
abbrev pub is_final : Reply Output → Bool
is_final (gives out) = not (is_empty out.stdout) || is_empty out.stderr
is_final (fails e) = true

-- The history after some more reads.
abbrev pub after_reads : ℕ → History → History
after_reads zero h = h
after_reads (suc k) h = after_reads k (read_output ∷ h)

-- The call ends with a reading.
abbrev pub Ends : Result Reading → Type 0
Ends (ok r) = Unit
Ends (err e) = ⊥
Ends (panic s) = ⊥
Ends timeout = ⊥

Ends-if :
    (a b : Bool) (m : World → Result Reading × World) (w : World) (x y : Reading)
    → ((a || b) ≡ false → Ends (m w).0)
    → Ends ((if a then pure x else (if b then pure y else m)) w).0
unfolding pure
Ends-if true b m w x y h = tt
Ends-if false true m w x y h = tt
Ends-if false false m w x y h = h refl

module _ (env : Env) (lines : ℕ) (errors : Str) (w : World) where
  Ends-answer :
      (r : Reply Output)
      → (is_final r ≡ false
          → (more : Str) → Ends (read_result env lines more (note read_output w)).0)
      → Ends
          (check_result
            (reply r, note read_output w)
            (λ e. pure (broken errors e))
            (λ out.
              if not (is_empty out.stdout)
              then pure (complete out.stdout errors)
              else if is_empty out.stderr
              then pure (broken errors (message (codes "Timeout reading winrm output")))
              else read_result env lines (errors ++ out.stderr))).0
  unfolding reply pure
  Ends-answer (gives out) h =
      Ends-if (not (is_empty out.stdout)) (is_empty out.stderr)
        (read_result env lines (errors ++ out.stderr)) (note read_output w) _ _ (λ e. h e _)
  Ends-answer (fails e) h = tt

  Ends-round :
      (is_final (env.read w.log) ≡ false
        → (more : Str) → Ends (read_result env lines more (note read_output w)).0)
      → Ends (read_result env (suc lines) errors w).0
  unfolding read_result read_reply check exchange
  Ends-round h = Ends-answer (env.read w.log) h

-- If the read after k others gives output, or nothing at all, or an error, and the rounds are more
-- than k, read_result ends with a reading.
pub read_result-Ends :
    (env : Env) (lines k : ℕ) (errors : Str) (w : World)
    → k < lines
    → is_final (env.read (after_reads k w.log)) ≡ true
    → Ends (read_result env lines errors w).0
read_result-Ends env zero k errors w lt h = absurd (omega arith)
read_result-Ends env (suc lines) zero errors w lt h = Ends-round env lines errors w (λ e more. cc)
read_result-Ends env (suc lines) (suc k) errors w lt h =
    Ends-round env lines errors w
      (λ e more. read_result-Ends env lines k more (note read_output w) (omega arith) h)
