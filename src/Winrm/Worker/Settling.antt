-- ===== src/Winrm/Worker/Settling.antt =====
-- What a round of a worker leaves: every command that it took has its one result, but the last one
-- where the worker passes it back, still works on it, or has panicked.
use cluster_api_provider_scv.Base.{
  ℕ, zero, suc, Str, Bool, true, false, not, Option, none, some, ◌++◌, ◌≡◌, ◌⊎◌, inr, is_empty,
  if◌then◌else◌,
}
use cluster_api_provider_scv.Api.Meta.{Error, Result, ok, err, panic, timeout}
use cluster_api_provider_scv.Api.Call.{
  check, check_result, bind_result, pure, ◌>>=◌, ◌>>◌, changes, lift,
}
use cluster_api_provider_scv.Api.Call.Returns.{IsReturn, Returns}
use cluster_api_provider_scv.Api.Call.Keeps.{Keeps, keeps_rules}
use cluster_api_provider_scv.Winrm.Event.{Env, World, Work, WinrmCommand, find_provider}
use cluster_api_provider_scv.Winrm.Connect.{read_reply}
use cluster_api_provider_scv.Winrm.Session.{winrm_return, read_result}
use cluster_api_provider_scv.Winrm.Connect.Returning.{Returns-read_reply}
use cluster_api_provider_scv.Winrm.Worker.Returning.{IsOk}
use cluster_api_provider_scv.Winrm.Worker.Owing.{
  Owes, acts, answers, last_answered, owed_last, Keeps-read_reply,
}

-- At most one command is owed.
abbrev pub OwesOne : World → Type 0
OwesOne w = Owes none w ⊎ ((c : WinrmCommand) × Owes (some c) w)

-- The provider of the command that was answered last is not in the cache.
abbrev pub IsLost : World → Type 0
IsLost w =
    (c : WinrmCommand) × (last_answered (acts w.log) ≡ some c)
    × (find_provider c.provider_ref w.providers ≡ none)

-- By the way a call ends: nothing is owed, or the command that it gives back; at most one where it
-- is still at work, or panics since the provider of its session is lost. No error comes out.
abbrev pub Settles : Result (Option WinrmCommand) × World → Type 0
Settles (ok none, w) = Owes none w
Settles (ok (some c), w) = Owes (some c) w
Settles (err e, w) = ⊥
Settles (panic s, w) = OwesOne w × IsLost w
Settles (timeout, w) = OwesOne w

-- From a state in which `c` is owed the call settles.
abbrev pub SettlesFrom : Option WinrmCommand → Work (Option WinrmCommand) → Type 0
SettlesFrom pending m = (w : World) → Owes pending w → Settles (m w)

-- It settles from a state in which nothing is owed and `c` was answered last.
abbrev pub SettlesAfter : WinrmCommand → Work (Option WinrmCommand) → Type 0
SettlesAfter c m = (w : World) → Owes none w → last_answered (acts w.log) ≡ some c → Settles (m w)

-- The call ends with a value, or is still at work.
abbrev pub IsSteady : {A : Type 0} → Result A → Type 0
IsSteady (ok a) = Unit
IsSteady (err e) = ⊥
IsSteady (panic s) = ⊥
IsSteady timeout = Unit

pub IsSteady-of_ok : {A : Type 0} (r : Result A) → IsOk r → IsSteady r
IsSteady-of_ok (ok a) h = tt
IsSteady-of_ok (err e) h = h
IsSteady-of_ok (panic s) h = h
IsSteady-of_ok timeout h = tt

module _ {A : Type 0} {c : WinrmCommand} where
  pub Settles-check :
      (m : Work A) (g : Error → Work (Option WinrmCommand)) (f : A → Work (Option WinrmCommand))
      → Returns m
      → Keeps (Owes (some c)) m
      → ((e : Error) → SettlesFrom (some c) (g e))
      → ((a : A) → SettlesFrom (some c) (f a))
      → SettlesFrom (some c) (check m g f)
  unfolding check
  Settles-check m g f r k p q w h = by_result (m w) (r.at w) (k.at w h)
    where
      by_result :
          (x : Result A × World) → IsReturn x.0 → Owes (some c) x.1 → Settles (check_result x g f)
      by_result (ok a, v) i o = q a v o
      by_result (err e, v) i o = p e v o
      by_result (panic s, v) i o = elim i [ ]
      by_result (timeout, v) i o = elim i [ ]

  -- A call that gives a value and leaves the debt, or is still at work with it.
  pub Settles-bind :
      (m : Work A) (f : A → Work (Option WinrmCommand)) (w : World)
      → IsSteady (m w).0
      → Owes (some c) (m w).1
      → ((a : A) → SettlesFrom (some c) (f a))
      → Settles ((m >>= f) w)
  unfolding ◌>>=◌
  Settles-bind m f w i o q = by_result (m w) i o
    where
      by_result :
          (x : Result A × World) → IsSteady x.0 → Owes (some c) x.1 → Settles (bind_result x f)
      by_result (ok a, v) i o = q a v o
      by_result (err e, v) i o = elim i [ ]
      by_result (panic s, v) i o = elim i [ ]
      by_result (timeout, v) i o = inr (c, o)

-- The result pays the debt.
pub Settles-winrm_return :
    (c : WinrmCommand) (out errors : Str) (e : Option Error) (k : Work (Option WinrmCommand))
    → SettlesAfter c k
    → SettlesFrom (some c) (winrm_return c.output out errors e >> k)
unfolding winrm_return ◌>>◌ ◌>>=◌ changes
Settles-winrm_return c out errors e k p w h = p _ (answers h) (owed_last _ c h)

pub Settles-pure-none : (c : WinrmCommand) → SettlesAfter c (pure none)
unfolding pure
Settles-pure-none c w h last = h

pub IsSteady-check_result :
    {A B : Type 0} (x : Result A × World) (g : Error → Work B) (f : A → Work B)
    → IsReturn x.0
    → ((e : Error) (w : World) → IsSteady (g e w).0)
    → ((a : A) (w : World) → IsSteady (f a w).0)
    → IsSteady (check_result x g f).0
IsSteady-check_result (ok a, v) g f i p q = q a v
IsSteady-check_result (err e, v) g f i p q = p e v
IsSteady-check_result (panic s, v) g f i p q = elim i [ ]
IsSteady-check_result (timeout, v) g f i p q = elim i [ ]

pub IsSteady-if :
    {A : Type 0} (b : Bool) (m n : Work A) (w : World)
    → IsSteady (m w).0
    → IsSteady (n w).0
    → IsSteady ((if b then m else n) w).0
IsSteady-if true m n w p q = p
IsSteady-if false m n w p q = q

pub IsSteady-read_result :
    (env : Env) (lines : ℕ) (errors : Str) (w : World) → IsSteady (read_result env lines errors w).0
unfolding read_result check pure lift
IsSteady-read_result env zero errors w = tt
IsSteady-read_result env (suc lines) errors w =
    IsSteady-check_result (read_reply env w) _ _ ((Returns-read_reply env).at w) (λ e v. tt)
      (λ out v. IsSteady-if (not (is_empty out.stdout)) _ _ v tt (
        IsSteady-if (is_empty out.stderr) _ _ v tt
          (IsSteady-read_result env lines (errors ++ out.stderr) v)))

pub Keeps-read_result :
    (pending : Option WinrmCommand) (env : Env) (lines : ℕ) (errors : Str)
    → Keeps (Owes pending) (read_result env lines errors)
unfolding read_result
Keeps-read_result pending env zero errors = search (keeps_rules) depth 4
Keeps-read_result pending env (suc lines) errors =
    search (keeps_rules, Keeps-read_reply, λ (more : Str). Keeps-read_result pending env lines more)
      depth 8
