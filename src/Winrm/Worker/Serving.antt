-- ===== src/Winrm/Worker/Serving.antt =====
-- The commands that one session serves: each is answered before the next one is taken.
use cluster_api_provider_scv.Base.{
  codes, ℕ, zero, suc, Bool, true, false, Option, none, some, [], ◌≡◌, refl, inl, inr, is_empty,
  if◌then◌else◌, not, ◌||◌, str_eq, sym, Bool-cases,
}
use cluster_api_provider_scv.Api.Meta.{Result, ok, err, panic, timeout}
use cluster_api_provider_scv.Api.Call.{
  check, pure, ◌>>=◌, on_option, changes, panics, lift, finally, asks, exchange,
}
use cluster_api_provider_scv.Api.Call.Returns.{Returns-exchange}
use cluster_api_provider_scv.Api.Provider.{ScvmmProvider, ScvmmProviderReference}
use cluster_api_provider_scv.Winrm.Event.{
  Env, World, Work, WinrmCommand, find_provider, ref_eq, Arrival, timed_out, closed_channel,
  arrived, closed, note,
}
use cluster_api_provider_scv.Winrm.Event.Matching.{ref_eq→≡}
use cluster_api_provider_scv.Winrm.Hosts.{patch_provider_status}
use cluster_api_provider_scv.Winrm.Session.{
  Reading, complete, broken, read_result, next_arrival, on_arrival, settle, serve, take_arrival,
}
use cluster_api_provider_scv.Winrm.Connect.Returning.{Returns-send_text}
use cluster_api_provider_scv.Winrm.Worker.Owing.{acts, last_answered, takes, Keeps-send_text}
use cluster_api_provider_scv.Winrm.Worker.Settling.{
  OwesOne, Settles, SettlesFrom, SettlesAfter, IsSteady, Settles-check, Settles-bind,
  Settles-winrm_return, Settles-pure-none, IsSteady-read_result, Keeps-read_result,
  IsSteady-check_result,
}

module _ (ref : ScvmmProviderReference) (p : ScvmmProvider) where
  -- A session goes on with a command for its provider that has just arrived.
  abbrev Continues : (WinrmCommand → Work (Option WinrmCommand)) → Type 0
  Continues k = (c : WinrmCommand) → c.provider_ref ≡ ref → SettlesFrom (some c) (k c)

  Settles-mismatch :
      (q : ScvmmProvider) (c : WinrmCommand) (k : WinrmCommand → Work (Option WinrmCommand))
      → Continues k
      → SettlesFrom (some c) (
          if not (ref_eq ref c.provider_ref) || not (str_eq q.resource_version p.resource_version)
          then pure (some c)
          else k c)
  unfolding pure
  Settles-mismatch q c k continues w h = elim (Bool-cases (ref_eq ref c.provider_ref)) [
    | inl same ↦ rw same (by_version (str_eq q.resource_version p.resource_version) same)
    | inr other ↦ rw other h
  ]
    where
      by_version :
          (b : Bool)
          → ref_eq ref c.provider_ref ≡ true
          → Settles ((if not b then pure (some c) else k c) w)
      by_version true same = continues c (sym (ref_eq→≡ ref c.provider_ref same)) w h
      by_version false same = h

  -- The lookup of the provider, which panics where it is gone.
  Settles-found :
      (o : Option ScvmmProvider) (f : ScvmmProvider → Work (Option WinrmCommand)) (w : World)
      (c : WinrmCommand)
      → c.provider_ref ≡ ref
      → last_answered (acts w.log) ≡ some c
      → find_provider ref w.providers ≡ o
      → OwesOne w
      → ((q : ScvmmProvider) → Settles (f q w))
      → Settles (on_option o (panics (codes "nil pointer")) f w)
  unfolding on_option panics
  Settles-found none f w c own last e owed q = (owed, (c, last, rw own e))
  Settles-found (some current) f w c own last e owed q = q current

  Settles-arrival :
      (env : Env) (k : WinrmCommand → Work (Option WinrmCommand)) (c : WinrmCommand)
      → c.provider_ref ≡ ref
      → Continues k
      → SettlesAfter c (next_arrival env >>= on_arrival ref p k)
  unfolding next_arrival on_arrival ◌>>=◌ pure
  Settles-arrival env k c own q w h last = by_arrival (env.arrival w.log)
    where
      by_arrival : (a : Arrival) → Settles (on_arrival ref p k a (take_arrival a w))
      by_arrival timed_out = h
      by_arrival (closed_channel cache) =
          Settles-found (find_provider ref cache) _ _ c own last refl (inl h) (λ current. h)
      by_arrival (arrived next cache) =
          Settles-found (find_provider ref cache) _ _ c own last refl (inr (next, takes next h))
            (λ current. Settles-mismatch current next k q _ (takes next h))

  Settles-if :
      (b : Bool) (m n : Work (Option WinrmCommand)) (c : WinrmCommand)
      → SettlesAfter c m
      → SettlesAfter c n
      → SettlesAfter c (if b then m else n)
  Settles-if true m n c x y = x
  Settles-if false m n c x y = y

  Settles-settle :
      (env : Env) (k : WinrmCommand → Work (Option WinrmCommand)) (c : WinrmCommand) (r : Reading)
      → c.provider_ref ≡ ref
      → Continues k
      → SettlesFrom (some c) (settle env ref p k c r)
  unfolding settle
  Settles-settle env k c (broken errors e) own q =
      Settles-winrm_return c [] errors (some e) (pure none) (Settles-pure-none c)
  Settles-settle env k c (complete out errors) own q =
      Settles-winrm_return c out errors none _
        (Settles-if (is_empty errors) _ _ c (Settles-arrival env k c own q) (Settles-pure-none c))

  pub Settles-serve :
      (env : Env) (lines rounds : ℕ) (c : WinrmCommand)
      → c.provider_ref ≡ ref
      → SettlesFrom (some c) (serve env ref p lines rounds c)
  unfolding serve lift
  Settles-serve env lines zero c own w h = inr (c, h)
  Settles-serve env lines (suc rounds) c own w h =
      Settles-check _ _ _ (Returns-send_text env c.input) (Keeps-send_text (some c) env c.input)
        (λ e. Settles-winrm_return c [] [] (some e) (pure none) (Settles-pure-none c))
        (λ a v o.
          Settles-bind (read_result env lines []) _ v (IsSteady-read_result env lines [] v)
            ((Keeps-read_result (some c) env lines []).at v o)
            (λ r.
              Settles-settle env (serve env ref p lines rounds) c r own
                (Settles-serve env lines rounds)))
        w h

-- Closing the session changes nothing of this.
pub Settles-closed :
    (m : Work (Option WinrmCommand)) (pending : Option WinrmCommand)
    → SettlesFrom pending m
    → SettlesFrom pending (finally m (note closed))
unfolding finally
Settles-closed m pending p w h = by_result (m w) (p w h)
  where
    by_result :
        (x : Result (Option WinrmCommand) × World) → Settles x → Settles (x.0, note closed x.1)
    by_result (ok none, v) o = o
    by_result (ok (some c), v) o = o
    by_result (err e, v) o = o
    by_result (panic s, v) o = o
    by_result (timeout, v) o = o

pub IsSteady-patch_provider_status :
    (env : Env) (p : ScvmmProvider) (w : World) → IsSteady (patch_provider_status env p w).0
unfolding patch_provider_status check asks pure changes
IsSteady-patch_provider_status env p w =
    IsSteady-check_result {B = Unit {0}} (exchange (λ v. env.new_client v.log) (λ v. v) w) _ _
      ((Returns-exchange (λ (v : World). env.new_client v.log) (λ v. v)).at w) (λ e v. tt)
      (λ a v. tt)

pub Settles-on_option :
    {A : Type 0} (pending : Option WinrmCommand) (o : Option A) (m : Work (Option WinrmCommand))
    (f : A → Work (Option WinrmCommand))
    → SettlesFrom pending m
    → ((a : A) → SettlesFrom pending (f a))
    → SettlesFrom pending (on_option o m f)
unfolding on_option
Settles-on_option pending none m f p q = p
Settles-on_option pending (some a) m f p q = q a
