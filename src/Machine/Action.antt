-- ===== src/Machine/Action.antt =====
-- A call of the controller: it may fail with a Go error or panic, it changes the machine object that
-- its callers share by pointer, and what it does outside is added to the history.
use cluster_api_provider_scv.Base.{ℕ, suc, Str, Option, none, some, List, [], ◌∷◌}
use cluster_api_provider_scv.Api.Meta.{Error, Result, ok, err, panic, timeout}
use cluster_api_provider_scv.Api.Machine.{ScvmmMachine}
use cluster_api_provider_scv.Machine.Event.{Event, History}

pub record World : Type 0 where
  pub machine : ScvmmMachine
  pub log : History

abbrev pub Action : Type 0 → Type 0
Action A = World → Result A × World

module _ {A : Type 0} where
  unfoldable pub pure : A → Action A
  pure a w = (ok a, w)

  unfoldable pub raise : Error → Action A
  raise e w = (err e, w)

  -- a nil pointer is followed
  unfoldable pub panics : Str → Action A
  panics s w = (panic s, w)

  unfoldable pub lift : Result A → Action A
  lift r w = (r, w)

  -- The outside answers by what happened so far, and the exchange is noted.
  unfoldable pub ask : (History → A) → (A → Event) → Action A
  ask f e w = let a = f w.log in (ok a, record w { log = e a ∷ w.log })

unfoldable pub get_machine : Action ScvmmMachine
get_machine w = (ok w.machine, w)

unfoldable pub modify : (ScvmmMachine → ScvmmMachine) → Action (Unit {0})
modify f w = (ok tt, record w { machine = f w.machine })

unfoldable pub emit : Event → Action (Unit {0})
emit e w = (ok tt, record w { log = e ∷ w.log })

module _ {A B : Type 0} where
  abbrev pub bind_result : Result A × World → (A → Action B) → Result B × World
  bind_result (ok a, w) f = f a w
  bind_result (err e, w) f = (err e, w)
  bind_result (panic s, w) f = (panic s, w)
  bind_result (timeout, w) f = (timeout, w)

  abbrev pub check_result :
      Result A × World → (Error → Action B) → (A → Action B) → Result B × World
  check_result (ok a, w) handler f = f a w
  check_result (err e, w) handler f = handler e w
  check_result (panic s, w) handler f = (panic s, w)
  check_result (timeout, w) handler f = (timeout, w)

  infixl 5 ◌>>=◌
  unfoldable pub ◌>>=◌ : Action A → (A → Action B) → Action B
  ◌>>=◌ m f w = bind_result (m w) f

  -- `a, err := m(); if err != nil { return handler(err) }; …`
  unfoldable pub check : Action A → (Error → Action B) → (A → Action B) → Action B
  check m handler f w = check_result (m w) handler f

module _ {B : Type 0} where
  infixl 5 ◌>>◌
  unfoldable pub ◌>>◌ : Action (Unit {0}) → Action B → Action B
  unfolding ◌>>=◌
  m >> k = m >>= λ _. k

-- A write to the API server, and its error.
unfoldable pub write : (History → Option Error) → Event → Action (Unit {0})
write f e w = (elim (f w.log) [ none ↦ ok tt | some x ↦ err x ], record w { log = e ∷ w.log })

-- A read, whose error is the caller's.
unfoldable pub fetch : {A : Type 0} → (History → Result A) → Event → Action A
fetch f e w = (f w.log, record w { log = e ∷ w.log })

-- `for i, x := range xs { … }` where the body may return an error.
unfoldable pub for_each :
    {A : Type 0} → ℕ → List A → (ℕ → A → Action (Unit {0})) → Action (Unit {0})
unfolding pure ◌>>=◌
for_each i [] f = pure tt
for_each i (x ∷ xs) f = f i x >>= λ _. for_each (suc i) xs f

-- The same with the variables that the body changes.
unfoldable pub fold_each : {A S : Type 0} → ℕ → List A → S → (ℕ → A → S → Action S) → Action S
unfolding pure ◌>>=◌
fold_each i [] s f = pure s
fold_each i (x ∷ xs) s f = f i x s >>= λ s'. fold_each (suc i) xs s' f

-- `if x == nil { … } else { … }`
unfoldable pub on_option : {A B : Type 0} → Option A → Action B → (A → Action B) → Action B
on_option none m f = m
on_option (some a) m f = f a
