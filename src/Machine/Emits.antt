-- ===== src/Machine/Emits.antt =====
-- Which events a call may add to the history, whatever the outside answers: one rule for each way
-- to build a call.
use mathlib.Core.List.{append_assoc}
use cluster_api_provider_scv.Base.{
  ℕ, suc, Bool, true, false, Option, none, some, List, [], ◌∷◌, ◌++◌, ◌≡◌, refl, All, All-append,
  if◌then◌else◌, Str,
}
use cluster_api_provider_scv.Api.Meta.{Error, Result, ok, err, panic, timeout}
use cluster_api_provider_scv.Api.Machine.{ScvmmMachine}
use cluster_api_provider_scv.Machine.Event.{Event, History}
use cluster_api_provider_scv.Machine.Action.{
  World, Action, pure, raise, panics, lift, ask, get_machine, modify, emit, ◌>>=◌, ◌>>◌, check,
  bind_result, check_result, write, fetch, for_each, fold_each, on_option,
}

-- The newer history is the older one with allowed events in front.
abbrev pub Extends : (Event → Bool) → History → History → Type 0
Extends allowed new old = (es : List Event) × (new ≡ es ++ old) × All (λ e. allowed e ≡ true) es

pub Extends-refl : (allowed : Event → Bool) (h : History) → Extends allowed h h
Extends-refl allowed h = ([], refl, tt)

pub Extends-trans :
    (allowed : Event → Bool) (a b c : History)
    → Extends allowed a b
    → Extends allowed b c
    → Extends allowed a c
Extends-trans allowed a b c (es, p, h) (fs, q, k) =
    (es ++ fs, rw (p, q, append_assoc es fs c), All-append _ es fs h k)

pub record Emits {A : Type 0} (allowed : Event → Bool) (m : Action A) : Type 0 where
  pub at : (w : World) → Extends allowed (m w).1.log w.log

module _ {A : Type 0} {allowed : Event → Bool} where
  pub Emits-pure : (a : A) → Emits allowed (pure a)
  unfolding pure
  Emits-pure a = record { at = λ w. Extends-refl allowed w.log }

  pub Emits-raise : (e : Error) → Emits allowed (raise {A = A} e)
  unfolding raise
  Emits-raise e = record { at = λ w. Extends-refl allowed w.log }

  pub Emits-panics : (s : Str) → Emits allowed (panics {A = A} s)
  unfolding panics
  Emits-panics s = record { at = λ w. Extends-refl allowed w.log }

  pub Emits-lift : (r : Result A) → Emits allowed (lift r)
  unfolding lift
  Emits-lift r = record { at = λ w. Extends-refl allowed w.log }

  pub Emits-ask :
      (f : History → A) (e : A → Event) → ((a : A) → allowed (e a) ≡ true) → Emits allowed (ask f e)
  unfolding ask
  Emits-ask f e h = record { at = λ w. (e (f w.log) ∷ [], refl, (h (f w.log), tt)) }

  pub Emits-fetch :
      (f : History → Result A) (e : Event) → allowed e ≡ true → Emits allowed (fetch f e)
  unfolding fetch
  Emits-fetch f e h = record { at = λ w. (e ∷ [], refl, (h, tt)) }

  pub Emits-if :
      (b : Bool) (m n : Action A)
      → Emits allowed m
      → Emits allowed n
      → Emits allowed (if b then m else n)
  Emits-if true m n p q = p
  Emits-if false m n p q = q

  -- The branch that a test takes.
  pub Emits-if_true :
      (b : Bool) (m n : Action A) → b ≡ true → Emits allowed m → Emits allowed (if b then m else n)
  Emits-if_true b m n h p = rw h p

  pub Emits-if_false :
      (b : Bool) (m n : Action A) → b ≡ false → Emits allowed n → Emits allowed (if b then m else n)
  Emits-if_false b m n h p = rw h p

  -- A call that reads the machine first, on the machine that it finds.
  pub Extends-get_machine :
      (f : ScvmmMachine → Action A) (w : World)
      → Emits allowed (f w.machine)
      → Extends allowed ((get_machine >>= f) w).1.log w.log
  unfolding get_machine ◌>>=◌
  Extends-get_machine f w h = h.at w

module _ {allowed : Event → Bool} where
  pub Emits-get_machine : Emits allowed get_machine
  unfolding get_machine
  Emits-get_machine = record { at = λ w. Extends-refl allowed w.log }

  pub Emits-modify : (f : ScvmmMachine → ScvmmMachine) → Emits allowed (modify f)
  unfolding modify
  Emits-modify f = record { at = λ w. Extends-refl allowed w.log }

  pub Emits-emit : (e : Event) → allowed e ≡ true → Emits allowed (emit e)
  unfolding emit
  Emits-emit e h = record { at = λ w. (e ∷ [], refl, (h, tt)) }

  pub Emits-write :
      (f : History → Option Error) (e : Event) → allowed e ≡ true → Emits allowed (write f e)
  unfolding write
  Emits-write f e h = record { at = λ w. (e ∷ [], refl, (h, tt)) }

module _ {A B : Type 0} {allowed : Event → Bool} where
  Extends-bind_result :
      (r : Result A × World) (f : A → Action B) (old : History)
      → Extends allowed r.1.log old
      → ((a : A) → Emits allowed (f a))
      → Extends allowed (bind_result r f).1.log old
  Extends-bind_result (ok a, w) f old h k = Extends-trans allowed _ _ _ ((k a).at w) h
  Extends-bind_result (err e, w) f old h k = h
  Extends-bind_result (panic s, w) f old h k = h
  Extends-bind_result (timeout, w) f old h k = h

  Extends-check_result :
      (r : Result A × World) (g : Error → Action B) (f : A → Action B) (old : History)
      → Extends allowed r.1.log old
      → ((e : Error) → Emits allowed (g e))
      → ((a : A) → Emits allowed (f a))
      → Extends allowed (check_result r g f).1.log old
  Extends-check_result (ok a, w) g f old h j k = Extends-trans allowed _ _ _ ((k a).at w) h
  Extends-check_result (err e, w) g f old h j k = Extends-trans allowed _ _ _ ((j e).at w) h
  Extends-check_result (panic s, w) g f old h j k = h
  Extends-check_result (timeout, w) g f old h j k = h

  Extends-check_ok :
      (r : Result A × World) (g : Error → Action B) (f : A → Action B) (old : History)
      → Extends allowed r.1.log old
      → ((e : Error) → Emits allowed (g e))
      → ((a : A) → r.0 ≡ ok a → Emits allowed (f a))
      → Extends allowed (check_result r g f).1.log old
  Extends-check_ok (ok a, w) g f old h j k = Extends-trans allowed _ _ _ ((k a refl).at w) h
  Extends-check_ok (err e, w) g f old h j k = Extends-trans allowed _ _ _ ((j e).at w) h
  Extends-check_ok (panic s, w) g f old h j k = h
  Extends-check_ok (timeout, w) g f old h j k = h

  -- The same where the answer that the first call gives is known.
  pub Extends-check :
      (m : Action A) (g : Error → Action B) (f : A → Action B) (w : World)
      → Emits allowed m
      → ((e : Error) → Emits allowed (g e))
      → ((a : A) → (m w).0 ≡ ok a → Emits allowed (f a))
      → Extends allowed (check m g f w).1.log w.log
  unfolding check
  Extends-check m g f w h j k = Extends-check_ok (m w) g f w.log (h.at w) j k

  pub Emits-bind :
      (m : Action A) (f : A → Action B)
      → Emits allowed m
      → ((a : A) → Emits allowed (f a))
      → Emits allowed (m >>= f)
  unfolding ◌>>=◌
  Emits-bind m f p q = record { at = λ w. Extends-bind_result (m w) f w.log (p.at w) q }

  pub Emits-check :
      (m : Action A) (g : Error → Action B) (f : A → Action B)
      → Emits allowed m
      → ((e : Error) → Emits allowed (g e))
      → ((a : A) → Emits allowed (f a))
      → Emits allowed (check m g f)
  unfolding check
  Emits-check m g f p q k = record { at = λ w. Extends-check_result (m w) g f w.log (p.at w) q k }

module _ {B : Type 0} {allowed : Event → Bool} where
  pub Emits-then :
      (m : Action (Unit {0})) (k : Action B)
      → Emits allowed m
      → Emits allowed k
      → Emits allowed (m >> k)
  unfolding ◌>>◌
  Emits-then m k p q = Emits-bind m (λ _. k) p (λ _. q)

pub Emits-for_each :
    {A : Type 0} {allowed : Event → Bool} (i : ℕ) (xs : List A) (f : ℕ → A → Action (Unit {0}))
    → ((j : ℕ) (x : A) → Emits allowed (f j x))
    → Emits allowed (for_each i xs f)
unfolding for_each
Emits-for_each i [] f h = Emits-pure tt
Emits-for_each i (x ∷ xs) f h = Emits-bind _ _ (h i x) (λ _. Emits-for_each (suc i) xs f h)

pub Emits-fold_each :
    {A S : Type 0} {allowed : Event → Bool} (i : ℕ) (xs : List A) (s : S) (f : ℕ → A → S → Action S)
    → ((j : ℕ) (x : A) (t : S) → Emits allowed (f j x t))
    → Emits allowed (fold_each i xs s f)
unfolding fold_each
Emits-fold_each i [] s f h = Emits-pure s
Emits-fold_each i (x ∷ xs) s f h =
    Emits-bind _ _ (h i x s) (λ s'. Emits-fold_each (suc i) xs s' f h)

pub Emits-on_option :
    {A B : Type 0} {allowed : Event → Bool} (o : Option A) (m : Action B) (f : A → Action B)
    → Emits allowed m
    → ((a : A) → Emits allowed (f a))
    → Emits allowed (on_option o m f)
unfolding on_option
Emits-on_option none m f p q = p
Emits-on_option (some a) m f p q = q a

pub ruleset emits_rules = (
  Emits-pure, Emits-raise, Emits-panics, Emits-lift, Emits-ask, Emits-fetch, Emits-if,
  Emits-get_machine, Emits-modify, Emits-emit, Emits-write, Emits-bind, Emits-check, Emits-then,
  Emits-for_each, Emits-fold_each, Emits-on_option,
)
