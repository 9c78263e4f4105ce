-- ===== src/Machine/Gives.antt =====
-- What a call answers, and what it keeps of the machine: if the machine has P before, the call ends,
-- the machine has P after an answer or an error, and an answer has Q.
use cluster_api_provider_scv.Base.{Bool, true, false, ◌≡◌, refl, if◌then◌else◌}
use cluster_api_provider_scv.Api.Meta.{Error, Result, ok, err, panic, timeout}
use cluster_api_provider_scv.Api.Machine.{ScvmmMachine}
use cluster_api_provider_scv.Machine.Event.{Event, History}
use cluster_api_provider_scv.Machine.Action.{
  World, Action, pure, raise, lift, ask, get_machine, ◌>>=◌, bind_result, check, check_result,
}

abbrev pub IsDone : {A : Type 0} → Result A → Type 0
IsDone timeout = ⊥
IsDone _ = Unit

module _ {A : Type 0} (P : ScvmmMachine → Type 0) (Q : A → Type 0) where
  abbrev pub Post : Result A × World → Type 0
  Post (ok a, w) = P w.machine × Q a
  Post (err e, w) = P w.machine
  Post (panic s, w) = Unit
  Post (timeout, w) = ⊥

  pub record Gives (m : Action A) : Type 0 where
    pub at : (w : World) → P w.machine → Post (m w)

module _ {A : Type 0} (P : ScvmmMachine → Type 0) (Q : A → Type 0) where
  pub Gives-pure : (a : A) → Q a → Gives P Q (pure a)
  unfolding pure
  Gives-pure a q = record { at = λ w p. (p, q) }

  pub Gives-raise : (e : Error) → Gives P Q (raise e)
  unfolding raise
  Gives-raise e = record { at = λ w p. p }

  Post-lift :
      (r : Result A) (w : World) → IsDone r → ((a : A) → Q a) → P w.machine → Post P Q (r, w)
  Post-lift (ok a) w d q p = (p, q a)
  Post-lift (err e) w d q p = p
  Post-lift (panic s) w d q p = tt
  Post-lift timeout w d q p = d

  pub Gives-lift : (r : Result A) → IsDone r → ((a : A) → Q a) → Gives P Q (lift r)
  unfolding lift
  Gives-lift r d q = record { at = λ w p. Post-lift r w d q p }

  pub Gives-ask : (f : History → A) (e : A → Event) → ((a : A) → Q a) → Gives P Q (ask f e)
  unfolding ask
  Gives-ask f e q = record { at = λ w p. (p, q (f w.log)) }

  pub Gives-if :
      (b : Bool) (m n : Action A)
      → (b ≡ true → Gives P Q m)
      → (b ≡ false → Gives P Q n)
      → Gives P Q (if b then m else n)
  Gives-if true m n h k = h refl
  Gives-if false m n h k = k refl

  pub Gives-get_machine :
      (f : ScvmmMachine → Action A)
      → ((m : ScvmmMachine) → P m → Gives P Q (f m))
      → Gives P Q (get_machine >>= f)
  unfolding get_machine ◌>>=◌
  Gives-get_machine f h = record { at = λ w p. (h w.machine p).at w p }

module _ {A B : Type 0} (P : ScvmmMachine → Type 0) (Q : A → Type 0) (R : B → Type 0) where
  Post-bind_result :
      (r : Result A × World) (f : A → Action B)
      → Post P Q r
      → ((a : A) → Q a → Gives P R (f a))
      → Post P R (bind_result r f)
  Post-bind_result (ok a, w) f h k = (k a h.1).at w h.0
  Post-bind_result (err e, w) f h k = h
  Post-bind_result (panic s, w) f h k = tt
  Post-bind_result (timeout, w) f h k = h

  pub Gives-bind :
      (m : Action A) (f : A → Action B)
      → Gives P Q m
      → ((a : A) → Q a → Gives P R (f a))
      → Gives P R (m >>= f)
  unfolding ◌>>=◌
  Gives-bind m f h k = record { at = λ w p. Post-bind_result (m w) f (h.at w p) k }

  Post-check_result :
      (r : Result A × World) (g : Error → Action B) (f : A → Action B)
      → Post P Q r
      → ((e : Error) → Gives P R (g e))
      → ((a : A) → Q a → Gives P R (f a))
      → Post P R (check_result r g f)
  Post-check_result (ok a, w) g f h j k = (k a h.1).at w h.0
  Post-check_result (err e, w) g f h j k = (j e).at w h
  Post-check_result (panic s, w) g f h j k = tt
  Post-check_result (timeout, w) g f h j k = h

  pub Gives-check :
      (m : Action A) (g : Error → Action B) (f : A → Action B)
      → Gives P Q m
      → ((e : Error) → Gives P R (g e))
      → ((a : A) → Q a → Gives P R (f a))
      → Gives P R (check m g f)
  unfolding check
  Gives-check m g f h j k = record { at = λ w p. Post-check_result (m w) g f (h.at w p) j k }
