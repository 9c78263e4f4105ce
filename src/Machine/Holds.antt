-- ===== src/Machine/Holds.antt =====
-- What a call keeps of the machine's metadata, in the machine and in every patch that it writes: one
-- rule for each way to build a call.
use cluster_api_provider_scv.Base.{
  Bool, true, false, Option, none, some, [], ◌∷◌, ◌≡◌, refl, if◌then◌else◌, ap, ◌∙◌,
}
use cluster_api_provider_scv.Api.Meta.{ObjectMeta, Error, Result, ok, err, panic, timeout}
use cluster_api_provider_scv.Api.Machine.{ScvmmMachine}
use cluster_api_provider_scv.Machine.Event.{Event, History, patched}
use cluster_api_provider_scv.Machine.Env.{Env}
use cluster_api_provider_scv.Machine.Reason.{patch_scvmm_machine}
use cluster_api_provider_scv.Machine.Action.{
  World, Action, pure, raise, lift, ask, get_machine, modify, emit, ◌>>=◌, ◌>>◌, check, bind_result,
  check_result, write, fetch, on_option,
}
use cluster_api_provider_scv.Machine.Emits.{Extends, Extends-refl, Extends-trans}

-- A patch writes metadata with the property.
abbrev pub keeps : (ObjectMeta → Bool) → Event → Bool
keeps P (patched m) = P m.meta
keeps P _ = true

-- From a world whose machine has the property to a world whose machine has it.
abbrev pub Kept : (ObjectMeta → Bool) → World → World → Type 0
Kept P new old = (P new.machine.meta ≡ true) × Extends (keeps P) new.log old.log

pub record Holds {A : Type 0} (P : ObjectMeta → Bool) (m : Action A) : Type 0 where
  pub at : (w : World) → P w.machine.meta ≡ true → Kept P (m w).1 w

module _ {A : Type 0} {P : ObjectMeta → Bool} where
  pub Holds-pure : (a : A) → Holds P (pure a)
  unfolding pure
  Holds-pure a = record { at = λ w p. (p, Extends-refl (keeps P) w.log) }

  pub Holds-raise : (e : Error) → Holds P (raise {A = A} e)
  unfolding raise
  Holds-raise e = record { at = λ w p. (p, Extends-refl (keeps P) w.log) }

  pub Holds-lift : (r : Result A) → Holds P (lift r)
  unfolding lift
  Holds-lift r = record { at = λ w p. (p, Extends-refl (keeps P) w.log) }

  pub Holds-ask :
      (f : History → A) (e : A → Event) → ((a : A) → keeps P (e a) ≡ true) → Holds P (ask f e)
  unfolding ask
  Holds-ask f e h = record { at = λ w p. (p, (e (f w.log) ∷ [], refl, (h (f w.log), tt))) }

  pub Holds-fetch : (f : History → Result A) (e : Event) → keeps P e ≡ true → Holds P (fetch f e)
  unfolding fetch
  Holds-fetch f e h = record { at = λ w p. (p, (e ∷ [], refl, (h, tt))) }

  pub Holds-if : (b : Bool) (m n : Action A) → Holds P m → Holds P n → Holds P (if b then m else n)
  Holds-if true m n p q = p
  Holds-if false m n p q = q

module _ {P : ObjectMeta → Bool} where
  pub Holds-get_machine : Holds P get_machine
  unfolding get_machine
  Holds-get_machine = record { at = λ w p. (p, Extends-refl (keeps P) w.log) }

  pub Holds-modify :
      (f : ScvmmMachine → ScvmmMachine)
      → ((m : ScvmmMachine) → (f m).meta ≡ m.meta)
      → Holds P (modify f)
  unfolding modify
  Holds-modify f h = record { at = λ w p. (ap P (h w.machine) ∙ p, Extends-refl (keeps P) w.log) }

  pub Holds-emit : (e : Event) → keeps P e ≡ true → Holds P (emit e)
  unfolding emit
  Holds-emit e h = record { at = λ w p. (p, (e ∷ [], refl, (h, tt))) }

  pub Holds-write :
      (f : History → Option Error) (e : Event) → keeps P e ≡ true → Holds P (write f e)
  unfolding write
  Holds-write f e h = record { at = λ w p. (p, (e ∷ [], refl, (h, tt))) }

  pub Holds-patch : (env : Env) → Holds P (patch_scvmm_machine env)
  unfolding patch_scvmm_machine write get_machine ◌>>=◌
  Holds-patch env = record { at = λ w p. (p, (patched w.machine ∷ [], refl, (p, tt))) }

Kept-trans : (P : ObjectMeta → Bool) (a b c : World) → Kept P a b → Kept P b c → Kept P a c
Kept-trans P a b c h k = (h.0, Extends-trans (keeps P) a.log b.log c.log h.1 k.1)

module _ {A B : Type 0} {P : ObjectMeta → Bool} where
  Kept-bind_result :
      (r : Result A × World) (f : A → Action B) (old : World)
      → Kept P r.1 old
      → ((a : A) → Holds P (f a))
      → Kept P (bind_result r f).1 old
  Kept-bind_result (ok a, w) f old h k = Kept-trans P (f a w).1 w old ((k a).at w h.0) h
  Kept-bind_result (err e, w) f old h k = h
  Kept-bind_result (panic s, w) f old h k = h
  Kept-bind_result (timeout, w) f old h k = h

  Kept-check_result :
      (r : Result A × World) (g : Error → Action B) (f : A → Action B) (old : World)
      → Kept P r.1 old
      → ((e : Error) → Holds P (g e))
      → ((a : A) → r.0 ≡ ok a → Holds P (f a))
      → Kept P (check_result r g f).1 old
  Kept-check_result (ok a, w) g f old h j k = Kept-trans P (f a w).1 w old ((k a refl).at w h.0) h
  Kept-check_result (err e, w) g f old h j k = Kept-trans P (g e w).1 w old ((j e).at w h.0) h
  Kept-check_result (panic s, w) g f old h j k = h
  Kept-check_result (timeout, w) g f old h j k = h

  pub Holds-bind :
      (m : Action A) (f : A → Action B) → Holds P m → ((a : A) → Holds P (f a)) → Holds P (m >>= f)
  unfolding ◌>>=◌
  Holds-bind m f p q = record { at = λ w h. Kept-bind_result (m w) f w (p.at w h) q }

  -- The continuation may use what the call answered.
  pub Holds-check_ok :
      (m : Action A) (g : Error → Action B) (f : A → Action B)
      → Holds P m
      → ((e : Error) → Holds P (g e))
      → ((w : World) (a : A) → (m w).0 ≡ ok a → Holds P (f a))
      → Holds P (check m g f)
  unfolding check
  Holds-check_ok m g f p q k = record {
    at = λ w h. Kept-check_result (m w) g f w (p.at w h) q (k w);
  }

  pub Holds-check :
      (m : Action A) (g : Error → Action B) (f : A → Action B)
      → Holds P m
      → ((e : Error) → Holds P (g e))
      → ((a : A) → Holds P (f a))
      → Holds P (check m g f)
  Holds-check m g f p q k = Holds-check_ok m g f p q (λ w a h. k a)

  pub Holds-on_option :
      (o : Option A) (m : Action B) (f : A → Action B)
      → Holds P m
      → ((a : A) → Holds P (f a))
      → Holds P (on_option o m f)
  unfolding on_option
  Holds-on_option none m f p q = p
  Holds-on_option (some a) m f p q = q a

module _ {B : Type 0} {P : ObjectMeta → Bool} where
  pub Holds-then : (m : Action (Unit {0})) (k : Action B) → Holds P m → Holds P k → Holds P (m >> k)
  unfolding ◌>>◌
  Holds-then m k p q = Holds-bind m (λ _. k) p (λ _. q)

pub ruleset holds_rules = (
  Holds-pure, Holds-raise, Holds-lift, Holds-ask, Holds-fetch, Holds-if, Holds-get_machine,
  Holds-modify, Holds-emit, Holds-write, Holds-patch, Holds-bind, Holds-check, Holds-on_option,
  Holds-then,
)
