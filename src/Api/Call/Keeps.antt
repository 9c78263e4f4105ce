-- ===== src/Api/Call/Keeps.antt =====
-- What a call keeps of the state, however it ends: one rule for each way to build a call.
use cluster_api_provider_scv.Base.{
  Str, Bool, true, false, Option, none, some, List, [], ◌∷◌, if◌then◌else◌,
}
use cluster_api_provider_scv.Api.Meta.{Error, Result, ok, err, panic, timeout}
use cluster_api_provider_scv.Api.Call.{
  Call, pure, raise, panics, lift, reads, Reply, exchange, asks, finally, changes, bind_result,
  check_result, ◌>>=◌, ◌>>◌, check, on_option, fold_each,
}

-- From a state with `P` the call leads to a state with `P`.
pub record Keeps {W A : Type 0} (P : W → Type 0) (m : Call W A) : Type 0 where
  pub at : (w : W) → P w → P (m w).1

module _ {W A : Type 0} {P : W → Type 0} where
  pub Keeps-pure : (a : A) → Keeps P (pure a)
  unfolding pure
  Keeps-pure a = record { at = λ w h. h }

  pub Keeps-raise : (e : Error) → Keeps P (raise {A = A} e)
  unfolding raise
  Keeps-raise e = record { at = λ w h. h }

  pub Keeps-panics : (s : Str) → Keeps P (panics {A = A} s)
  unfolding panics
  Keeps-panics s = record { at = λ w h. h }

  pub Keeps-lift : (r : Result A) → Keeps P (lift r)
  unfolding lift
  Keeps-lift r = record { at = λ w h. h }

  pub Keeps-reads : (f : W → A) → Keeps P (reads f)
  unfolding reads
  Keeps-reads f = record { at = λ w h. h }

  pub Keeps-exchange :
      (f : W → Reply A) (g : W → W) → ((w : W) → P w → P (g w)) → Keeps P (exchange f g)
  unfolding exchange
  Keeps-exchange f g h = record { at = h }

  pub Keeps-asks : (f : W → Reply A) → Keeps P (asks f)
  unfolding asks
  Keeps-asks f = Keeps-exchange f (λ w. w) (λ w h. h)

  pub Keeps-finally :
      (m : Call W A) (g : W → W) → Keeps P m → ((w : W) → P w → P (g w)) → Keeps P (finally m g)
  unfolding finally
  Keeps-finally m g k h = record { at = λ w p. h (m w).1 (k.at w p) }

  pub Keeps-if : (b : Bool) (m n : Call W A) → Keeps P m → Keeps P n → Keeps P (if b then m else n)
  Keeps-if true m n p q = p
  Keeps-if false m n p q = q

module _ {W : Type 0} {P : W → Type 0} where
  pub Keeps-changes : (g : W → W) → ((w : W) → P w → P (g w)) → Keeps P (changes g)
  unfolding changes
  Keeps-changes g h = record { at = h }

module _ {W A B : Type 0} {P : W → Type 0} where
  keeps_bind_result :
      (r : Result A × W) (f : A → Call W B)
      → P r.1
      → ((a : A) → Keeps P (f a))
      → P (bind_result r f).1
  keeps_bind_result (ok a, w) f h k = (k a).at w h
  keeps_bind_result (err e, w) f h k = h
  keeps_bind_result (panic s, w) f h k = h
  keeps_bind_result (timeout, w) f h k = h

  keeps_check_result :
      (r : Result A × W) (g : Error → Call W B) (f : A → Call W B)
      → P r.1
      → ((e : Error) → Keeps P (g e))
      → ((a : A) → Keeps P (f a))
      → P (check_result r g f).1
  keeps_check_result (ok a, w) g f h j k = (k a).at w h
  keeps_check_result (err e, w) g f h j k = (j e).at w h
  keeps_check_result (panic s, w) g f h j k = h
  keeps_check_result (timeout, w) g f h j k = h

  pub Keeps-bind :
      (m : Call W A) (f : A → Call W B) → Keeps P m → ((a : A) → Keeps P (f a)) → Keeps P (m >>= f)
  unfolding ◌>>=◌
  Keeps-bind m f p q = record { at = λ w h. keeps_bind_result (m w) f (p.at w h) q }

  pub Keeps-check :
      (m : Call W A) (g : Error → Call W B) (f : A → Call W B)
      → Keeps P m
      → ((e : Error) → Keeps P (g e))
      → ((a : A) → Keeps P (f a))
      → Keeps P (check m g f)
  unfolding check
  Keeps-check m g f p q k = record { at = λ w h. keeps_check_result (m w) g f (p.at w h) q k }

  pub Keeps-on_option :
      (o : Option A) (m : Call W B) (f : A → Call W B)
      → Keeps P m
      → ((a : A) → Keeps P (f a))
      → Keeps P (on_option o m f)
  unfolding on_option
  Keeps-on_option none m f p q = p
  Keeps-on_option (some a) m f p q = q a

module _ {W B : Type 0} {P : W → Type 0} where
  pub Keeps-then : (m : Call W (Unit {0})) (k : Call W B) → Keeps P m → Keeps P k → Keeps P (m >> k)
  unfolding ◌>>◌
  Keeps-then m k p q = Keeps-bind m (λ _. k) p (λ _. q)

pub Keeps-fold_each :
    {W A S : Type 0} {P : W → Type 0} (xs : List A) (s : S) (f : A → S → Call W S)
    → ((x : A) (t : S) → Keeps P (f x t))
    → Keeps P (fold_each xs s f)
unfolding fold_each
Keeps-fold_each [] s f h = Keeps-pure s
Keeps-fold_each (x ∷ xs) s f h = Keeps-bind _ _ (h x s) (λ s'. Keeps-fold_each xs s' f h)

pub ruleset keeps_rules = (
  Keeps-pure, Keeps-raise, Keeps-panics, Keeps-lift, Keeps-reads, Keeps-exchange, Keeps-asks,
  Keeps-finally, Keeps-if, Keeps-changes, Keeps-bind, Keeps-check, Keeps-on_option, Keeps-then,
  Keeps-fold_each,
)
