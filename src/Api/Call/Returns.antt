-- ===== src/Api/Call/Returns.antt =====
-- Calls that end with a value or an error, neither by a panic nor out of rounds.
use cluster_api_provider_scv.Base.{
  Bool, true, false, Option, none, some, List, [], ◌∷◌, if◌then◌else◌,
}
use cluster_api_provider_scv.Api.Meta.{Error, Result, ok, err, panic, timeout}
use cluster_api_provider_scv.Api.Call.{
  Call, Reply, gives, fails, reply, pure, raise, reads, exchange, asks, changes, bind_result,
  check_result, ◌>>=◌, ◌>>◌, check, on_option, fold_each,
}

-- A value or an error.
abbrev pub IsReturn : {A : Type 0} → Result A → Type 0
IsReturn (ok a) = Unit
IsReturn (err e) = Unit
IsReturn (panic s) = ⊥
IsReturn timeout = ⊥

pub record Returns {W A : Type 0} (m : Call W A) : Type 0 where
  pub at : (w : W) → IsReturn (m w).0

IsReturn-reply : {A : Type 0} (r : Reply A) → IsReturn (reply r)
unfolding reply
IsReturn-reply (gives a) = tt
IsReturn-reply (fails e) = tt

module _ {W A : Type 0} where
  pub Returns-pure : (a : A) → Returns {W = W} (pure a)
  unfolding pure
  Returns-pure a = record { at = λ w. tt }

  pub Returns-raise : (e : Error) → Returns {W = W} (raise {A = A} e)
  unfolding raise
  Returns-raise e = record { at = λ w. tt }

  pub Returns-reads : (f : W → A) → Returns (reads f)
  unfolding reads
  Returns-reads f = record { at = λ w. tt }

  pub Returns-exchange : (f : W → Reply A) (g : W → W) → Returns (exchange f g)
  unfolding exchange
  Returns-exchange f g = record { at = λ w. IsReturn-reply (f w) }

  pub Returns-asks : (f : W → Reply A) → Returns (asks f)
  unfolding asks
  Returns-asks f = Returns-exchange f (λ w. w)

  pub Returns-if :
      (b : Bool) (m n : Call W A) → Returns m → Returns n → Returns (if b then m else n)
  Returns-if true m n p q = p
  Returns-if false m n p q = q

module _ {W : Type 0} where
  pub Returns-changes : (g : W → W) → Returns (changes g)
  unfolding changes
  Returns-changes g = record { at = λ w. tt }

module _ {W A B : Type 0} where
  IsReturn-bind_result :
      (r : Result A × W) (f : A → Call W B)
      → IsReturn r.0
      → ((a : A) → Returns (f a))
      → IsReturn (bind_result r f).0
  IsReturn-bind_result (ok a, w) f h k = (k a).at w
  IsReturn-bind_result (err e, w) f h k = tt
  IsReturn-bind_result (panic s, w) f h k = h
  IsReturn-bind_result (timeout, w) f h k = h

  IsReturn-check_result :
      (r : Result A × W) (g : Error → Call W B) (f : A → Call W B)
      → IsReturn r.0
      → ((e : Error) → Returns (g e))
      → ((a : A) → Returns (f a))
      → IsReturn (check_result r g f).0
  IsReturn-check_result (ok a, w) g f h j k = (k a).at w
  IsReturn-check_result (err e, w) g f h j k = (j e).at w
  IsReturn-check_result (panic s, w) g f h j k = h
  IsReturn-check_result (timeout, w) g f h j k = h

  pub Returns-bind :
      (m : Call W A) (f : A → Call W B) → Returns m → ((a : A) → Returns (f a)) → Returns (m >>= f)
  unfolding ◌>>=◌
  Returns-bind m f p q = record { at = λ w. IsReturn-bind_result (m w) f (p.at w) q }

  pub Returns-check :
      (m : Call W A) (g : Error → Call W B) (f : A → Call W B)
      → Returns m
      → ((e : Error) → Returns (g e))
      → ((a : A) → Returns (f a))
      → Returns (check m g f)
  unfolding check
  Returns-check m g f p q k = record { at = λ w. IsReturn-check_result (m w) g f (p.at w) q k }

  pub Returns-on_option :
      (o : Option A) (m : Call W B) (f : A → Call W B)
      → Returns m
      → ((a : A) → Returns (f a))
      → Returns (on_option o m f)
  unfolding on_option
  Returns-on_option none m f p q = p
  Returns-on_option (some a) m f p q = q a

module _ {W B : Type 0} where
  pub Returns-then :
      (m : Call W (Unit {0})) (k : Call W B) → Returns m → Returns k → Returns (m >> k)
  unfolding ◌>>◌
  Returns-then m k p q = Returns-bind m (λ _. k) p (λ _. q)

pub Returns-fold_each :
    {W A S : Type 0} (xs : List A) (s : S) (f : A → S → Call W S)
    → ((x : A) (t : S) → Returns (f x t))
    → Returns (fold_each xs s f)
unfolding fold_each
Returns-fold_each [] s f h = Returns-pure s
Returns-fold_each (x ∷ xs) s f h = Returns-bind _ _ (h x s) (λ s'. Returns-fold_each xs s' f h)

pub ruleset returns_rules = (
  Returns-pure, Returns-raise, Returns-reads, Returns-exchange, Returns-asks, Returns-if,
  Returns-changes, Returns-bind, Returns-check, Returns-on_option, Returns-then, Returns-fold_each,
)
