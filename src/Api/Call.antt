-- ===== src/Api/Call.antt =====
-- A Go call that returns a value and an error, or panics, over the state `W` of what it can see.
pub mod Keeps
pub mod Returns
use cluster_api_provider_scv.Base.{Str, Option, none, some, List, [], ◌∷◌}
use cluster_api_provider_scv.Api.Meta.{Error, Result, ok, err, panic, timeout}

abbrev pub Call : Type 0 → Type 0 → Type 0
Call W A = W → Result A × W

-- What a library call answers: a value or an error.
pub data Reply (A : Type 0) : Type 0 where
  gives : A → Reply A
  fails : Error → Reply A

unfoldable pub reply : {A : Type 0} → Reply A → Result A
reply (gives a) = ok a
reply (fails e) = err e

module _ {W A : Type 0} where
  unfoldable pub pure : A → Call W A
  pure a w = (ok a, w)

  unfoldable pub raise : Error → Call W A
  raise e w = (err e, w)

  -- a nil pointer is followed
  unfoldable pub panics : Str → Call W A
  panics s w = (panic s, w)

  unfoldable pub lift : Result A → Call W A
  lift r w = (r, w)

  unfoldable pub reads : (W → A) → Call W A
  reads f w = (ok (f w), w)

  -- An answer, and the state with the exchange noted.
  unfoldable pub exchange : (W → Reply A) → (W → W) → Call W A
  unfolding reply
  exchange f g w = (reply (f w), g w)

  unfoldable pub asks : (W → Reply A) → Call W A
  unfolding exchange
  asks f = exchange f (λ w. w)

  -- `defer`: what runs when the call has ended, however it ended.
  unfoldable pub finally : Call W A → (W → W) → Call W A
  finally m g w = let (r, w') = m w in (r, g w')

module _ {W : Type 0} where
  unfoldable pub changes : (W → W) → Call W (Unit {0})
  changes g w = (ok tt, g w)

module _ {W A B : Type 0} where
  abbrev pub bind_result : Result A × W → (A → Call W B) → Result B × W
  bind_result (ok a, w) f = f a w
  bind_result (err e, w) f = (err e, w)
  bind_result (panic s, w) f = (panic s, w)
  bind_result (timeout, w) f = (timeout, w)

  abbrev pub check_result : Result A × W → (Error → Call W B) → (A → Call W B) → Result B × W
  check_result (ok a, w) handler f = f a w
  check_result (err e, w) handler f = handler e w
  check_result (panic s, w) handler f = (panic s, w)
  check_result (timeout, w) handler f = (timeout, w)

  infixl 5 ◌>>=◌
  unfoldable pub ◌>>=◌ : Call W A → (A → Call W B) → Call W B
  ◌>>=◌ m f w = bind_result (m w) f

  -- `a, err := m(); if err != nil { return handler(err) }; …`
  unfoldable pub check : Call W A → (Error → Call W B) → (A → Call W B) → Call W B
  check m handler f w = check_result (m w) handler f

  -- `if x == nil { … } else { … }`
  unfoldable pub on_option : Option A → Call W B → (A → Call W B) → Call W B
  on_option none m f = m
  on_option (some a) m f = f a

module _ {W B : Type 0} where
  infixl 5 ◌>>◌
  unfoldable pub ◌>>◌ : Call W (Unit {0}) → Call W B → Call W B
  unfolding ◌>>=◌
  m >> k = m >>= λ _. k

-- `for _, x := range xs { … }` over the variables that the body changes.
unfoldable pub fold_each : {W A S : Type 0} → List A → S → (A → S → Call W S) → Call W S
unfolding pure ◌>>=◌
fold_each [] s f = pure s
fold_each (x ∷ xs) s f = f x s >>= λ s'. fold_each xs s' f
