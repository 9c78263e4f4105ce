-- ===== src/Names/Carry.antt =====
-- `increment_string` as one pass from the front with a carry, and where it stands in Go's order.
use mathlib.Core.List.{reverse, reverse-append}
use cluster_api_provider_scv.Base.{
  ℕ, ◌+◌, Str, Bool, true, false, not, List, [], ◌∷◌, ◌++◌, ◌≡◌, refl, ◌||◌, if◌then◌else◌, arith,
  any, inl, inr, Bool-cases,
}
use cluster_api_provider_scv.Names.Increment.{bumps, rolls, increment_reversed, increment_string}

unfoldable pub increment_carry : Str → Str × Bool
increment_carry [] = ([], true)
increment_carry (a ∷ s) =
    let (t, carry) = increment_carry s in
    if carry
    then (if bumps a then ((a + 1) ∷ t, false) else (rolls a ∷ t, true))
    else (a ∷ t, false)

increment_reversed-append :
    (s t : List ℕ)
    → increment_reversed (s ++ t) ≡ (
        if any bumps s
        then increment_reversed s ++ t
        else increment_reversed s ++ increment_reversed t)
unfolding increment_reversed
increment_reversed-append [] t = refl
increment_reversed-append (a ∷ s) t = ground (arith, increment_reversed-append s t)

any-append : (s t : List ℕ) → any bumps (s ++ t) ≡ (any bumps s || any bumps t)
any-append [] t = refl
any-append (a ∷ s) t = ground (arith, any-append s t)

reverse-cons : (a : ℕ) (s : List ℕ) → reverse (a ∷ s) ≡ reverse s ++ (a ∷ [])
reverse-cons a s = reverse-append (a ∷ []) s

any-reverse : (s : List ℕ) → any bumps (reverse s) ≡ any bumps s
any-reverse [] = refl
any-reverse (a ∷ s) =
    ground (arith, reverse-cons a s, any-append (reverse s) (a ∷ []), any-reverse s)

increment_string-cons :
    (a : ℕ) (s : Str)
    → increment_string (a ∷ s) ≡ (
        if any bumps s
        then a ∷ increment_string s
        else increment_reversed (a ∷ []) ++ increment_string s)
unfolding increment_string
increment_string-cons a s =
    rw (reverse-cons a s, increment_reversed-append (reverse s) (a ∷ []), any-reverse s)
      (elim (Bool-cases (any bumps s)) [
        | inl e ↦ rw e (reverse-append (increment_reversed (reverse s)) (a ∷ []))
        | inr e ↦ rw e (elim (Bool-cases (bumps a)) [
          | inl b ↦ rw b (reverse-append (increment_reversed (reverse s)) ((a + 1) ∷ []))
          | inr b ↦ rw b (reverse-append (increment_reversed (reverse s)) (rolls a ∷ []))
        ])
      ])

increment_string-nil : increment_string [] ≡ []
unfolding increment_string
increment_string-nil = refl

-- increment_string gives the same name as one pass from the front with a carry, and the carry is
-- left exactly if no character can be bumped.
pub increment_carry_lem : (s : Str) → increment_carry s ≡ (increment_string s, not (any bumps s))
unfolding increment_carry increment_reversed
increment_carry_lem [] = rw increment_string-nil
increment_carry_lem (a ∷ s) = ground (arith, increment_string-cons a s, increment_carry_lem s)

pub increment_string-by_carry : (s : Str) → increment_string s ≡ (increment_carry s).0
increment_string-by_carry s = ground (arith, increment_carry_lem s)

pub carry-eq-not-any : (s : Str) → (increment_carry s).1 ≡ not (any bumps s)
carry-eq-not-any s = ground (arith, increment_carry_lem s)
