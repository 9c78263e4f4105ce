-- ===== src/Names/Range.antt =====
-- The loop of `generateVMName` over one name range, without its effects: `c` goes from `Start` by
-- `incrementString` until `End` is empty or `c > End`.
use cluster_api_provider_scv.Base.{
  ℕ, zero, suc, ◌+◌, ◌≤◌, Str, str_ltb, Bool, true, false, not, [], ◌∷◌, ◌≡◌, refl, ◌||◌,
  if◌then◌else◌, arith, any, is_empty,
}
use cluster_api_provider_scv.Names.Increment.{bumps, rolls, increment_string}
use cluster_api_provider_scv.Names.Carry.{
  increment_carry, increment_string-by_carry, carry-eq-not-any,
}
use cluster_api_provider_scv.Names.Rank.{
  rank, capacity, top, last, capacity-increment_string, last-increment_string,
  rank-increment_string, rank-lt-capacity, last_of_stuck,
}

-- The test that breaks the loop, after `c` has been incremented.
unfoldable pub range_done : Str → Str → Bool
range_done end c = is_empty end || str_ltb end c

-- Whether the loop ends within the given number of rounds.
unfoldable pub range_ends : ℕ → Str → Str → Bool
range_ends zero end c = false
range_ends (suc fuel) end c =
    let c' = increment_string c in
    let rest = range_ends fuel end c' in if range_done end c' then true else rest

roll_le : (c : ℕ) → rolls c ≤ c
unfolding rolls
roll_le c = ground arith

-- A carry out of the front makes the name smaller or leaves it; else it is larger.
carry-order : (s : Str) → (str_ltb s (increment_carry s).0 ≡ not (increment_carry s).1)
unfolding increment_carry str_ltb
carry-order [] = refl
carry-order (c ∷ s) = ground (arith, carry-order s, roll_le c)

-- A name comes before its increment in the order of Go exactly if some character can be bumped.
pub lt-increment_string : (s : Str) → str_ltb s (increment_string s) ≡ any bumps s
lt-increment_string s =
    ground (arith, increment_string-by_carry s, carry-order s, carry-eq-not-any s)

last_not_lt : (s : Str) → str_ltb (last s) s ≡ false
unfolding last str_ltb top
last_not_lt [] = refl
last_not_lt (c ∷ s) = ground (arith, last_not_lt s)

lt_le_trans : (a b c : Str) → str_ltb a b ≡ true → str_ltb c b ≡ false → str_ltb a c ≡ true
unfolding str_ltb
lt_le_trans a [] c h k = cc
lt_le_trans a (b ∷ t) [] h k = cc
lt_le_trans [] (b ∷ t) (c ∷ u) h k = refl
lt_le_trans (a ∷ s) (b ∷ t) (c ∷ u) h k = ground (arith, lt_le_trans s t u)

-- From a name that is not the last of its cycle.
ends_below :
    (n : ℕ) (end c : Str)
    → capacity c ≤ rank c + 1 + n
    → any bumps c ≡ true
    → str_ltb end (last c) ≡ true
    → range_ends n end c ≡ true
unfolding range_ends range_done
ends_below zero end c h b l = absurd (
    ground (
      arith,
      rank-increment_string c,
      capacity-increment_string c,
      rank-lt-capacity (increment_string c),
    ))
ends_below (suc n) end c h b l =
    let c' = increment_string c in
    ground (
      arith,
      rank-increment_string c,
      capacity-increment_string c,
      last-increment_string c,
      last_of_stuck c',
      ends_below n end c',
    )

-- If end comes before the last name of the cycle of c, the loop over a range from c ends within
-- one round more than the cycle has names.
pub range_terminates :
    (end c : Str) → str_ltb end (last c) ≡ true → range_ends (suc (capacity c)) end c ≡ true
unfolding range_ends range_done
range_terminates end c l =
    let c' = increment_string c in
    ground (
      arith,
      rank-increment_string c,
      capacity-increment_string c,
      last-increment_string c,
      last_of_stuck c',
      ends_below (capacity c) end c',
    )

pub range_ends_mono :
    (n k : ℕ) (end c : Str) → n ≤ k → range_ends n end c ≡ true → range_ends k end c ≡ true
unfolding range_ends
range_ends_mono zero k end c h e = absurd (ground arith)
range_ends_mono (suc n) zero end c h e = absurd (omega (arith, h))
range_ends_mono (suc n) (suc k) end c h e =
    ground (arith, range_ends_mono n k end (increment_string c))

-- If end is not empty and does not come before the last name of the cycle of c, the loop over a
-- range from c does not end within any number of rounds.
pub range_diverges :
    (fuel : ℕ) (end c : Str)
    → is_empty end ≡ false
    → str_ltb end (last c) ≡ false
    → range_ends fuel end c ≡ false
unfolding range_ends range_done
range_diverges zero end c e l = refl
range_diverges (suc n) end c e l =
    let c' = increment_string c in
    ground (
      arith,
      last-increment_string c,
      last_not_lt c',
      lt_le_trans end c' (last c),
      range_diverges n end c',
    )
