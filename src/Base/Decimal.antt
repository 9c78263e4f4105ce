-- ===== src/Base/Decimal.antt =====
-- `fmt.Sprintf("%d", n)` on a number that is not negative, and `strconv.ParseInt(s, 10, 64)` on
-- digits alone.
use Prim.Native.Nat.{ℕ, zero, suc, ◌+◌, ◌-◌, ◌*◌, ◌/◌, ◌%◌, ◌<◌}
use mathlib.Core.Path.{◌≡◌, refl, ◌∙◌}
use mathlib.Core.Logic.{inl, inr}
use mathlib.Core.Bool.{Bool, true, false, ◌&&◌}
use mathlib.Core.Option.{Option, none, some}
use mathlib.Core.List.{[], ◌∷◌}
use native.Mathlib.Omega.{arith}
use cluster_api_provider_scv.Base.Tests.{ltb, leb, if◌then◌else◌, Bool-cases}
use cluster_api_provider_scv.Base.Lists.{All}
use cluster_api_provider_scv.Base.Text.{Str}

-- The digits of `n` in front of `rest`; a number below 2 ^ fuel needs no more than `fuel` digits.
unfoldable pub show_onto : ℕ → ℕ → Str → Str
show_onto zero n rest = rest
show_onto (suc fuel) n rest =
    let more = show_onto fuel (n / 10) ((b'0' + n % 10) ∷ rest) in
    if ltb n 10 then (b'0' + n) ∷ rest else more

unfoldable pub show : ℕ → Str
unfolding show_onto
show n = show_onto (suc n) n []

unfoldable pub is_digit : ℕ → Bool
is_digit c = leb b'0' c && leb c b'9'

unfoldable pub parse_from : ℕ → Str → Option ℕ
unfolding is_digit
parse_from acc [] = some acc
parse_from acc (c ∷ s) = if is_digit c then parse_from (acc * 10 + (c - b'0')) s else none

unfoldable pub parse : Str → Option ℕ
unfolding parse_from
parse [] = none
parse (c ∷ s) = parse_from 0 (c ∷ s)

-- The digits written in front of `rest` are read back, whatever was read before them.
pub parse_from-show_onto :
    (fuel n : ℕ) (rest : Str) → n < fuel → parse_from 0 (show_onto fuel n rest) ≡ parse_from n rest
unfolding parse_from show_onto
parse_from-show_onto zero n rest h = elim h [ ]
parse_from-show_onto (suc fuel) n rest h =
    ground (arith, parse_from-show_onto fuel (n / 10) ((b'0' + n % 10) ∷ rest))

abbrev is_cons : Str → Bool
is_cons [] = false
is_cons (c ∷ s) = true

show_onto-cons : (fuel n : ℕ) (rest : Str) → n < fuel → is_cons (show_onto fuel n rest) ≡ true
unfolding show_onto
show_onto-cons zero n rest h = elim h [ ]
show_onto-cons (suc fuel) n rest h =
    ground (arith, show_onto-cons fuel (n / 10) ((b'0' + n % 10) ∷ rest))

parse_of_cons : (s : Str) → is_cons s ≡ true → parse s ≡ parse_from 0 s
unfolding parse
parse_of_cons [] h = cc
parse_of_cons (c ∷ s) h = refl

-- Reading what was printed gives the number back.
pub parse-show : (n : ℕ) → parse (show n) ≡ some n
unfolding show parse_from
parse-show n =
    parse_of_cons (show_onto (suc n) n []) (show_onto-cons (suc n) n [] (omega arith))
    ∙ parse_from-show_onto (suc n) n [] (omega arith)

-- The digits of a number hold no dash.
pub show_onto-digits :
    (fuel n : ℕ) (rest : Str)
    → All (λ c. is_digit c ≡ true) rest
    → All (λ c. is_digit c ≡ true) (show_onto fuel n rest)
unfolding show_onto is_digit
show_onto-digits zero n rest h = h
show_onto-digits (suc fuel) n rest h = elim (Bool-cases (ltb n 10)) [
  | inl e ↦ rw e (ground arith, h)
  | inr e ↦ rw e (show_onto-digits fuel (n / 10) ((b'0' + n % 10) ∷ rest) (ground arith, h))
]

pub show-digits : (n : ℕ) → All (λ c. is_digit c ≡ true) (show n)
unfolding show
show-digits n = show_onto-digits (suc n) n [] tt
