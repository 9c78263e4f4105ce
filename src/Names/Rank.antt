-- ===== src/Names/Rank.antt =====
-- A name as a number in mixed radix: a digit counts in tens, a letter in twenty-sixes, and another
-- character has one value.
use cluster_api_provider_scv.Base.{
  ℕ, ◌+◌, ◌-◌, ◌*◌, ◌<◌, Str, true, false, [], ◌∷◌, ◌≡◌, refl, ◌&&◌, leb, if◌then◌else◌, arith, any,
  map,
}
use cluster_api_provider_scv.Names.Increment.{bumps, rolls, increment_string}
use cluster_api_provider_scv.Names.Carry.{
  increment_carry, increment_string-by_carry, carry-eq-not-any,
}

unfoldable pub radix : ℕ → ℕ
radix c =
    if leb b'0' c && leb c b'9'
    then 10
    else if leb b'a' c && leb c b'z'
    then 26
    else if leb b'A' c && leb c b'Z'
    then 26
    else 1

pub digit : ℕ → ℕ
digit c =
    if leb b'0' c && leb c b'9'
    then c - b'0'
    else if leb b'a' c && leb c b'z'
    then c - b'a'
    else if leb b'A' c && leb c b'Z'
    then c - b'A'
    else 0

unfoldable pub capacity : Str → ℕ
capacity [] = 1
capacity (c ∷ s) = radix c * capacity s

pub rank : Str → ℕ
rank [] = 0
rank (c ∷ s) = digit c * capacity s + rank s

-- The last name of the cycle that a name lies on.
unfoldable pub top : ℕ → ℕ
top c =
    if leb b'0' c && leb c b'9'
    then b'9'
    else if leb b'a' c && leb c b'z'
    then b'z'
    else if leb b'A' c && leb c b'Z'
    then b'Z'
    else c

unfoldable pub last : Str → Str
unfolding top
last s = map top s

-- What one character does, in each of the two ways.
bump_lem :
    (c : ℕ)
    → bumps c ≡ true
    → (radix (c + 1) ≡ radix c) × (digit (c + 1) ≡ digit c + 1) × (top (c + 1) ≡ top c)
unfolding bumps radix digit top
bump_lem c h = ground arith

roll_lem :
    (c : ℕ)
    → bumps c ≡ false
    → (radix (rolls c) ≡ radix c)
      × (digit (rolls c) ≡ 0)
      × (digit c + 1 ≡ radix c)
      × (top (rolls c) ≡ top c)
      × (top c ≡ c)
unfolding bumps rolls radix digit top
roll_lem c h = ground arith

digit-lt-radix : (c : ℕ) → digit c < radix c
unfolding digit radix
digit-lt-radix c = ground arith

pub capacity_pos : (s : Str) → 0 < capacity s
unfolding capacity
capacity_pos [] = omega arith
capacity_pos (c ∷ s) = grind (arith, capacity_pos s, digit-lt-radix c)

pub rank-lt-capacity : (s : Str) → rank s < capacity s
unfolding rank capacity
rank-lt-capacity [] = omega arith
rank-lt-capacity (c ∷ s) = grind (arith, rank-lt-capacity s, digit-lt-radix c)

capacity-carry : (s : Str) → capacity (increment_carry s).0 ≡ capacity s
unfolding increment_carry capacity
capacity-carry [] = refl
capacity-carry (c ∷ s) = ground (arith, capacity-carry s, bump_lem c, roll_lem c)

last-carry : (s : Str) → last (increment_carry s).0 ≡ last s
unfolding increment_carry last
last-carry [] = refl
last-carry (c ∷ s) = ground (arith, last-carry s, bump_lem c, roll_lem c)

-- The same, times the weight of the place.
bump_weight : (c k : ℕ) → bumps c ≡ true → digit (c + 1) * k ≡ digit c * k + k
bump_weight c k h = rw (bump_lem c h).1 (omega arith)

roll_weight :
    (c k : ℕ) → bumps c ≡ false → (digit c * k + k ≡ radix c * k) × (digit (rolls c) * k ≡ 0)
roll_weight c k h = (rw (← (roll_lem c h).2) (omega arith), rw (roll_lem c h).1 (omega arith))

rank-carry :
    (s : Str)
    → rank (increment_carry s).0 + (if (increment_carry s).1 then capacity s else 0) ≡ rank s + 1
unfolding increment_carry capacity rank
rank-carry [] = refl
rank-carry (c ∷ s) =
    ground (
      arith,
      rank-carry s,
      bump_weight c (capacity s),
      roll_weight c (capacity s),
      capacity-carry s,
    )

pub capacity-increment_string : (s : Str) → capacity (increment_string s) ≡ capacity s
capacity-increment_string s = rw increment_string-by_carry (capacity-carry s)

pub last-increment_string : (s : Str) → last (increment_string s) ≡ last s
last-increment_string s = rw increment_string-by_carry (last-carry s)

-- The number that a name stands for in mixed radix goes up by one with increment_string if some
-- character can be bumped, and to 0 otherwise.
pub rank-increment_string :
    (s : Str) → rank (increment_string s) ≡ (if any bumps s then rank s + 1 else 0)
rank-increment_string s =
    ground
      (arith, increment_string-by_carry s, rank-carry s, carry-eq-not-any s, rank-lt-capacity s)

pub last_of_stuck : (s : Str) → any bumps s ≡ false → last s ≡ s
unfolding last
last_of_stuck [] h = refl
last_of_stuck (c ∷ s) h = ground (arith, last_of_stuck s, roll_lem c)
