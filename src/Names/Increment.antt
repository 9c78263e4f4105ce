-- ===== src/Names/Increment.antt =====
-- `incrementString`: the last character first, as a digit or a letter, with carry.
use mathlib.Core.List.{reverse}
use cluster_api_provider_scv.Base.{
  ℕ, ◌+◌, Str, Bool, List, [], ◌∷◌, ◌&&◌, ◌||◌, ltb, leb, ◌==◌, if◌then◌else◌,
}

-- The cases that add one and stop the loop.
unfoldable pub bumps : ℕ → Bool
bumps r = leb b'0' r && ltb r b'9' || (leb b'a' r && ltb r b'z' || leb b'A' r && ltb r b'Z')

-- The cases that roll over; another character stays. The loop goes on in both.
unfoldable pub rolls : ℕ → ℕ
rolls r = if r == b'9' then b'0' else if r == b'z' then b'a' else if r == b'Z' then b'A' else r

-- The loop over the runes from the last one, on the reversed text.
unfoldable pub increment_reversed : List ℕ → List ℕ
unfolding bumps rolls
increment_reversed [] = []
increment_reversed (r ∷ rest) =
    if bumps r then (r + 1) ∷ rest else rolls r ∷ increment_reversed rest

unfoldable pub increment_string : Str → Str
unfolding increment_reversed
increment_string s = reverse (increment_reversed (reverse s))
