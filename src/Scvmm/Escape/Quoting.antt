-- ===== src/Scvmm/Escape/Quoting.antt =====
-- What PowerShell reads back from an escaped argument.
use mathlib.Core.List.{append_assoc}
use cluster_api_provider_scv.Base.{
  ℕ, Str, Bool, true, false, Option, none, some, List, [], ◌∷◌, ◌++◌, ◌≡◌, refl, ◌==◌, ◌&&◌, not,
  if◌then◌else◌, any, leb, ◌||◌, length, arith, take,
}
use cluster_api_provider_scv.Scvmm.Escape.{
  quote, escape_single_quotes, escape_rest, escape_single_quotes_array,
}

abbrev add : ℕ → Option (Str × Str) → Option (Str × Str)
add c none = none
add c (some (s, rest)) = some (c ∷ s, rest)

-- PowerShell takes four typographic quotes, from 0x2018 on, for single quotes as well.
abbrev pub is_other_quote : ℕ → Bool
is_other_quote c = leb 0x2018 c && leb c 0x201B

abbrev pub is_quote : ℕ → Bool
is_quote c = c == quote || is_other_quote c

-- The body of a PowerShell single-quoted string, after its opening quote: of two quotes the second
-- stands in the text, and a single one ends the string. `pending` says that the last character was a
-- quote. The result is the text, and what follows the string.
unfoldable pub read_quoted : Bool → Str → Option (Str × Str)
read_quoted true [] = some ([], [])
read_quoted false [] = none
read_quoted pending (c ∷ s) =
    let rest = read_quoted (not pending && is_quote c) s in
    if pending
    then (if is_quote c then add c rest else some ([], c ∷ s))
    else if is_quote c
    then rest
    else add c rest

-- What may follow a string: no quote.
abbrev pub NoQuote : Str → Type 0
NoQuote [] = Unit
NoQuote (c ∷ s) = is_quote c ≡ false

read_end : (rest : Str) → NoQuote rest → read_quoted true rest ≡ some ([], rest)
unfolding read_quoted
read_end [] h = refl
read_end (c ∷ s) h = rw h refl

-- If a text has none of the typographic quotes that PowerShell takes for single quotes too and no
-- quote follows, the text escaped and set between single quotes is read back by the quoting rule
-- of PowerShell as that text, and what follows is left.
pub read_quoted-escape_single_quotes :
    (s rest : Str)
    → any is_other_quote s ≡ false
    → NoQuote rest
    → read_quoted false (escape_single_quotes s ++ (quote ∷ rest)) ≡ some (s, rest)
unfolding read_quoted escape_single_quotes
read_quoted-escape_single_quotes [] rest plain h = read_end rest h
read_quoted-escape_single_quotes (c ∷ s) rest plain h =
    ground (arith, read_quoted-escape_single_quotes s rest)

-- The array that the loop means to write: each text quoted, with commas between.
pub quoted_array : List Str → Str
quoted_array [] = []
quoted_array (x ∷ []) = quote ∷ (escape_single_quotes x ++ (quote ∷ []))
quoted_array (x ∷ y ∷ xs) =
    quote ∷ (escape_single_quotes x ++ (quote ∷ b',' ∷ quoted_array (y ∷ xs)))

quoted_array-by_rest :
    (x : Str) (ys : List Str)
    → quoted_array (x ∷ ys) ≡ quote ∷ (escape_single_quotes x ++ (escape_rest ys ++ (quote ∷ [])))
unfolding quoted_array escape_rest
quoted_array-by_rest x [] = refl
quoted_array-by_rest x (y ∷ ys) =
    rw (
      quoted_array-by_rest y ys,
      append_assoc (escape_single_quotes y) (escape_rest ys) (quote ∷ []),
    )

-- escape_single_quotes_array of a list writes the quoted array of the list in which the first text
-- stands twice and the last is left out.
pub escape_single_quotes_array-repeats_first :
    (x : Str) (xs : List Str)
    → escape_single_quotes_array (x ∷ xs) ≡ quoted_array (x ∷ take (length xs) (x ∷ xs))
unfolding escape_single_quotes_array
escape_single_quotes_array-repeats_first x xs =
    rw (quoted_array-by_rest x (take (length xs) (x ∷ xs)))
