-- ===== src/Scvmm/Escape.antt =====
-- `escapeSingleQuotes` and `escapeSingleQuotesArray` of
-- internal/controllers/scvmmmachine_controller.go.
pub mod Quoting
use cluster_api_provider_scv.Base.{ℕ, Str, List, [], ◌∷◌, ◌++◌, ◌==◌, if◌then◌else◌, length, take}

-- The single quote.
abbrev pub quote : ℕ
quote = 39

-- `strings.Replace(str, "'", "''", -1)`
unfoldable pub escape_single_quotes : Str → Str
escape_single_quotes [] = []
escape_single_quotes (c ∷ s) =
    if c == quote then quote ∷ quote ∷ escape_single_quotes s else c ∷ escape_single_quotes s

-- The loop `for s := range str[1:]`: `s` is an index into `str[1:]`, and `str[s]` is written.
unfoldable pub escape_rest : List Str → Str
unfolding escape_single_quotes
escape_rest [] = []
escape_rest (x ∷ xs) = quote ∷ b',' ∷ quote ∷ (escape_single_quotes x ++ escape_rest xs)

unfoldable pub escape_single_quotes_array : List Str → Str
unfolding escape_rest
escape_single_quotes_array [] = []
escape_single_quotes_array (x ∷ xs) =
    quote ∷ (escape_single_quotes x ++ (escape_rest (take (length xs) (x ∷ xs)) ++ (quote ∷ [])))
