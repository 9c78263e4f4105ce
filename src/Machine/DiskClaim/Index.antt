-- ===== src/Machine/DiskClaim/Index.antt =====
-- The index of a persistent disk, read back from its name.
use cluster_api_provider_scv.Base.{
  ℕ, ◌<◌, ◌^◌, Str, codes, true, none, some, [], ◌∷◌, ◌++◌, ◌≡◌, refl, arith, All, lt→ltb,
}
use cluster_api_provider_scv.Base.Decimal.{show, is_digit, show-digits, parse-show}
use cluster_api_provider_scv.Api.PersistentDisk.{ScvmmPersistentDiskPool}
use cluster_api_provider_scv.Api.Machine.{ScvmmMachine}
use cluster_api_provider_scv.Machine.Env.{Env}
use cluster_api_provider_scv.Machine.DiskClaim.{
  after_last_dash, parse_int, index_of_part, index_of_name, new_disk,
}

after_last_dash-digits : (s : Str) → All (λ c. is_digit c ≡ true) s → after_last_dash s ≡ none
unfolding after_last_dash is_digit
after_last_dash-digits [] h = refl
after_last_dash-digits (c ∷ s) h = ground (arith, after_last_dash-digits s)

after_last_dash-append :
    (p s : Str) → All (λ c. is_digit c ≡ true) s → after_last_dash (p ++ (b'-' ∷ s)) ≡ some s
unfolding after_last_dash
after_last_dash-append [] s h = rw (after_last_dash-digits s h) refl
after_last_dash-append (c ∷ p) s h = rw (after_last_dash-append p s h) refl

parse_int-show : (i : ℕ) → i < 2 ^ 63 → parse_int (show i) ≡ some i
unfolding parse_int
parse_int-show i h = rw (parse-show i, lt→ltb i (2 ^ 63) h) refl

-- For an index below 2 ^ 63, the index that is read from the name of the disk created for it is
-- that index.
pub index_of_name-new_disk :
    (env : Env) (m : ScvmmMachine) (pool : ScvmmPersistentDiskPool) (i : ℕ)
    → i < 2 ^ 63
    → index_of_name (new_disk env m pool i).meta.name ≡ i
unfolding index_of_name index_of_part new_disk codes
index_of_name-new_disk env m pool i h =
    rw (after_last_dash-append pool.meta.name (show i) (show-digits i), parse_int-show i h) refl
