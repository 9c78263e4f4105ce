-- ===== src/Image/Vhd/Checksum.antt =====
-- The checksum of a VHD footer, as a reader tests it.
use cluster_api_provider_scv.Base.{
  ℕ, zero, suc, ◌+◌, ◌-◌, ◌%◌, ◌^◌, ◌≤◌, ◌≡◌, refl, ap, ◌⊎◌, inl, inr, Str, ◌∙◌, [], ◌∷◌, ◌++◌,
  length, take, drop, replicate, arith, leb, true, sym,
}
use cluster_api_provider_scv.Api.Meta.{Result, ok, err, panic, timeout}
use cluster_api_provider_scv.Api.Call.{panics, reads, changes, bind_result, ◌>>=◌, ◌>>◌}
use cluster_api_provider_scv.Image.Sector.{
  Bytes, Fill, Time, overwrite, put_bytes, put_byte, put_string, big_endian, filled, sector_of,
}
use cluster_api_provider_scv.Image.Sector.Filling.{
  length-overwrite, length-big_endian, length-take_le,
}
use cluster_api_provider_scv.Image.Sector.Overwriting.{
  take-overwrite, drop-overwrite, part-overwrite, written-overwrite,
}
use cluster_api_provider_scv.Image.Sector.Endian.{read_big, read_big-big_endian}
use cluster_api_provider_scv.Image.Vhd.{
  put_big, footer_front, footer_back, footer_fields, footer, checksum, sum,
}

-- The place of the checksum holds zeroes.
abbrev IsBlank : Bytes → Type 0
IsBlank s = take 4 (drop 64 s) ≡ 0 ∷ 0 ∷ 0 ∷ 0 ∷ []

abbrev Outcome : Result (Unit {0}) × Bytes → Type 0
Outcome x = (x.0 ≡ ok tt) × (length x.1 ≡ 512) × IsBlank x.1

-- A call that leaves the place of the checksum.
record Spares (m : Fill (Unit {0})) : Type 0 where
  at : (s : Bytes) → length s ≡ 512 → IsBlank s → Outcome (m s)

bind-Spares :
    (x : Result (Unit {0}) × Bytes) (k : Fill (Unit {0}))
    → Outcome x
    → Spares k
    → Outcome (bind_result x (λ _. k))
bind-Spares (ok a, s) k (e, l, blank) q = q.at s l blank
bind-Spares (err c, s) k (e, l, blank) q = cc
bind-Spares (panic c, s) k (e, l, blank) q = cc
bind-Spares (timeout, s) k (e, l, blank) q = cc

Spares-then : (m k : Fill (Unit {0})) → Spares m → Spares k → Spares (m >> k)
unfolding ◌>>◌ ◌>>=◌
Spares-then m k p q = record { at = λ s l blank. bind-Spares (m s) k (p.at s l blank) q }

-- A write before the place, or after it.
abbrev IsApart : ℕ → ℕ → Type 0
IsApart offset len = (offset + len ≤ 64) ⊎ ((68 ≤ offset) × (offset + len ≤ 512))

IsBlank-overwrite :
    (offset : ℕ) (bytes s : Bytes)
    → IsApart offset (length bytes)
    → IsBlank s
    → IsBlank (overwrite offset bytes s)
IsBlank-overwrite offset bytes s (inl before) blank =
    ap (take 4) (drop-overwrite 64 offset bytes s before) ∙ blank
IsBlank-overwrite offset bytes s (inr (after, fits)) blank =
    part-overwrite 64 4 offset bytes s (omega arith) ∙ blank

fits-IsApart : (offset len : ℕ) → IsApart offset len → offset + len ≤ 512
fits-IsApart offset len (inl before) = omega arith
fits-IsApart offset len (inr (after, fits)) = fits

Spares-put_bytes :
    (offset : ℕ) (bytes : Bytes) → IsApart offset (length bytes) → Spares (put_bytes offset bytes)
unfolding put_bytes reads changes panics ◌>>=◌
Spares-put_bytes offset bytes apart = record {
  at = λ s l blank.
      let fits = fits-IsApart offset (length bytes) apart in
      let inside : leb (offset + length bytes) (length s) ≡ true = ground arith in
      rw inside
        (refl, length-overwrite offset bytes s ∙ l, IsBlank-overwrite offset bytes s apart blank);
}

IsApart-less : (offset n len : ℕ) → n ≤ len → IsApart offset len → IsApart offset n
IsApart-less offset n len le (inl before) = inl (omega arith)
IsApart-less offset n len le (inr (after, fits)) = inr (after, omega arith)

Spares-put_byte : (offset v : ℕ) → IsApart offset 1 → Spares (put_byte offset v)
unfolding put_byte
Spares-put_byte offset v apart =
    Spares-put_bytes offset (v ∷ []) (IsApart-less offset _ 1 (omega arith) apart)

Spares-put_string :
    (offset len : ℕ) (text : Str) → IsApart offset len → Spares (put_string offset len text)
unfolding put_string
Spares-put_string offset len text apart =
    let bytes = take len (text ++ replicate 128 0x20) in
    Spares-put_bytes offset bytes (
      IsApart-less offset (length bytes) len (length-take_le len (text ++ replicate 128 0x20))
        apart)

Spares-put_big : (width offset v : ℕ) → IsApart offset width → Spares (put_big width offset v)
unfolding put_big
Spares-put_big width offset v apart =
    Spares-put_bytes offset (big_endian width v)
      (IsApart-less offset _ width (omega (arith, length-big_endian width v)) apart)

Spares-put_uuid : (uuid : Bytes) → Spares (put_bytes 68 (take 16 uuid))
Spares-put_uuid uuid =
    Spares-put_bytes 68 (take 16 uuid)
      (IsApart-less 68 _ 16 (length-take_le 16 uuid) (inr (omega arith, omega arith)))

ruleset spares_rules = (Spares-then, Spares-put_byte, Spares-put_string, Spares-put_big)

Spares-footer_front : (now : Time) → Spares (footer_front now)
unfolding footer_front
Spares-footer_front now = search (spares_rules, arith) depth 24

Spares-footer_back : (uuid : Bytes) (size : ℕ) → Spares (footer_back uuid size)
unfolding footer_back
Spares-footer_back uuid size = Spares-then _ _ (Spares-put_big 8 40 size (inl (omega arith))) (
    Spares-then _ _ (Spares-put_big 8 48 size (inl (omega arith))) (
      Spares-then _ _ (Spares-put_big 2 56 _ (inl (omega arith))) (
        Spares-then _ _ (Spares-put_byte 58 1 (inl (omega arith))) (
          Spares-then _ _ (Spares-put_byte 59 1 (inl (omega arith))) (
            Spares-then _ _ (Spares-put_big 4 60 2 (inl (omega arith))) (
              Spares-then _ _ (Spares-put_uuid uuid)
                (Spares-put_byte 84 0 (inr (omega arith, omega arith)))))))))

sum-take :
    (m n k : ℕ) (s : Bytes) → m ≡ n + k → sum (take m s) ≡ sum (take n s) + sum (take k (drop n s))
unfolding sum
sum-take m zero k s e = let same : m ≡ k = omega arith in rw same (omega arith)
sum-take zero (suc n) k s e = absurd (omega arith)
sum-take (suc m) (suc n) zero [] e = omega arith
sum-take (suc m) (suc n) (suc k) [] e = omega arith
sum-take (suc m) (suc n) k (x ∷ s) e = omega (arith, sum-take m n k s (omega arith))

-- A reader adds the first 84 bytes without the four of the checksum, and the checksum: together they
-- are the number of 32 ones.
abbrev pub IsChecked : Bytes → Type 0
IsChecked s =
    (sum (take 64 s) + sum (take 16 (drop 68 s)) + read_big 0 (take 4 (drop 64 s))) % 2 ^ 32
    ≡ 2 ^ 32 - 1

sum-of_blank :
    (s : Bytes) → IsBlank s → sum (take 84 s) ≡ sum (take 64 s) + sum (take 16 (drop 68 s))
unfolding sum
sum-of_blank s blank =
    let zeroes : sum (take 4 (drop 64 s)) ≡ 0 = rw blank refl in
    omega (arith, sum-take 84 68 16 s refl, sum-take 68 64 4 s refl, zeroes)

IsChecked-overwrite :
    (s : Bytes)
    → length s ≡ 512
    → IsBlank s
    → IsChecked (overwrite 64 (big_endian 4 (checksum s)) s)
unfolding checksum
IsChecked-overwrite s l blank =
    let v = checksum s in
    let bytes = big_endian 4 v in
    let whole = length-big_endian 4 v in
    let front = take-overwrite 64 64 bytes s (omega arith) in
    let back = drop-overwrite 68 64 bytes s (omega (arith, whole)) in
    let field : take 4 (drop 64 (overwrite 64 bytes s)) ≡ bytes =
      ap (λ n. take n (drop 64 (overwrite 64 bytes s))) (sym whole)
      ∙ written-overwrite 64 bytes s (omega (arith, whole, l)) in
    rw (front, back, field, read_big-big_endian 4 v (omega arith))
      (omega (arith, sum-of_blank s blank))

put_checksum :
    (c : ℕ) (s : Bytes)
    → length s ≡ 512
    → put_big 4 64 c s ≡ (ok tt, overwrite 64 (big_endian 4 c) s)
unfolding put_big put_bytes reads changes ◌>>=◌
put_checksum c s l =
    let whole = length-big_endian 4 c in
    let inside : leb (64 + length (big_endian 4 c)) (length s) ≡ true = ground (arith, whole) in
    rw inside refl

-- footer fills a sector of 512 bytes without a panic, and a reader who adds its first 84 bytes but
-- for the four of the checksum, and the checksum read with the highest byte first, gets 2 ^ 32 - 1
-- modulo 2 ^ 32.
pub footer-IsChecked :
    (now : Time) (uuid : Bytes) (size : ℕ)
    → (s : Bytes) × (filled 512 (footer now uuid size) ≡ ok s) × (length s ≡ 512) × IsChecked s
unfolding footer footer_fields filled sector_of reads ◌>>=◌ ◌>>◌
footer-IsChecked now uuid size =
    by_fields ((footer_front now >> footer_back uuid size) (replicate 512 0)) (
      (Spares-then _ _ (Spares-footer_front now) (Spares-footer_back uuid size)).at
        (replicate 512 0) refl refl)
  where
    by_fields :
        (x : Result (Unit {0}) × Bytes)
        → Outcome x
        → (s : Bytes) × (sector_of (bind_result x (λ _. reads checksum >>= λ c. put_big 4 64 c))
            ≡ ok s)
          × (length s ≡ 512)
          × IsChecked s
    by_fields (ok a, s) (e, l, blank) = (
      overwrite 64 (big_endian 4 (checksum s)) s,
      rw (put_checksum (checksum s) s l) refl,
      length-overwrite 64 (big_endian 4 (checksum s)) s ∙ l,
      IsChecked-overwrite s l blank,
    )
    by_fields (err c, s) (e, l, blank) = cc
    by_fields (panic c, s) (e, l, blank) = cc
    by_fields (timeout, s) (e, l, blank) = cc
