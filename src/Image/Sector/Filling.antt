-- ===== src/Image/Sector/Filling.antt =====
-- Which calls stay within a sector, and leave it as long as it was.
use cluster_api_provider_scv.Base.{
  ℕ, zero, suc, ◌+◌, ◌≤◌, ◌≡◌, refl, ap, Bool, true, false, [], ◌∷◌, ◌++◌, ◌/◌, ◌%◌, Str, leb,
  length, take, replicate, length-append, length-replicate, arith, if◌then◌else◌, ◌∙◌,
}
use cluster_api_provider_scv.Api.Meta.{Result, ok, err, panic, timeout}
use cluster_api_provider_scv.Api.Call.{pure, panics, reads, changes, bind_result, ◌>>=◌, ◌>>◌}
use cluster_api_provider_scv.Image.Sector.{
  Bytes, Fill, overwrite, put_bytes, put_byte, put_string, little_endian, big_endian, filled,
  sector_of, value_and_sector,
}

pub length-overwrite : (offset : ℕ) (bytes s : Bytes) → length (overwrite offset bytes s) ≡ length s
unfolding overwrite
length-overwrite offset [] s = refl
length-overwrite offset (b ∷ bytes) [] = refl
length-overwrite zero (b ∷ bytes) (x ∷ s) = ap suc (length-overwrite zero bytes s)
length-overwrite (suc offset) (b ∷ bytes) (x ∷ s) = ap suc (length-overwrite offset (b ∷ bytes) s)

pub length-little_endian : (width v : ℕ) → length (little_endian width v) ≡ width
unfolding little_endian
length-little_endian zero v = refl
length-little_endian (suc width) v = ap suc (length-little_endian width _)

pub length-big_endian : (width v : ℕ) → length (big_endian width v) ≡ width
unfolding big_endian
length-big_endian zero v = refl
length-big_endian (suc width) v = omega (
  arith,
  length-append {0} (big_endian width (v / 256)) (v % 256 ∷ []),
  length-big_endian width (v / 256),
)

pub length-take_le : (n : ℕ) (s : Bytes) → length (take n s) ≤ n
length-take_le zero s = omega arith
length-take_le (suc n) [] = omega arith
length-take_le (suc n) (x ∷ s) = omega (arith, length-take_le n s)

-- On a sector of `n` bytes the call gives `a`, and leaves `n` bytes.
pub record Fills {A : Type 0} (n : ℕ) (a : A) (m : Fill A) : Type 0 where
  pub at : (s : Bytes) → length s ≡ n → ((m s).0 ≡ ok a) × (length (m s).1 ≡ n)

module _ {n : ℕ} where
  pub Fills-pure : {A : Type 0} (a : A) → Fills n a (pure a)
  unfolding pure
  Fills-pure a = record { at = λ s h. (refl, h) }

  bind-Fills :
      {A B : Type 0} (x : Result A × Bytes) (f : A → Fill B) (a : A) (b : B)
      → x.0 ≡ ok a
      → length x.1 ≡ n
      → Fills n b (f a)
      → ((bind_result x f).0 ≡ ok b) × (length (bind_result x f).1 ≡ n)
  bind-Fills (ok c, s) f a b e h k = let same : c ≡ a = cc in rw same (k.at s h)
  bind-Fills (err c, s) f a b e h k = cc
  bind-Fills (panic c, s) f a b e h k = cc
  bind-Fills (timeout, s) f a b e h k = cc

  pub Fills-bind :
      {A B : Type 0} (m : Fill A) (f : A → Fill B) (a : A) (b : B)
      → Fills n a m
      → Fills n b (f a)
      → Fills n b (m >>= f)
  unfolding ◌>>=◌
  Fills-bind m f a b p q = record {
    at = λ s h. let (e, l) = p.at s h in bind-Fills (m s) f a b e l q;
  }

  pub Fills-then :
      {B : Type 0} (m : Fill (Unit {0})) (k : Fill B) (b : B)
      → Fills n tt m
      → Fills n b k
      → Fills n b (m >> k)
  unfolding ◌>>◌
  Fills-then m k b p q = Fills-bind m (λ _. k) tt b p q

  -- What is read from the sector may be anything.
  pub Fills-reads :
      {A B : Type 0} (f : Bytes → A) (k : A → Fill B) (b : B)
      → ((a : A) → Fills n b (k a))
      → Fills n b (reads f >>= k)
  unfolding reads ◌>>=◌
  Fills-reads f k b h = record { at = λ s l. (h (f s)).at s l }

  pub Fills-if :
      {A : Type 0} (x : Bool) (m k : Fill A) (a : A)
      → Fills n a m
      → Fills n a k
      → Fills n a (if x then m else k)
  Fills-if true m k a p q = p
  Fills-if false m k a p q = q

  pub Fills-put_bytes :
      (offset : ℕ) (bytes : Bytes) → offset + length bytes ≤ n → Fills n tt (put_bytes offset bytes)
  unfolding put_bytes reads changes panics ◌>>=◌
  Fills-put_bytes offset bytes fits = record {
    at = λ s h.
        let inside : leb (offset + length bytes) (length s) ≡ true = ground arith in
        rw inside (refl, length-overwrite offset bytes s ∙ h);
  }

  pub Fills-put_byte : (offset v : ℕ) → offset + 1 ≤ n → Fills n tt (put_byte offset v)
  unfolding put_byte
  Fills-put_byte offset v fits = Fills-put_bytes offset (v ∷ []) (omega arith)

  pub Fills-put_string :
      (offset len : ℕ) (text : Str) → offset + len ≤ n → Fills n tt (put_string offset len text)
  unfolding put_string
  Fills-put_string offset len text fits =
      Fills-put_bytes offset (take len (text ++ replicate 128 0x20))
        (omega (arith, length-take_le len (text ++ replicate 128 0x20)))

  pub Fills-little_endian :
      (offset width v : ℕ)
      → offset + width ≤ n
      → Fills n tt (put_bytes offset (little_endian width v))
  Fills-little_endian offset width v fits =
      Fills-put_bytes offset (little_endian width v) (omega (arith, length-little_endian width v))

  pub Fills-big_endian :
      (offset width v : ℕ) → offset + width ≤ n → Fills n tt (put_bytes offset (big_endian width v))
  Fills-big_endian offset width v fits =
      Fills-put_bytes offset (big_endian width v) (omega (arith, length-big_endian width v))

  -- A call that fills a new sector.
  pub filled-Fills :
      {A : Type 0} (a : A) (m : Fill A)
      → Fills n a m
      → (s : Bytes) × (filled n m ≡ ok s) × (length s ≡ n)
  unfolding filled sector_of
  filled-Fills {A} a m p =
      by_result (m (replicate n 0)) (p.at (replicate n 0) (length-replicate n 0))
    where
      by_result :
          (x : Result A × Bytes)
          → (x.0 ≡ ok a) × (length x.1 ≡ n)
          → (s : Bytes) × (sector_of x ≡ ok s) × (length s ≡ n)
      by_result (ok b, s) (e, l) = (s, refl, l)
      by_result (err b, s) (e, l) = cc
      by_result (panic b, s) (e, l) = cc
      by_result (timeout, s) (e, l) = cc

  -- The same with the value.
  pub value_and_sector-Fills :
      {A : Type 0} (a : A) (m : Fill A)
      → Fills n a m
      → (s : Bytes) × (value_and_sector (m (replicate n 0)) ≡ ok (a, s)) × (length s ≡ n)
  unfolding value_and_sector
  value_and_sector-Fills {A} a m p =
      by_result (m (replicate n 0)) (p.at (replicate n 0) (length-replicate n 0))
    where
      by_result :
          (x : Result A × Bytes)
          → (x.0 ≡ ok a) × (length x.1 ≡ n)
          → (s : Bytes) × (value_and_sector x ≡ ok (a, s)) × (length s ≡ n)
      by_result (ok b, s) (e, l) = let same : b ≡ a = cc in (s, rw same refl, l)
      by_result (err b, s) (e, l) = cc
      by_result (panic b, s) (e, l) = cc
      by_result (timeout, s) (e, l) = cc

pub ruleset fills_rules = (
  Fills-pure, Fills-then, Fills-put_byte, Fills-put_string, Fills-little_endian, Fills-big_endian,
)
