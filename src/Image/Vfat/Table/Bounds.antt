-- ===== src/Image/Vfat/Table/Bounds.antt =====
-- The entries of the table stay within it.
use mathlib.Core.Path.{subst}
use cluster_api_provider_scv.Base.{
  ℕ, zero, suc, ◌+◌, ◌-◌, ◌*◌, ◌/◌, ◌%◌, ◌≤◌, ◌<◌, ◌≡◌, true, ltb, length, get_or, arith,
  Bool-cases, inl, inr, ◌⊎◌,
}
use cluster_api_provider_scv.Api.Call.{panics, reads, ◌>>=◌}
use cluster_api_provider_scv.Image.Writer.{units}
use cluster_api_provider_scv.Image.Sector.{Fill, get_byte}
use cluster_api_provider_scv.Image.Sector.Filling.{
  Fills, Fills-pure, Fills-then, Fills-bind, Fills-put_byte, Fills-little_endian,
}
use cluster_api_provider_scv.Image.Vfat.Table.{
  put_u16, put_u32, put_whole_bytes, put_bits, put_fat_ent, put_fat_chain,
}

-- Where more entries fit, one does.
one_fits : (a u f m : ℕ) → (f ≡ 12) ⊎ (f ≡ 16) → (a + (u + 1)) * f ≤ m → a * f + f ≤ m
one_fits a u f m (inl e) h = rw e (let h' : (a + (u + 1)) * 12 ≤ m = rw (← e) h in omega arith)
one_fits a u f m (inr e) h = rw e (let h' : (a + (u + 1)) * 16 ≤ m = rw (← e) h in omega arith)

module _ {n : ℕ} where
  pub Fills-put_u16 : (offset v : ℕ) → offset + 2 ≤ n → Fills n tt (put_u16 offset v)
  unfolding put_u16
  Fills-put_u16 offset v fits = Fills-little_endian offset 2 v fits

  pub Fills-put_u32 : (offset v : ℕ) → offset + 4 ≤ n → Fills n tt (put_u32 offset v)
  unfolding put_u32
  Fills-put_u32 offset v fits = Fills-little_endian offset 4 v fits

  -- A byte of the sector may be anything.
  Fills-get_byte :
      {B : Type 0} (offset : ℕ) (k : ℕ → Fill B) (b : B)
      → offset < n
      → ((v : ℕ) → Fills n b (k v))
      → Fills n b (get_byte offset >>= k)
  unfolding get_byte reads panics ◌>>=◌
  Fills-get_byte offset k b lt h = record {
    at = λ s l.
        let inside : ltb offset (length s) ≡ true = ground arith in
        rw inside ((h (get_or s offset 0)).at s l);
  }

  Fills-put_whole_bytes : (k off e : ℕ) → off + k ≤ n → Fills n tt (put_whole_bytes k off e)
  unfolding put_whole_bytes
  Fills-put_whole_bytes zero off e fits = Fills-pure tt
  Fills-put_whole_bytes (suc k) off e fits =
      Fills-then _ _ tt (Fills-put_byte off _ (omega arith))
        (Fills-put_whole_bytes k (off + 1) _ (omega arith))

  Fills-put_bits : (off e bits : ℕ) → off * 8 + bits ≤ 8 * n → Fills n tt (put_bits off e bits)
  unfolding put_bits
  Fills-put_bits off e bits fits =
      Fills-then _ _ tt (Fills-put_whole_bytes (bits / 8) off e (omega arith))
        (elim (Bool-cases (ltb 0 (bits % 8))) [
          | inl some_left ↦ rw some_left (Fills-put_byte _ _ (ground arith))
          | inr none_left ↦ rw none_left (Fills-pure tt)
        ])

  -- An entry of 12 or 16 bits that ends within the table is written.
  pub Fills-put_fat_ent :
      (offset entry fat_size : ℕ)
      → (fat_size ≡ 12) ⊎ (fat_size ≡ 16)
      → offset * fat_size + fat_size ≤ 8 * n
      → Fills n (offset + 1) (put_fat_ent offset entry fat_size)
  unfolding put_fat_ent
  Fills-put_fat_ent offset entry fat_size bits fits =
      let byte_off = offset * fat_size / 8 in
      let bit_off = offset * fat_size % 8 in
      let at_least : 8 ≤ fat_size = ground arith in
      Fills-then _ _ (offset + 1)
        (elim (Bool-cases (ltb 0 bit_off)) [
          | inl some_off ↦ rw some_off (
              Fills-get_byte byte_off _ tt (ground arith) (λ old.
                Fills-then _ _ tt (Fills-put_byte byte_off _ (ground arith))
                  (Fills-put_bits (byte_off + 1) _ (fat_size - (8 - bit_off)) (ground arith))))
          | inr none_off ↦ rw none_off (Fills-put_bits byte_off entry fat_size (ground arith))
        ])
        (Fills-pure (offset + 1))

  -- The chain of a file takes an entry for each of its sectors.
  pub Fills-put_fat_chain :
      (rounds offset len fat_size : ℕ)
      → (fat_size ≡ 12) ⊎ (fat_size ≡ 16)
      → len < rounds
      → (offset + units 512 len) * fat_size ≤ 8 * n
      → Fills n (offset + units 512 len) (put_fat_chain rounds offset 512 len fat_size)
  unfolding put_fat_chain units
  Fills-put_fat_chain zero offset len fat_size bits enough fits = absurd (omega arith)
  Fills-put_fat_chain (suc rounds) offset len fat_size bits enough fits =
      elim (Bool-cases (ltb 512 len)) [
        | inl more ↦
            let fewer : offset + ((len - 1) / 512 + 1) ≡ offset + 1 + ((len - 512 - 1) / 512 + 1) =
              ground arith in
            rw (more, fewer)
              (Fills-bind _ _ (offset + 1) _
                (Fills-put_fat_ent offset (offset + 1) fat_size bits
                  (one_fits offset ((len - 1) / 512) fat_size (8 * n) bits fits))
                (Fills-put_fat_chain rounds (offset + 1) (len - 512) fat_size bits (ground arith)
                  (subst (λ k. k * fat_size ≤ 8 * n) fewer fits)))
        | inr last ↦
            let one : (len - 1) / 512 ≡ 0 = ground arith in
            let fits_one = one_fits offset ((len - 1) / 512) fat_size (8 * n) bits fits in
            rw (last, one) (Fills-put_fat_ent offset 0xFFFFFFFF fat_size bits fits_one)
      ]
