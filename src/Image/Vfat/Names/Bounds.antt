-- ===== src/Image/Vfat/Names/Bounds.antt =====
-- The entries of the root directory stay within it, for names of six characters or more.
use cluster_api_provider_scv.Base.{
  ℕ, zero, suc, ◌+◌, ◌*◌, ◌≤◌, ◌≡◌, Str, [], ◌∷◌, ◌++◌, length, take, drop, ltb, leb, map, false,
  codes, if◌then◌else◌, arith,
}
use cluster_api_provider_scv.Image.Writer.{units}
use cluster_api_provider_scv.Image.Sector.{Time}
use cluster_api_provider_scv.Image.Sector.Filling.{
  Fills, Fills-pure, Fills-then, Fills-bind, Fills-put_byte, Fills-put_string, length-take_le,
}
use cluster_api_provider_scv.Image.Vfat.Table.Bounds.{Fills-put_u16, Fills-put_u32}
use cluster_api_provider_scv.Image.Vfat.Names.{
  put_date_time, put_dirent, to_upper, short_name, put_chars, put_name, put_vfat_dirent,
}

module _ {n : ℕ} where
  Fills-put_date_time :
      (offset : ℕ) (t : Time) → offset + 4 ≤ n → Fills n tt (put_date_time offset t)
  unfolding put_date_time
  Fills-put_date_time offset t fits =
      Fills-then _ _ tt (Fills-put_u16 offset _ (omega arith))
        (Fills-put_u16 (offset + 2) _ (omega arith))

  pub Fills-put_dirent :
      (offset : ℕ) (name : Str) (attributes : ℕ) (now : Time)
      → offset + 32 ≤ n
      → Fills n (offset + 32) (put_dirent offset name attributes now)
  unfolding put_dirent
  Fills-put_dirent offset name attributes now fits =
      Fills-then _ _ _ (Fills-put_string offset 11 name (omega arith)) (
        Fills-then _ _ _ (Fills-put_byte (offset + 11) attributes (omega arith)) (
          Fills-then _ _ _ (Fills-put_date_time (offset + 14) now (omega arith)) (
            Fills-then _ _ _ (Fills-put_date_time (offset + 22) now (omega arith))
              (Fills-pure (offset + 32)))))

  Fills-put_chars :
      (offset : ℕ) (s : Str) → offset + 2 * length s ≤ n → Fills n tt (put_chars offset s)
  unfolding put_chars
  Fills-put_chars offset [] fits = Fills-pure tt
  Fills-put_chars offset (c ∷ s) fits =
      Fills-then _ _ tt (Fills-put_byte offset c (omega arith))
        (Fills-put_chars (offset + 2) s (omega arith))

  Fills-put_name :
      (seq offset first : ℕ) (name : Str) (sum : ℕ)
      → offset + 32 * seq ≤ n
      → Fills n (offset + 32 * seq) (put_name seq offset first name sum)
  unfolding put_name
  Fills-put_name zero offset first name sum fits =
      let same : offset + 32 * 0 ≡ offset = omega arith in rw same (Fills-pure offset)
  Fills-put_name (suc seq) offset first name sum fits =
      let chunk = drop (13 * seq) name in
      let total : offset + 32 * suc seq ≡ offset + 32 + 32 * seq = omega arith in
      rw total (
        Fills-then _ _ _ (Fills-put_byte offset _ (omega arith)) (
          Fills-then _ _ _
            (Fills-put_chars (offset + 1) (take 5 chunk) (omega (arith, length-take_le 5 chunk)))
            (Fills-then _ _ _
              (Fills-put_chars (offset + 14) (take 6 (drop 5 chunk))
                (omega (arith, length-take_le 6 (drop 5 chunk))))
              (Fills-then _ _ _
                (Fills-put_chars (offset + 28) (take 2 (drop 11 chunk))
                  (omega (arith, length-take_le 2 (drop 11 chunk))))
                (Fills-then _ _ _ (Fills-put_byte (offset + 11) 0x0f (omega arith)) (
                  Fills-then _ _ _ (Fills-put_byte (offset + 13) sum (omega arith))
                    (Fills-put_name seq (offset + 32) 0 name sum (omega arith))))))))

  -- The short name of a name that is long enough.
  Fills-short_name :
      (name : Str)
      → 6 ≤ length name
      → Fills n
          (if leb (length name) 8
            then map to_upper name
            else map to_upper (take 6 name ++ codes "~1"))
          (short_name name)
  unfolding short_name
  Fills-short_name name long =
      let enough : ltb (length name) 6 ≡ false = ground arith in rw enough (Fills-pure _)

  pub Fills-put_vfat_dirent :
      (offset : ℕ) (name : Str) (start len : ℕ) (now : Time)
      → 6 ≤ length name
      → offset + 32 * (units 13 (length name) + 1) ≤ n
      → Fills n
          (offset + 32 * (units 13 (length name) + 1))
          (put_vfat_dirent offset name start len now)
  unfolding put_vfat_dirent
  Fills-put_vfat_dirent offset name start len now long fits =
      let at = offset + 32 * units 13 (length name) in
      let total : offset + 32 * (units 13 (length name) + 1) ≡ at + 32 = omega arith in
      rw total (
        Fills-bind _ _ _ _ (Fills-short_name name long) (
          Fills-bind _ _ at _
            (Fills-put_name (units 13 (length name)) offset 0x40 name _ (omega arith))
            (Fills-then _ _ _ (Fills-put_string at 11 _ (omega arith)) (
              Fills-then _ _ _ (Fills-put_date_time (at + 14) now (omega arith)) (
                Fills-then _ _ _ (Fills-put_u16 (at + 20) _ (omega arith)) (
                  Fills-then _ _ _ (Fills-put_date_time (at + 22) now (omega arith)) (
                    Fills-then _ _ _ (Fills-put_u16 (at + 26) start (omega arith)) (
                      Fills-then _ _ _ (Fills-put_u32 (at + 28) len (omega arith))
                        (Fills-pure (at + 32))))))))))
