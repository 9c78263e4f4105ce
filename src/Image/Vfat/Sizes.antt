-- ===== src/Image/Vfat/Sizes.antt =====
-- The sectors of a VFAT image.
use mathlib.Core.Path.{subst}
use cluster_api_provider_scv.Base.{
  ℕ, suc, ◌+◌, ◌-◌, ◌*◌, ◌≤◌, ◌≡◌, refl, codes, none, some, List, [], ◌∷◌, length, All, arith, inl,
  inr, ◌⊎◌,
}
use cluster_api_provider_scv.Api.Meta.{ok}
use cluster_api_provider_scv.Api.Call.{pure, lift, ◌>>=◌}
use cluster_api_provider_scv.Machine.Env.{CloudInitFile}
use cluster_api_provider_scv.Image.Sector.{Time}
use cluster_api_provider_scv.Image.Sector.Filling.{
  Fills, Fills-pure, Fills-bind, Fills-put_bytes, filled-Fills, value_and_sector-Fills, fills_rules,
}
use cluster_api_provider_scv.Image.Writer.{WriterAt, units, file_units}
use cluster_api_provider_scv.Image.Writer.Contiguous.{
  Contiguous, Accepts, Spans, Spans-pure, Spans-lift, Spans-bind, Spans-sector, Spans-valued_sector,
  Spans-write_files,
}
use cluster_api_provider_scv.Image.Vfat.Table.Bounds.{
  Fills-put_u16, Fills-put_u32, Fills-put_fat_ent, Fills-put_fat_chain,
}
use cluster_api_provider_scv.Image.Vfat.Names.Bounds.{Fills-put_dirent, Fills-put_vfat_dirent}
use cluster_api_provider_scv.Image.Vfat.Growth.{IsSized, Sized, geometry-Sized}
use cluster_api_provider_scv.Image.Vfat.{
  vfat_sector_size, dirents, dirent_bytes, Geometry, first_geometry, geometry, boot_sector,
  put_chains, file_table, put_entries, root_directory, write_vfat,
}

ruleset boot_rules = (fills_rules, Fills-put_u16, Fills-put_u32, Fills-put_bytes)

Fills-boot_sector : (g : Geometry) (n : ℕ) → Fills vfat_sector_size tt (boot_sector g n)
unfolding boot_sector
Fills-boot_sector g n = search (boot_rules, arith) depth 24

-- Where the files start in the table, each after the sectors of the one before it.
pub chain_starts : ℕ → List CloudInitFile → List ℕ
chain_starts offset [] = []
chain_starts offset (f ∷ files) =
    offset ∷ chain_starts (offset + units 512 (length f.contents)) files

-- The entries of some files, and those that follow them, fit where all do.
fewer_fit : (a u v f m : ℕ) → (f ≡ 12) ⊎ (f ≡ 16) → (a + (u + v)) * f ≤ m → (a + u) * f ≤ m
fewer_fit a u v f m (inl e) h = rw e (let h' : (a + (u + v)) * 12 ≤ m = rw (← e) h in omega arith)
fewer_fit a u v f m (inr e) h = rw e (let h' : (a + (u + v)) * 16 ≤ m = rw (← e) h in omega arith)

rest_fits : (a u v f m : ℕ) → (a + (u + v)) * f ≤ m → (a + u + v) * f ≤ m
rest_fits a u v f m h = let same : a + u + v ≡ a + (u + v) = omega arith in rw same h

front_fits : (a v f m : ℕ) → (f ≡ 12) ⊎ (f ≡ 16) → (2 + v) * f ≤ m → a ≤ 1 → a * f + f ≤ m
front_fits a v f m (inl e) h le = rw e (let h' : (2 + v) * 12 ≤ m = rw (← e) h in omega arith)
front_fits a v f m (inr e) h le = rw e (let h' : (2 + v) * 16 ≤ m = rw (← e) h in omega arith)

dirents_pos : (files : List CloudInitFile) → 1 ≤ dirents files
unfolding dirents
dirents_pos [] = omega arith
dirents_pos (f ∷ files) = omega (arith, dirents_pos files)

Fills-put_chains :
    (n fat_size offset : ℕ) (files : List CloudInitFile)
    → (fat_size ≡ 12) ⊎ (fat_size ≡ 16)
    → (offset + file_units 512 files) * fat_size ≤ 8 * n
    → Fills n (chain_starts offset files) (put_chains fat_size offset files)
unfolding put_chains chain_starts file_units
Fills-put_chains n fat_size offset [] bits fits = Fills-pure []
Fills-put_chains n fat_size offset (f ∷ files) bits fits =
    let here = units 512 (length f.contents) in
    Fills-bind _ _ (offset + here) _
      (Fills-put_fat_chain (suc (length f.contents)) offset (length f.contents) fat_size bits
        (omega arith) (fewer_fit offset here (file_units 512 files) fat_size (8 * n) bits fits))
      (Fills-bind _ _ (chain_starts (offset + here) files) _
        (Fills-put_chains n fat_size (offset + here) files bits
          (rest_fits offset here (file_units 512 files) fat_size (8 * n) fits))
        (Fills-pure _))

Fills-file_table :
    (n fat_size : ℕ) (files : List CloudInitFile)
    → (fat_size ≡ 12) ⊎ (fat_size ≡ 16)
    → (2 + file_units 512 files) * fat_size ≤ 8 * n
    → Fills n (chain_starts 2 files) (file_table fat_size files)
unfolding file_table
Fills-file_table n fat_size files bits fits =
    let v = file_units 512 files in
    Fills-bind _ _ 1 _
      (Fills-put_fat_ent 0 _ fat_size bits
        (front_fits 0 v fat_size (8 * n) bits fits (omega arith)))
      (Fills-bind _ _ 2 _
        (Fills-put_fat_ent 1 _ fat_size bits
          (front_fits 1 v fat_size (8 * n) bits fits (omega arith)))
        (Fills-put_chains n fat_size 2 files bits fits))

-- The names have six characters or more.
abbrev pub LongNames : List CloudInitFile → Type 0
LongNames files = All (λ f. 6 ≤ length f.filename) files

Fills-put_entries :
    (n : ℕ) (now : Time) (offset start : ℕ) (files : List CloudInitFile)
    → LongNames files
    → offset + 32 * dirents files ≤ n + 32
    → Fills n
        (offset + 32 * (dirents files - 1))
        (put_entries now offset files (chain_starts start files))
unfolding put_entries chain_starts dirents
Fills-put_entries n now offset start [] long fits =
    let same : offset + 32 * (1 - 1) ≡ offset = omega arith in rw same (Fills-pure offset)
Fills-put_entries n now offset start (f ∷ files) long fits =
    let here = units 13 (length f.filename) + 1 in
    let total : offset + 32 * (dirents files + here - 1)
        ≡ offset + 32 * here + 32 * (dirents files - 1) =
      omega (arith, dirents_pos files) in
    rw total (
      Fills-bind _ _ (offset + 32 * here) _
        (Fills-put_vfat_dirent offset f.filename start (length f.contents) now long.0
          (omega (arith, dirents_pos files)))
        (Fills-put_entries n now (offset + 32 * here) _ files long.1 (omega arith)))

Fills-root_directory :
    (n : ℕ) (now : Time) (start : ℕ) (files : List CloudInitFile)
    → LongNames files
    → 32 * dirents files ≤ n
    → Fills n (32 + 32 * (dirents files - 1)) (root_directory now files (chain_starts start files))
unfolding root_directory
Fills-root_directory n now start files long fits =
    Fills-bind _ _ 32 _
      (Fills-put_dirent 0 (codes "CIDATA") 0x08 now (omega (arith, dirents_pos files)))
      (Fills-put_entries n now 32 start files long (omega arith))

pads_vfat : (n : ℕ) → n ≤ units vfat_sector_size n * vfat_sector_size
unfolding units
pads_vfat n = omega arith

sized_fits :
    (v last f c : ℕ)
    → (f ≡ 12) ⊎ (f ≡ 16)
    → f * last ≤ 4096 * c
    → 2 + v ≤ last
    → (2 + v) * f ≤ 8 * (512 * c)
sized_fits v last f c (inl e) h le =
    rw e (let h' : 12 * last ≤ 4096 * c = rw (← e) h in omega arith)
sized_fits v last f c (inr e) h le =
    rw e (let h' : 16 * last ≤ 4096 * c = rw (← e) h in omega arith)

-- The geometry that the loop gives is sized.
pub IsSized-geometry :
    (files : List CloudInitFile) (g : Geometry)
    → geometry files ≡ ok g
    → IsSized (first_geometry files).last_sector g
IsSized-geometry files g e =
    subst (Sized (first_geometry files).last_sector) e (geometry-Sized files)

-- The table has room for the entries of the files, since the image has their sectors.
table_fits :
    (files : List CloudInitFile) (g : Geometry)
    → IsSized (first_geometry files).last_sector g
    → (2 + file_units 512 files) * g.fat_size ≤ 8 * (512 * g.fat_sector_count)
unfolding first_geometry dirent_bytes units
table_fits files g h =
    let counts = h.counts in
    let some_table = h.some_table in
    sized_fits (file_units 512 files) g.last_sector g.fat_size g.fat_sector_count h.bits h.covers
      (omega arith)

dirents_fit : (files : List CloudInitFile) → 32 * dirents files ≤ dirent_bytes files
unfolding dirent_bytes units
dirents_fit files = omega arith

-- The bytes in front of the files and theirs are those of all sectors.
image_total :
    (files : List CloudInitFile) (g : Geometry) (offset : ℕ)
    → IsSized (first_geometry files).last_sector g
    → offset + 512 + 512 * g.fat_sector_count + dirent_bytes files + file_units 512 files * 512
      ≡ offset + 512 * g.last_sector
unfolding first_geometry dirent_bytes
image_total files g offset h = let counts = h.counts in omega arith

module _ (now : Time) (fh : WriterAt) (files : List CloudInitFile) (offset : ℕ) (g : Geometry)
    (accepts : Accepts fh) (long : LongNames files) (shaped : geometry files ≡ ok g) where
  pub Spans-write_vfat :
      Spans offset offset
        (offset + 512 * g.last_sector)
        (512 * g.last_sector)
        (write_vfat now (some fh) files offset)
  unfolding write_vfat
  Spans-write_vfat =
      let sized = IsSized-geometry files g shaped in
      let size = 512 * g.last_sector in
      let (boot, filled_boot, boot_length) =
        filled-Fills tt (boot_sector g (dirent_bytes files))
          (Fills-boot_sector g (dirent_bytes files)) in
      let (table, filled_table, table_length) =
        value_and_sector-Fills (chain_starts 2 files) (file_table g.fat_size files) (
          Fills-file_table (512 * g.fat_sector_count) g.fat_size files sized.bits
            (table_fits files g sized)) in
      let (root, filled_root, root_length) =
        filled-Fills _ (root_directory now files (chain_starts 2 files))
          (Fills-root_directory (dirent_bytes files) now 2 files long (dirents_fit files)) in
      let after_table = offset + 512 + 512 * g.fat_sector_count in
      rw (← (image_total files g offset sized)) (
        Spans-bind offset _ _ offset offset _ g size
          (Spans-lift offset offset (geometry files) g shaped)
          (Spans-sector offset fh accepts offset 512 _ _ boot _ size filled_boot boot_length (
            Spans-valued_sector offset fh accepts (offset + 512) (512 * g.fat_sector_count) _ _
              (chain_starts 2 files) table _ size filled_table table_length
              (Spans-sector offset fh accepts after_table (dirent_bytes files) _ _ root _ size
                filled_root root_length
                (Spans-bind offset _ _ (after_table + dirent_bytes files) _ _ tt size
                  (Spans-write_files offset fh accepts vfat_sector_size files
                    (after_table + dirent_bytes files) pads_vfat)
                  (Spans-pure offset _ size))))))

  -- If the file accepts every write, every file name has at least 6 characters and geometry gives
  -- a geometry, write_vfat gives 512 times its last sector, with a file and without one, and its
  -- writes follow each other without a gap from the offset up to the offset plus that size.
  pub write_vfat_size :
      ((write_vfat now none files offset []).0 ≡ ok (512 * g.last_sector))
      × ((write_vfat now (some fh) files offset []).0 ≡ ok (512 * g.last_sector))
      × Contiguous offset
          (write_vfat now (some fh) files offset []).1
          (offset + 512 * g.last_sector)
  unfolding write_vfat lift pure ◌>>=◌
  write_vfat_size =
      let (given, covered) = Spans-write_vfat.at [] refl in (rw shaped refl, given, covered)
