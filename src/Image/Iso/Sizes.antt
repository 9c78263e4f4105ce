-- ===== src/Image/Iso/Sizes.antt =====
-- The sectors of an ISO image.
use cluster_api_provider_scv.Base.{
  ℕ, ◌+◌, ◌*◌, ◌≤◌, ◌≡◌, refl, Str, codes, false, Option, none, some, List, [], ◌∷◌, ◌++◌, ltb,
  arith,
}
use cluster_api_provider_scv.Base.Int.{pos}
use cluster_api_provider_scv.Api.Meta.{ok}
use cluster_api_provider_scv.Api.Call.{pure}
use cluster_api_provider_scv.Machine.Env.{CloudInitFile}
use cluster_api_provider_scv.Image.Sector.{Time}
use cluster_api_provider_scv.Image.Sector.Filling.{
  Fills, Fills-bind, Fills-put_bytes, Fills-put_byte, Fills-put_string, Fills-little_endian,
  Fills-big_endian, Fills-then, Fills-pure, fills_rules, filled-Fills,
}
use cluster_api_provider_scv.Image.Writer.{units, WriterAt, file_units}
use cluster_api_provider_scv.Image.Writer.Contiguous.{
  Contiguous, Accepts, Spans, Spans-pure, Spans-bind, Spans-sector, Spans-write_files,
}
use cluster_api_provider_scv.Image.Iso.{
  iso_sector_size, put_u16, put_u32, put_date, IsoDirent, dirent_length, fill_dirent, put_dirent,
  directory_entry, file_entry, volume_descriptor, volume_numbers, volume_texts, volume_dates,
  terminator, put_entries, directory, write_iso9660,
}

module _ {n : ℕ} where
  Fills-put_u16 : (offset v : ℕ) → offset + 4 ≤ n → Fills n tt (put_u16 offset v)
  unfolding put_u16
  Fills-put_u16 offset v fits =
      Fills-then _ _ tt (Fills-little_endian offset 2 v (omega arith))
        (Fills-big_endian (offset + 2) 2 v (omega arith))

  Fills-put_u32 : (offset v : ℕ) → offset + 8 ≤ n → Fills n tt (put_u32 offset v)
  unfolding put_u32
  Fills-put_u32 offset v fits =
      Fills-then _ _ tt (Fills-little_endian offset 4 v (omega arith))
        (Fills-big_endian (offset + 4) 4 v (omega arith))

  Fills-put_date : (offset : ℕ) (t : Option Str) → offset + 17 ≤ n → Fills n tt (put_date offset t)
  unfolding put_date
  Fills-put_date offset t fits =
      Fills-then _ _ tt (Fills-put_string offset 16 _ (omega arith))
        (Fills-put_byte (offset + 16) 0 (omega arith))

  Fills-fill_dirent :
      (offset : ℕ) (d : IsoDirent)
      → offset + dirent_length d.identifier ≤ n
      → Fills n tt (fill_dirent offset d)
  unfolding fill_dirent dirent_length
  Fills-fill_dirent offset d fits = Fills-then _ _ tt (Fills-put_byte offset _ (omega arith)) (
      Fills-then _ _ tt (Fills-put_u32 (offset + 2) d.location (omega arith)) (
        Fills-then _ _ tt (Fills-put_u32 (offset + 10) d.length (omega arith)) (
          Fills-then _ _ tt (Fills-put_bytes (offset + 18) _ (omega arith)) (
            Fills-then _ _ tt (Fills-put_byte (offset + 25) d.file_flags (omega arith)) (
              Fills-then _ _ tt (Fills-put_u16 (offset + 28) 1 (omega arith)) (
                Fills-then _ _ tt (Fills-put_byte (offset + 32) _ (omega arith))
                  (Fills-put_bytes (offset + 33) d.identifier (omega arith))))))))

-- An entry that fits in the sector is written, and the next one follows it.
Fills-put_dirent :
    (offset : ℕ) (d : IsoDirent)
    → offset + dirent_length d.identifier ≤ iso_sector_size
    → Fills iso_sector_size (pos (offset + dirent_length d.identifier)) (put_dirent (pos offset) d)
unfolding put_dirent
Fills-put_dirent offset d fits =
    let inside : ltb iso_sector_size (offset + dirent_length d.identifier) ≡ false = ground arith in
    rw inside
      (Fills-then (fill_dirent offset d) _ _ (Fills-fill_dirent offset d fits) (Fills-pure _))

ruleset iso_rules = (fills_rules, Fills-put_u16, Fills-put_u32, Fills-put_date)

Fills-root_entry :
    (now : Time) → Fills iso_sector_size (pos 192) (put_dirent (pos 156) (directory_entry now 0))
unfolding directory_entry dirent_length
Fills-root_entry now = Fills-put_dirent 156 (directory_entry now 0) (omega arith)

Fills-volume_numbers : (last_sector : ℕ) → Fills iso_sector_size tt (volume_numbers last_sector)
unfolding volume_numbers
Fills-volume_numbers last_sector = search (iso_rules, arith) depth 14

Fills-volume_texts : Fills iso_sector_size tt volume_texts
unfolding volume_texts
Fills-volume_texts = search (iso_rules, arith) depth 14

Fills-volume_dates : (now : Time) → Fills iso_sector_size tt (volume_dates now)
unfolding volume_dates
Fills-volume_dates now = search (iso_rules, arith) depth 14

Fills-volume_descriptor :
    (now : Time) (last_sector : ℕ) → Fills iso_sector_size tt (volume_descriptor now last_sector)
unfolding volume_descriptor
Fills-volume_descriptor now last_sector = Fills-then _ _ tt (Fills-volume_numbers last_sector) (
    Fills-bind _ _ _ tt (Fills-root_entry now)
      (Fills-then _ _ tt Fills-volume_texts (Fills-volume_dates now)))

Fills-terminator : Fills iso_sector_size tt terminator
unfolding terminator codes
Fills-terminator = search (iso_rules, arith, Fills-put_bytes) depth 8

-- The sum of the lengths of the entries of the files.
unfoldable pub entry_lengths : List CloudInitFile → ℕ
entry_lengths [] = 0
entry_lengths (f ∷ files) = dirent_length (f.filename ++ codes ";1") + entry_lengths files

Fills-put_entries :
    (now : Time) (offset sector : ℕ) (files : List CloudInitFile)
    → offset + entry_lengths files ≤ iso_sector_size
    → Fills iso_sector_size
        (pos (offset + entry_lengths files))
        (put_entries now (pos offset) sector files)
unfolding put_entries entry_lengths file_entry
Fills-put_entries now offset sector [] fits =
    let same : offset + 0 ≡ offset = omega arith in rw same (Fills-pure (pos offset))
Fills-put_entries now offset sector (f ∷ files) fits =
    let here = dirent_length (f.filename ++ codes ";1") in
    let same : offset + (here + entry_lengths files) ≡ offset + here + entry_lengths files =
      omega arith in
    rw same (
      Fills-bind _ _ (pos (offset + here)) _
        (Fills-put_dirent offset (file_entry now sector f) (omega arith))
        (Fills-put_entries now (offset + here) _ files (omega arith)))

-- Both entries of the directory take 36 bytes.
Fills-directory :
    (now : Time) (files : List CloudInitFile)
    → 72 + entry_lengths files ≤ iso_sector_size
    → Fills iso_sector_size (pos (72 + entry_lengths files)) (directory now files)
unfolding directory directory_entry
Fills-directory now files fits =
    Fills-bind _ _ (pos 36) _ (Fills-put_dirent 0 (directory_entry now 0) (omega arith)) (
      Fills-bind _ _ (pos 72) _ (Fills-put_dirent 36 (directory_entry now 1) (omega arith))
        (Fills-put_entries now 72 19 files fits))

pads_iso : (n : ℕ) → n ≤ units iso_sector_size n * iso_sector_size
unfolding units
pads_iso n = omega arith

-- If the file accepts every write and 72 bytes with the entries of the files fit into a sector,
-- there is a size that write_iso9660 gives with a file and without one, and its writes follow each
-- other without a gap from 16 sectors after the offset up to the offset plus that size.
pub write_iso9660_size :
    (now : Time) (fh : WriterAt) (files : List CloudInitFile) (offset : ℕ)
    → Accepts fh
    → 72 + entry_lengths files ≤ iso_sector_size
    → (size : ℕ) × ((write_iso9660 now none files offset []).0 ≡ ok size)
      × ((write_iso9660 now (some fh) files offset []).0 ≡ ok size)
      × Contiguous
          (offset + 16 * iso_sector_size)
          (write_iso9660 now (some fh) files offset []).1
          (offset + size)
unfolding write_iso9660 pure
write_iso9660_size now fh files offset accepts fits =
    let last_sector = 19 + file_units iso_sector_size files in
    let start = offset + 16 * iso_sector_size in
    let (volume, filled_volume, volume_length) =
      filled-Fills tt (volume_descriptor now last_sector)
        (Fills-volume_descriptor now last_sector) in
    let (ending, filled_ending, ending_length) = filled-Fills tt terminator Fills-terminator in
    let (entries, filled_entries, entries_length) =
      filled-Fills _ (directory now files) (Fills-directory now files fits) in
    let size = iso_sector_size * last_sector in
    let total : start + 2048 + 2048 + 2048 + file_units iso_sector_size files * 2048
        ≡ offset + size =
      omega arith in
    let writing : Spans start start (offset + size) size
        (write_iso9660 now (some fh) files offset) =
      rw (← total) (
        Spans-sector start fh accepts start 2048 _ _ volume _ size filled_volume volume_length (
          Spans-sector start fh accepts (start + 2048) 2048 _ _ ending _ size filled_ending
            ending_length
            (Spans-sector start fh accepts (start + 2048 + 2048) 2048 _ _ entries _ size
              filled_entries entries_length
              (Spans-bind start _ _ (start + 2048 + 2048 + 2048) _ _ tt size
                (Spans-write_files start fh accepts iso_sector_size files
                  (start + 2048 + 2048 + 2048) pads_iso)
                (Spans-pure start _ size))))) in
    let (given, covered) = writing.at [] refl in (size, refl, given, covered)
