-- ===== src/Image/Vfat.antt =====
-- internal/controllers/helper_vfat.go. `|` of fields that do not overlap is their sum.
pub mod Names
pub mod Table
pub mod Growth
pub mod Sizes
use cluster_api_provider_scv.Base.{
  ℕ, zero, suc, ◌+◌, ◌-◌, ◌*◌, ◌/◌, ◌%◌, ◌^◌, Str, codes, Option, none, some, List, [], ◌∷◌, ◌++◌,
  length, ltb, leb, if◌then◌else◌, replicate,
}
use cluster_api_provider_scv.Base.Decimal.{show}
use cluster_api_provider_scv.Api.Meta.{Result, ok, panic, timeout}
use cluster_api_provider_scv.Api.Call.{pure, lift, ◌>>=◌, ◌>>◌}
use cluster_api_provider_scv.Machine.Env.{CloudInitFile}
use cluster_api_provider_scv.Image.Sector.{
  Bytes, Fill, Time, put_bytes, put_byte, put_string, filled, value_and_sector,
}
use cluster_api_provider_scv.Image.Writer.{
  Writing, WriterAt, write_at, units, write_files, file_units,
}
use cluster_api_provider_scv.Image.Vfat.Table.{put_u16, put_u32, put_fat_ent, put_fat_chain}
use cluster_api_provider_scv.Image.Vfat.Names.{put_vfat_dirent, put_dirent}

abbrev pub vfat_sector_size : ℕ
vfat_sector_size = 512

-- The entries of the root directory: one for the volume, and for each file one for every 13
-- characters of its name and one more.
unfoldable pub dirents : List CloudInitFile → ℕ
unfolding units
dirents [] = 1
dirents (f ∷ files) = dirents files + (units 13 (length f.filename) + 1)

-- Their bytes, in whole sectors.
unfoldable pub dirent_bytes : List CloudInitFile → ℕ
unfolding dirents units
dirent_bytes files = units vfat_sector_size (dirents files * 32) * vfat_sector_size

pub record Geometry : Type 0 where
  pub last_sector : ℕ
  pub fat_size : ℕ
  pub fat_sector_count : ℕ

-- The sectors that the table takes for `last_sector` entries of `fat_size` bits.
unfoldable pub fat_sectors : ℕ → ℕ → ℕ
unfolding units
fat_sectors fat_size last_sector = units vfat_sector_size (units 8 (fat_size * last_sector))

-- One round of the loop over the size of the table.
unfoldable pub grow : ℕ → Geometry → Geometry
grow extra g =
    let last = g.last_sector + (extra - g.fat_sector_count) in
    record {
      last_sector = last;
      fat_size = if leb 4086 last then 16 else g.fat_size;
      fat_sector_count = extra;
    }

-- The loop, in at most `rounds` rounds.
unfoldable pub grow_fat : ℕ → ℕ → Geometry → Result Geometry
unfolding grow fat_sectors
grow_fat zero extra g = timeout
grow_fat (suc rounds) extra g =
    let g' = grow extra g in
    let rest = grow_fat rounds (fat_sectors g'.fat_size g'.last_sector) g' in
    if ltb g.fat_sector_count extra
    then (if leb 65525 g'.last_sector then panic (codes "TODO: fat32") else rest)
    else ok g

unfoldable pub first_geometry : List CloudInitFile → Geometry
unfolding file_units dirent_bytes
first_geometry files = record {
  last_sector = 1 + file_units vfat_sector_size files + dirent_bytes files / vfat_sector_size;
  fat_size = 12;
  fat_sector_count = 0;
}

-- The loop adds a sector in each round and ends at 65525.
unfoldable pub geometry : List CloudInitFile → Result Geometry
geometry files = grow_fat 65526 1 (first_geometry files)

unfoldable pub boot_sector : Geometry → ℕ → Fill (Unit {0})
boot_sector g dir_bytes = do
  put_bytes 0 (0xeb ∷ 0x3c ∷ 0x90 ∷ [])
  put_string 3 8 (codes "MSWIN4.1")
  put_u16 11 vfat_sector_size
  put_byte 13 1
  put_u16 14 1
  put_byte 16 1
  put_u16 17 (dir_bytes / 32)
  put_u16 19 g.last_sector
  put_byte 21 0xf8
  put_u16 22 g.fat_sector_count
  put_u16 24 1
  put_u16 26 1
  put_u32 28 0
  put_byte 38 0x29
  put_u32 39 0x00C1DA7A
  put_string 43 11 (codes "cidata")
  put_string 54 8 (codes "FAT" ++ show g.fat_size)

-- The chains of the files, and where each starts.
unfoldable pub put_chains : ℕ → ℕ → List CloudInitFile → Fill (List ℕ)
put_chains fat_size offset [] = pure []
put_chains fat_size offset (f ∷ files) =
    put_fat_chain (suc (length f.contents)) offset vfat_sector_size (length f.contents) fat_size
    >>= λ next. put_chains fat_size next files >>= λ starts. pure (offset ∷ starts)

unfoldable pub file_table : ℕ → List CloudInitFile → Fill (List ℕ)
file_table fat_size files = put_fat_ent 0 0xFFFFFFF8 fat_size >>= λ one.
    put_fat_ent one 0xFFFFFFFF fat_size >>= λ two. put_chains fat_size two files

unfoldable pub put_entries : Time → ℕ → List CloudInitFile → List ℕ → Fill ℕ
put_entries now offset [] starts = pure offset
put_entries now offset (f ∷ files) [] = pure offset
put_entries now offset (f ∷ files) (start ∷ starts) =
    put_vfat_dirent offset f.filename start (length f.contents) now >>= λ next.
    put_entries now next files starts

unfoldable pub root_directory : Time → List CloudInitFile → List ℕ → Fill ℕ
root_directory now files starts =
    put_dirent 0 (codes "CIDATA") 0x08 now >>= λ offset. put_entries now offset files starts

-- `writeVFAT`
unfoldable pub write_vfat : Time → Option WriterAt → List CloudInitFile → ℕ → Writing ℕ
write_vfat now none files offset = do
  g ← lift (geometry files)
  pure (vfat_sector_size * g.last_sector)
write_vfat now (some fh) files offset = do
  g ← lift (geometry files)
  boot ← lift (filled vfat_sector_size (boot_sector g (dirent_bytes files)))
  n ← write_at (some fh) offset boot
  table ← lift (
      value_and_sector
        (file_table g.fat_size files (replicate (vfat_sector_size * g.fat_sector_count) 0)))
  m ← write_at (some fh) (offset + n) table.1
  root ← lift (filled (dirent_bytes files) (root_directory now files table.0))
  k ← write_at (some fh) (offset + n + m) root
  _ ← write_files (some fh) vfat_sector_size files (offset + n + m + k)
  pure (vfat_sector_size * g.last_sector)
