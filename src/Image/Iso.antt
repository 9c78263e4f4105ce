-- ===== src/Image/Iso.antt =====
-- internal/controllers/helper_iso9660.go.
pub mod Sizes
use cluster_api_provider_scv.Base.{
  ℕ, suc, ◌+◌, ◌-◌, ◌*◌, ◌/◌, ◌%◌, ◌^◌, Str, codes, Option, none, some, List, [], ◌∷◌, ◌++◌, length,
  ltb, if◌then◌else◌,
}
use cluster_api_provider_scv.Base.Int.{ℤ, pos, negsuc}
use cluster_api_provider_scv.Api.Meta.{Result}
use cluster_api_provider_scv.Api.Call.{pure, panics, lift, ◌>>=◌, ◌>>◌}
use cluster_api_provider_scv.Machine.Env.{CloudInitFile}
use cluster_api_provider_scv.Image.Sector.{
  Bytes, Fill, Time, put_bytes, put_byte, put_string, little_endian, big_endian, filled,
}
use cluster_api_provider_scv.Image.Writer.{
  Writing, WriterAt, write_at, units, write_files, file_units,
}

abbrev pub iso_sector_size : ℕ
iso_sector_size = 2048

-- `putU16` and `putU32`: in both orders.
unfoldable pub put_u16 : ℕ → ℕ → Fill (Unit {0})
put_u16 offset v = put_bytes offset (little_endian 2 v) >> put_bytes (offset + 2) (big_endian 2 v)

unfoldable pub put_u32 : ℕ → ℕ → Fill (Unit {0})
put_u32 offset v = put_bytes offset (little_endian 4 v) >> put_bytes (offset + 4) (big_endian 4 v)

-- `putDate`, where `none` is the zero time.
unfoldable pub put_date : ℕ → Option Str → Fill (Unit {0})
put_date offset text =
    put_string offset 16 (elim text [ none ↦ codes "0000000000000000" | some t ↦ t ])
    >> put_byte (offset + 16) 0

pub record IsoDirent : Type 0 where
  pub location : ℕ
  pub length : ℕ
  pub recording_date : Time
  pub file_flags : ℕ
  pub identifier : Str

-- `(33 + identLen | 1) + 1`: `|` binds as `+` does.
unfoldable pub dirent_length : Str → ℕ
dirent_length identifier = (33 + length identifier) / 2 * 2 + 2

-- `putDirent` at an offset that is not negative and fits; a byte is the rest by 256.
unfoldable pub fill_dirent : ℕ → IsoDirent → Fill (Unit {0})
unfolding dirent_length put_u16 put_u32
fill_dirent offset d =
    let utc = d.recording_date.utc in
    put_byte offset (dirent_length d.identifier % 256)
    >> (put_u32 (offset + 2) d.location
        >> (put_u32 (offset + 10) d.length
            >> (put_bytes (offset + 18) (
                  (utc.year + 2 ^ 16 - 1900) % 256
                  ∷ utc.month % 256
                  ∷ utc.day % 256
                  ∷ utc.hour % 256
                  ∷ utc.minute % 256
                  ∷ utc.second % 256
                  ∷ [])
                >> (put_byte (offset + 25) d.file_flags
                    >> (put_u16 (offset + 28) 1
                        >> (put_byte (offset + 32) (length d.identifier % 256)
                            >> put_bytes (offset + 33) d.identifier))))))

-- `putDirent`: the offset that follows, or -1 where the entry does not fit.
unfoldable pub put_dirent : ℤ → IsoDirent → Fill ℤ
unfolding fill_dirent
put_dirent (negsuc n) d =
    if ltb (iso_sector_size + suc n) (dirent_length d.identifier)
    then pure (negsuc 0)
    else panics (codes "slice bounds out of range")
put_dirent (pos offset) d =
    if ltb iso_sector_size (offset + dirent_length d.identifier)
    then pure (negsuc 0)
    else fill_dirent offset d >> pure (pos (offset + dirent_length d.identifier))

-- The entries of a directory itself and of its parent, named by the byte 0 or 1.
unfoldable pub directory_entry : Time → ℕ → IsoDirent
directory_entry now name = record {
  location = 18;
  length = iso_sector_size;
  recording_date = now;
  file_flags = 2;
  identifier = name ∷ [];
}

unfoldable pub file_entry : Time → ℕ → CloudInitFile → IsoDirent
file_entry now sector f = record {
  location = sector;
  length = length f.contents;
  recording_date = now;
  file_flags = 0;
  identifier = f.filename ++ codes ";1";
}

-- The primary volume descriptor up to the root directory's entry; the version stands at 7.
unfoldable pub volume_numbers : ℕ → Fill (Unit {0})
volume_numbers last_sector = do
  put_byte 0 1
  put_string 1 5 (codes "CD001")
  put_byte 7 1
  put_string 8 32 (codes "LINUX")
  put_string 40 32 (codes "cidata")
  put_u32 80 last_sector
  put_u16 120 1
  put_u16 124 1
  put_u16 128 iso_sector_size

-- The texts after that entry.
unfoldable pub volume_texts : Fill (Unit {0})
volume_texts = do
  put_string 190 128 []
  put_string 318 128 []
  put_string 446 128 []
  put_string 574 128 (codes "cluster-api-provider-scvmm")
  put_string 702 38 []
  put_string 740 36 []
  put_string 776 37 []

-- The dates after those.
unfoldable pub volume_dates : Time → Fill (Unit {0})
volume_dates now = do
  put_date 813 (some now.text)
  put_date 830 (some now.text)
  put_date 847 none
  put_date 864 (some now.text)
  put_byte 881 1

unfoldable pub volume_descriptor : Time → ℕ → Fill (Unit {0})
volume_descriptor now last_sector = do
  volume_numbers last_sector
  n ← put_dirent (pos 156) (directory_entry now 0)
  volume_texts
  volume_dates now

unfoldable pub terminator : Fill (Unit {0})
terminator = put_byte 0 255 >> (put_bytes 1 (codes "CD001") >> put_byte 6 1)

-- The entries of the files, from the sector of the first one.
unfoldable pub put_entries : Time → ℤ → ℕ → List CloudInitFile → Fill ℤ
unfolding put_dirent file_entry units
put_entries now offset sector [] = pure offset
put_entries now offset sector (f ∷ files) = put_dirent offset (file_entry now sector f) >>= λ next.
    put_entries now next (sector + units iso_sector_size (length f.contents)) files

unfoldable pub directory : Time → List CloudInitFile → Fill ℤ
unfolding put_dirent directory_entry put_entries
directory now files = put_dirent (pos 0) (directory_entry now 0) >>= λ n.
    put_dirent n (directory_entry now 1) >>= λ m. put_entries now m 19 files

-- `writeISO9660`
unfoldable pub write_iso9660 : Time → Option WriterAt → List CloudInitFile → ℕ → Writing ℕ
write_iso9660 now none files offset =
    pure (iso_sector_size * (19 + file_units iso_sector_size files))
write_iso9660 now (some fh) files offset = do
  let last_sector = 19 + file_units iso_sector_size files
  let start = offset + 16 * iso_sector_size
  volume ← lift (filled iso_sector_size (volume_descriptor now last_sector))
  n ← write_at (some fh) start volume
  ending ← lift (filled iso_sector_size terminator)
  m ← write_at (some fh) (start + n) ending
  entries ← lift (filled iso_sector_size (directory now files))
  k ← write_at (some fh) (start + n + m) entries
  _ ← write_files (some fh) iso_sector_size files (start + n + m + k)
  pure (iso_sector_size * last_sector)
