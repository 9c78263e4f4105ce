-- ===== src/Image/Vfat/Names.antt =====
-- `putVfatDirent`, `putDirent` and `putDateTime`: the entries of the root directory. A name is a text
-- of ASCII.
pub mod Bounds
use Prim.Native.Nat.{bit_or}
use cluster_api_provider_scv.Base.{
  ℕ, zero, suc, ◌+◌, ◌-◌, ◌*◌, ◌/◌, ◌%◌, ◌^◌, ◌&&◌, Str, codes, [], ◌∷◌, ◌++◌, map, length, take,
  drop, replicate, ltb, leb, if◌then◌else◌,
}
use cluster_api_provider_scv.Api.Call.{pure, panics, ◌>>=◌, ◌>>◌}
use cluster_api_provider_scv.Image.Sector.{Fill, Time, put_byte, put_string}
use cluster_api_provider_scv.Image.Writer.{units}
use cluster_api_provider_scv.Image.Vfat.Table.{put_u16, put_u32}

-- `putDateTime`
unfoldable pub put_date_time : ℕ → Time → Fill (Unit {0})
put_date_time offset t =
    put_u16 offset (t.local.hour % 32 * 2 ^ 11 + t.local.minute % 64 * 2 ^ 5 + t.local.second % 32)
    >> put_u16 (offset + 2) (
        (t.local.year + 2 ^ 16 - 1980) % 128 * 2 ^ 9
        + t.local.month % 16 * 2 ^ 5
        + t.local.day % 32)

-- `putDirent`
unfoldable pub put_dirent : ℕ → Str → ℕ → Time → Fill ℕ
put_dirent offset name attributes now = do
  put_string offset 11 name
  put_byte (offset + 11) attributes
  put_date_time (offset + 14) now
  put_date_time (offset + 22) now
  pure (offset + 32)

to_upper : ℕ → ℕ
to_upper c = if leb b'a' c && leb c b'z' then c - 32 else c

-- The short name: the slice name[0:6] is taken whatever the length of the name is.
unfoldable pub short_name : Str → Fill Str
unfolding to_upper
short_name name =
    if ltb (length name) 6
    then panics (codes "slice bounds out of range")
    else pure (
        if leb (length name) 8 then map to_upper name else map to_upper (take 6 name ++ codes "~1"))

checksum_from : ℕ → Str → ℕ
checksum_from sum [] = sum
checksum_from sum (c ∷ s) = checksum_from ((sum % 2 * 2 ^ 7 + sum / 2 + c) % 256) s

-- The checksum of the short name, padded to 11 characters.
unfoldable pub name_checksum : Str → ℕ
unfolding checksum_from
name_checksum short = checksum_from 0 (take 11 (short ++ replicate 11 0x20))

-- Characters in two bytes each, of which the second stays 0.
unfoldable pub put_chars : ℕ → Str → Fill (Unit {0})
put_chars offset [] = pure tt
put_chars offset (c ∷ s) = put_byte offset c >> put_chars (offset + 2) s

-- The entries of the long name, the last part of the name first.
unfoldable pub put_name : ℕ → ℕ → ℕ → Str → ℕ → Fill ℕ
put_name zero offset first name sum = pure offset
put_name (suc seq) offset first name sum = do
  let chunk = drop (13 * seq) name
  put_byte offset (bit_or first (suc seq % 256))
  put_chars (offset + 1) (take 5 chunk)
  put_chars (offset + 14) (take 6 (drop 5 chunk))
  put_chars (offset + 28) (take 2 (drop 11 chunk))
  put_byte (offset + 11) 0x0f
  put_byte (offset + 13) sum
  put_name seq (offset + 32) 0 name sum

-- `putVfatDirent`
unfoldable pub put_vfat_dirent : ℕ → Str → ℕ → ℕ → Time → Fill ℕ
put_vfat_dirent offset name start len ctime = do
  short ← short_name name
  at ← put_name (units 13 (length name)) offset 0x40 name (name_checksum short)
  put_string at 11 short
  put_date_time (at + 14) ctime
  put_u16 (at + 20) (start / 2 ^ 16)
  put_date_time (at + 22) ctime
  put_u16 (at + 26) start
  put_u32 (at + 28) len
  pure (at + 32)
