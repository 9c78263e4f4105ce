-- ===== src/Image/Vhd.antt =====
-- internal/controllers/helper_vhd.go and helper_plain.go.
pub mod Placing
pub mod Checksum
use cluster_api_provider_scv.Base.{ℕ, ◌+◌, ◌-◌, ◌*◌, ◌%◌, ◌^◌, codes, Option, List, [], ◌∷◌, take}
use cluster_api_provider_scv.Api.Call.{pure, reads, lift, ◌>>=◌, ◌>>◌}
use cluster_api_provider_scv.Machine.Env.{CloudInitFile}
use cluster_api_provider_scv.Image.Sector.{
  Bytes, Fill, Time, put_bytes, put_byte, put_string, big_endian, filled,
}
use cluster_api_provider_scv.Image.Writer.{Writing, WriterAt, write_at, units}

-- `CloudInitFilesystemHandler`
abbrev pub FilesystemHandler : Type 0
FilesystemHandler = Option WriterAt → List CloudInitFile → ℕ → Writing ℕ

-- `putU16`, `putU32` and `putU64`, by the number of bytes.
unfoldable pub put_big : ℕ → ℕ → ℕ → Fill (Unit {0})
put_big width offset v = put_bytes offset (big_endian width v)

unfoldable pub sum : Bytes → ℕ
sum [] = 0
sum (b ∷ bytes) = b + sum bytes

-- `checksum`: `^chk` of 32 bits
unfoldable pub checksum : Bytes → ℕ
unfolding sum
checksum sector = 2 ^ 32 - 1 - sum (take 84 sector) % 2 ^ 32

-- The footer up to the host system.
unfoldable pub footer_front : Time → Fill (Unit {0})
unfolding put_big
footer_front now = do
  put_string 0 8 (codes "conectix")
  put_big 4 8 0x02
  put_big 4 12 0x00010000
  put_big 8 16 0xFFFFFFFFFFFFFFFF
  put_big 4 24 now.seconds
  put_string 28 4 (codes "capi")
  put_big 2 32 0
  put_big 2 34 3
  put_string 36 4 (codes "lnux")

-- The rest of it, but for the checksum.
unfoldable pub footer_back : Bytes → ℕ → Fill (Unit {0})
unfolding put_big units
footer_back uuid size = do
  put_big 8 40 size
  put_big 8 48 size
  put_big 2 56 (units 512 size)
  put_byte 58 1
  put_byte 59 1
  put_big 4 60 2
  put_bytes 68 (take 16 uuid)
  put_byte 84 0

unfoldable pub footer_fields : Time → Bytes → ℕ → Fill (Unit {0})
unfolding footer_front footer_back
footer_fields now uuid size = footer_front now >> footer_back uuid size

unfoldable pub footer : Time → Bytes → ℕ → Fill (Unit {0})
unfolding footer_fields checksum put_big
footer now uuid size = footer_fields now uuid size >> (reads checksum >>= λ c. put_big 4 64 c)

-- `writeVHD`
unfoldable pub write_vhd :
    Time → Bytes → Option WriterAt → FilesystemHandler → List CloudInitFile → Writing (Unit {0})
unfolding footer units write_at
write_vhd now uuid fh handler files = do
  size ← handler fh files 0
  sector ← lift (filled 512 (footer now uuid size))
  n ← write_at fh (units 512 size * 512) sector
  pure tt

-- `writePlain`
unfoldable pub write_plain :
    Option WriterAt → FilesystemHandler → List CloudInitFile → Writing (Unit {0})
write_plain fh handler files = do n ← handler fh files 0; pure tt
