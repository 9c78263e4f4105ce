-- ===== src/Image/Vhdx.antt =====
-- internal/controllers/helper_vhdx.go.
pub mod Layout
use cluster_api_provider_scv.Base.{
  ℕ, zero, suc, ◌+◌, ◌-◌, ◌*◌, ◌^◌, Str, codes, Option, none, List, [], ◌∷◌, take, replicate, ltb,
  if◌then◌else◌, length,
}
use cluster_api_provider_scv.Api.Call.{pure, reads, lift, ◌>>=◌, ◌>>◌}
use cluster_api_provider_scv.Machine.Env.{CloudInitFile}
use cluster_api_provider_scv.Image.Sector.{Bytes, Fill, put_bytes, little_endian, filled}
use cluster_api_provider_scv.Image.Writer.{Writing, WriterAt, write_at, units}
use cluster_api_provider_scv.Image.Vhd.{FilesystemHandler}

abbrev pub guid_bat : Bytes
guid_bat =
    0x66 ∷ 0x77 ∷ 0xC2 ∷ 0x2D ∷ 0x23 ∷ 0xF6 ∷ 0x00 ∷ 0x42 ∷ 0x9D ∷ 0x64 ∷ 0x11 ∷ 0x5E ∷ 0x9B ∷ 0xFD
    ∷ 0x4A ∷ 0x08 ∷ []

abbrev pub guid_metadata : Bytes
guid_metadata =
    0x06 ∷ 0xA2 ∷ 0x7C ∷ 0x8B ∷ 0x90 ∷ 0x47 ∷ 0x9A ∷ 0x4B ∷ 0xB8 ∷ 0xFE ∷ 0x57 ∷ 0x5F ∷ 0x05 ∷ 0x0F
    ∷ 0x88 ∷ 0x6E ∷ []

abbrev pub guid_file_parameters : Bytes
guid_file_parameters =
    0x37 ∷ 0x67 ∷ 0xA1 ∷ 0xCA ∷ 0x36 ∷ 0xFA ∷ 0x43 ∷ 0x4D ∷ 0xB3 ∷ 0xB6 ∷ 0x33 ∷ 0xF0 ∷ 0xAA ∷ 0x44
    ∷ 0xE7 ∷ 0x6B ∷ []

abbrev pub guid_disk_size : Bytes
guid_disk_size =
    0x24 ∷ 0x42 ∷ 0xA5 ∷ 0x2F ∷ 0x1B ∷ 0xCD ∷ 0x76 ∷ 0x48 ∷ 0xB2 ∷ 0x11 ∷ 0x5D ∷ 0xBE ∷ 0xD8 ∷ 0x3B
    ∷ 0xF4 ∷ 0xB8 ∷ []

abbrev pub guid_disk_id : Bytes
guid_disk_id =
    0xAB ∷ 0x12 ∷ 0xCA ∷ 0xBE ∷ 0xE6 ∷ 0xB2 ∷ 0x23 ∷ 0x45 ∷ 0x93 ∷ 0xEF ∷ 0xC3 ∷ 0x09 ∷ 0xE0 ∷ 0x00
    ∷ 0xC7 ∷ 0x46 ∷ []

abbrev pub guid_logical_sector : Bytes
guid_logical_sector =
    0x1D ∷ 0xBF ∷ 0x41 ∷ 0x81 ∷ 0x6F ∷ 0xA9 ∷ 0x09 ∷ 0x47 ∷ 0xBA ∷ 0x47 ∷ 0xF2 ∷ 0x33 ∷ 0xA8 ∷ 0xFA
    ∷ 0xAB ∷ 0x5F ∷ []

abbrev pub guid_physical_sector : Bytes
guid_physical_sector =
    0xC7 ∷ 0x48 ∷ 0xA3 ∷ 0xCD ∷ 0x5D ∷ 0x44 ∷ 0x71 ∷ 0x44 ∷ 0x9C ∷ 0xC9 ∷ 0xE9 ∷ 0x88 ∷ 0x52 ∷ 0x51
    ∷ 0xC5 ∷ 0x56 ∷ []

abbrev pub filesystem_start_mb : ℕ
filesystem_start_mb = 4

abbrev pub block_size : ℕ
block_size = 1048576

-- What is not of the repository: `uuid.New()` by its turn, the CRC-32C, and the UTF-16 encoder.
pub record Libraries : Type 0 where
  pub new_uuid : ℕ → Bytes
  pub crc32c : Bytes → ℕ
  pub utf16 : Str → Bytes

-- `putU16`, `putU32` and `putU64`, by the number of bytes.
unfoldable pub put_little : ℕ → ℕ → ℕ → Fill (Unit {0})
put_little width offset v = put_bytes offset (little_endian width v)

module _ (l : Libraries) where
  unfoldable pub write_vhdx_identifier : Option WriterAt → ℕ → Writing (Unit {0})
  unfolding write_at
  write_vhdx_identifier fh offset = do
    sector ← lift (
        filled 256 (
          put_bytes 0 (codes "vhdxfile")
          >> put_bytes 8 (l.utf16 (codes "cluster-api-provider-scvmm"))))
    n ← write_at fh offset sector
    pure tt

  -- The two identifiers of a header are those of the turns 2 * (seq - 1) and the next.
  unfoldable pub vhdx_header : ℕ → Fill (Unit {0})
  unfolding put_little
  vhdx_header seq = do
    put_bytes 0 (codes "head")
    put_little 8 8 seq
    put_bytes 16 (take 16 (l.new_uuid (2 * (seq - 1))))
    put_bytes 32 (take 16 (l.new_uuid (2 * (seq - 1) + 1)))
    put_little 2 66 1
    put_little 4 68 1048576
    put_little 8 72 1048576
    crc ← reads l.crc32c
    put_little 4 4 crc

  unfoldable pub write_vhdx_header : Option WriterAt → ℕ → ℕ → Writing (Unit {0})
  unfolding vhdx_header write_at
  write_vhdx_header fh offset seq = do
    sector ← lift (filled 4096 (vhdx_header seq))
    n ← write_at fh offset (take 256 sector)
    pure tt

  unfoldable pub put_region_entry : ℕ → Bytes → ℕ → ℕ → Fill (Unit {0})
  unfolding put_little
  put_region_entry offset guid off_mb len_mb = do
    put_bytes offset guid
    put_little 8 (offset + 16) (off_mb * 1048576)
    put_little 4 (offset + 24) (len_mb * 1048576)

  unfoldable pub vhdx_region : Fill (Unit {0})
  unfolding put_region_entry put_little
  vhdx_region = do
    put_bytes 0 (codes "regi")
    put_little 4 8 2
    put_region_entry 16 guid_bat 2 1
    put_region_entry 48 guid_metadata 3 1
    crc ← reads l.crc32c
    put_little 4 4 crc

  unfoldable pub write_vhdx_region : Option WriterAt → ℕ → Writing (Unit {0})
  unfolding vhdx_region write_at
  write_vhdx_region fh offset = do
    sector ← lift (filled 65536 vhdx_region)
    n ← write_at fh offset (take 256 sector)
    pure tt

  unfoldable pub put_metadata : ℕ → Bytes → ℕ → ℕ → ℕ → Fill (Unit {0})
  unfolding put_little
  put_metadata offset guid offs len flags = do
    put_bytes offset guid
    put_little 4 (offset + 16) offs
    put_little 4 (offset + 20) len
    put_little 4 (offset + 24) flags

  unfoldable pub vhdx_metadata_table : Fill (Unit {0})
  unfolding put_metadata put_little
  vhdx_metadata_table = do
    put_bytes 0 (codes "metadata")
    put_little 2 10 5
    put_metadata 32 guid_file_parameters 65536 8 4
    put_metadata 64 guid_disk_size (65536 + 8) 8 6
    put_metadata 96 guid_disk_id (65536 + 16) 16 6
    put_metadata 128 guid_logical_sector (65536 + 32) 4 6
    put_metadata 160 guid_physical_sector (65536 + 36) 4 6

  unfoldable pub vhdx_metadata_items : ℕ → Fill (Unit {0})
  unfolding put_little
  vhdx_metadata_items size = do
    put_little 4 0 block_size
    put_little 4 4 1
    put_little 8 8 size
    put_bytes 16 (take 16 (l.new_uuid 4))
    put_little 4 32 512
    put_little 4 36 512

  unfoldable pub write_vhdx_metadata : Option WriterAt → ℕ → ℕ → Writing (Unit {0})
  unfolding vhdx_metadata_table vhdx_metadata_items write_at
  write_vhdx_metadata fh offset size = do
    table ← lift (filled 256 vhdx_metadata_table)
    n ← write_at fh offset table
    items ← lift (filled 256 (vhdx_metadata_items size))
    m ← write_at fh (offset + 65536) items
    pure tt

-- The entries of the blocks from `b` on; `6 | x << 20` is the sum.
unfoldable pub put_blocks : ℕ → ℕ → Fill (Unit {0})
unfolding put_little
put_blocks zero b = pure tt
put_blocks (suc n) b =
    put_little 8 (b * 8) (6 + (b + filesystem_start_mb) * 2 ^ 20) >> put_blocks n (b + 1)

unfoldable pub write_vhdx_bat : Option WriterAt → ℕ → ℕ → Writing (Unit {0})
unfolding put_blocks put_little units write_at
write_vhdx_bat fh offset size = do
  let blocks = units block_size size
  sector ← lift (filled (8 * (blocks + 1)) (put_blocks blocks 0 >> put_little 8 (blocks * 8) 2))
  n ← write_at fh offset sector
  pure tt

-- The zeroes at the end of a block: 256 of them, since a whole number of blocks is more.
unfoldable pub pad_size : ℕ → ℕ
unfolding units
pad_size size = let n = units block_size size * block_size in if ltb 256 n then 256 else n

unfoldable pub write_padding : Option WriterAt → ℕ → Writing (Unit {0})
unfolding pad_size write_at
write_padding fh size =
    let pad_off = block_size - pad_size size in
    if ltb 0 pad_off
    then (write_at fh (filesystem_start_mb * block_size + pad_off) (replicate (pad_size size) 0)
        >>= λ n. pure tt)
    else pure tt

-- `writeVHDX`
unfoldable pub write_vhdx :
    Libraries → Option WriterAt → FilesystemHandler → List CloudInitFile → Writing (Unit {0})
unfolding write_vhdx_identifier write_vhdx_header write_vhdx_region write_vhdx_bat
    write_vhdx_metadata write_padding units
write_vhdx l fh handler files = do
  asked ← handler none files 0
  let size = units 512 asked * 512
  write_vhdx_identifier l fh 0
  write_vhdx_header l fh 65536 1
  write_vhdx_header l fh 131072 2
  write_vhdx_region l fh 196608
  write_vhdx_region l fh 262144
  write_vhdx_bat fh (2 * 1048576) size
  write_vhdx_metadata l fh (3 * 1048576) size
  written ← handler fh files (filesystem_start_mb * block_size)
  write_padding fh written
