-- ===== src/Image/Vfat/Table.antt =====
-- `putU16`, `putU32`, `putFATEnt` and `putFATChain`. Offsets and entries stay below 2 ^ 32, since an
-- image has fewer than 65525 sectors.
pub mod Bounds
use Prim.Native.Nat.{bit_or}
use cluster_api_provider_scv.Base.{ℕ, zero, suc, ◌+◌, ◌-◌, ◌*◌, ◌/◌, ◌%◌, ◌^◌, ltb, if◌then◌else◌}
use cluster_api_provider_scv.Api.Meta.{timeout}
use cluster_api_provider_scv.Api.Call.{pure, lift, ◌>>=◌, ◌>>◌}
use cluster_api_provider_scv.Image.Sector.{Fill, put_bytes, put_byte, get_byte, little_endian}

unfoldable pub put_u16 : ℕ → ℕ → Fill (Unit {0})
put_u16 offset v = put_bytes offset (little_endian 2 v)

unfoldable pub put_u32 : ℕ → ℕ → Fill (Unit {0})
put_u32 offset v = put_bytes offset (little_endian 4 v)

-- The loop that writes 8 bits at a time.
unfoldable pub put_whole_bytes : ℕ → ℕ → ℕ → Fill (Unit {0})
put_whole_bytes zero byte_off entry = pure tt
put_whole_bytes (suc n) byte_off entry =
    put_byte byte_off (entry % 256) >> put_whole_bytes n (byte_off + 1) (entry / 256)

-- The loop, and the bits that are left; it takes `bits / 8` rounds.
unfoldable pub put_bits : ℕ → ℕ → ℕ → Fill (Unit {0})
put_bits byte_off entry bits =
    put_whole_bytes (bits / 8) byte_off entry
    >> (if ltb 0 (bits % 8)
        then put_byte (byte_off + bits / 8) (entry / 256 ^ (bits / 8) % 2 ^ (bits % 8))
        else pure tt)

-- `putFATEnt`: the entry goes to the bits from offset * fat_size on.
unfoldable pub put_fat_ent : ℕ → ℕ → ℕ → Fill ℕ
put_fat_ent offset entry fat_size =
    let byte_off = offset * fat_size / 8 in
    let bit_off = offset * fat_size % 8 in
    let head = 8 - bit_off in
    (if ltb 0 bit_off
      then (get_byte byte_off >>= λ old.
          put_byte byte_off (bit_or old (entry % 2 ^ head * 2 ^ bit_off % 256))
          >> put_bits (byte_off + 1) (entry / 2 ^ head) (fat_size - head))
      else put_bits byte_off entry fat_size)
    >> pure (offset + 1)

-- `putFATChain`, in at most `rounds` rounds: each entry but the last names the next one.
unfoldable pub put_fat_chain : ℕ → ℕ → ℕ → ℕ → ℕ → Fill ℕ
put_fat_chain zero offset sector_size len fat_size = lift timeout
put_fat_chain (suc rounds) offset sector_size len fat_size =
    if ltb sector_size len
    then (put_fat_ent offset (offset + 1) fat_size >>= λ next.
        put_fat_chain rounds next sector_size (len - sector_size) fat_size)
    else put_fat_ent offset 0xFFFFFFFF fat_size
