-- ===== src/Image/Sector.antt =====
-- A sector, a slice of bytes that the `put` methods fill. A write outside of it panics.
pub mod Filling
pub mod Endian
pub mod Overwriting
use cluster_api_provider_scv.Base.{
  ℕ, zero, suc, ◌+◌, ◌*◌, ◌/◌, ◌%◌, ◌^◌, ◌-◌, Str, codes, List, [], ◌∷◌, ◌++◌, leb, length, take,
  drop, replicate, get_or, if◌then◌else◌, ltb,
}
use cluster_api_provider_scv.Api.Meta.{Result, ok, err, panic, timeout}
use cluster_api_provider_scv.Api.Call.{Call, pure, panics, reads, changes, ◌>>=◌, ◌>>◌}

abbrev pub Bytes : Type 0
Bytes = List ℕ

abbrev pub Fill : Type 0 → Type 0
Fill = Call Bytes

-- `copy` to the place that the slice has.
unfoldable pub overwrite : ℕ → Bytes → Bytes → Bytes
overwrite offset [] sector = sector
overwrite offset (b ∷ bytes) [] = []
overwrite zero (b ∷ bytes) (x ∷ sector) = b ∷ overwrite zero bytes sector
overwrite (suc offset) (b ∷ bytes) (x ∷ sector) = x ∷ overwrite offset (b ∷ bytes) sector

-- `copy(sector[offset:offset+len(bytes)], bytes)`
unfoldable pub put_bytes : ℕ → Bytes → Fill (Unit {0})
put_bytes offset bytes = reads (λ s. leb (offset + length bytes) (length s)) >>= λ fits.
    if fits then changes (overwrite offset bytes) else panics (codes "slice bounds out of range")

-- `sector[offset] = value`
unfoldable pub put_byte : ℕ → ℕ → Fill (Unit {0})
unfolding put_bytes
put_byte offset value = put_bytes offset (value ∷ [])

-- `sector[offset]`
unfoldable pub get_byte : ℕ → Fill ℕ
get_byte offset = reads (λ s. ltb offset (length s)) >>= λ inside.
    if inside then reads (λ s. get_or s offset 0) else panics (codes "index out of range")

-- `copy(sector[offset:offset+length], []byte(text+padString))`, with a padString of 128 spaces.
unfoldable pub put_string : ℕ → ℕ → Str → Fill (Unit {0})
unfolding put_bytes
put_string offset len text = put_bytes offset (take len (text ++ replicate 128 0x20))

-- The `width` bytes of a number, the lowest first, as `binary.LittleEndian` writes them.
unfoldable pub little_endian : ℕ → ℕ → Bytes
little_endian zero v = []
little_endian (suc width) v = v % 256 ∷ little_endian width (v / 256)

-- The same, the highest first, as `binary.BigEndian` writes them.
unfoldable pub big_endian : ℕ → ℕ → Bytes
big_endian zero v = []
big_endian (suc width) v = big_endian width (v / 256) ++ (v % 256 ∷ [])

-- What a call leaves of the sector.
unfoldable pub sector_of : {A : Type 0} → Result A × Bytes → Result Bytes
sector_of (ok a, s) = ok s
sector_of (err e, s) = err e
sector_of (panic x, s) = panic x
sector_of (timeout, s) = timeout

-- A new sector of zeroes, after it has been filled.
unfoldable pub filled : {A : Type 0} → ℕ → Fill A → Result Bytes
unfolding sector_of
filled n m = sector_of (m (replicate n 0))

-- The same with what the call gives.
unfoldable pub value_and_sector : {A : Type 0} → Result A × Bytes → Result (A × Bytes)
value_and_sector (ok a, s) = ok (a, s)
value_and_sector (err e, s) = err e
value_and_sector (panic x, s) = panic x
value_and_sector (timeout, s) = timeout

-- A time as the writers read it. `text` is its `Format` as "2006010215040500" in UTC, `seconds` those
-- since the start of 2000.
pub record Date : Type 0 where
  pub year : ℕ
  pub month : ℕ
  pub day : ℕ
  pub hour : ℕ
  pub minute : ℕ
  pub second : ℕ

pub record Time : Type 0 where
  pub local : Date
  pub utc : Date
  pub text : Str
  pub seconds : ℕ
