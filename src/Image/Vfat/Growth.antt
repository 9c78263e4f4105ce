-- ===== src/Image/Vfat/Growth.antt =====
-- The loop over the size of the file allocation table: it ends, and the table has an entry for every
-- sector.
use cluster_api_provider_scv.Base.{
  ℕ, zero, suc, ◌+◌, ◌-◌, ◌*◌, ◌≤◌, ◌<◌, ◌≡◌, refl, Bool, true, false, ltb, leb, if◌then◌else◌,
  arith, Bool-cases, inl, inr, ◌⊎◌, List,
}
use cluster_api_provider_scv.Api.Meta.{Result, ok, err, panic, timeout}
use cluster_api_provider_scv.Machine.Env.{CloudInitFile}
use cluster_api_provider_scv.Image.Writer.{units}
use cluster_api_provider_scv.Image.Vfat.{
  Geometry, grow, grow_fat, fat_sectors, first_geometry, geometry,
}

-- The sectors of the image are those in front of the table and after it, and those of the table; the
-- table has the bits of an entry for every sector; the image is one for 12 or for 16 bits.
pub record IsSized (base : ℕ) (g : Geometry) : Type 0 where
  pub counts : g.last_sector ≡ base + g.fat_sector_count
  pub covers : g.fat_size * g.last_sector ≤ 4096 * g.fat_sector_count
  pub small : g.last_sector < 65525
  pub bits : (g.fat_size ≡ 12) ⊎ (g.fat_size ≡ 16)
  pub some_table : 1 ≤ g.fat_sector_count

-- The outcome of the loop: a geometry, or the panic of an image that is too large. A table has at most
-- 256 sectors.
abbrev pub Sized : ℕ → Result Geometry → Type 0
Sized base (ok g) = IsSized base g
Sized base (err e) = ⊥
Sized base (panic s) = 65269 ≤ base
Sized base timeout = ⊥

-- What holds in front of each round.
record Grows (base rounds extra : ℕ) (g : Geometry) : Type 0 where
  counts : g.last_sector ≡ base + g.fat_sector_count
  enough : 65525 < rounds + g.last_sector
  limited : extra ≤ 256
  goes_on : (0 < rounds) ⊎ (g.last_sector < 65525)
  bits : (g.fat_size ≡ 12) ⊎ (g.fat_size ≡ 16)
  current :
      (g.fat_sector_count < extra)
      ⊎ ((extra ≡ fat_sectors g.fat_size g.last_sector)
          × (g.last_sector < 65525)
          × (1 ≤ g.fat_sector_count))

covers_of_extra :
    (f last extra count : ℕ) → extra ≡ fat_sectors f last → extra ≤ count → f * last ≤ 4096 * count
unfolding fat_sectors units
covers_of_extra f last extra count e h = omega arith

IsSized-of_Grows :
    (base rounds extra : ℕ) (g : Geometry)
    → Grows base rounds extra g
    → ltb g.fat_sector_count extra ≡ false
    → IsSized base g
IsSized-of_Grows base rounds extra g inv stop = elim (inv.current) [
  | inl more ↦ absurd (ground arith)
  | inr (e, small, some_table) ↦ record {
    counts = inv.counts;
    covers = covers_of_extra g.fat_size g.last_sector extra g.fat_sector_count e (ground arith);
    small = small;
    bits = inv.bits;
    some_table = some_table;
  }
]

grow_bits :
    (b : Bool) (f : ℕ)
    → (f ≡ 12) ⊎ (f ≡ 16)
    → ((if b then 16 else f) ≡ 12) ⊎ ((if b then 16 else f) ≡ 16)
grow_bits true f h = inr refl
grow_bits false f h = h

limited_table : (f last : ℕ) → (f ≡ 12) ⊎ (f ≡ 16) → last < 65525 → fat_sectors f last ≤ 256
unfolding fat_sectors units
limited_table f last (inl e) lt = rw e (omega arith)
limited_table f last (inr e) lt = rw e (omega arith)

-- The panic is that of a large image.
large_base :
    (base rounds extra : ℕ) (g : Geometry)
    → Grows base rounds extra g
    → ltb g.fat_sector_count extra ≡ true
    → leb 65525 (grow extra g).last_sector ≡ true
    → 65269 ≤ base
unfolding grow
large_base base rounds extra g inv more large =
    let counts = inv.counts in let limited = inv.limited in ground arith

Grows-grow :
    (base rounds extra : ℕ) (g : Geometry)
    → Grows base (suc rounds) extra g
    → ltb g.fat_sector_count extra ≡ true
    → leb 65525 (grow extra g).last_sector ≡ false
    → Grows base rounds
        (fat_sectors (grow extra g).fat_size (grow extra g).last_sector)
        (grow extra g)
unfolding grow
Grows-grow base rounds extra g inv more below =
    let counts = inv.counts in
    let enough = inv.enough in
    let bits =
      grow_bits (leb 4086 (g.last_sector + (extra - g.fat_sector_count))) g.fat_size inv.bits in
    record {
      counts = ground arith;
      enough = ground arith;
      goes_on = inr (ground arith);
      limited =
          limited_table (grow extra g).fat_size (grow extra g).last_sector bits (ground arith);
      bits = bits;
      current = inr (refl, ground arith, ground arith);
    }

Sized-grow_fat :
    (base rounds extra : ℕ) (g : Geometry)
    → Grows base rounds extra g
    → Sized base (grow_fat rounds extra g)
unfolding grow_fat
Sized-grow_fat base zero extra g inv =
    let enough = inv.enough in elim (inv.goes_on) [ inl h ↦ omega arith | inr h ↦ omega arith ]
Sized-grow_fat base (suc rounds) extra g inv = elim (Bool-cases (ltb g.fat_sector_count extra)) [
  | inr stop ↦ rw stop (IsSized-of_Grows base (suc rounds) extra g inv stop)
  | inl more ↦ rw more (elim (Bool-cases (leb 65525 (grow extra g).last_sector)) [
    | inl large ↦ rw large (large_base base (suc rounds) extra g inv more large)
    | inr below ↦ rw below (
        Sized-grow_fat base rounds (fat_sectors (grow extra g).fat_size (grow extra g).last_sector)
          (grow extra g) (Grows-grow base rounds extra g inv more below))
  ])
]

first_Grows :
    (files : List CloudInitFile)
    → Grows (first_geometry files).last_sector 65526 1 (first_geometry files)
unfolding first_geometry
first_Grows files = record {
  counts = omega arith;
  enough = omega arith;
  limited = omega arith;
  goes_on = inl (omega arith);
  bits = inl refl;
  current = inl (omega arith);
}

-- The loop of geometry ends within its rounds. It panics only if the boot sector, the directory
-- and the files take at least 65269 sectors, and else gives a geometry: its last sector is the
-- number of those sectors and of the sectors of the table, and is at most 65524; the table has at
-- least 1 sector, entries of 12 or 16 bits, and room for an entry for every sector.
pub geometry-Sized :
    (files : List CloudInitFile) → Sized (first_geometry files).last_sector (geometry files)
unfolding geometry
geometry-Sized files =
    Sized-grow_fat (first_geometry files).last_sector 65526 1 (first_geometry files)
      (first_Grows files)
