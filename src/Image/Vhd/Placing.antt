-- ===== src/Image/Vhd/Placing.antt =====
-- A VHD image with the VFAT file system: where its parts are written.
use cluster_api_provider_scv.Base.{ℕ, ◌+◌, ◌*◌, ◌≤◌, ◌≡◌, refl, some, List, [], take, arith}
use cluster_api_provider_scv.Api.Meta.{ok}
use cluster_api_provider_scv.Machine.Env.{CloudInitFile}
use cluster_api_provider_scv.Image.Sector.{Bytes, Time, put_bytes}
use cluster_api_provider_scv.Image.Sector.Filling.{
  Fills, Fills-put_bytes, Fills-big_endian, Fills-put_byte, Fills-then, Fills-reads, fills_rules,
  filled-Fills, length-take_le,
}
use cluster_api_provider_scv.Image.Writer.{WriterAt, units}
use cluster_api_provider_scv.Image.Writer.Contiguous.{
  Contiguous, Accepts, Spans, Spans-bind, Spans-pure, Spans-sector,
}
use cluster_api_provider_scv.Image.Vfat.{Geometry, geometry, write_vfat}
use cluster_api_provider_scv.Image.Vfat.Growth.{IsSized}
use cluster_api_provider_scv.Image.Vfat.Sizes.{LongNames, Spans-write_vfat, IsSized-geometry}
use cluster_api_provider_scv.Image.Vhd.{
  put_big, footer_front, footer_back, footer_fields, footer, checksum, write_vhd,
}

Fills-put_big : (width offset v : ℕ) → offset + width ≤ 512 → Fills 512 tt (put_big width offset v)
unfolding put_big
Fills-put_big width offset v fits = Fills-big_endian offset width v fits

Fills-put_uuid : (uuid : Bytes) → Fills 512 tt (put_bytes 68 (take 16 uuid))
Fills-put_uuid uuid = Fills-put_bytes 68 (take 16 uuid) (omega (arith, length-take_le 16 uuid))

Fills-footer_front : (now : Time) → Fills 512 tt (footer_front now)
unfolding footer_front
Fills-footer_front now = search (fills_rules, Fills-put_big, arith) depth 16

Fills-footer_back : (uuid : Bytes) (size : ℕ) → Fills 512 tt (footer_back uuid size)
unfolding footer_back
Fills-footer_back uuid size = Fills-then _ _ tt (Fills-put_big 8 40 size (omega arith)) (
    Fills-then _ _ tt (Fills-put_big 8 48 size (omega arith)) (
      Fills-then _ _ tt (Fills-put_big 2 56 _ (omega arith)) (
        Fills-then _ _ tt (Fills-put_byte 58 1 (omega arith)) (
          Fills-then _ _ tt (Fills-put_byte 59 1 (omega arith)) (
            Fills-then _ _ tt (Fills-put_big 4 60 2 (omega arith))
              (Fills-then _ _ tt (Fills-put_uuid uuid) (Fills-put_byte 84 0 (omega arith))))))))

Fills-footer : (now : Time) (uuid : Bytes) (size : ℕ) → Fills 512 tt (footer now uuid size)
unfolding footer footer_fields
Fills-footer now uuid size =
    Fills-then _ _ tt (Fills-then _ _ tt (Fills-footer_front now) (Fills-footer_back uuid size))
      (Fills-reads checksum _ tt (λ c. Fills-put_big 4 64 c (omega arith)))

-- A file system of whole sectors ends where the footer goes.
whole_sectors : (k : ℕ) → 1 ≤ k → units 512 (512 * k) * 512 ≡ 0 + 512 * k
unfolding units
whole_sectors k h = omega arith

some_sector : (base : ℕ) (g : Geometry) → IsSized base g → 1 ≤ g.last_sector
some_sector base g h = let counts = h.counts in let some_table = h.some_table in omega arith

module _ (now : Time) (uuid : Bytes) (fh : WriterAt) (files : List CloudInitFile) (g : Geometry)
    (accepts : Accepts fh) (long : LongNames files) (shaped : geometry files ≡ ok g) where
  Spans-write_vhd :
      Spans 0 0
        (0 + 512 * g.last_sector + 512)
        tt
        (write_vhd now uuid (some fh) (write_vfat now) files)
  unfolding write_vhd
  Spans-write_vhd =
      let size = 512 * g.last_sector in
      let (sector, filled_sector, sector_length) =
        filled-Fills tt (footer now uuid size) (Fills-footer now uuid size) in
      let place = whole_sectors g.last_sector (some_sector _ g (IsSized-geometry files g shaped)) in
      Spans-bind 0 _ _ 0 (0 + size) _ size tt
        (Spans-write_vfat now fh files 0 g accepts long shaped)
        (rw place (
          Spans-sector 0 fh accepts (0 + size) 512 _ _ sector _ tt filled_sector sector_length
            (Spans-pure 0 _ tt)))

  -- If the file accepts every write, every file name has at least 6 characters and geometry gives
  -- a geometry, write_vhd of write_vfat ends well, and its writes follow each other without a gap
  -- from 0 up to the end of the footer, 512 bytes after 512 times the last sector.
  pub write_vhd-write_vfat :
      ((write_vhd now uuid (some fh) (write_vfat now) files []).0 ≡ ok tt)
      × Contiguous 0
          (write_vhd now uuid (some fh) (write_vfat now) files []).1
          (512 * g.last_sector + 512)
  write_vhd-write_vfat =
      let total : 512 * g.last_sector + 512 ≡ 0 + 512 * g.last_sector + 512 = omega arith in
      rw total (Spans-write_vhd.at [] refl)
