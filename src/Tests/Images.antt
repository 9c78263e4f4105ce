-- ===== src/Tests/Images.antt =====
-- The writers of the images at concrete inputs.
use cluster_api_provider_scv.Base.{
  length, ℕ, ◌+◌, ◌*◌, ◌<◌, ◌≤◌, codes, none, some, List, [], ◌∷◌, ◌≡◌, refl, arith, ◌↔◌,
}
use cluster_api_provider_scv.Api.Meta.{ok}
use cluster_api_provider_scv.Api.Call.{gives}
use cluster_api_provider_scv.Machine.Env.{CloudInitFile}
use cluster_api_provider_scv.Image.Sector.{Bytes, Date, Time, filled}
use cluster_api_provider_scv.Image.Writer.{WriterAt, units, file_units}
use cluster_api_provider_scv.Image.Writer.Contiguous.{Contiguous}
use cluster_api_provider_scv.Image.Iso.{write_iso9660, iso_sector_size, dirent_length}
use cluster_api_provider_scv.Image.Iso.Sizes.{entry_lengths, write_iso9660_size}
use cluster_api_provider_scv.Image.Vfat.{
  Geometry, write_vfat, geometry, grow_fat, grow, fat_sectors, first_geometry, dirent_bytes,
  dirents,
}
use cluster_api_provider_scv.Image.Vfat.Sizes.{write_vfat_size}
use cluster_api_provider_scv.Image.Vfat.Growth.{Sized, geometry-Sized}
use cluster_api_provider_scv.Image.Vhd.{write_vhd, footer}
use cluster_api_provider_scv.Image.Vhd.Checksum.{IsChecked, footer-IsChecked}
use cluster_api_provider_scv.Image.Vhd.Placing.{write_vhd-write_vfat}
use cluster_api_provider_scv.Image.Vhdx.{write_padding}
use cluster_api_provider_scv.Image.Vhdx.Layout.{padding, Overlaps, write_padding-Overlaps}

abbrev accepting : WriterAt
accepting log w = gives tt

abbrev noon : Date
noon = record { year = 2024; month = 5; day = 17; hour = 12; minute = 0; second = 0 }

abbrev sample_time : Time
sample_time = record {
  local = noon;
  utc = noon;
  text = codes "2024051712000000";
  seconds = 769262400;
}

abbrev sample_file : CloudInitFile
sample_file = record {
  filename = b'm' ∷ b'e' ∷ b't' ∷ b'a' ∷ b'-' ∷ b'd' ∷ b'a' ∷ b't' ∷ b'a' ∷ [];
  contents = b'i' ∷ b'd' ∷ [];
}

abbrev sample_files : List CloudInitFile
sample_files = sample_file ∷ []

abbrev sample_geometry : Geometry
sample_geometry = record { last_sector = 4; fat_size = 12; fat_sector_count = 1 }

sample_shape : geometry sample_files ≡ ok sample_geometry
unfolding geometry grow_fat grow fat_sectors first_geometry file_units dirent_bytes dirents units
sample_shape = refl

write_vfat_size_example :
    ((write_vfat sample_time none sample_files 0 []).0 ≡ ok (512 * 4))
    × ((write_vfat sample_time (some accepting) sample_files 0 []).0 ≡ ok (512 * 4))
    × Contiguous 0 (write_vfat sample_time (some accepting) sample_files 0 []).1 (0 + 512 * 4)
write_vfat_size_example =
    write_vfat_size sample_time accepting sample_files 0 sample_geometry (λ log w. refl)
      (omega arith, tt) sample_shape

write_vhd-write_vfat_example :
    ((write_vhd sample_time [] (some accepting) (write_vfat sample_time) sample_files []).0 ≡ ok tt)
    × Contiguous 0
        (write_vhd sample_time [] (some accepting) (write_vfat sample_time) sample_files []).1
        (512 * 4 + 512)
write_vhd-write_vfat_example =
    write_vhd-write_vfat sample_time [] accepting sample_files sample_geometry (λ log w. refl)
      (omega arith, tt) sample_shape

footer-IsChecked_example :
    (s : Bytes) × (filled 512 (footer sample_time [] 2048) ≡ ok s) × (length s ≡ 512) × IsChecked s
footer-IsChecked_example = footer-IsChecked sample_time [] 2048

sample_fits : 72 + entry_lengths sample_files ≤ iso_sector_size
unfolding entry_lengths dirent_length codes
sample_fits = omega arith

write_iso9660_size_example :
    (size : ℕ) × ((write_iso9660 sample_time none sample_files 0 []).0 ≡ ok size)
    × ((write_iso9660 sample_time (some accepting) sample_files 0 []).0 ≡ ok size)
    × Contiguous
        (0 + 16 * iso_sector_size)
        (write_iso9660 sample_time (some accepting) sample_files 0 []).1
        (0 + size)
write_iso9660_size_example =
    write_iso9660_size sample_time accepting sample_files 0 (λ log w. refl) sample_fits

geometry-Sized_example : Sized (first_geometry sample_files).last_sector (geometry sample_files)
geometry-Sized_example = geometry-Sized sample_files

write_padding-Overlaps_example :
    ((write_padding (some accepting) 2048 []).1 ≡ padding ∷ [])
    × (Overlaps 2048 padding ↔ (1048320 < 2048))
write_padding-Overlaps_example = write_padding-Overlaps accepting 2048 []
