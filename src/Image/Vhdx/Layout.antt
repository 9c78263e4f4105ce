-- ===== src/Image/Vhdx/Layout.antt =====
-- Where the last write of a VHDX goes.
use cluster_api_provider_scv.Base.{
  ℕ, ◌+◌, ◌*◌, ◌<◌, ◌≡◌, refl, ◌↔◌, some, ◌∷◌, length, replicate, arith,
}
use cluster_api_provider_scv.Api.Call.{
  Reply, gives, fails, pure, exchange, reply, bind_result, ◌>>=◌, ◌>>◌,
}
use cluster_api_provider_scv.Image.Writer.{Write, Writes, WriterAt, write_at, units}
use cluster_api_provider_scv.Image.Vhdx.{block_size, filesystem_start_mb, pad_size, write_padding}

-- The bytes of the image that a write covers, for an image that starts at the file system's place.
abbrev pub Overlaps : ℕ → Write → Type 0
Overlaps size w =
    (w.offset < filesystem_start_mb * block_size + size)
    × (filesystem_start_mb * block_size < w.offset + length w.bytes)

pad_size_lem : (size : ℕ) → pad_size size ≡ 256
unfolding pad_size units
pad_size_lem size = ground arith

abbrev pub padding : Write
padding = record { offset = 5242624; bytes = replicate 256 0 }

-- The write is made whether or not the file accepts it.
padding_log :
    (r : Reply (Unit {0})) (log : Writes)
    → (bind_result
        (bind_result (reply r, padding ∷ log) (λ x. pure {A = ℕ} 256))
        (λ n. pure {A = Unit {0}} tt)).1
      ≡ padding ∷ log
unfolding reply pure
padding_log (gives a) log = refl
padding_log (fails e) log = refl

write_padding_lem :
    (fh : WriterAt) (size : ℕ) (log : Writes) → (write_padding (some fh) size log).1 ≡ padding ∷ log
unfolding write_padding write_at exchange ◌>>=◌ ◌>>◌
write_padding_lem fh size log = rw (pad_size_lem size) (padding_log (fh log padding) log)

-- For every size of the file system, write_padding writes the same 256 zeroes, which end with the
-- first block of 1 MB after the start of the image, and they overlap the image exactly if the size
-- is more than 1048320.
pub write_padding-Overlaps :
    (fh : WriterAt) (size : ℕ) (log : Writes)
    → ((write_padding (some fh) size log).1 ≡ padding ∷ log)
      × (Overlaps size padding ↔ (1048320 < size))
write_padding-Overlaps fh size log =
    (write_padding_lem fh size log, (λ h. omega arith, λ h. omega arith))
