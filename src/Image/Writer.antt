-- ===== src/Image/Writer.antt =====
-- `io.WriterAt`: the file that an image is written to, and the writes to it.
pub mod Contiguous
use cluster_api_provider_scv.Base.{
  ℕ, ◌+◌, ◌-◌, ◌*◌, ◌/◌, Str, codes, Option, none, some, List, [], ◌∷◌, ◌++◌, length, replicate,
}
use cluster_api_provider_scv.Api.Call.{Call, Reply, panics, exchange, pure, ◌>>=◌, ◌>>◌}
use cluster_api_provider_scv.Machine.Env.{CloudInitFile}
use cluster_api_provider_scv.Image.Sector.{Bytes}

pub record Write : Type 0 where
  pub offset : ℕ
  pub bytes : Bytes

-- The last write first.
abbrev pub Writes : Type 0
Writes = List Write

abbrev pub Writing : Type 0 → Type 0
Writing = Call Writes

-- A write may be refused; one that is not writes all its bytes.
abbrev pub WriterAt : Type 0
WriterAt = Writes → Write → Reply (Unit {0})

-- `fh.WriteAt(bytes, offset)`; a nil file panics.
unfoldable pub write_at : Option WriterAt → ℕ → Bytes → Writing ℕ
write_at none offset bytes = panics (codes "nil pointer")
write_at (some fh) offset bytes =
    let w : Write = record { offset = offset; bytes = bytes } in
    exchange (λ log. fh log w) (λ log. w ∷ log) >> pure (length bytes)

-- The number of units of `size` that `n` bytes take; Go's division of -1 by `size` is 0, and so is
-- that of 0 here.
unfoldable pub units : ℕ → ℕ → ℕ
units size n = (n - 1) / size + 1

-- The last loop of both file systems: each file, padded to whole sectors, after the other.
unfoldable pub write_files : Option WriterAt → ℕ → List CloudInitFile → ℕ → Writing (Unit {0})
write_files fh size [] offset = pure tt
write_files fh size (f ∷ files) offset =
    let padded = units size (length f.contents) * size in
    write_at fh offset (f.contents ++ replicate (padded - length f.contents) 0) >>= λ n.
    write_files fh size files (offset + padded)

-- The sectors of all files.
unfoldable pub file_units : ℕ → List CloudInitFile → ℕ
file_units size [] = 0
file_units size (f ∷ files) = units size (length f.contents) + file_units size files
