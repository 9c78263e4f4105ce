-- ===== src/Image/Writer/Contiguous.antt =====
-- Writes that follow one another with no gap and no overlap.
use mathlib.Core.Path.{subst}
use cluster_api_provider_scv.Base.{
  ℕ, ◌+◌, ◌-◌, ◌*◌, ◌≤◌, ◌≡◌, refl, List, [], ◌∷◌, ◌++◌, length, replicate, length-append,
  length-replicate, some, arith,
}
use cluster_api_provider_scv.Api.Meta.{Result, ok, err, panic, timeout}
use cluster_api_provider_scv.Api.Call.{pure, lift, exchange, reply, gives, bind_result, ◌>>=◌, ◌>>◌}
use cluster_api_provider_scv.Machine.Env.{CloudInitFile}
use cluster_api_provider_scv.Image.Sector.{Bytes}
use cluster_api_provider_scv.Image.Writer.{
  Write, Writes, Writing, WriterAt, write_at, units, write_files, file_units,
}

-- The writes, the last one first, cover the bytes from `start` up to `end`, each once, in order.
abbrev pub Contiguous : ℕ → Writes → ℕ → Type 0
Contiguous start [] end = end ≡ start
Contiguous start (w ∷ log) end = (end ≡ w.offset + length w.bytes) × Contiguous start log w.offset

-- The file accepts every write.
abbrev pub Accepts : WriterAt → Type 0
Accepts fh = (log : Writes) (w : Write) → fh log w ≡ gives tt

module _ (start : ℕ) where
  -- A call that gives `a` and takes up the bytes from `here` to `there`.
  pub record Spans {A : Type 0} (here there : ℕ) (a : A) (m : Writing A) : Type 0 where
    pub at :
        (log : Writes)
        → Contiguous start log here
        → ((m log).0 ≡ ok a) × Contiguous start (m log).1 there

  pub Spans-pure : {A : Type 0} (here : ℕ) (a : A) → Spans here here a (pure a)
  unfolding pure
  Spans-pure here a = record { at = λ log h. (refl, h) }

  pub Spans-lift :
      {A : Type 0} (here : ℕ) (r : Result A) (a : A) → r ≡ ok a → Spans here here a (lift r)
  unfolding lift
  Spans-lift here r a e = record { at = λ log h. (e, h) }

  bind-Spans :
      {A B : Type 0} (x : Result A × Writes) (f : A → Writing B) (here there : ℕ) (a : A) (b : B)
      → x.0 ≡ ok a
      → Contiguous start x.1 here
      → Spans here there b (f a)
      → ((bind_result x f).0 ≡ ok b) × Contiguous start (bind_result x f).1 there
  bind-Spans (ok c, s) f here there a b e h k = let same : c ≡ a = cc in rw same (k.at s h)
  bind-Spans (err c, s) f here there a b e h k = cc
  bind-Spans (panic c, s) f here there a b e h k = cc
  bind-Spans (timeout, s) f here there a b e h k = cc

  pub Spans-bind :
      {A B : Type 0} (m : Writing A) (f : A → Writing B) (here mid there : ℕ) (a : A) (b : B)
      → Spans here mid a m
      → Spans mid there b (f a)
      → Spans here there b (m >>= f)
  unfolding ◌>>=◌
  Spans-bind m f here mid there a b p q = record {
    at = λ log h. let (e, l) = p.at log h in bind-Spans (m log) f mid there a b e l q;
  }

  module _ (fh : WriterAt) (accepts : Accepts fh) where
    pub Spans-write_at :
        (here : ℕ) (bytes : Bytes)
        → Spans here (here + length bytes) (length bytes) (write_at (some fh) here bytes)
    unfolding write_at exchange reply pure ◌>>=◌ ◌>>◌
    Spans-write_at here bytes = record {
      at = λ log h. rw (accepts log (record { offset = here; bytes = bytes })) (refl, (refl, h));
    }

    -- A sector that is filled and then written.
    pub Spans-sector :
        {B : Type 0} (here n there : ℕ) (r : Result Bytes) (s : Bytes) (f : ℕ → Writing B) (b : B)
        → r ≡ ok s
        → length s ≡ n
        → Spans (here + n) there b (f n)
        → Spans here there b (lift r >>= λ bytes. write_at (some fh) here bytes >>= f)
    Spans-sector here n there r s f b e l p =
        Spans-bind _ _ here here there s b (Spans-lift here r s e) (
          subst
            (λ k.
              Spans (here + k) there b (f k) → Spans here there b (write_at (some fh) here s >>= f))
            l (Spans-bind _ f here (here + length s) there (length s) b (Spans-write_at here s)) p)

    -- The same where the filling also gives a value.
    pub Spans-valued_sector :
        {A B : Type 0} (here n there : ℕ) (r : Result (A × Bytes)) (a : A) (s : Bytes)
        (f : A × Bytes → ℕ → Writing B) (b : B)
        → r ≡ ok (a, s)
        → length s ≡ n
        → Spans (here + n) there b (f (a, s) n)
        → Spans here there b (lift r >>= λ t. write_at (some fh) here t.1 >>= f t)
    Spans-valued_sector here n there r a s f b e l p =
        Spans-bind _ _ here here there (a, s) b (Spans-lift here r (a, s) e)
          (subst
            (λ k.
              Spans (here + k) there b (f (a, s) k)
              → Spans here there b (write_at (some fh) here s >>= f (a, s)))
            l
            (Spans-bind _ (f (a, s)) here (here + length s) there (length s) b
              (Spans-write_at here s))
            p)

    -- Padding to whole sectors never cuts a file short.
    abbrev pub Pads : ℕ → Type 0
    Pads size = (n : ℕ) → n ≤ units size n * size

    pub Spans-write_files :
        (size : ℕ) (files : List CloudInitFile) (here : ℕ)
        → Pads size
        → Spans here
            (here + file_units size files * size)
            tt
            (write_files (some fh) size files here)
    unfolding write_files file_units
    Spans-write_files size [] here pads =
        let same : here + 0 * size ≡ here = omega arith in rw same (Spans-pure here tt)
    Spans-write_files size (f ∷ files) here pads =
        let padded = units size (length f.contents) * size in
        let zeroes : Bytes = replicate (padded - length f.contents) 0 in
        let whole : length (f.contents ++ zeroes) ≡ padded = omega (
          arith,
          length-append f.contents zeroes,
          length-replicate {A = ℕ} (padded - length f.contents) 0,
          pads (length f.contents),
        ) in
        let total : here + (units size (length f.contents) + file_units size files) * size
            ≡ here + padded + file_units size files * size =
          grind arith in
        rw total (
          Spans-bind _ _ here (here + padded) _ _ tt
            (subst
              (λ n.
                Spans here (here + n) (length (f.contents ++ zeroes))
                  (write_at (some fh) here (f.contents ++ zeroes)))
              whole (Spans-write_at here (f.contents ++ zeroes)))
            (Spans-write_files size files (here + padded) pads))
