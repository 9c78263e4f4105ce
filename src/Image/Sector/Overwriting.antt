-- ===== src/Image/Sector/Overwriting.antt =====
-- The parts of a sector before, after and at a write.
use cluster_api_provider_scv.Base.{
  ℕ, zero, suc, ◌+◌, ◌≤◌, ◌≡◌, refl, ap, [], ◌∷◌, length, take, drop, arith,
}
use cluster_api_provider_scv.Image.Sector.{Bytes, overwrite}

pub take-overwrite :
    (n offset : ℕ) (bytes s : Bytes) → n ≤ offset → take n (overwrite offset bytes s) ≡ take n s
unfolding overwrite
take-overwrite zero offset bytes s le = refl
take-overwrite (suc n) offset [] s le = refl
take-overwrite (suc n) offset (b ∷ bytes) [] le = refl
take-overwrite (suc n) zero (b ∷ bytes) (x ∷ s) le = absurd (omega arith)
take-overwrite (suc n) (suc offset) (b ∷ bytes) (x ∷ s) le =
    ap (λ t. x ∷ t) (take-overwrite n offset (b ∷ bytes) s (omega arith))

pub drop-overwrite :
    (n offset : ℕ) (bytes s : Bytes)
    → offset + length bytes ≤ n
    → drop n (overwrite offset bytes s) ≡ drop n s
unfolding overwrite
drop-overwrite n offset [] s le = refl
drop-overwrite n offset (b ∷ bytes) [] le = refl
drop-overwrite zero offset (b ∷ bytes) (x ∷ s) le = absurd (omega arith)
drop-overwrite (suc n) zero (b ∷ bytes) (x ∷ s) le = drop-overwrite n zero bytes s (omega arith)
drop-overwrite (suc n) (suc offset) (b ∷ bytes) (x ∷ s) le =
    drop-overwrite n offset (b ∷ bytes) s (omega arith)

-- A part in front of the write.
pub part-overwrite :
    (n k offset : ℕ) (bytes s : Bytes)
    → n + k ≤ offset
    → take k (drop n (overwrite offset bytes s)) ≡ take k (drop n s)
unfolding overwrite
part-overwrite zero k offset bytes s le = take-overwrite k offset bytes s (omega arith)
part-overwrite (suc n) k offset [] s le = refl
part-overwrite (suc n) k offset (b ∷ bytes) [] le = refl
part-overwrite (suc n) k zero (b ∷ bytes) (x ∷ s) le = absurd (omega arith)
part-overwrite (suc n) k (suc offset) (b ∷ bytes) (x ∷ s) le =
    part-overwrite n k offset (b ∷ bytes) s (omega arith)

-- The bytes that were written.
pub written-overwrite :
    (offset : ℕ) (bytes s : Bytes)
    → offset + length bytes ≤ length s
    → take (length bytes) (drop offset (overwrite offset bytes s)) ≡ bytes
unfolding overwrite
written-overwrite zero [] s le = refl
written-overwrite (suc offset) [] s le = refl
written-overwrite offset (b ∷ bytes) [] le = absurd (omega arith)
written-overwrite zero (b ∷ bytes) (x ∷ s) le =
    ap (λ t. b ∷ t) (written-overwrite zero bytes s (omega arith))
written-overwrite (suc offset) (b ∷ bytes) (x ∷ s) le =
    written-overwrite offset (b ∷ bytes) s (omega arith)
