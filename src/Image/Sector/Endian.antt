-- ===== src/Image/Sector/Endian.antt =====
-- Numbers read back from the bytes that they were written to.
use native.Mathlib.Nat.{pow-suc}
use cluster_api_provider_scv.Base.{
  ℕ, zero, suc, ◌+◌, ◌*◌, ◌/◌, ◌%◌, ◌^◌, ◌<◌, ◌≡◌, refl, ◌∙◌, [], ◌∷◌, ◌++◌, arith,
}
use cluster_api_provider_scv.Image.Sector.{Bytes, big_endian}

-- The number of some bytes, the highest first, after a number read before.
pub read_big : ℕ → Bytes → ℕ
read_big acc [] = acc
read_big acc (b ∷ bytes) = read_big (acc * 256 + b) bytes

read_big-append :
    (acc : ℕ) (xs ys : Bytes) → read_big acc (xs ++ ys) ≡ read_big (read_big acc xs) ys
unfolding read_big
read_big-append acc [] ys = refl
read_big-append acc (x ∷ xs) ys = read_big-append (acc * 256 + x) xs ys

pow_step : (width v : ℕ) → v < 256 ^ suc width → v / 256 < 256 ^ width
pow_step width v h = omega (arith, pow-suc 256 width)

pub read_big-big_endian : (width v : ℕ) → v < 256 ^ width → read_big 0 (big_endian width v) ≡ v
unfolding read_big big_endian
read_big-big_endian zero v h = omega arith
read_big-big_endian (suc width) v h =
    read_big-append 0 (big_endian width (v / 256)) (v % 256 ∷ [])
    ∙ omega (arith, read_big-big_endian width (v / 256) (pow_step width v h))
