-- ===== src/Common/Masks.antt =====
-- The bits of a mask, as `mask & (1 << i)` reads them.
use Prim.Native.Nat.{ℕ, zero, suc, ◌+◌, ◌*◌, ◌/◌, ◌%◌, ◌^◌, ◌<◌}
use mathlib.Core.Path.{◌≡◌, refl}
use mathlib.Core.Bool.{Bool, true, false}
use native.Mathlib.Nat.{pow-succ', div-div-eq-div-mul}
use native.Mathlib.Omega.{arith}
use oscraft.Common.Tests.{◌==◌, if◌then◌else◌}

abbrev pub bit : ℕ → ℕ → Bool
bit i mask = mask / 2 ^ i % 2 == 1

bit-zero : (m : ℕ) → bit 0 m ≡ (m % 2 == 1)
bit-zero m = let e : m / 1 ≡ m = omega arith in rw e

bit-suc : (i m : ℕ) → bit (suc i) m ≡ bit i (m / 2)
bit-suc i m = rw (pow-succ' 2 i, ← div-div-eq-div-mul m 2 (2 ^ i))

-- No bit of 0 is set.
pub bit-none : (i : ℕ) → bit i 0 ≡ false
bit-none zero = refl
bit-none (suc i) = rw (bit-suc i 0) (bit-none i)

-- `mask | 1 << i` for a mask of lower bits sets the bit `i` alone.
pub bit-add : (i j m : ℕ) → m < 2 ^ i → bit j (m + 2 ^ i) ≡ (if i == j then true else bit j m)
bit-add zero zero m h = let e : m ≡ 0 = omega arith in rw e
bit-add zero (suc j) m h =
    let e : m ≡ 0 = omega arith in
    let apart : (0 == suc j) ≡ false = ground arith in
    let gone : (0 + 2 ^ 0) / 2 ≡ 0 / 2 = refl in
    rw (e, bit-suc j (0 + 2 ^ 0), bit-suc j 0, apart, gone)
bit-add (suc i) zero m h =
    let e : (m + 2 * 2 ^ i) % 2 ≡ m % 2 = omega arith in
    let apart : (suc i == 0) ≡ false = ground arith in
    rw (bit-zero (m + 2 ^ suc i), bit-zero m, pow-succ' 2 i, e, apart)
bit-add (suc i) (suc j) m h =
    let double = pow-succ' 2 i in
    let half : (m + 2 ^ suc i) / 2 ≡ m / 2 + 2 ^ i = omega arith in
    let same : (suc i == suc j) ≡ (i == j) = ground arith in
    rw (bit-suc j (m + 2 ^ suc i), bit-suc j m, half, same) (bit-add i j (m / 2) (omega arith))
