-- ===== src/Common/Bits.antt =====
-- `|` of C on unsigned words, as arithmetic where the two operands share no bit.
-- The native `bit_or` stands for a recursion on binary digits whose fuel is its first operand.
use Prim.Native.Nat.{
  ℕ, zero, suc, ◌+◌, ◌*◌, ◌/◌, ◌%◌, ◌^◌, ◌≤◌, ◌<◌, max, digits, bit_or, bit_or-bitwise,
}
use mathlib.Core.Path.{◌≡◌, refl, ap, ◌∙◌}
use native.Mathlib.Nat.{pow-suc}
use native.Mathlib.Omega.{arith}

abbrev or_rounds : ℕ → ℕ → ℕ → ℕ
or_rounds = digits (λ rest. rest) max

-- Any two amounts of fuel that cover the first operand give one result.
or_rounds_stable : (w v j k : ℕ) → w ≤ j → w ≤ k → or_rounds j w v ≡ or_rounds k w v
or_rounds_stable zero v zero zero hj hk = refl
or_rounds_stable zero v zero (suc k) hj hk = refl
or_rounds_stable zero v (suc j) zero hj hk = refl
or_rounds_stable zero v (suc j) (suc k) hj hk = refl
or_rounds_stable (suc w) v zero k hj hk = absurd (omega arith)
or_rounds_stable (suc w) v (suc j) zero hj hk = absurd (omega arith)
or_rounds_stable (suc w) v (suc j) (suc k) hj hk =
    let half = or_rounds_stable (suc w / 2) (v / 2) j k (omega arith) (omega arith) in rw half refl

-- The lowest digit of `bit_or`, and the rest.
bit_or_digit : (w v : ℕ) → bit_or w v ≡ bit_or (w / 2) (v / 2) * 2 + max (w % 2) (v % 2)
bit_or_digit zero v = rw (bit_or-bitwise 0 v, bit_or-bitwise 0 (v / 2)) (omega arith)
bit_or_digit (suc w) v =
    rw (bit_or-bitwise (suc w) v, bit_or-bitwise (suc w / 2) (v / 2))
      (omega
        (arith, or_rounds_stable (suc w / 2) (v / 2) w (suc w / 2) (omega arith) (omega arith)))

bit_or-none_fuel : (n w : ℕ) → w ≤ n → bit_or w 0 ≡ w
bit_or-none_fuel n zero h = refl
bit_or-none_fuel zero (suc w) h = absurd (omega arith)
bit_or-none_fuel (suc n) (suc w) h =
    omega (arith, bit_or_digit (suc w) 0, bit_or-none_fuel n (suc w / 2) (omega arith))

pub bit_or-none : (w : ℕ) → bit_or w 0 ≡ w
bit_or-none w = bit_or-none_fuel w w (omega arith)

-- `w | 1` sets the lowest bit.
pub bit_or-one : (w : ℕ) → bit_or w 1 ≡ w / 2 * 2 + 1
bit_or-one w = omega (arith, bit_or_digit w 1, bit_or-none (w / 2))

-- `(q << k) | r` is a sum where `r` has at most `k` bits.
pub bit_or_above : (k q r : ℕ) → r < 2 ^ k → bit_or (2 ^ k * q) r ≡ 2 ^ k * q + r
bit_or_above zero q zero h = bit_or-none _ ∙ omega arith
bit_or_above zero q (suc r) h = absurd (omega arith)
bit_or_above (suc k) q r h =
    let double : 2 ^ suc k * q ≡ 2 * (2 ^ k * q) =
      omega (arith, ap (λ (t : ℕ). t * q) (pow-suc 2 k)) in
    omega (
      arith,
      double,
      pow-suc 2 k,
      bit_or_digit (2 ^ suc k * q) r,
      ap (λ (t : ℕ). bit_or t (r / 2)) (half_double double),
      bit_or_above k q (r / 2) (omega (arith, pow-suc 2 k)),
    )
  where
    half_double : 2 ^ suc k * q ≡ 2 * (2 ^ k * q) → 2 ^ suc k * q / 2 ≡ 2 ^ k * q
    half_double e = omega arith
