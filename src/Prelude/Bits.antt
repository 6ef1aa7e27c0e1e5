-- ===== src/Prelude/Bits.antt =====
-- `&` with a low mask and with its complement, as arithmetic.
use Prim.Native.Nat.{
  ℕ, zero, suc, ◌+◌, ◌-◌, ◌*◌, ◌/◌, ◌%◌, ◌^◌, ◌≤◌, ◌<◌, min, bit_and, digits, bit_and-bitwise,
}
use mathlib.Core.Path.{◌≡◌, refl, ap}
use native.Mathlib.Nat.{pow-suc, one-le-pow}
use native.Mathlib.Omega.{arith}

abbrev meet : ℕ → ℕ → ℕ → ℕ
meet fuel a b = digits (λ _. 0) min fuel a b

-- As much fuel as the number itself is enough, and more changes nothing.
meet_fuel : (x y m n : ℕ) → x ≤ m → x ≤ n → meet m x y ≡ meet n x y
meet_fuel zero y zero zero h k = refl
meet_fuel zero y zero (suc n) h k = refl
meet_fuel zero y (suc m) zero h k = refl
meet_fuel zero y (suc m) (suc n) h k = refl
meet_fuel (suc x) y zero n h k = elim h [ ]
meet_fuel (suc x) y (suc m) zero h k = elim k [ ]
meet_fuel (suc x) y (suc m) (suc n) h k =
    let half = suc x / 2 in
    ap (λ (t : ℕ). t * 2 + min (suc x % 2) (y % 2))
      (meet_fuel half (y / 2) m n (omega arith) (omega arith))

-- One step from a number to its half.
meet_halves :
    (x y : ℕ)
    → meet (suc x) (suc x) y ≡ meet (suc x / 2) (suc x / 2) (y / 2) * 2 + min (suc x % 2) (y % 2)
meet_halves x y =
    let half = suc x / 2 in
    ap (λ (t : ℕ). t * 2 + min (suc x % 2) (y % 2))
      (meet_fuel half (y / 2) x half (omega arith) (omega arith))

-- The lowest digit of `&`, and the rest.
bit_and_lowest : (x y : ℕ) → bit_and x y ≡ bit_and (x / 2) (y / 2) * 2 + min (x % 2) (y % 2)
bit_and_lowest zero y = simp bit_and-bitwise (omega arith)
bit_and_lowest (suc x) y = simp bit_and-bitwise (meet_halves x y)

-- Every bit kept.
pub bit_and_ones : (w a : ℕ) → a < 2 ^ w → bit_and a (2 ^ w - 1) ≡ a
bit_and_ones w zero h = bit_and-bitwise 0 (2 ^ w - 1)
bit_and_ones zero (suc a) h = absurd (omega arith)
bit_and_ones (suc w) (suc a) h = ground (
  arith,
  bit_and_lowest (suc a) (2 ^ suc w - 1),
  pow-suc 2 w,
  one-le-pow w 2,
  bit_and_ones w (suc a / 2),
)

double_field : (q k : ℕ) → q * 2 ^ suc k ≡ 2 * (q * 2 ^ k)
double_field q k = omega (arith, ap (λ (t : ℕ). q * t) (pow-suc 2 k))

bit_and_field :
    (w k q r : ℕ)
    → k ≤ w
    → r < 2 ^ k
    → q * 2 ^ k + r < 2 ^ w
    → bit_and (q * 2 ^ k + r) (2 ^ w - 2 ^ k) ≡ q * 2 ^ k
bit_and_field w zero q r hk hr h = ground (arith, bit_and_ones w (q * 1 + r))
bit_and_field zero (suc k) q r hk hr h = absurd (omega arith)
bit_and_field (suc w) (suc k) q r hk hr h = ground (
  arith,
  bit_and_lowest (q * 2 ^ suc k + r) (2 ^ suc w - 2 ^ suc k),
  double_field q k,
  pow-suc 2 k,
  pow-suc 2 w,
  bit_and_field w k q (r / 2),
)

-- The `k` lowest bits cleared.
pub bit_and_high : (w k a : ℕ) → k ≤ w → a < 2 ^ w → bit_and a (2 ^ w - 2 ^ k) ≡ a / 2 ^ k * 2 ^ k
bit_and_high w k a hk h =
    ground (arith, one-le-pow k 2, bit_and_field w k (a / 2 ^ k) (a % 2 ^ k) hk)
