-- ===== src/Allocator/Align.antt =====
-- `align_up` of min-rust-os/src/allocator.rs: the bit mask rounds up to the next multiple.
use native.Mathlib.Nat.{
  one-le-pow, pow-le-pow_right, lt-div-mul-add, div-mul-le_self, mul-mod_left, mod-add-div',
  div-lt_iff_lt-mul, mod-lt, lt_of_mul-lt-mul_right,
}
use os_resources.Prelude.{
  ℕ, ◌+◌, ◌-◌, ◌*◌, ◌/◌, ◌%◌, ◌^◌, ◌≤◌, ◌<◌, ◌≡◌, ◌≢◌, ◌==◌, ltb, if◌then◌else◌, ok, panic,
  overflow, ap, Returns, arith, refl, bit_and,
}
use os_resources.Prelude.Bits.{bit_and_high}
use os_resources.Prelude.Words.{usize_mod}
use os_resources.Allocator.{Layout, IsLayout, align_up}

-- The next multiple of `align`, from `addr` on.
unfoldable pub next_multiple : ℕ → ℕ → ℕ
next_multiple addr align = (addr + align - 1) / align * align

mask :
    (k raised : ℕ)
    → k < 64
    → raised < usize_mod
    → bit_and raised (usize_mod - 1 - (2 ^ k - 1)) ≡ raised / 2 ^ k * 2 ^ k
mask k raised hk h = ground (
  arith,
  one-le-pow k 2,
  bit_and_high 64 k raised,
  pow-le-pow_right {n = 2} (omega arith) {i = k} {j = 64} (omega arith),
)

pub align_up-eq :
    (addr k : ℕ)
    → k < 64
    → align_up addr (2 ^ k)
      ≡ (if ltb (addr + 2 ^ k) usize_mod then ok (next_multiple addr (2 ^ k)) else panic overflow)
unfolding align_up next_multiple
align_up-eq addr k hk = ground (arith, one-le-pow k 2, mask k (addr + 2 ^ k - 1))

-- `r` is the least multiple of `align` that is at least `addr`.
pub record IsRoundedUp (addr align r : ℕ) : Type 0 where
  pub above : addr ≤ r
  pub near : r < addr + align
  pub multiple : r % align ≡ 0
  pub least : (m : ℕ) → m % align ≡ 0 → addr ≤ m → r ≤ m

le_of_multiple :
    (addr align m : ℕ)
    → 0 < align
    → m % align ≡ 0
    → addr ≤ m
    → (addr + align - 1) / align * align ≤ m
le_of_multiple addr align m pos e h =
    let whole : m / align * align ≡ m = omega (arith, mod-add-div' m align) in
    let few : (addr + align - 1) / align < m / align + 1 =
      (div-lt_iff_lt-mul {x = addr + align - 1} {y = m / align + 1} pos).1 (omega arith) in
    grind arith

pub next_multiple-IsRoundedUp :
    (addr align : ℕ) → 0 < align → IsRoundedUp addr align (next_multiple addr align)
unfolding next_multiple
next_multiple-IsRoundedUp addr align pos = record {
  above = omega (arith, lt-div-mul-add {a = addr + align - 1} pos);
  near = omega (arith, div-mul-le_self (addr + align - 1) align);
  multiple = mul-mod_left ((addr + align - 1) / align) align;
  least = λ m e h. le_of_multiple addr align m pos e h;
}

IsRoundedUp-unique :
    {addr align r s : ℕ} → IsRoundedUp addr align r → IsRoundedUp addr align s → r ≡ s
IsRoundedUp-unique {r} {s} u v =
    omega (arith, u.least s v.multiple v.above, v.least r u.multiple u.above)

-- Rounding up through the remainder: stay at a multiple, and go on to the next from elsewhere.
unfoldable pub by_remainder : ℕ → ℕ → ℕ
by_remainder addr align = if addr % align == 0 then addr else addr - addr % align + align

past_remainder : (addr align : ℕ) → addr - addr % align + align ≡ (addr / align + 1) * align
past_remainder addr align = grind (arith, mod-add-div' addr align)

next_of_multiple :
    (addr align m : ℕ)
    → addr % align ≢ 0
    → m % align ≡ 0
    → addr ≤ m
    → (addr / align + 1) * align ≤ m
next_of_multiple addr align m off e h =
    let whole : m / align * align ≡ m = omega (arith, mod-add-div' m align) in
    let low : addr / align * align < m / align * align = omega (arith, mod-add-div' addr align) in
    let few : addr / align < m / align = lt_of_mul-lt-mul_right align low in grind arith

by_remainder-IsRoundedUp :
    (addr align : ℕ) → 0 < align → IsRoundedUp addr align (by_remainder addr align)
unfolding by_remainder
by_remainder-IsRoundedUp addr align pos = record {
  above = ground (arith, mod-lt addr pos);
  near = ground arith;
  multiple = ground (arith, past_remainder addr align, mul-mod_left (addr / align + 1) align);
  least = λ m e h. ground (arith, past_remainder addr align, next_of_multiple addr align m);
}

-- For every address and every power of two, the bit mask of `align_up` gives what rounding up
-- through the remainder gives, and where address and alignment do not add up below 2 ^ 64 it panics.
pub align_up-eq-by_remainder :
    (addr k : ℕ)
    → k < 64
    → align_up addr (2 ^ k)
      ≡ (if ltb (addr + 2 ^ k) usize_mod then ok (by_remainder addr (2 ^ k)) else panic overflow)
align_up-eq-by_remainder addr k hk =
    rw
      (
        align_up-eq addr k hk,
        IsRoundedUp-unique (next_multiple-IsRoundedUp addr (2 ^ k) (one-le-pow k 2 (omega arith)))
            (by_remainder-IsRoundedUp addr (2 ^ k) (one-le-pow k 2 (omega arith))),
      )
      refl

-- Where address and alignment add up below 2 ^ 64, `align_up` returns the least multiple of the
-- alignment that is not below the address, which is less than the alignment away.
pub align_up-IsRoundedUp :
    (addr k : ℕ)
    → k < 64
    → addr + 2 ^ k < usize_mod
    → Returns (IsRoundedUp addr (2 ^ k)) (align_up addr (2 ^ k))
align_up-IsRoundedUp addr k hk fits = record {
  value = next_multiple addr (2 ^ k);
  returns = ground (arith, align_up-eq addr k hk);
  holds = next_multiple-IsRoundedUp addr (2 ^ k) (one-le-pow k 2 (omega arith));
}

-- The alignment of a layout.
pub IsLayout-align : {l : Layout} → IsLayout l → (0 < l.align) × (l.align ≤ 2 ^ 63)
IsLayout-align v = omega (
  arith,
  one-le-pow v.log 2,
  pow-le-pow_right {n = 2} (omega arith) {i = v.log} {j = 63} (omega (arith, v.log_lt)),
  v.pow,
)

pub align_up-layout :
    (addr : ℕ) {l : Layout}
    → IsLayout l
    → addr + l.align < usize_mod
    → align_up addr l.align ≡ ok (next_multiple addr l.align)
align_up-layout addr v fits =
    ground (arith, v.pow, ap (align_up addr) v.pow, align_up-eq addr v.log v.log_lt)
