-- ===== src/Prelude/Words.antt =====
-- `usize` and `u64` arithmetic on the 64-bit target. The development profile checks for overflow,
-- so `+` and `-` panic where the result does not fit.
use os_resources.Prelude.Tests.{ltb, leb, if◌then◌else◌}
use os_resources.Prelude.Fallible.{Result, ok, panic, overflow}
use Prim.Native.Nat.{ℕ, ◌+◌, ◌-◌, ◌^◌}
use mathlib.Core.Option.{Option, none, some}

abbrev pub usize_mod : ℕ
usize_mod = 2 ^ 64

-- `a + b`.
unfoldable pub add_usize : ℕ → ℕ → Result ℕ
add_usize a b = if ltb (a + b) usize_mod then ok (a + b) else panic overflow

-- `a - b`.
unfoldable pub sub_usize : ℕ → ℕ → Result ℕ
sub_usize a b = if leb b a then ok (a - b) else panic overflow

-- `a.checked_add(b)`.
unfoldable pub checked_add : ℕ → ℕ → Option ℕ
checked_add a b = if ltb (a + b) usize_mod then some (a + b) else none

-- `!a`.
unfoldable pub not_usize : ℕ → ℕ
not_usize a = usize_mod - 1 - a
