-- ===== src/Allocator.antt =====
-- min-rust-os/src/allocator.rs: what the allocators share. A `*mut u8` is its address, and the null
-- pointer is 0. `Locked` hands out exclusive access, so a method of `Locked<A>` is a function from
-- the state of the `A` inside the lock to its result and the new state.
pub mod Align
pub mod Client
pub mod Bump
pub mod FixedSizeBlock
pub mod LinkedList
pub mod Heap
pub mod Dummy
pub mod Tests
use os_resources.Prelude.{
  ℕ, ◌*◌, ◌+◌, ◌^◌, ◌≤◌, ◌<◌, ◌≡◌, Result, ok, ◌>>=◌, bit_and, ◌-◌, ◌&&◌, ◌==◌, ltb, leb,
  if◌then◌else◌, Option, none, some,
}
use os_resources.Prelude.Words.{usize_mod, add_usize, sub_usize, not_usize}

-- core::alloc::Layout.
pub record Layout : Type 0 where
  pub size : ℕ
  pub align : ℕ

-- What the standard library guarantees of a layout: the alignment is a power of two, and the size
-- rounded up to it does not overflow.
pub record IsLayout (l : Layout) : Type 0 where
  pub log : ℕ
  pub log_lt : log < 64
  pub pow : l.align ≡ 2 ^ log
  pub fits : l.size + l.align ≤ usize_mod

-- `Layout::from_size_align`: an error unless the alignment is a power of two (it shares no bit with
-- its predecessor) and the size rounded up to it does not overflow.
unfoldable pub from_size_align : ℕ → ℕ → Option Layout
from_size_align size align =
    if ltb 0 align && (bit_and align (align - 1) == 0 && leb (size + align) usize_mod)
    then some (record { size = size; align = align })
    else none

abbrev pub null : ℕ
null = 0

-- The methods of `GlobalAlloc` for an allocator with state `S`.
pub record GlobalAlloc (S : Type 0) : Type 0 where
  pub alloc : Layout → S → Result (ℕ × S)
  pub dealloc : ℕ → Layout → S → Result S

abbrev pub heap_start : ℕ
heap_start = 0x4444_4444_0000

abbrev pub heap_size : ℕ
heap_size = 100 * 1024

-- `(addr + align - 1) & !(align - 1)`
unfoldable pub align_up : ℕ → ℕ → Result ℕ
unfolding add_usize sub_usize not_usize
align_up addr align = do
  sum ← add_usize addr align
  raised ← sub_usize sum 1
  low ← sub_usize align 1
  ok (bit_and raised (not_usize low))
