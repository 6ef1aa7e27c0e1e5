-- ===== src/Allocator/Bump.antt =====
-- min-rust-os/src/allocator/bump.rs: hand out memory upwards, and start again when all of it is
-- back.
pub mod Safety
mod Valid
use os_resources.Prelude.{ℕ, ◌==◌, ltb, if◌then◌else◌, Result, ok, ◌>>=◌, some, none}
use os_resources.Prelude.Words.{add_usize, sub_usize, checked_add}
use os_resources.Allocator.{Layout, null, GlobalAlloc, align_up}

pub record BumpAllocator : Type 0 where
  pub heap_start : ℕ
  pub heap_end : ℕ
  pub next : ℕ
  pub allocations : ℕ

unfoldable pub new : BumpAllocator
new = record { heap_start = 0; heap_end = 0; next = 0; allocations = 0 }

-- The fields are assigned in order; an overflow of the end address panics before `next` is set.
unfoldable pub init : ℕ → ℕ → BumpAllocator → Result BumpAllocator
unfolding add_usize
init start size bump = do
  end ← add_usize start size
  ok (record bump { heap_start = start; heap_end = end; next = start })

-- The part of `alloc` behind the bounds check.
bump_to : ℕ → ℕ → BumpAllocator → Result (ℕ × BumpAllocator)
unfolding add_usize
bump_to alloc_start alloc_end bump = if ltb bump.heap_end alloc_end then ok (null, bump) else do
  count ← add_usize bump.allocations 1
  ok (alloc_start, record bump { next = alloc_end; allocations = count })

unfoldable pub alloc : Layout → BumpAllocator → Result (ℕ × BumpAllocator)
unfolding checked_add bump_to
alloc layout bump = do
  alloc_start ← align_up bump.next layout.align
  elim (checked_add alloc_start layout.size) [
    | none ↦ ok (null, bump)
    | some alloc_end ↦ bump_to alloc_start alloc_end bump
  ]

unfoldable pub dealloc : ℕ → Layout → BumpAllocator → Result BumpAllocator
unfolding sub_usize
dealloc ptr layout bump = do
  count ← sub_usize bump.allocations 1
  ok (record bump { next = if count == 0 then bump.heap_start else bump.next; allocations = count })

abbrev pub bump_allocator : GlobalAlloc BumpAllocator
bump_allocator = record { alloc = alloc; dealloc = dealloc }
