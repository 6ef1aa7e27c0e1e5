-- ===== src/Allocator/LinkedList.antt =====
-- min-rust-os/src/allocator/linked_list.rs: a list of the free regions, kept in the regions.
--
-- A node is a `&'static mut ListNode`, an owned object at an address. So the list is a value here:
-- the address and the size of each node in turn. The head of the source's list is a node of size 0
-- that lies outside of the heap; only its `next` is used, the list itself.
pub mod Regions
pub mod Adjusted
pub mod FirstFit
pub mod Partition
pub mod Safety
mod Tests
use os_resources.Prelude.{
  ℕ, ◌+◌, ◌-◌, ◌%◌, ◌≡◌, max, ◌==◌, ltb, leb, if◌then◌else◌, Result, ok, assertion_failed,
  expect_failed, ensure, expect, ◌>>=◌, ◌>>◌, Option, none, some, List, [], ◌∷◌,
}
use os_resources.Prelude.Words.{add_usize, sub_usize, checked_add}
use os_resources.Allocator.{Layout, null, GlobalAlloc, align_up, from_size_align}

-- `mem::size_of::<ListNode>()` and `mem::align_of::<ListNode>()`: a size and a pointer.
abbrev pub node_size : ℕ
node_size = 16

abbrev pub node_align : ℕ
node_align = 8

pub record ListNode : Type 0 where
  pub start_addr : ℕ
  pub size : ℕ

unfoldable pub end_addr : ListNode → Result ℕ
end_addr node = add_usize node.start_addr node.size

pub record LinkedListAllocator : Type 0 where
  pub next : List ListNode

unfoldable pub new : LinkedListAllocator
new = record { next = [] }

unfoldable pub add_free_region : ℕ → ℕ → LinkedListAllocator → Result LinkedListAllocator
add_free_region addr size a = do
  aligned ← align_up addr node_align
  ensure (aligned == addr) assertion_failed
  ensure (leb node_size size) assertion_failed
  ok (record { next = record { start_addr = addr; size = size } ∷ a.next })

unfoldable pub init : ℕ → ℕ → LinkedListAllocator → Result LinkedListAllocator
init heap_start heap_size a = add_free_region heap_start heap_size a

-- `none` where the region is too small.
unfoldable pub alloc_from_region : ListNode → ℕ → ℕ → Result (Option ℕ)
unfolding end_addr
alloc_from_region region size align = do
  alloc_start ← align_up region.start_addr align
  elim (checked_add alloc_start size) [
    | none ↦ ok none
    | some alloc_end ↦ do
      region_end ← end_addr region
      ok (if ltb region_end alloc_end then none else some alloc_start)
  ]

-- The region that is found with the start of the allocation, and the list without the region.
unfoldable pub find_region : ℕ → ℕ → List ListNode → Result (Option (ListNode × ℕ) × List ListNode)
unfolding alloc_from_region
find_region size align [] = ok (none, [])
find_region size align (region ∷ rest) = do
  fits ← alloc_from_region region size align
  elim fits [
    | some alloc_start ↦ ok (some (region, alloc_start), rest)
    | none ↦ do (found, rest') ← find_region size align rest; ok (found, region ∷ rest')
  ]

-- `Layout::align_to`, which raises the alignment.
unfoldable pub align_to : Layout → ℕ → Option Layout
align_to layout align = from_size_align layout.size (max layout.align align)

-- `Layout::pad_to_align`: the size rounded up to the alignment.
unfoldable pub pad_to_align : Layout → Layout
pad_to_align layout = record layout {
  size = layout.size + (layout.align - layout.size % layout.align) % layout.align;
}

unfoldable pub size_align : Layout → Result (ℕ × ℕ)
unfolding align_to pad_to_align
size_align layout = do
  aligned ← expect (align_to layout node_align) expect_failed
  let padded = pad_to_align aligned
  ok (max padded.size node_size, padded.align)

-- What `alloc` does once it has found a region, which is no longer in the list.
unfoldable pub split : ListNode → ℕ → ℕ → LinkedListAllocator → Result (ℕ × LinkedListAllocator)
split region alloc_start size a = do
  alloc_end ← expect (checked_add alloc_start size) expect_failed
  region_end ← end_addr region
  excess_size ← sub_usize region_end alloc_end
  a' ← if ltb 0 excess_size then add_free_region alloc_end excess_size a else ok a
  ok (alloc_start, a')

unfoldable pub alloc : Layout → LinkedListAllocator → Result (ℕ × LinkedListAllocator)
alloc layout a = do
  (size, align) ← size_align layout
  (found, rest) ← find_region size align a.next
  elim found [
    | some (region, alloc_start) ↦ split region alloc_start size (record { next = rest })
    | none ↦ ok (null, record { next = rest })
  ]

unfoldable pub dealloc : ℕ → Layout → LinkedListAllocator → Result LinkedListAllocator
dealloc ptr layout a = do (size, align) ← size_align layout; add_free_region ptr size a

unfoldable pub linked_list_allocator : GlobalAlloc LinkedListAllocator
linked_list_allocator = record { alloc = alloc; dealloc = dealloc }
