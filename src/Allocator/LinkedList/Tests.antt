-- ===== src/Allocator/LinkedList/Tests.antt =====
-- Runs of min-rust-os/src/allocator/linked_list.rs.
use os_resources.Prelude.{
  All, AllPairs, ℕ, ◌≡◌, ok, panic, assertion_failed, [], ◌∷◌, Returns, arith, refl,
}
use os_resources.Prelude.Words.{add_usize, sub_usize, checked_add}
use os_resources.Allocator.{Layout, IsLayout, align_up, from_size_align}
use os_resources.Allocator.LinkedList.{
  linked_list_allocator, LinkedListAllocator, new, init, end_addr, add_free_region,
  alloc_from_region, find_region, align_to, pad_to_align, size_align, split, alloc,
}
use os_resources.Allocator.Client.{Block, AreOwned, Reach, here, next, allocate}
use os_resources.Allocator.LinkedList.Partition.{Apart, part}
use os_resources.Allocator.LinkedList.Safety.{Untouched, Reach-IsPartition}
use os_resources.Allocator.LinkedList.Regions.{Finds, find_region-Finds}
use os_resources.Allocator.LinkedList.Adjusted.{IsAdjusted}
use os_resources.Allocator.LinkedList.FirstFit.{Allocates, alloc-Allocates}

-- A heap of 32 bytes.
abbrev small_heap : LinkedListAllocator
small_heap = record { next = record { start_addr = 4096; size = 32 } ∷ [] }

small_heap_init : init 4096 32 new ≡ ok small_heap
unfolding init new add_free_region align_up add_usize sub_usize
small_heap_init = refl

abbrev five_bytes : Layout
five_bytes = record { size = 5; align = 2 }

five_bytes-IsLayout : IsLayout five_bytes
five_bytes-IsLayout = record { log = 1; log_lt = omega arith; pow = refl; fits = omega arith }

five_bytes_alloc :
    alloc five_bytes small_heap
    ≡ ok (4096, record { next = record { start_addr = 4112; size = 16 } ∷ [] })
unfolding alloc size_align align_to from_size_align pad_to_align find_region alloc_from_region split
    end_addr add_free_region align_up add_usize sub_usize checked_add
five_bytes_alloc = refl

-- 8 bytes are left of the region, too few for a node.
cramped_alloc : alloc (record { size = 24; align = 8 }) small_heap ≡ panic assertion_failed
unfolding alloc size_align align_to from_size_align pad_to_align find_region alloc_from_region split
    end_addr add_free_region align_up add_usize sub_usize checked_add
cramped_alloc = refl

alloc-Allocates_example :
    (size align : ℕ) × IsAdjusted five_bytes size align
    × Allocates size align small_heap.next (alloc five_bytes small_heap)
alloc-Allocates_example =
    alloc-Allocates five_bytes small_heap five_bytes-IsLayout (omega arith)
      (record { low = omega arith }, tt)

find_region-Finds_example : Returns (Finds 16 8 small_heap.next) (find_region 16 8 small_heap.next)
find_region-Finds_example =
    find_region-Finds 16 3 small_heap.next (record { low = omega arith }, tt) (omega arith)

abbrev five_given : LinkedListAllocator
five_given = record { next = record { start_addr = 4112; size = 16 } ∷ [] }

abbrev five_block : Block
five_block = record { addr = 4096; layout = five_bytes }

Reach-five : Reach linked_list_allocator Untouched small_heap five_given (five_block ∷ [])
unfolding linked_list_allocator
Reach-five =
    next here
      (allocate 4096 five_bytes five_bytes-IsLayout (omega arith) five_bytes_alloc (omega arith))

Reach-IsPartition_example :
    AreOwned 4096 4128 (five_block ∷ [])
    × AllPairs Apart five_given.next
    × All (λ r. All (λ b. Apart r (part b)) (five_block ∷ [])) five_given.next
Reach-IsPartition_example =
    Reach-IsPartition 4096 32 small_heap (omega arith) refl (omega arith) (omega arith)
      small_heap_init Reach-five
