-- ===== src/Allocator/FixedSizeBlock.antt =====
-- min-rust-os/src/allocator/fixed_size_block.rs: a list of free blocks for each of nine sizes, over
-- a fallback allocator.
--
-- A free block holds the `ListNode` of its list, so the lists lie in the heap's memory: `Memory`
-- gives the node that was written to an address. The fallback is `linked_list_allocator::Heap`, a
-- crate that is not part of the repository. It is a parameter, and may write to the memory that it
-- keeps for itself.
pub mod Blocks
pub mod Contract
pub mod Free
mod InOrder
pub mod Kept
pub mod Owned
pub mod Released
pub mod Reuse
pub mod Safety
pub mod Served
mod Tests
use os_resources.Prelude.{
  ℕ, zero, suc, ◌+◌, ◌-◌, bit_and, ◌≤◌, ◌<◌, ◌≡◌, Bool, ◌&&◌, max, ◌==◌, ltb, leb, if◌then◌else◌,
  Result, ok, panic, out_of_bounds, assertion_failed, expect_failed, undefined, ensure, expect,
  ◌>>=◌, ◌>>◌, Option, none, some, List, [], ◌∷◌, get_elem?, set, replicate, length,
}
use os_resources.Prelude.Words.{usize_mod}
use os_resources.Allocator.{Layout, null, GlobalAlloc, from_size_align}

pub record ListNode : Type 0 where
  pub next : Option ℕ

-- `mem::size_of::<ListNode>()` and `mem::align_of::<ListNode>()`: a pointer, as `Option` of a
-- reference takes no more.
abbrev pub node_size : ℕ
node_size = 8

abbrev pub node_align : ℕ
node_align = 8

abbrev pub Memory : Type 0
Memory = ℕ → Option ListNode

-- Two nodes at different addresses that share a byte.
overlaps : ℕ → ℕ → Bool
overlaps p q = ltb p (q + node_size) && ltb q (p + node_size)

-- Writing a node destroys every node that it overlaps.
unfoldable pub write_node : ℕ → ListNode → Memory → Memory
unfolding overlaps
write_node p n m q = if q == p then some n else if overlaps p q then none else m q

pub record Fallback : Type 1 where
  pub Heap : Type 0
  pub empty : Heap
  pub init : ℕ → ℕ → Heap × Memory → Heap × Memory
  pub allocate_first_fit : Layout → Heap × Memory → Option ℕ × (Heap × Memory)
  pub deallocate : ℕ → Layout → Heap × Memory → Heap × Memory

abbrev pub block_sizes : List ℕ
block_sizes = 8 ∷ 16 ∷ 32 ∷ 64 ∷ 128 ∷ 256 ∷ 512 ∷ 1024 ∷ 2048 ∷ []

-- `iter().position(|&s| s >= required)`
position_from : ℕ → List ℕ → ℕ → Option ℕ
position_from required [] i = none
position_from required (s ∷ sizes) i =
    let rest = position_from required sizes (i + 1) in if leb required s then some i else rest

unfoldable pub list_index : Layout → Option ℕ
unfolding position_from
list_index layout = position_from (max layout.size layout.align) block_sizes 0

module _ (f : Fallback) where
  open f use {Heap, empty, allocate_first_fit, deallocate}

  -- The allocator inside its lock, and the memory that its pointers lead to.
  pub record State : Type 0 where
    pub list_heads : List (Option ℕ)
    pub fallback_allocator : Heap
    pub memory : Memory

  pub new : Memory → State
  new memory = record {
    list_heads = replicate (length block_sizes) none;
    fallback_allocator = empty;
    memory = memory;
  }

  pub init : ℕ → ℕ → State → State
  init heap_start heap_size s =
      let (heap, memory) = f.init heap_start heap_size (s.fallback_allocator, s.memory) in
      record s { fallback_allocator = heap; memory = memory }

  -- The null pointer where the fallback has no memory left.
  pub fallback_alloc : Layout → State → ℕ × State
  fallback_alloc layout s =
      let (found, (heap, memory)) = allocate_first_fit layout (s.fallback_allocator, s.memory) in
      let s' : State = record s { fallback_allocator = heap; memory = memory } in
      elim found [ some p ↦ (p, s') | none ↦ (null, s') ]

  -- `node.next.take()`, and the list head set to what it gave.
  pub pop : ℕ → ℕ → State → Result (ℕ × State)
  pop index node s = do
    n ← expect (s.memory node) undefined
    ok (
      node,
      record s {
        list_heads = set s.list_heads index n.next;
        memory = write_node node (record { next = none }) s.memory;
      },
    )

  -- A block that no list holds: its size is also its alignment.
  new_block : ℕ → State → Result (ℕ × State)
  unfolding from_size_align
  new_block index s = do
    block_size ← expect (get_elem? block_sizes index) out_of_bounds
    layout ← expect (from_size_align block_size block_size) expect_failed
    ok (fallback_alloc layout s)

  -- What `alloc` does once it has the index.
  pub alloc_block : ℕ → State → Result (ℕ × State)
  unfolding pop new_block
  alloc_block index s = do
    head ← expect (get_elem? s.list_heads index) out_of_bounds
    let s' : State = record s { list_heads = set s.list_heads index none }
    elim head [ some node ↦ pop index node s' | none ↦ new_block index s' ]

  pub alloc : Layout → State → Result (ℕ × State)
  unfolding alloc_block
  alloc layout s = elim (list_index layout) [
    | some index ↦ alloc_block index s
    | none ↦ ok (fallback_alloc layout s)
  ]

  -- What `dealloc` does once it has the index.
  pub dealloc_block : ℕ → ℕ → State → Result State
  dealloc_block index ptr s = do
    head ← expect (get_elem? s.list_heads index) out_of_bounds
    block_size ← expect (get_elem? block_sizes index) out_of_bounds
    ensure (leb node_size block_size) assertion_failed
    ensure (leb node_align block_size) assertion_failed
    ok (record s {
      list_heads = set s.list_heads index (some ptr);
      memory = write_node ptr (record { next = head }) s.memory;
    })

  pub dealloc : ℕ → Layout → State → Result State
  unfolding dealloc_block
  dealloc ptr layout s = elim (list_index layout) [
    | some index ↦ dealloc_block index ptr s
    | none ↦ do
      ensure (ltb 0 ptr) expect_failed
      let (heap, memory) = deallocate ptr layout (s.fallback_allocator, s.memory)
      ok (record s { fallback_allocator = heap; memory = memory })
  ]

  unfoldable pub fixed_size_block_allocator : GlobalAlloc State
  fixed_size_block_allocator = record { alloc = alloc; dealloc = dealloc }
