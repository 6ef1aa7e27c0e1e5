-- ===== src/Allocator/LinkedList/FirstFit.antt =====
-- What `alloc` and `dealloc` of min-rust-os/src/allocator/linked_list.rs do with a list of regions.
use native.Mathlib.Nat.{one-le-pow}
use os_resources.Prelude.{
  All-middle, Option, ℕ, ◌+◌, ◌-◌, ◌%◌, ◌^◌, ◌≤◌, ◌<◌, ◌≡◌, inl, inr, Bool-cases, ltb, leb,
  if◌then◌else◌, Result, ok, panic, assertion_failed, expect_failed, Returns, none, some, List, ◌∷◌,
  ◌++◌, All, arith, refl, sym, subst,
}
use os_resources.Prelude.Words.{usize_mod, add_usize, sub_usize, checked_add}
use os_resources.Allocator.{Layout, IsLayout, null}
use os_resources.Allocator.Align.{next_multiple, next_multiple-IsRoundedUp}
use os_resources.Allocator.LinkedList.{
  ListNode, LinkedListAllocator, end_addr, find_region, split, alloc, dealloc,
}
use os_resources.Allocator.LinkedList.Regions.{
  IsLow, Holds, Finds, finds, finds_none, find_region-Finds,
}
use os_resources.Allocator.LinkedList.Adjusted.{
  IsAdjusted, size_align-IsAdjusted, size_align-oversize, add_free_region-assert,
}

-- The outcome of a request for `size` bytes at a multiple of `align`. The first region that holds
-- the block is divided: what is before the block is lost, what is behind it becomes a region.
pub data Allocates (size align : ℕ) (rs : List ListNode)
    : Result (ℕ × LinkedListAllocator) → Type 0 where
  refuses :
      All (λ r. ¬ (Holds r size align)) rs
      → Allocates size align rs (ok (null, record { next = rs }))
  takes :
      (xs : List ListNode) (r : ListNode) (ys : List ListNode) (p : ℕ)
      → rs ≡ xs ++ r ∷ ys
      → All (λ x. ¬ (Holds x size align)) xs
      → p ≡ next_multiple r.start_addr align
      → p + size ≡ r.start_addr + r.size
      → Allocates size align rs (ok (p, record { next = xs ++ ys }))
  divides :
      (xs : List ListNode) (r : ListNode) (ys : List ListNode) (p excess : ℕ)
      → rs ≡ xs ++ r ∷ ys
      → All (λ x. ¬ (Holds x size align)) xs
      → p ≡ next_multiple r.start_addr align
      → p + size + excess ≡ r.start_addr + r.size
      → 16 ≤ excess
      → Allocates size align rs
          (ok (p, record { next = record { start_addr = p + size; size = excess } ∷ xs ++ ys }))
  fails :
      (xs : List ListNode) (r : ListNode) (ys : List ListNode) (p excess : ℕ)
      → rs ≡ xs ++ r ∷ ys
      → All (λ x. ¬ (Holds x size align)) xs
      → p ≡ next_multiple r.start_addr align
      → p + size + excess ≡ r.start_addr + r.size
      → 0 < excess
      → excess < 16
      → Allocates size align rs (panic assertion_failed)

split-eq :
    (r : ListNode) (p size : ℕ) (a : LinkedListAllocator)
    → IsLow r
    → p + size ≤ r.start_addr + r.size
    → (p + size) % 8 ≡ 0
    → split r p size a ≡ (
        let excess = r.start_addr + r.size - (p + size) in
        if ltb 0 excess
        then (if leb 16 excess
            then ok (p, record { next = record { start_addr = p + size; size = excess } ∷ a.next })
            else panic assertion_failed)
        else ok (p, a))
unfolding split end_addr add_usize sub_usize checked_add
split-eq r p size a low fits even =
    ground (
      arith,
      low.low,
      add_free_region-assert (p + size) (r.start_addr + r.size - (p + size)) a even,
    )

split-Allocates :
    (size align : ℕ) (rs xs : List ListNode) (r : ListNode) (ys : List ListNode)
    → rs ≡ xs ++ r ∷ ys
    → All (λ x. ¬ (Holds x size align)) xs
    → Holds r size align
    → IsLow r
    → (next_multiple r.start_addr align + size) % 8 ≡ 0
    → Allocates size align rs
        (split r (next_multiple r.start_addr align) size (record { next = xs ++ ys }))
unfolding Holds
split-Allocates size align rs xs r ys at before holds low even =
    let p = next_multiple r.start_addr align in
    let excess = r.start_addr + r.size - (p + size) in
    let done = split-eq r p size (record { next = xs ++ ys }) low holds even in
    elim (Bool-cases (ltb 0 excess)) [
      | inl over ↦ elim (Bool-cases (leb 16 excess)) [
        | inl room ↦
            rw (done, over, room)
              (divides xs r ys p excess at before refl (omega arith) (ground arith))
        | inr cramped ↦
            rw (done, over, cramped)
              (fails xs r ys p excess at before refl (omega arith) (ground arith) (ground arith))
      ]
      | inr exact ↦ rw (done, exact) (takes xs r ys p at before refl (ground arith))
    ]

Finds-Allocates :
    (l : Layout) (size align : ℕ) (rs : List ListNode) (out : Option (ListNode × ℕ) × List ListNode)
    → All IsLow rs
    → IsAdjusted l size align
    → Finds size align rs out
    → Allocates size align rs (elim out.0 [
      | some (region, alloc_start) ↦ split region alloc_start size (record { next = out.1 })
      | none ↦ ok (null, record { next = out.1 })
    ])
Finds-Allocates l size align rs out low adj (finds xs r ys at before holds) =
    let pos : 0 < align = omega (arith, adj.pow, one-le-pow adj.log 2) in
    let multiple = (next_multiple-IsRoundedUp r.start_addr align pos).multiple in
    split-Allocates size align rs xs r ys at before holds
      (All-middle IsLow xs r ys (subst (All IsLow) at low))
      (omega (arith, adj.whole, adj.eight (next_multiple r.start_addr align) multiple))
Finds-Allocates l size align rs out low adj (finds_none all) = refuses all

-- Where all regions lie below 2 ^ 63, a request with a valid layout of at most 2 ^ 64 - 8 bytes is
-- adjusted to a size of at least 16 and a multiple of 8, at the alignment of a node or above. It is
-- refused, with the regions unchanged, where no region holds it. Otherwise it is given the least
-- aligned address of the first region that does; that region goes, and 16 bytes or more behind the
-- block become a region again. From 1 to 15 bytes behind it are a panic.
pub alloc-Allocates :
    (l : Layout) (a : LinkedListAllocator)
    → IsLayout l
    → l.size + 8 ≤ usize_mod
    → All IsLow a.next
    → (size align : ℕ) × IsAdjusted l size align × Allocates size align a.next (alloc l a)
unfolding alloc
alloc-Allocates l a v fits low =
    let adjusted = size_align-IsAdjusted l v fits in
    let (size, align) = adjusted.value in
    let adj = adjusted.holds in
    let found : Returns (Finds size align a.next) (find_region size align a.next) =
      subst (λ t. Returns (Finds size t a.next) (find_region size t a.next)) (sym adj.pow)
        (find_region-Finds size adj.log a.next low adj.log_lt) in
    (
      size,
      align,
      adj,
      rw (adjusted.returns, found.returns)
          (Finds-Allocates l size align a.next found.value low adj found.holds),
    )

-- A block at a multiple of 8 below 2 ^ 63 that is given back, with a valid layout of at most
-- 2 ^ 64 - 8 bytes, becomes the first region of the list, with the adjusted size of the layout. The
-- other regions stay as they are.
pub dealloc-IsFreed :
    (l : Layout) (p : ℕ) (a : LinkedListAllocator)
    → IsLayout l
    → l.size + 8 ≤ usize_mod
    → p % 8 ≡ 0
    → p < 2 ^ 63
    → (size align : ℕ) × IsAdjusted l size align
      × (dealloc p l a ≡ ok (record { next = record { start_addr = p; size = size } ∷ a.next }))
unfolding dealloc
dealloc-IsFreed l p a v fits even low =
    let adjusted = size_align-IsAdjusted l v fits in
    let adj = adjusted.holds in
    (
      adjusted.value.0,
      adjusted.value.1,
      adj,
      rw adjusted.returns
          (ground (arith, adj.node, add_free_region-assert p adjusted.value.0 a even low)),
    )

-- A request that is larger than that panics.
pub alloc-oversize :
    (l : Layout) (a : LinkedListAllocator)
    → IsLayout l
    → usize_mod < l.size + 8
    → alloc l a ≡ panic expect_failed
unfolding alloc
alloc-oversize l a v large = rw (size_align-oversize l v large) refl
