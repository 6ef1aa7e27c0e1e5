-- ===== src/Allocator/LinkedList/Safety.antt =====
-- What the allocator of min-rust-os/src/allocator/linked_list.rs promises its client.
use native.Mathlib.Nat.{one-le-pow}
use os_resources.Prelude.{
  ℕ, ◌+◌, ◌%◌, ◌^◌, ◌≤◌, ◌<◌, ◌≡◌, ◌≢◌, Bool-cases, leb, inl, inr, Result, ok, List, [], ◌∷◌, ◌++◌,
  All, All-imp, All-middle, AllPairs, AllPairs-middle, arith, subst, sym, ap, ◌∙◌,
}
use os_resources.Prelude.Words.{usize_mod}
use os_resources.Allocator.{Layout, IsLayout, null}
use os_resources.Allocator.Align.{next_multiple, next_multiple-IsRoundedUp}
use os_resources.Allocator.Client.{
  Block, AreOwned, Step, allocate, refuse, release, write, Reach, Reach-keeps,
}
use os_resources.Allocator.LinkedList.{
  ListNode, LinkedListAllocator, new, init, alloc, linked_list_allocator,
}
use os_resources.Allocator.LinkedList.Regions.{IsLow}
use os_resources.Allocator.LinkedList.Adjusted.{IsAdjusted, add_free_region-assert}
use os_resources.Allocator.LinkedList.FirstFit.{
  Allocates, refuses, takes, divides, fails, alloc-Allocates, alloc-oversize, dealloc-IsFreed,
}
use os_resources.Allocator.LinkedList.Partition.{
  Apart, Apart-sym, part, IsPart, IsRegion, IsPartition, IsPartition-AreOwned, add-IsPartition,
  remove-IsPartition, taken-IsPartition, divided-IsPartition,
}

-- The nodes of the list lie in free regions, which no block of the client meets, so a write of the
-- client to its block changes none of them.
abbrev pub Untouched : Block → LinkedListAllocator → LinkedListAllocator → Type 0
Untouched b s t = t ≡ s

All-IsLow :
    {lo hi : ℕ} (s : LinkedListAllocator) (bs : List Block)
    → IsPartition lo hi s bs
    → All IsLow s.next
All-IsLow {lo} {hi} s bs v =
    All-imp (IsRegion lo hi) IsLow (λ r q. record { low = omega (arith, q.to, v.small) }) s.next
      v.regions

ok_inj : {A : Type 0} {x y : A} → ok x ≡ ok y → x ≡ y
ok_inj e = cc e

-- The Granted `p` with the region behind a block of a size.
abbrev divided_list : List ListNode → List ListNode → ℕ → ℕ → ℕ → ℕ × LinkedListAllocator
divided_list xs ys p excess size =
    (p, record { next = record { start_addr = p + size; size = excess } ∷ xs ++ ys })

module _ {lo hi : ℕ} (l : Layout) (h : IsLayout l) (small : l.size + 8 ≤ usize_mod) (size align : ℕ)
    (adj : IsAdjusted l size align) (s : LinkedListAllocator) (bs : List Block)
    (v : IsPartition lo hi s bs) where
  -- A block of the layout at the first multiple of the alignment in a region.
  given-IsPart :
      (xs : List ListNode) (r : ListNode) (ys : List ListNode) (p : ℕ)
      → s.next ≡ xs ++ r ∷ ys
      → p ≡ next_multiple r.start_addr align
      → p + size ≤ r.start_addr + r.size
      → IsPart lo hi (record { addr = p; layout = l }) × (r.start_addr ≤ p)
  given-IsPart xs r ys p at pos fits =
      let whole = All-middle (IsRegion lo hi) xs r ys (subst (All (IsRegion lo hi)) at v.regions) in
      let up =
        next_multiple-IsRoundedUp r.start_addr align
          (omega (arith, adj.pow, one-le-pow adj.log 2)) in
      (
        record {
          layout = h;
          small = small;
          from = omega (arith, whole.from, up.above);
          to = omega (arith, whole.to, adj.exact);
          enough = omega (arith, adj.enough, adj.exact);
          even = rw pos (adj.eight _ up.multiple);
          aligned = rw pos (adj.kept _ up.multiple);
        },
        omega (arith, up.above),
      )

  divide_at :
      (xs : List ListNode) (r : ListNode) (ys : List ListNode)
      → s.next ≡ xs ++ r ∷ ys
      → IsPartition lo hi (record { next = xs ++ r ∷ ys }) bs
  divide_at xs r ys at = subst (λ n. IsPartition lo hi (record { next = n }) bs) at v

  abbrev Granted : ℕ × LinkedListAllocator → Type 0
  Granted (p, t) = IsPartition lo hi t (record { addr = p; layout = l } ∷ bs)

  granted-IsPartition :
      (o : Result (ℕ × LinkedListAllocator)) (p : ℕ) (t : LinkedListAllocator)
      → Allocates size align s.next o
      → o ≡ ok (p, t)
      → p ≢ null
      → IsPartition lo hi t (record { addr = p; layout = l } ∷ bs)
  granted-IsPartition o p t (refuses all) e ne = absurd (ne (cc))
  granted-IsPartition o p t (takes xs r ys q at before pos fits) e ne =
      let (inside, from) = given-IsPart xs r ys q at pos (omega arith) in
      let b : Block = record { addr = q; layout = l } in
      let taken =
        taken-IsPartition xs r ys bs (divide_at xs r ys at) b inside from
          (omega (arith, adj.exact)) in
      subst Granted (ok_inj e) taken
  granted-IsPartition o p t (divides xs r ys q excess at before pos fits room) e ne =
      let (inside, from) = given-IsPart xs r ys q at pos (omega arith) in
      let b : Block = record { addr = q; layout = l } in
      let divided =
        divided-IsPartition xs r ys bs (divide_at xs r ys at) b excess inside from
          (omega (arith, adj.exact)) in
      subst Granted (ap (divided_list xs ys q excess) (sym adj.exact) ∙ ok_inj e) divided
  granted-IsPartition o p t (fails xs r ys q excess at before pos fits some_left few) e ne = cc

  refused-eq :
      (o : Result (ℕ × LinkedListAllocator)) (t : LinkedListAllocator)
      → Allocates size align s.next o
      → o ≡ ok (null, t)
      → t ≡ s
  refused-eq o t (refuses all) e = cc e
  refused-eq o t (takes xs r ys q at before pos fits) e =
      let (inside, from) = given-IsPart xs r ys q at pos (omega arith) in
      let zero_addr : q ≡ 0 = cc e in absurd (omega (arith, inside.from, v.nonnull, zero_addr))
  refused-eq o t (divides xs r ys q excess at before pos fits room) e =
      let (inside, from) = given-IsPart xs r ys q at pos (omega arith) in
      let zero_addr : q ≡ 0 = cc e in absurd (omega (arith, inside.from, v.nonnull, zero_addr))
  refused-eq o t (fails xs r ys q excess at before pos fits some_left few) e = cc

-- A request that does not panic is of at most 2 ^ 64 - 8 bytes.
small_enough :
    (l : Layout) (s : LinkedListAllocator) {out : ℕ × LinkedListAllocator}
    → IsLayout l
    → alloc l s ≡ ok out
    → l.size + 8 ≤ usize_mod
small_enough l s h e = elim (Bool-cases (leb (l.size + 8) usize_mod)) [
  | inl fits ↦ ground arith
  | inr large ↦ absurd (cc (alloc-oversize l s h (ground arith), e))
]

Step-IsPartition :
    {lo hi : ℕ} (s t : LinkedListAllocator) (bs cs : List Block)
    → Step linked_list_allocator Untouched s bs t cs
    → IsPartition lo hi s bs
    → IsPartition lo hi t cs
unfolding linked_list_allocator
Step-IsPartition s t bs cs (allocate p l h pos e ne) v =
    let small = small_enough l s h e in
    let (size, align, adj, out) = alloc-Allocates l s h small (All-IsLow s bs v) in
    granted-IsPartition l h small size align adj s bs v (alloc l s) p t out e ne
Step-IsPartition s t bs cs (refuse l h pos e) v =
    let small = small_enough l s h e in
    let (size, align, adj, out) = alloc-Allocates l s h small (All-IsLow s bs v) in
    rw (refused-eq l h small size align adj s bs v (alloc l s) t out e) v
Step-IsPartition {lo} {hi} s t bs cs (release xs b ys e e' d) v =
    let w = subst (IsPartition lo hi s) e v in
    let q = All-middle (IsPart lo hi) xs b ys w.parts in
    let (size, align, adj, freed) =
      dealloc-IsFreed b.layout b.addr s q.layout q.small q.even
        (omega (arith, q.to, q.enough, v.small)) in
    let same : t ≡ record { next = part b ∷ s.next } =
      ok_inj (sym d ∙ freed)
      ∙ ap (λ (z : ℕ). record { next = record { start_addr = b.addr; size = z } ∷ s.next })
          adj.exact in
    rw (same, e')
      (add-IsPartition (part b) s (xs ++ ys) (record { from = q.from; to = q.to })
        (All-imp _ _ (λ r k. Apart-sym r (part b) (All-middle _ xs b ys k)) s.next w.between)
        (AllPairs-middle (λ c c'. Apart (part c) (part c')) (λ c c'. Apart-sym (part c) (part c'))
          xs b ys w.owned_apart)
        (remove-IsPartition s xs b ys w))
Step-IsPartition s t bs cs (write xs b ys e same) v = rw same v

init-IsPartition :
    (lo size : ℕ) (s : LinkedListAllocator)
    → 0 < lo
    → lo % 8 ≡ 0
    → 16 ≤ size
    → lo + size < 2 ^ 63
    → init lo size new ≡ ok s
    → IsPartition lo (lo + size) s []
unfolding init new
init-IsPartition lo size s pos even room small e =
    let at : s ≡ record { next = record { start_addr = lo; size = size } ∷ [] } =
      ground (arith, add_free_region-assert lo size new even) in
    rw at (record {
      small = small;
      nonnull = pos;
      regions = (record { from = omega arith; to = omega arith }, tt);
      parts = tt;
      free_apart = (tt, tt);
      owned_apart = tt;
      between = (tt, tt);
    })

-- For a heap of at least 16 bytes at a non-null multiple of 8 that ends below 2 ^ 63, whatever a
-- client of the initialised linked list allocator does (requests granted or refused, blocks given
-- back in any order, writes to owned blocks), the blocks that it owns lie in the heap, at multiples
-- of their alignments, and share no byte; no free region shares a byte with another one or with a
-- block that is owned.
pub Reach-IsPartition :
    {t : LinkedListAllocator} {bs : List Block} (lo size : ℕ) (s : LinkedListAllocator)
    → 0 < lo
    → lo % 8 ≡ 0
    → 16 ≤ size
    → lo + size < 2 ^ 63
    → init lo size new ≡ ok s
    → Reach linked_list_allocator Untouched s t bs
    → AreOwned lo (lo + size) bs
      × AllPairs Apart t.next
      × All (λ r. All (λ b. Apart r (part b)) bs) t.next
Reach-IsPartition {t} {bs} lo size s pos even room small e r =
    let v =
      Reach-keeps linked_list_allocator Untouched (IsPartition lo (lo + size))
        (λ s t bs cs st v. Step-IsPartition s t bs cs st v)
        (init-IsPartition lo size s pos even room small e) r in
    (IsPartition-AreOwned t bs v, v.free_apart, v.between)
