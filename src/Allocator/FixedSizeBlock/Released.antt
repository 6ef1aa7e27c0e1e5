-- ===== src/Allocator/FixedSizeBlock/Released.antt =====
-- `dealloc` of min-rust-os/src/allocator/fixed_size_block.rs keeps the invariant.
use os_resources.Prelude.{
  ℕ, ◌<◌, ◌≡◌, inl, inr, Option-cases, Returns, Option, none, some, List, ◌∷◌, ◌++◌, map, All,
  All-remove, All-after, get_elem?, get_elem?-in_range, length-set, set, arith, refl, ap, sym,
  subst, ◌∙◌, lt→ltb,
}
use os_resources.Allocator.Client.{Block}
use os_resources.Allocator.FixedSizeBlock.{Memory, write_node, Fallback, State, list_index, dealloc}
use os_resources.Allocator.FixedSizeBlock.Contract.{Contract}
use os_resources.Allocator.FixedSizeBlock.Reuse.{
  write_node_self, dealloc_block-eq, dealloc-dealloc_block,
}
use os_resources.Allocator.FixedSizeBlock.Free.{
  Chain, column, column-skip, column-push, size_of, free_block, class_layout-IsLayout,
  block_sizes-size_of, write_node-apart,
}
use os_resources.Allocator.FixedSizeBlock.Kept.{
  raw, raw_indexed, raw_large, held, IsKept, Keeps-nodes, Disjoint-nodes, Chain-nodes, set-chains,
  owned-first, first-Disjoint,
}
use os_resources.Allocator.FixedSizeBlock.Served.{list_index-lt}

module _ {f : Fallback} {lo hi : ℕ} (c : Contract f lo hi) (s : State f) (xs : List Block)
    (b : Block) (ys : List Block) (v : IsKept c s (xs ++ b ∷ ys)) where
  abbrev moved : c.Holds s.fallback_allocator (raw b ∷ held (xs ++ ys) v.free)
  moved = owned-first c s.fallback_allocator xs b ys v.free v.holds

  -- The block goes to the front of list `i`.
  module _ (i : ℕ) (indexed : list_index b.layout ≡ some i) (head : Option ℕ)
      (at : get_elem? s.list_heads i ≡ some head) where
    abbrev pushed : State f
    pushed = record s {
      list_heads = set s.list_heads i (some b.addr);
      memory = write_node b.addr (record { next = head }) s.memory;
    }

    now_free : c.Holds s.fallback_allocator (free_block (i, b.addr) ∷ held (xs ++ ys) v.free)
    now_free =
        subst (λ r. c.Holds s.fallback_allocator (r ∷ held (xs ++ ys) v.free))
          (raw_indexed b.layout i indexed b.addr) moved

    pushed-nodes : All (λ (j, q). pushed.memory q ≡ s.memory q) v.free
    pushed-nodes =
        let large = (class_layout-IsLayout i (list_index-lt b.layout i indexed)).1 in
        Disjoint-nodes s.memory pushed.memory (free_block (i, b.addr)) v.free
          (λ q far.
            write_node-apart b.addr (record { next = head }) s.memory q
              (elim far [
                | inl before ↦ inl before
                | inr after ↦ inr (omega (arith, after, large))
              ]))
          v.indices
          (first-Disjoint c s.fallback_allocator (free_block (i, b.addr)) (xs ++ ys) v.free
            now_free)

    pushed-IsKept : IsKept c pushed (xs ++ ys)
    pushed-IsKept = record {
      free = (i, b.addr) ∷ v.free;
      lists = length-set s.list_heads i (some b.addr) ∙ v.lists;
      indices = (list_index-lt b.layout i indexed, v.indices);
      chains =
          set-chains s.list_heads i (some b.addr)
            (λ j h. Chain pushed.memory h (column j ((i, b.addr) ∷ v.free)))
            (subst (Chain pushed.memory (some b.addr)) (sym (column-push i b.addr v.free)) (
              refl,
              (
                head,
                write_node_self b.addr (record { next = head }) s.memory,
                Chain-nodes s.memory pushed.memory head i v.free pushed-nodes (v.chains i head at),
              ),
            ))
            (λ j h ne e.
              subst (Chain pushed.memory h)
                (sym (column-skip j i b.addr v.free (λ same. ne (sym same))))
                (Chain-nodes s.memory pushed.memory h j v.free pushed-nodes (v.chains j h e)));
      holds =
          (c.Holds-order s.fallback_allocator (map raw (xs ++ ys)) (free_block (i, b.addr))
              (map free_block v.free)).1
            now_free;
      layouts = All-remove _ xs b ys v.layouts;
    }

  -- The block goes back to the fallback.
  module _ (large : list_index b.layout ≡ none) where
    abbrev answer : f.Heap × Memory
    answer = f.deallocate b.addr b.layout (s.fallback_allocator, s.memory)

    abbrev after : State f
    after = record s { fallback_allocator = answer.0; memory = answer.1 }

    after-IsKept : IsKept c after (xs ++ ys)
    after-IsKept =
        let (holds, k) =
          c.deallocate-Holds b s.fallback_allocator s.memory (held (xs ++ ys) v.free) (
            subst (λ r. c.Holds s.fallback_allocator (r ∷ held (xs ++ ys) v.free))
              (raw_large b.layout large b.addr) moved) in
        let nodes =
          Keeps-nodes s.memory answer.1 v.free v.indices
            (All-after _ (map raw (xs ++ ys)) (map free_block v.free) k) in
        record {
          free = v.free;
          lists = v.lists;
          indices = v.indices;
          chains =
              λ i head at. Chain-nodes s.memory answer.1 head i v.free nodes (v.chains i head at);
          holds = holds;
          layouts = All-remove _ xs b ys v.layouts;
        }

  raw-addr : (raw b).addr ≡ b.addr
  raw-addr = elim (Option-cases (list_index b.layout)) [
    | inl large ↦ ap (λ (r : Block). r.addr) (raw_large b.layout large b.addr)
    | inr (i, indexed) ↦ ap (λ (r : Block). r.addr) (raw_indexed b.layout i indexed b.addr)
  ]

  -- In a state that is kept, a block of the client can be given back, and the state is kept.
  pub dealloc-IsKept : 0 < lo → Returns (λ t. IsKept c t (xs ++ ys)) (dealloc f b.addr b.layout s)
  unfolding dealloc
  dealloc-IsKept pos = elim (Option-cases (list_index b.layout)) [
    | inl large ↦
        let from = (c.Holds-AreOwned _ _ moved).fit.0.from in
        let nonnull : 0 < b.addr = omega (arith, from, raw-addr, pos) in
        record {
          value = after large;
          returns = rw (large, dealloc, lt→ltb 0 b.addr nonnull) refl;
          holds = after-IsKept large;
        }
    | inr (i, indexed) ↦
        let lt = list_index-lt b.layout i indexed in
        let (head, at) = get_elem?-in_range s.list_heads i (omega (arith, lt, v.lists)) in
        record {
          value = pushed i indexed head at;
          returns =
              dealloc-dealloc_block f b.layout i b.addr s indexed
              ∙ dealloc_block-eq f i b.addr (size_of i) s head at (block_sizes-size_of i lt)
                  (class_layout-IsLayout i lt).1;
          holds = pushed-IsKept i indexed head at;
        }
  ]
