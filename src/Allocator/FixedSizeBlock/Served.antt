-- ===== src/Allocator/FixedSizeBlock/Served.antt =====
-- `alloc` of min-rust-os/src/allocator/fixed_size_block.rs keeps the invariant.
use os_resources.Prelude.{
  ℕ, ◌≤◌, ◌<◌, ◌≡◌, inl, inr, Option-cases, List-cases, Result, ok, Option, none, some, List, ◌∷◌,
  ◌++◌, map, All, All-get_elem?, All-remove, All-after, get_elem?, get_elem?-in_range,
  get_elem?-length, length-set, set, arith, refl, ap, sym, subst, ◌∙◌, max,
}
use os_resources.Allocator.{Layout, IsLayout, null, from_size_align}
use os_resources.Allocator.Client.{Block}
use os_resources.Allocator.FixedSizeBlock.{
  Memory, write_node, Fallback, State, block_sizes, list_index, fallback_alloc, alloc, alloc_block,
  new_block,
}
use os_resources.Allocator.FixedSizeBlock.Blocks.{Answers, IsFirst, list_index-Answers}
use os_resources.Allocator.FixedSizeBlock.Contract.{Keeps, Contract}
use os_resources.Allocator.FixedSizeBlock.Reuse.{set_self, alloc_block-eq, alloc-alloc_block}
use os_resources.Allocator.FixedSizeBlock.Free.{
  Chain, Free, column, column-Split, Split, size_of, class_layout, free_block,
  class_layout-IsLayout, block_sizes-size_of, write_node-apart,
}
use os_resources.Allocator.FixedSizeBlock.Kept.{
  raw, raw_indexed, raw_large, held, IsKept, IsIndex, Keeps-nodes, Disjoint-nodes, Chain-nodes,
  set-chains, free-first, first-Disjoint,
}

-- An index that a layout is given is that of a list whose blocks are large enough.
list_index-IsFirst :
    (l : Layout) (i : ℕ) → list_index l ≡ some i → IsFirst (max l.size l.align) block_sizes i
list_index-IsFirst l i e = subst (Answers (max l.size l.align) block_sizes) e (list_index-Answers l)

pub list_index-lt : (l : Layout) (i : ℕ) → list_index l ≡ some i → i < 9
list_index-lt l i e = omega (arith, get_elem?-length block_sizes i (list_index-IsFirst l i e).at)

pub list_index-size : (l : Layout) (i : ℕ) → list_index l ≡ some i → l.size ≤ size_of i
list_index-size l i e =
    let first = list_index-IsFirst l i e in
    let same : first.size ≡ size_of i =
      cc (first.at, block_sizes-size_of i (list_index-lt l i e)) in
    omega (arith, first.enough, same)

module _ {f : Fallback} {lo hi : ℕ} (c : Contract f lo hi) where
  -- A request is granted at an address that is not null, or it is refused.
  pub data Serves (l : Layout) (bs : List Block) : Result (ℕ × State f) → Type 0 where
    grants :
        (p : ℕ) (t : State f)
        → lo ≤ p
        → IsKept c t (record { addr = p; layout = l } ∷ bs)
        → Serves l bs (ok (p, t))
    refuses : (t : State f) → IsKept c t bs → Serves l bs (ok (null, t))

  -- The fallback is asked for a block, of the layout or of the size of a list.
  module _ (l asked : Layout) (h : IsLayout l) (a : IsLayout asked) (pos : 0 < asked.size)
      (s : State f) (bs : List Block) (v : IsKept c s bs)
      (is_raw : (p : ℕ)
        → raw (record { addr = p; layout = l }) ≡ record { addr = p; layout = asked }) where
    abbrev answer : Option ℕ × (f.Heap × Memory)
    answer = f.allocate_first_fit asked (s.fallback_allocator, s.memory)

    abbrev after : State f
    after = record s { fallback_allocator = answer.1.0; memory = answer.1.1 }

    nodes :
        Keeps s.memory answer.1.1 (held bs v.free)
        → All (λ (i, p). answer.1.1 p ≡ s.memory p) v.free
    nodes k =
        Keeps-nodes s.memory answer.1.1 v.free v.indices
          (All-after _ (map raw bs) (map free_block v.free) k)

    fallback-cases :
        (found : Option ℕ)
        → answer.0 ≡ found
        → Serves l bs (ok (elim found [ some p ↦ (p, after) | none ↦ (null, after) ]))
    fallback-cases none e =
        let (holds, k) =
          c.allocate-none asked s.fallback_allocator s.memory (held bs v.free) v.holds a pos e in
        refuses after (record {
          free = v.free;
          lists = v.lists;
          indices = v.indices;
          chains = λ i head at.
              Chain-nodes s.memory answer.1.1 head i v.free (nodes k) (v.chains i head at);
          holds = holds;
          layouts = v.layouts;
        })
    fallback-cases (some p) e =
        let (holds, k) =
          c.allocate-some asked s.fallback_allocator s.memory (held bs v.free) p v.holds a pos e in
        grants p after ((c.Holds-AreOwned _ _ holds).fit.0.from) (record {
          free = v.free;
          lists = v.lists;
          indices = v.indices;
          chains = λ i head at.
              Chain-nodes s.memory answer.1.1 head i v.free (nodes k) (v.chains i head at);
          holds = subst (λ b. c.Holds answer.1.0 (b ∷ held bs v.free)) (sym (is_raw p)) holds;
          layouts = (h, v.layouts);
        })

    fallback-Serves : Serves l bs (ok (fallback_alloc f asked s))
    unfolding fallback_alloc
    fallback-Serves = fallback-cases answer.0 refl

  -- List `i` gives its first block.
  module _ (l : Layout) (i p : ℕ) (ps : List ℕ) (next : Option ℕ) (h : IsLayout l) (s : State f)
      (bs : List Block) (v : IsKept c s bs) (indexed : list_index l ≡ some i)
      (head : get_elem? s.list_heads i ≡ some (some p)) (held_by : column i v.free ≡ p ∷ ps)
      (node : s.memory p ≡ some (record { next = next })) (rest : Chain s.memory next ps) where
    abbrev split : Split i p ps v.free
    split = column-Split i p ps v.free held_by

    abbrev left : Free
    left = split.before ++ split.after

    abbrev popped : State f
    popped = record s {
      list_heads = set s.list_heads i next;
      memory = write_node p (record { next = none }) s.memory;
    }

    popped-holds : c.Holds s.fallback_allocator (free_block (i, p) ∷ held bs left)
    popped-holds =
        free-first c s.fallback_allocator bs split.before (i, p) split.after
          (subst (λ free. c.Holds s.fallback_allocator (held bs free)) split.whole v.holds)

    popped-nodes : All (λ (j, q). popped.memory q ≡ s.memory q) left
    popped-nodes =
        let large = (class_layout-IsLayout i (list_index-lt l i indexed)).1 in
        Disjoint-nodes s.memory popped.memory (free_block (i, p)) left
          (λ q far.
            write_node-apart p (record { next = none }) s.memory q
              (elim far [
                | inl before ↦ inl before
                | inr after ↦ inr (omega (arith, after, large))
              ]))
          (All-remove IsIndex split.before (i, p) split.after
            (subst (All IsIndex) split.whole v.indices))
          (first-Disjoint c s.fallback_allocator (free_block (i, p)) bs left popped-holds)

    popped-IsKept : IsKept c popped (record { addr = p; layout = l } ∷ bs)
    popped-IsKept = record {
      free = left;
      lists = length-set s.list_heads i next ∙ v.lists;
      indices =
          All-remove IsIndex split.before (i, p) split.after
            (subst (All IsIndex) split.whole v.indices);
      chains =
          set-chains s.list_heads i next (λ j head. Chain popped.memory head (column j left))
            (Chain-nodes s.memory popped.memory next i left popped-nodes
              (subst (Chain s.memory next) (sym split.mine) rest))
            (λ j head ne e.
              Chain-nodes s.memory popped.memory head j left popped-nodes
                (subst (Chain s.memory head) (sym (split.others j ne)) (v.chains j head e)));
      holds =
          subst (λ b. c.Holds s.fallback_allocator (b ∷ held bs left))
            (sym (raw_indexed l i indexed p)) popped-holds;
      layouts = (h, v.layouts);
    }

    popped-Serves : Serves l bs (alloc f l s)
    popped-Serves =
        rw (alloc-alloc_block f l i s indexed, alloc_block-eq f i p s next head node)
          (grants p popped (c.Holds-AreOwned _ _ popped-holds).fit.0.from popped-IsKept)

  -- A list is empty: the fallback gives a block of its size.
  new_block-eq :
      (i : ℕ) (s : State f)
      → i < 9
      → get_elem? s.list_heads i ≡ some none
      → alloc_block f i s ≡ ok (fallback_alloc f (class_layout i) s)
  unfolding alloc_block new_block from_size_align
  new_block-eq i s lt e =
      let at = block_sizes-size_of i lt in
      let made =
        All-get_elem? (λ n. from_size_align n n ≡ some (record { size = n; align = n })) block_sizes
          i (refl, (refl, (refl, (refl, (refl, (refl, (refl, (refl, (refl, tt))))))))) at in
      rw (e, set_self s.list_heads i none e, at, made) refl

  -- In a state that is kept, `alloc` returns for every layout, in a state that is kept: it grants
  -- the request or it refuses it.
  pub alloc-Serves :
      (l : Layout) (s : State f) (bs : List Block)
      → IsLayout l
      → 0 < l.size
      → IsKept c s bs
      → Serves l bs (alloc f l s)
  unfolding alloc
  alloc-Serves l s bs h pos v = elim (Option-cases (list_index l)) [
    | inl large ↦ rw (large, alloc) (fallback-Serves l l h h pos s bs v (raw_large l large))
    | inr (i, indexed) ↦
        let lt = list_index-lt l i indexed in
        let (head, at) = get_elem?-in_range s.list_heads i (omega (arith, v.lists)) in
        elim (Option-cases head) [
          | inl empty ↦
              let (layout, size) = class_layout-IsLayout i lt in
              rw (alloc-alloc_block f l i s indexed, new_block-eq i s lt (at ∙ ap some empty))
                (fallback-Serves l (class_layout i) h layout (omega (arith, size)) s bs v
                  (raw_indexed l i indexed))
          | inr (p, first) ↦
              let chain = v.chains i (some p) (at ∙ ap some first) in
              elim (List-cases (column i v.free)) [
                | inl none_free ↦ absurd (cc (subst (Chain s.memory (some p)) none_free chain))
                | inr (q, ps, some_free) ↦
                    let (same, (next, node, rest)) =
                      subst (Chain s.memory (some p)) some_free chain in
                    popped-Serves l i q ps next h s bs v indexed (at ∙ ap some (first ∙ same))
                      some_free node rest
              ]
        ]
  ]
