-- ===== src/Allocator/FixedSizeBlock/Reuse.antt =====
-- Freed blocks come back, in min-rust-os/src/allocator/fixed_size_block.rs: a free list is a stack.
use mathlib.Core.Path.{fun_ext}
use os_resources.Prelude.{
  ℕ, zero, suc, ◌<◌, ◌≤◌, ◌≡◌, ok, Option, none, some, List, [], ◌∷◌, get_elem?, get_elem?-set_self,
  get_elem?-in_range, get_elem?-length, All-get_elem?, set, length, arith, refl, ap, max, subst,
  ◌∙◌, le→leb,
}
use os_resources.Allocator.{Layout}
use os_resources.Allocator.FixedSizeBlock.{
  ListNode, Memory, write_node, node_size, Fallback, State, block_sizes, list_index, alloc, dealloc,
  alloc_block, dealloc_block,
}
use os_resources.Allocator.FixedSizeBlock.Blocks.{Answers, IsFirst, list_index-Answers}

set-set {ℓ} : {A : Type ℓ} (xs : List A) (i : ℕ) (x y : A) → set (set xs i x) i y ≡ set xs i y
set-set [] i x y = refl
set-set (z ∷ xs) zero x y = refl
set-set (z ∷ xs) (suc i) x y = ap (◌∷◌ z) (set-set xs i x y)

pub set_self {ℓ} :
    {A : Type ℓ} (xs : List A) (i : ℕ) (x : A) → get_elem? xs i ≡ some x → set xs i x ≡ xs
set_self [] i x e = refl
set_self (z ∷ xs) zero x e = ground arith
set_self (z ∷ xs) (suc i) x e = ap (◌∷◌ z) (set_self xs i x e)

write_node-write_node :
    (p : ℕ) (n n' : ListNode) (m : Memory) → write_node p n' (write_node p n m) ≡ write_node p n' m
unfolding write_node
write_node-write_node p n n' m = fun_ext λ q. ground arith

pub write_node_self : (p : ℕ) (n : ListNode) (m : Memory) → write_node p n m p ≡ some n
unfolding write_node
write_node_self p n m = ground arith

module _ (f : Fallback) where
  -- The allocator has one list for each block size.
  abbrev pub HasLists : State f → Type 0
  HasLists s = length s.list_heads ≡ length block_sizes

  pub dealloc_block-eq :
      (i p size : ℕ) (s : State f) (head : Option ℕ)
      → get_elem? s.list_heads i ≡ some head
      → get_elem? block_sizes i ≡ some size
      → node_size ≤ size
      → dealloc_block f i p s
        ≡ ok (record s {
          list_heads = set s.list_heads i (some p);
          memory = write_node p (record { next = head }) s.memory;
        })
  unfolding dealloc_block
  dealloc_block-eq i p size s head e at fits = rw (e, at, le→leb node_size size fits)

  -- What a list pops is its head, and the list goes on with what the head's node leads to.
  pub alloc_block-eq :
      (i p : ℕ) (s : State f) (next : Option ℕ)
      → get_elem? s.list_heads i ≡ some (some p)
      → s.memory p ≡ some (record { next = next })
      → alloc_block f i s
        ≡ ok (
          p,
          record s {
            list_heads = set s.list_heads i next;
            memory = write_node p (record { next = none }) s.memory;
          },
        )
  unfolding alloc_block
  alloc_block-eq i p s next e node = rw (e, node, set-set)

  pub alloc-alloc_block :
      (l : Layout) (i : ℕ) (s : State f) → list_index l ≡ some i → alloc f l s ≡ alloc_block f i s
  unfolding alloc
  alloc-alloc_block l i s e = rw (e, alloc)

  pub dealloc-dealloc_block :
      (l : Layout) (i p : ℕ) (s : State f)
      → list_index l ≡ some i
      → dealloc f p l s ≡ dealloc_block f i p s
  unfolding dealloc
  dealloc-dealloc_block l i p s e = rw (e, dealloc)

  -- A block that is given back is the next that is handed out for any layout with its block size;
  -- the lists and the fallback are then as before, and in the memory only the block's node has
  -- changed. Neither call panics.
  pub alloc-dealloc :
      (s : State f) (l l' : Layout) (i p : ℕ)
      → HasLists s
      → list_index l ≡ some i
      → list_index l' ≡ some i
      → (t : State f) × (dealloc f p l s ≡ ok t)
        × (alloc f l' t
            ≡ ok (p, record s { memory = write_node p (record { next = none }) s.memory }))
  alloc-dealloc s l l' i p lists e e' =
      let first : IsFirst (max l.size l.align) block_sizes i =
        subst (Answers (max l.size l.align) block_sizes) e (list_index-Answers l) in
      let size = first.size in
      let in_range : i < length s.list_heads =
        omega (arith, lists, get_elem?-length block_sizes i first.at) in
      let (head, at) = get_elem?-in_range s.list_heads i in_range in
      let t : State f = record s {
        list_heads = set s.list_heads i (some p);
        memory = write_node p (record { next = head }) s.memory;
      } in
      (
        t,
        dealloc-dealloc_block l i p s e
            ∙ (dealloc_block-eq i p size s head at first.at
                (All-get_elem? (λ s. node_size ≤ s) block_sizes i (omega arith) first.at)),
        alloc-alloc_block l' i t e'
            ∙ (alloc_block-eq i p t head (get_elem?-set_self s.list_heads i (some p) in_range)
                  (write_node_self p (record { next = head }) s.memory)
                ∙ rw (set-set, set_self s.list_heads i head at, write_node-write_node)),
      )
