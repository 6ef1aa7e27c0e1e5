-- ===== src/Allocator/FixedSizeBlock/Kept.antt =====
-- The invariant of the allocator of min-rust-os/src/allocator/fixed_size_block.rs: what the fallback
-- has handed out are the blocks of the client and those in the free lists.
use mathlib.Core.List.{append_assoc, map-append}
use os_resources.Prelude.{
  ℕ, ◌+◌, ◌≤◌, ◌<◌, ◌≡◌, ◌≢◌, ◌==◌, ==_iff, Bool-cases, ◌⊎◌, inl, inr, Option, none, some, List, [],
  ◌∷◌, ◌++◌, map, All, All-after, get_elem?, get_elem?-set_self, get_elem?-set_ne, get_elem?-length,
  set, length, length-set, arith, refl, ap, sym, subst, ◌∙◌,
}
use os_resources.Allocator.{Layout, IsLayout}
use os_resources.Allocator.Client.{Block, Disjoint}
use os_resources.Allocator.FixedSizeBlock.{
  Memory, node_size, Fallback, State, block_sizes, list_index,
}
use os_resources.Allocator.FixedSizeBlock.Contract.{Keeps, Contract}
use os_resources.Allocator.FixedSizeBlock.Free.{
  Chain, Chain-keeps, Free, column, All-column, class_layout, free_block, class_layout-IsLayout,
}

-- The block that the fallback gave for a block of the client.
abbrev pub raw : Block → Block
raw b = elim (list_index b.layout) [
  | some i ↦ record { addr = b.addr; layout = class_layout i }
  | none ↦ b
]

pub raw_indexed :
    (l : Layout) (i : ℕ)
    → list_index l ≡ some i
    → (p : ℕ) → raw (record { addr = p; layout = l }) ≡ record { addr = p; layout = class_layout i }
raw_indexed l i e p = rw (e, raw) refl

pub raw_large :
    (l : Layout)
    → list_index l ≡ none
    → (p : ℕ) → raw (record { addr = p; layout = l }) ≡ record { addr = p; layout = l }
raw_large l e p = rw (e, raw) refl

abbrev pub held : List Block → Free → List Block
held bs free = map raw bs ++ map free_block free

abbrev pub IsIndex : ℕ × ℕ → Type 0
IsIndex (i, p) = i < 9

module _ {f : Fallback} {lo hi : ℕ} (c : Contract f lo hi) where
  pub record IsKept (s : State f) (bs : List Block) : Type 0 where
    pub free : Free
    pub lists : length s.list_heads ≡ length block_sizes
    pub indices : All IsIndex free
    pub chains :
        (i : ℕ) (head : Option ℕ)
        → get_elem? s.list_heads i ≡ some head
        → Chain s.memory head (column i free)
    pub holds : c.Holds s.fallback_allocator (held bs free)
    pub layouts : All (λ (b : Block). IsLayout b.layout) bs

-- The nodes of free blocks are as before where the memory in them is.
pub Keeps-nodes :
    (m m' : Memory) (free : Free)
    → All IsIndex free
    → Keeps m m' (map free_block free)
    → All (λ (i, p). m' p ≡ m p) free
Keeps-nodes m m' [] idx k = tt
Keeps-nodes m m' ((i, p) ∷ free) (lt, idx) (k, rest) = (
  k p (omega arith) (omega (arith, (class_layout-IsLayout i lt).1)),
  Keeps-nodes m m' free idx rest,
)

-- So they are where only a block changed that shares no byte with a free block.
pub Disjoint-nodes :
    (m m' : Memory) (b : Block) (free : Free)
    → ((q : ℕ) → (q + node_size ≤ b.addr) ⊎ (b.addr + b.layout.size ≤ q) → m' q ≡ m q)
    → All IsIndex free
    → All (Disjoint b) (map free_block free)
    → All (λ (i, p). m' p ≡ m p) free
Disjoint-nodes m m' b [] same idx d = tt
Disjoint-nodes m m' b ((i, p) ∷ free) same (lt, idx) (d, rest) =
    let large = (class_layout-IsLayout i lt).1 in
    (
      same p (elim d [ inl before ↦ inr before | inr after ↦ inl (omega (arith, after, large)) ]),
      Disjoint-nodes m m' b free same idx rest,
    )

pub Chain-nodes :
    (m m' : Memory) (head : Option ℕ) (i : ℕ) (free : Free)
    → All (λ (i, p). m' p ≡ m p) free
    → Chain m head (column i free)
    → Chain m' head (column i free)
Chain-nodes m m' head i free same chain =
    Chain-keeps m m' head (column i free) (All-column (λ p. m' p ≡ m p) i free same) chain

-- The head of one list is set, and the others are as before.
pub set-chains :
    (heads : List (Option ℕ)) (i : ℕ) (new : Option ℕ) (P : ℕ → Option ℕ → Type 0)
    → P i new
    → ((j : ℕ) (head : Option ℕ) → j ≢ i → get_elem? heads j ≡ some head → P j head)
    → (j : ℕ) (head : Option ℕ) → get_elem? (set heads i new) j ≡ some head
    → P j head
set-chains heads i new P mine others j head e = elim (Bool-cases (j == i)) [
  | inl same ↦
      let at : j ≡ i = (==_iff j i).0 same in
      let lt : i < length heads =
        omega (arith, get_elem?-length (set heads i new) j e, length-set heads i new, at) in
      let is : new ≡ head = cc (at, get_elem?-set_self heads i new lt, e) in rw (at, ← is) mine
  | inr other ↦
      let ne : j ≢ i = λ at. cc ((==_iff j i).1 at, other) in
      others j head ne (sym (get_elem?-set_ne heads i j new (λ at. ne (sym at))) ∙ e)
]

held-append : (xs ys : List Block) (free : Free) → held (xs ++ ys) free ≡ map raw xs ++ held ys free
held-append xs ys free =
    ap (λ l. l ++ map free_block free) (map-append raw xs ys)
    ∙ append_assoc (map raw xs) (map raw ys) (map free_block free)

held-append_free :
    (bs : List Block) (xs ys : Free)
    → held bs (xs ++ ys) ≡ (map raw bs ++ map free_block xs) ++ map free_block ys
held-append_free bs xs ys =
    ap (λ l. map raw bs ++ l) (map-append free_block xs ys)
    ∙ sym (append_assoc (map raw bs) (map free_block xs) (map free_block ys))

module _ {f : Fallback} {lo hi : ℕ} (c : Contract f lo hi) where
  -- A block of the client moves to the front, and so does a free one.
  pub owned-first :
      (h : f.Heap) (xs : List Block) (b : Block) (ys : List Block) (free : Free)
      → c.Holds h (held (xs ++ b ∷ ys) free)
      → c.Holds h (raw b ∷ held (xs ++ ys) free)
  owned-first h xs b ys free k =
      subst (λ l. c.Holds h (raw b ∷ l)) (sym (held-append xs ys free))
        ((c.Holds-order h (map raw xs) (raw b) (held ys free)).0
          (subst (c.Holds h) (held-append xs (b ∷ ys) free) k))

  pub free-first :
      (h : f.Heap) (bs : List Block) (before : Free) (x : ℕ × ℕ) (after : Free)
      → c.Holds h (held bs (before ++ x ∷ after))
      → c.Holds h (free_block x ∷ held bs (before ++ after))
  free-first h bs before x after k =
      subst (λ l. c.Holds h (free_block x ∷ l)) (sym (held-append_free bs before after))
        ((c.Holds-order h (map raw bs ++ map free_block before) (free_block x)
            (map free_block after)).0
          (subst (c.Holds h) (held-append_free bs before (x ∷ after)) k))

  -- What the first block shares no byte with.
  pub first-Disjoint :
      (h : f.Heap) (b : Block) (bs : List Block) (free : Free)
      → c.Holds h (b ∷ held bs free)
      → All (Disjoint b) (map free_block free)
  first-Disjoint h b bs free k =
      All-after (Disjoint b) (map raw bs) (map free_block free) (c.Holds-AreOwned h _ k).apart.0
