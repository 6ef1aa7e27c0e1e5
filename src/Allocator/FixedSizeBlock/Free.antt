-- ===== src/Allocator/FixedSizeBlock/Free.antt =====
-- The free lists of min-rust-os/src/allocator/fixed_size_block.rs in memory.
use os_resources.Prelude.{
  ℕ, zero, suc, ◌+◌, ◌≤◌, ◌<◌, ◌≡◌, ◌≢◌, ◌==◌, ==_iff, Bool-cases, if◌then◌else◌, ◌⊎◌, inl, inr,
  Option, none, some, List, [], ◌∷◌, ◌++◌, All, get_or, get_elem?, get_elem?-in_range,
  All-get_elem?, arith, refl, ap, sym, ◌∙◌,
}
use os_resources.Allocator.{Layout, IsLayout}
use os_resources.Allocator.Client.{Block}
use os_resources.Allocator.FixedSizeBlock.{ListNode, Memory, write_node, node_size, block_sizes}
use os_resources.Allocator.FixedSizeBlock.Blocks.{block_size-pow}

-- The nodes at the addresses, each leading to the next, from a list head on.
abbrev pub Chain : Memory → Option ℕ → List ℕ → Type 0
Chain m head [] = head ≡ none
Chain m head (p ∷ ps) =
    (head ≡ some p) × ((next : Option ℕ) × (m p ≡ some (record { next = next })) × Chain m next ps)

pub Chain-keeps :
    (m m' : Memory) (head : Option ℕ) (ps : List ℕ)
    → All (λ p. m' p ≡ m p) ps
    → Chain m head ps
    → Chain m' head ps
Chain-keeps m m' head [] same c = c
Chain-keeps m m' head (p ∷ ps) (at, same) (first, (next, node, c)) =
    (first, (next, at ∙ node, Chain-keeps m m' next ps same c))

-- Free blocks, each with the index of its list. `column i` is what list `i` holds.
abbrev pub Free : Type 0
Free = List (ℕ × ℕ)

abbrev pub column : ℕ → Free → List ℕ
column i [] = []
column i ((j, p) ∷ fs) = let rest = column i fs in if j == i then p ∷ rest else rest

pub All-column : (P : ℕ → Type 0) (i : ℕ) (fs : Free) → All (λ (j, p). P p) fs → All P (column i fs)
All-column P i [] h = tt
All-column P i ((j, p) ∷ fs) (h, rest) = elim (Bool-cases (j == i)) [
  | inl same ↦ rw same (h, All-column P i fs rest)
  | inr other ↦ rw other (All-column P i fs rest)
]

-- The first block of list `i`, and the others.
pub record Split (i p : ℕ) (ps : List ℕ) (fs : Free) : Type 0 where
  pub before : Free
  pub after : Free
  pub whole : fs ≡ before ++ (i, p) ∷ after
  pub mine : column i (before ++ after) ≡ ps
  pub others : (j : ℕ) → j ≢ i → column j (before ++ after) ≡ column j fs

pub column-skip : (i j p : ℕ) (fs : Free) → j ≢ i → column i ((j, p) ∷ fs) ≡ column i fs
column-skip i j p fs other = elim (Bool-cases (j == i)) [
  | inl same ↦ absurd (other ((==_iff j i).0 same))
  | inr differ ↦ rw differ refl
]

pub column-push : (i p : ℕ) (fs : Free) → column i ((i, p) ∷ fs) ≡ p ∷ column i fs
column-push i p fs = rw ((==_iff i i).1 refl) refl

same_column :
    (j q i : ℕ) (fs gs : Free)
    → column i fs ≡ column i gs
    → column i ((j, q) ∷ fs) ≡ column i ((j, q) ∷ gs)
same_column j q i fs gs e = elim (Bool-cases (j == i)) [
  | inl same ↦ rw (same, e) refl
  | inr other ↦ rw (other, e) refl
]

Split-cons :
    (i j q p : ℕ) (ps : List ℕ) (fs : Free) → j ≢ i → Split i p ps fs → Split i p ps ((j, q) ∷ fs)
Split-cons i j q p ps fs other z = record {
  before = (j, q) ∷ z.before;
  after = z.after;
  whole = ap (λ (gs : Free). (j, q) ∷ gs) z.whole;
  mine = column-skip i j q (z.before ++ z.after) other ∙ z.mine;
  others = λ k ne. same_column j q k (z.before ++ z.after) fs (z.others k ne);
}

Split-here : (i p : ℕ) (fs : Free) → Split i p (column i fs) ((i, p) ∷ fs)
Split-here i p fs = record {
  before = [];
  after = fs;
  whole = refl;
  mine = refl;
  others = λ k ne. sym (column-skip k i p fs (λ e. ne (sym e)));
}

pub column-Split : (i p : ℕ) (ps : List ℕ) (fs : Free) → column i fs ≡ p ∷ ps → Split i p ps fs
column-Split i p ps [] e = absurd cc e
column-Split i p ps ((j, q) ∷ fs) e = elim (Bool-cases (j == i)) [
  | inl same ↦
      let at : j ≡ i = (==_iff j i).0 same in
      let e' : q ∷ column i fs ≡ p ∷ ps = rw same at e in
      let first : q ≡ p = cc e' in
      let rest : column i fs ≡ ps = cc e' in rw (at, first, ← rest) (Split-here i p fs)
  | inr other ↦
      Split-cons i j q p ps fs (λ at. cc ((==_iff j i).1 at, other))
        (column-Split i p ps fs (rw other at e))
]

abbrev pub size_of : ℕ → ℕ
size_of i = get_or block_sizes i 0

-- The layout of the blocks of list `i`.
abbrev pub class_layout : ℕ → Layout
class_layout i = record { size = size_of i; align = size_of i }

abbrev pub free_block : ℕ × ℕ → Block
free_block (i, p) = record { addr = p; layout = class_layout i }

get_or-some : (xs : List ℕ) (i d : ℕ) {x : ℕ} → get_elem? xs i ≡ some x → get_or xs i d ≡ x
get_or-some [] i d e = absurd cc e
get_or-some (y ∷ xs) zero d e = cc e
get_or-some (y ∷ xs) (suc i) d e = get_or-some xs i d e

pub block_sizes-size_of : (i : ℕ) → i < 9 → get_elem? block_sizes i ≡ some (size_of i)
block_sizes-size_of i lt =
    let (size, at) = get_elem?-in_range block_sizes i (omega arith) in
    at ∙ ap some (sym (get_or-some block_sizes i 0 at))

pub class_layout-IsLayout : (i : ℕ) → i < 9 → IsLayout (class_layout i) × (node_size ≤ size_of i)
class_layout-IsLayout i lt =
    let at = block_sizes-size_of i lt in
    let (j, pow, few) = block_size-pow i at in
    let low = All-get_elem? (λ s. node_size ≤ s) block_sizes i (omega arith) at in
    let high = All-get_elem? (λ s. s ≤ 2048) block_sizes i (omega arith) at in
    (record { log = j; log_lt = omega arith; pow = pow; fits = omega (arith, high) }, low)

-- Writing a node leaves those that it does not overlap.
pub write_node-apart :
    (p : ℕ) (n : ListNode) (m : Memory) (q : ℕ)
    → (q + node_size ≤ p) ⊎ (p + node_size ≤ q)
    → write_node p n m q ≡ m q
unfolding write_node
write_node-apart p n m q far = ground (arith, far)
