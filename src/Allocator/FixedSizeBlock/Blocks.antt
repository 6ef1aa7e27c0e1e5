-- ===== src/Allocator/FixedSizeBlock/Blocks.antt =====
-- Which block size a layout gets, in min-rust-os/src/allocator/fixed_size_block.rs.
use native.Mathlib.Nat.{
  one-le-pow, pow-le-pow_right, pow-suc, mul-mod_left, mod-add-div', mul_assoc,
}
use os_resources.Prelude.{
  ℕ, zero, suc, ◌+◌, ◌-◌, ◌*◌, ◌/◌, ◌%◌, ◌^◌, ◌≤◌, ◌<◌, ◌≡◌, ◌⊎◌, inl, inr, max, leb, Bool-cases,
  Option, none, some, List, [], ◌∷◌, All, get_elem?, arith, refl, ap, sym, subst, ◌∙◌,
}
use os_resources.Allocator.{Layout, IsLayout}
use os_resources.Allocator.FixedSizeBlock.{block_sizes, position_from, list_index}

-- The entry at `i` is the first that is at least `required`.
pub record IsFirst (required : ℕ) (sizes : List ℕ) (i : ℕ) : Type 0 where
  pub size : ℕ
  pub at : get_elem? sizes i ≡ some size
  pub enough : required ≤ size
  pub first : (j s : ℕ) → j < i → get_elem? sizes j ≡ some s → s < required

-- What a search for `required` must answer: the first entry that is large enough, or none where all
-- are too small.
abbrev pub Answers : ℕ → List ℕ → Option ℕ → Type 0
Answers required sizes none = All (λ s. s < required) sizes
Answers required sizes (some i) = IsFirst required sizes i

IsFirst-suc :
    (required s : ℕ) (sizes : List ℕ) (i : ℕ)
    → s < required
    → IsFirst required sizes i
    → IsFirst required (s ∷ sizes) (suc i)
IsFirst-suc required s sizes i small f = record {
  size = f.size;
  at = f.at;
  enough = f.enough;
  first = before;
}
  where
    before : (j t : ℕ) → j < suc i → get_elem? (s ∷ sizes) j ≡ some t → t < required
    before zero t lt e = ground arith
    before (suc j) t lt e = f.first j t (omega arith) e

-- The search from index `k` on.
position_from-Answers :
    (required k : ℕ) (sizes : List ℕ)
    → (position_from required sizes k ≡ none) × All (λ s. s < required) sizes
      ⊎ ((i : ℕ) × (position_from required sizes k ≡ some (k + i)) × IsFirst required sizes i)
unfolding position_from
position_from-Answers required k [] = inl (refl, tt)
position_from-Answers required k (s ∷ sizes) = elim (Bool-cases (leb required s)) [
  | inl fits ↦ inr (
    0,
    rw fits (ap some (omega arith)),
    record { size = s; at = refl; enough = ground arith; first = λ j t lt e. absurd (omega arith) },
  )
  | inr small ↦ elim (position_from-Answers required (k + 1) sizes) [
    | inl (e, below) ↦ inl (rw small e, (ground arith, below))
    | inr (i, e, f) ↦ inr (
      suc i,
      rw small (e ∙ ap some (omega arith)),
      IsFirst-suc required s sizes i (ground arith) f,
    )
  ]
]

-- For every layout, the index that `list_index` returns is that of the smallest block size that is
-- at least the layout's size and alignment, and it returns none only where every block size is less
-- than one of the two.
pub list_index-Answers : (l : Layout) → Answers (max l.size l.align) block_sizes (list_index l)
unfolding list_index
list_index-Answers l = elim (position_from-Answers (max l.size l.align) 0 block_sizes) [
  | inl (e, below) ↦ rw e below
  | inr (i, e, f) ↦
      let at_i : 0 + i ≡ i = omega arith in
      subst (Answers (max l.size l.align) block_sizes) (sym (e ∙ ap some at_i)) f
]

-- Each block size is a power of two.
pub block_size-pow :
    (i : ℕ) {s : ℕ} → get_elem? block_sizes i ≡ some s → (j : ℕ) × (s ≡ 2 ^ j) × (j < 12)
block_size-pow zero e = (3, ground arith, omega arith)
block_size-pow (suc zero) e = (4, ground arith, omega arith)
block_size-pow (suc (suc zero)) e = (5, ground arith, omega arith)
block_size-pow (suc (suc (suc zero))) e = (6, ground arith, omega arith)
block_size-pow (suc (suc (suc (suc zero)))) e = (7, ground arith, omega arith)
block_size-pow (suc (suc (suc (suc (suc zero))))) e = (8, ground arith, omega arith)
block_size-pow (suc (suc (suc (suc (suc (suc zero)))))) e = (9, ground arith, omega arith)
block_size-pow (suc (suc (suc (suc (suc (suc (suc zero))))))) e = (10, ground arith, omega arith)
block_size-pow (suc (suc (suc (suc (suc (suc (suc (suc zero)))))))) e =
    (11, ground arith, omega arith)
block_size-pow (suc (suc (suc (suc (suc (suc (suc (suc (suc i))))))))) e = cc

multiple_of_double : (m p : ℕ) → p % (2 * m) ≡ 0 → p % m ≡ 0
multiple_of_double m p e =
    let whole : p ≡ p / (2 * m) * 2 * m =
      omega (arith, mod-add-div' p (2 * m), mul_assoc (p / (2 * m)) 2 m) in
    rw whole (mul-mod_left (p / (2 * m) * 2) m)

multiple_of_pow : (d k p : ℕ) → p % 2 ^ (d + k) ≡ 0 → p % 2 ^ k ≡ 0
multiple_of_pow zero k p e = let same : 0 + k ≡ k = omega arith in rw same at e
multiple_of_pow (suc d) k p e =
    let double : 2 ^ (suc d + k) ≡ 2 * 2 ^ (d + k) =
      ap (λ n. 2 ^ n) (let s : suc d + k ≡ suc (d + k) = omega arith in s)
      ∙ omega (arith, pow-suc 2 (d + k)) in
    multiple_of_pow d k p (multiple_of_double (2 ^ (d + k)) p (rw double at e))

log_le : (k j : ℕ) → 2 ^ k ≤ 2 ^ j → k ≤ j
log_le k j h = elim (Bool-cases (leb k j)) [
  | inl le ↦ ground arith
  | inr gt ↦ absurd (
      omega (
        arith,
        pow-suc 2 j,
        one-le-pow j 2,
        pow-le-pow_right {n = 2} (omega arith) {i = suc j} {j = k} (ground arith),
      ))
]

-- A block of the size that a layout is given is large enough for it, and an address that is a
-- multiple of the block size is one of the layout's alignment too.
pub list_index-serves :
    (l : Layout) (i s p : ℕ)
    → IsLayout l
    → list_index l ≡ some i
    → get_elem? block_sizes i ≡ some s
    → p % s ≡ 0
    → (l.size ≤ s) × (p % l.align ≡ 0)
list_index-serves l i s p v e at whole =
    let f : IsFirst (max l.size l.align) block_sizes i =
      subst (Answers (max l.size l.align) block_sizes) e (list_index-Answers l) in
    let same : f.size ≡ s = ground (arith, f.at) in
    let (j, pow, few) = block_size-pow i at in
    let le : v.log ≤ j = log_le v.log j (omega (arith, f.enough, v.pow)) in
    let split : j - v.log + v.log ≡ j = omega arith in
    (
      omega (arith, f.enough),
      rw v.pow (multiple_of_pow (j - v.log) v.log p (rw (split, ← pow) whole)),
    )
