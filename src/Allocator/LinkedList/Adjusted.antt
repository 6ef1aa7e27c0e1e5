-- ===== src/Allocator/LinkedList/Adjusted.antt =====
-- The adjusted layouts of min-rust-os/src/allocator/linked_list.rs, and adding a region.
use native.Mathlib.Nat.{mod-add-div', mul-mod_left, mod-lt, mod_self, mod-eq_of_lt, one-le-pow}
use os_resources.Prelude.{
  ℕ, ◌+◌, ◌-◌, ◌%◌, ◌*◌, ◌/◌, bit_and, ◌==◌, ltb→lt, ==_iff, passes_below-at, passes_below, ◌^◌,
  ◌≤◌, ◌<◌, ◌≡◌, inl, inr, Bool-cases, ltb, leb, if◌then◌else◌, max, ok, panic, assertion_failed,
  expect_failed, Returns, some, ◌∷◌, arith, refl, sym, ◌∙◌, ap,
}
use os_resources.Prelude.Words.{usize_mod}
use os_resources.Allocator.{Layout, IsLayout, align_up, from_size_align}
use os_resources.Allocator.Align.{next_multiple, align_up-eq, next_multiple-IsRoundedUp}
use os_resources.Allocator.LinkedList.{
  LinkedListAllocator, add_free_region, size_align, align_to, pad_to_align,
}

pub add_free_region-assert :
    (addr size : ℕ) (a : LinkedListAllocator)
    → addr % 8 ≡ 0
    → addr < 2 ^ 63
    → add_free_region addr size a ≡ (
        if leb 16 size
        then ok (record { next = record { start_addr = addr; size = size } ∷ a.next })
        else panic assertion_failed)
unfolding add_free_region
add_free_region-assert addr size a aligned low =
    let up = next_multiple-IsRoundedUp addr 8 (omega arith) in
    let same : next_multiple addr 8 ≡ addr =
      omega (arith, up.above, up.least addr aligned (omega arith)) in
    let rounds : align_up addr 8 ≡ ok addr =
      ground (arith, align_up-eq addr 3 (omega arith), same) in
    ground (arith, rounds)

-- The size rounded up to the alignment of the layout and of a node, and to the size of a node.
abbrev pub adjusted_size : Layout → ℕ
adjusted_size l = let align = max l.align 8 in max (l.size + (align - l.size % align) % align) 16

-- What `size_align` makes of a layout.
pub record IsAdjusted (l : Layout) (size align : ℕ) : Type 0 where
  pub log : ℕ
  pub log_lt : log < 64
  pub pow : align ≡ 2 ^ log
  pub exact : size ≡ adjusted_size l
  pub enough : l.size ≤ size
  pub node : 16 ≤ size
  pub whole : size % 8 ≡ 0
  pub eight : (addr : ℕ) → addr % align ≡ 0 → addr % 8 ≡ 0
  pub kept : (addr : ℕ) → addr % align ≡ 0 → addr % l.align ≡ 0

factor-mod : (x a b : ℕ) → 0 < a → x % (a * b) ≡ 0 → x % a ≡ 0
factor-mod x a b pos e =
    let whole : x / (a * b) * b * a ≡ x = grind (arith, mod-add-div' x (a * b)) in
    rw (sym whole) (mul-mod_left (x / (a * b) * b) a)

padded-mod : (s a : ℕ) → 0 < a → (s + (a - s % a) % a) % a ≡ 0
padded-mod s a pos = elim (Bool-cases (s % a == 0)) [
  | inl even ↦
      let none_left : s % a ≡ 0 = (==_iff (s % a) 0).0 even in
      let pad : (a - s % a) % a ≡ 0 =
        ap (λ r. (a - r) % a) none_left ∙ ap (λ t. t % a) (omega arith) ∙ mod_self a in
      ap (λ t. (s + t) % a) pad ∙ ap (λ t. t % a) (omega arith) ∙ none_left
  | inr odd ↦
      let some_left : 0 < s % a = ground arith in
      let pad : (a - s % a) % a ≡ a - s % a = mod-eq_of_lt (omega arith) in
      let whole : s + (a - s % a) ≡ (s / a + 1) * a =
        grind (arith, mod-add-div' s a, mod-lt s pos) in
      ap (λ t. (s + t) % a) pad ∙ ap (λ t. t % a) whole ∙ mul-mod_left (s / a + 1) a
]

-- Facts on the powers of two below 2 ^ 64 and the alignment of a node, by evaluation.
powers :
    (log : ℕ)
    → log < 64
    → (max (2 ^ log) 8 ≡ 2 ^ max log 3)
      × (bit_and (2 ^ max log 3) (2 ^ max log 3 - 1) ≡ 0)
      × (8 * 2 ^ (max log 3 - 3) ≡ 2 ^ max log 3)
      × (2 ^ log * 2 ^ (max log 3 - log) ≡ 2 ^ max log 3)
      × (2 ^ max log 3 < 2 ^ 64)
unfolding passes_below
powers log lt =
    let raised = passes_below-at (λ k. max (2 ^ k) 8 == 2 ^ max k 3) 64 refl lt in
    let single = passes_below-at (λ k. bit_and (2 ^ max k 3) (2 ^ max k 3 - 1) == 0) 64 refl lt in
    let eights = passes_below-at (λ k. 8 * 2 ^ (max k 3 - 3) == 2 ^ max k 3) 64 refl lt in
    let larger = passes_below-at (λ k. 2 ^ k * 2 ^ (max k 3 - k) == 2 ^ max k 3) 64 refl lt in
    let below = passes_below-at (λ k. ltb (2 ^ max k 3) (2 ^ 64)) 64 refl lt in
    (
      (==_iff _ _).0 raised,
      (==_iff _ _).0 single,
      (==_iff _ _).0 eights,
      (==_iff _ _).0 larger,
      ltb→lt _ _ below,
    )

pub size_align-IsAdjusted :
    (l : Layout)
    → IsLayout l
    → l.size + 8 ≤ usize_mod
    → Returns (λ (size, align). IsAdjusted l size align) (size_align l)
unfolding size_align align_to pad_to_align from_size_align
size_align-IsAdjusted l v fits =
    let log = v.log in
    let pow = v.pow in
    let k = max log 3 in
    let padded = l.size + (2 ^ k - l.size % 2 ^ k) % 2 ^ k in
    let (same, single, eights, larger, below) = powers log v.log_lt in
    let aligned : align_to l 8 ≡ some (record { size = l.size; align = 2 ^ k }) =
      ground (arith, pow, v.fits, same, single, below, one-le-pow k 2, ap (λ t. max t 8) pow) in
    let even : padded % 8 ≡ 0 =
      factor-mod padded 8 (2 ^ (k - 3)) (omega arith)
        (ap (λ t. padded % t) eights ∙ padded-mod l.size (2 ^ k) (one-le-pow k 2 (omega arith))) in
    record {
      value = (max padded 16, 2 ^ k);
      returns = rw aligned refl;
      holds = record {
        log = k;
        log_lt = omega (arith, v.log_lt);
        pow = refl;
        exact =
            ap (λ (t : ℕ). max (l.size + (t - l.size % t) % t) 16)
              (sym same ∙ ap (λ t. max t 8) (sym pow));
        enough = ground arith;
        node = ground arith;
        whole = ground (arith, even);
        eight =
            λ addr e. factor-mod addr 8 (2 ^ (k - 3)) (omega arith) (ap (λ t. addr % t) eights ∙ e);
        kept = λ addr e.
            ap (λ t. addr % t) pow
            ∙ factor-mod addr (2 ^ log) (2 ^ (k - log)) (one-le-pow log 2 (omega arith))
                (ap (λ t. addr % t) larger ∙ e);
      };
    }

-- A size that the alignment of a node cannot be added to.
pub size_align-oversize :
    (l : Layout) → IsLayout l → usize_mod < l.size + 8 → size_align l ≡ panic expect_failed
unfolding size_align align_to from_size_align
size_align-oversize l v large =
    let (same, single, eights, larger, below) = powers v.log v.log_lt in
    let past : usize_mod < l.size + max l.align 8 = ground arith in ground (arith, past)
