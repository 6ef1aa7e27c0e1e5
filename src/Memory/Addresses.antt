-- ===== src/Memory/Addresses.antt =====
-- The addresses of usable frames, in min-rust-os/src/memory.rs: which they are, and that none comes
-- twice.
use os_resources.Prelude.{
  ℕ, zero, suc, ◌+◌, ◌-◌, ◌*◌, ◌/◌, ◌%◌, ◌^◌, ◌≤◌, ◌<◌, ◌≡◌, ◌≢◌, ◌⊎◌, inl, inr, true, Bool-cases,
  ltb, ltb→lt, some, List, [], ◌∷◌, ◌++◌, All, All-append, All-get_elem?, All-imp, get_elem?, arith,
  refl, ap,
}
use os_resources.Memory.{
  MemoryRegion, MemoryMap, page_size, pages_from, step_by_page, frame_addresses,
}

abbrev pub Distinct : List ℕ → Type 0
Distinct [] = Unit
Distinct (x ∷ xs) = All (λ y. x ≢ y) xs × Distinct xs

-- The page-aligned addresses from `lo` to `hi`.
abbrev pub InRange : ℕ → ℕ → ℕ → Type 0
InRange lo hi a = (lo ≤ a) × (a < hi) × (a % page_size ≡ 0)

pages_from-InRange :
    (rounds a lo hi : ℕ)
    → lo ≤ a
    → a % page_size ≡ 0
    → hi % page_size ≡ 0
    → a + rounds * page_size ≤ hi
    → All (InRange lo hi) (pages_from rounds a)
unfolding pages_from
pages_from-InRange zero a lo hi h al ah fits = tt
pages_from-InRange (suc rounds) a lo hi h al ah fits = (
  omega arith,
  pages_from-InRange rounds (a + page_size) lo hi (omega arith) (omega arith) ah (omega arith),
)

pages_from-Distinct :
    (rounds a : ℕ) → All (λ y. a ≤ y) (pages_from rounds a) × Distinct (pages_from rounds a)
unfolding pages_from
pages_from-Distinct zero a = (tt, tt)
pages_from-Distinct (suc rounds) a =
    let rest = pages_from-Distinct rounds (a + page_size) in
    (
      (omega arith, All-imp _ _ (λ y h. omega arith) _ rest.0),
      (All-imp _ _ (λ y h. omega arith) _ rest.0, rest.1),
    )

step_by_page-InRange :
    (lo hi : ℕ) → lo % page_size ≡ 0 → hi % page_size ≡ 0 → All (InRange lo hi) (step_by_page lo hi)
unfolding step_by_page
step_by_page-InRange lo hi al ah = elim (Bool-cases (ltb lo hi)) [
  | inl some_pages ↦
      pages_from-InRange ((hi - lo + 4095) / page_size) lo lo hi (omega arith) al ah
        (omega (arith, ltb→lt lo hi some_pages))
  | inr empty ↦
      let no_pages : (hi - lo + 4095) / page_size ≡ 0 = ground arith in
      rw no_pages (unfold pages_from in tt)
]

-- What the code relies on: the bootloader page-aligns all usable memory areas, they lie below the
-- end of the physical address space, and no two regions overlap.
pub record IsUsable (r : MemoryRegion) : Type 0 where
  pub start : r.start_addr % page_size ≡ 0
  pub stop : r.end_addr % page_size ≡ 0
  pub physical : r.end_addr ≤ 2 ^ 52

abbrev pub Apart : MemoryRegion → MemoryRegion → Type 0
Apart r s = (r.end_addr ≤ s.start_addr) ⊎ (s.end_addr ≤ r.start_addr)

abbrev pub IsMemoryMap : MemoryMap → Type 0
IsMemoryMap [] = Unit
IsMemoryMap (r ∷ rs) = (r.usable ≡ true → IsUsable r) × All (Apart r) rs × IsMemoryMap rs

-- `a` is the address of a page in a usable region.
abbrev pub InUsable : MemoryMap → ℕ → Type 0
InUsable [] a = ⊥
InUsable (r ∷ rs) a = ((r.usable ≡ true) × InRange r.start_addr r.end_addr a) ⊎ InUsable rs a

pub frame_addresses-InUsable :
    (m : MemoryMap) → IsMemoryMap m → All (InUsable m) (frame_addresses m)
unfolding frame_addresses
frame_addresses-InUsable [] h = tt
frame_addresses-InUsable (r ∷ rs) h =
    let later =
      All-imp (InUsable rs) (InUsable (r ∷ rs)) (λ a u. inr u) (frame_addresses rs)
        (frame_addresses-InUsable rs h.2) in
    elim (Bool-cases r.usable) [
      | inl is_usable ↦ simp is_usable (
          All-append (InUsable (r ∷ rs)) _ (frame_addresses rs)
            (All-imp (InRange r.start_addr r.end_addr) (InUsable (r ∷ rs))
              (λ a i. inl (is_usable, i)) _
              (step_by_page-InRange r.start_addr r.end_addr (h.0 is_usable).start
                (h.0 is_usable).stop))
            later)
      | inr skip ↦ simp skip later
    ]

-- An address of a usable region is that of a page in the physical address space, and is in no
-- other region.
pub InUsable-physical :
    (m : MemoryMap) (a : ℕ) → IsMemoryMap m → InUsable m a → (a < 2 ^ 52) × (a % page_size ≡ 0)
InUsable-physical [] a h u = absurd u
InUsable-physical (r ∷ rs) a h (inl (is_usable, i)) = omega (arith, (h.0 is_usable).physical)
InUsable-physical (r ∷ rs) a h (inr u) = InUsable-physical rs a h.2 u

InUsable-Apart :
    (r : MemoryRegion) (rs : MemoryMap) (a b : ℕ)
    → All (Apart r) rs
    → InRange r.start_addr r.end_addr a
    → InUsable rs b
    → a ≢ b
InUsable-Apart r [] a b h i u = absurd u
InUsable-Apart r (s ∷ rs) a b h i (inl (is_usable, j)) = omega (arith, h.0)
InUsable-Apart r (s ∷ rs) a b h i (inr u) = InUsable-Apart r rs a b h.1 i u

Distinct-append :
    (xs ys : List ℕ)
    → Distinct xs
    → Distinct ys
    → All (λ x. All (λ y. x ≢ y) ys) xs
    → Distinct (xs ++ ys)
Distinct-append [] ys hx hy h = hy
Distinct-append (x ∷ xs) ys hx hy h =
    (All-append (λ y. x ≢ y) xs ys hx.0 h.0, Distinct-append xs ys hx.1 hy h.1)

pub frame_addresses-Distinct : (m : MemoryMap) → IsMemoryMap m → Distinct (frame_addresses m)
unfolding frame_addresses
frame_addresses-Distinct [] h = tt
frame_addresses-Distinct (r ∷ rs) h = elim (Bool-cases r.usable) [
  | inl is_usable ↦ rw is_usable (
      Distinct-append (step_by_page r.start_addr r.end_addr) (frame_addresses rs)
        (unfold step_by_page in (pages_from-Distinct _ r.start_addr).1)
        (frame_addresses-Distinct rs h.2)
        (All-imp (InRange r.start_addr r.end_addr) (λ x. All (λ y. x ≢ y) (frame_addresses rs))
          (λ x i.
            All-imp (InUsable rs) (λ y. x ≢ y) (λ y u. InUsable-Apart r rs x y h.1 i u)
              (frame_addresses rs) (frame_addresses-InUsable rs h.2))
          (step_by_page r.start_addr r.end_addr)
          (step_by_page-InRange r.start_addr r.end_addr (h.0 is_usable).start
            (h.0 is_usable).stop)))
  | inr skip ↦ rw skip (frame_addresses-Distinct rs h.2)
]

pub Distinct-get_elem? :
    (xs : List ℕ) (i j : ℕ) {a : ℕ}
    → Distinct xs
    → get_elem? xs i ≡ some a
    → get_elem? xs j ≡ some a
    → i ≡ j
Distinct-get_elem? [] i j d e e' = cc
Distinct-get_elem? (x ∷ xs) zero zero d e e' = refl
Distinct-get_elem? (x ∷ xs) zero (suc j) d e e' =
    absurd (All-get_elem? (λ y. x ≢ y) xs j d.0 e' (cc))
Distinct-get_elem? (x ∷ xs) (suc i) zero d e e' =
    absurd (All-get_elem? (λ y. x ≢ y) xs i d.0 e (cc))
Distinct-get_elem? (x ∷ xs) (suc i) (suc j) d e e' = ap suc (Distinct-get_elem? xs i j d.1 e e')
