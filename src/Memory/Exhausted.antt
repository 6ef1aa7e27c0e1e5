-- ===== src/Memory/Exhausted.antt =====
-- `BootInfoFrameAllocator` of min-rust-os/src/memory.rs leaves no usable page out.
use mathlib.Core.Option
use os_resources.Prelude.{
  ℕ, zero, suc, ◌+◌, ◌-◌, ◌*◌, ◌/◌, ◌%◌, ◌<◌, ◌≡◌, inl, inr, Bool-cases, Option-cases, Returns,
  Returns-mono, Option, none, some, List, [], ◌∷◌, ◌++◌, get_elem?, get_or, All-get_elem?, subst,
  length, arith, refl, ap, sym, ◌∙◌,
}
use os_resources.Prelude.Words.{usize_mod}
use os_resources.Memory.{
  Frames, MemoryMap, page_size, pages_from, step_by_page, frame_addresses, init,
}
use os_resources.Memory.Addresses.{InRange, InUsable, IsMemoryMap, frame_addresses-InUsable}
use os_resources.Memory.Allocation.{start, allocate_frames, allocate_frame-frame_addresses}

module _ {A : Type 0} where
  get_elem?-append_left :
      (xs ys : List A) (i : ℕ) {x : A} → get_elem? xs i ≡ some x → get_elem? (xs ++ ys) i ≡ some x
  get_elem?-append_left [] ys i e = absurd cc e
  get_elem?-append_left (x ∷ xs) ys zero e = e
  get_elem?-append_left (x ∷ xs) ys (suc i) e = get_elem?-append_left xs ys i e

  get_elem?-append_right :
      (xs ys : List A) (i : ℕ) → get_elem? (xs ++ ys) (length xs + i) ≡ get_elem? ys i
  get_elem?-append_right [] ys i = ap (get_elem? ys) (omega arith)
  get_elem?-append_right (x ∷ xs) ys i =
      let next : suc (length xs) + i ≡ suc (length xs + i) = omega arith in
      ap (get_elem? (x ∷ xs ++ ys)) next ∙ get_elem?-append_right xs ys i

  -- A place behind one that is not there is not there either.
  get_elem?-none :
      (xs : List A) (i j : ℕ) {x : A} → get_elem? xs i ≡ none → get_elem? xs j ≡ some x → j < i
  get_elem?-none [] i j e e' = absurd cc e'
  get_elem?-none (x ∷ xs) zero j e e' = absurd cc e
  get_elem?-none (x ∷ xs) (suc i) zero e e' = omega arith
  get_elem?-none (x ∷ xs) (suc i) (suc j) e e' = omega (arith, get_elem?-none xs i j e e')

pages_from-get_elem? :
    (rounds a k : ℕ) → k < rounds → get_elem? (pages_from rounds a) k ≡ some (a + k * page_size)
unfolding pages_from
pages_from-get_elem? zero a k lt = absurd (omega arith)
pages_from-get_elem? (suc rounds) a zero lt = ap some (omega arith)
pages_from-get_elem? (suc rounds) a (suc k) lt =
    pages_from-get_elem? rounds (a + page_size) k (omega arith) ∙ ap some (omega arith)

abbrev IsAmong : List ℕ → ℕ → Type 0
IsAmong addrs a = (k : ℕ) × (get_elem? addrs k ≡ some a)

step_by_page-IsAmong :
    (lo hi a : ℕ) → lo % page_size ≡ 0 → InRange lo hi a → IsAmong (step_by_page lo hi) a
unfolding step_by_page
step_by_page-IsAmong lo hi a aligned (from, to, on_page) = (
  (a - lo) / page_size,
  pages_from-get_elem? ((hi - lo + 4095) / page_size) lo ((a - lo) / page_size) (omega arith)
      ∙ ap some (omega arith),
)

frame_addresses-IsAmong :
    (m : MemoryMap) (a : ℕ) → IsMemoryMap m → InUsable m a → IsAmong (frame_addresses m) a
unfolding frame_addresses
frame_addresses-IsAmong [] a h u = absurd u
frame_addresses-IsAmong (r ∷ rs) a h (inl (is_usable, i)) =
    let pages = step_by_page r.start_addr r.end_addr in
    let (k, e) = step_by_page-IsAmong r.start_addr r.end_addr a (h.0 is_usable).start i in
    (k, rw is_usable (get_elem?-append_left pages (frame_addresses rs) k e))
frame_addresses-IsAmong (r ∷ rs) a h (inr u) =
    let (k, e) = frame_addresses-IsAmong rs a h.2 u in
    let pages = step_by_page r.start_addr r.end_addr in
    elim (Bool-cases r.usable) [
      | inl is_usable ↦
          (length pages + k, rw is_usable (get_elem?-append_right pages (frame_addresses rs) k ∙ e))
      | inr skipped ↦ (k, rw skipped e)
    ]

module _ (f : Frames) where
  open f use {PhysFrame}

  -- The call `i` gives the frame of a usable page; or none, and then each usable page was given by
  -- a call before it.
  pub data GivesAt (m : MemoryMap) (out : List (Option PhysFrame)) (i : ℕ) : Type 0 where
    gives :
        (frame : PhysFrame)
        → get_or out i none ≡ some frame
        → InUsable m (start f frame)
        → GivesAt m out i
    exhausted :
        get_or out i none ≡ none
        → ((a : ℕ)
            → InUsable m a
            → (j : ℕ) × (j < i)
              × ((frame : PhysFrame) × (get_or out j none ≡ some frame) × (start f frame ≡ a)))
        → GivesAt m out i

  given :
      (out : Option PhysFrame) (a : ℕ)
      → Option.map (start f) out ≡ some a
      → (frame : PhysFrame) × (out ≡ some frame) × (start f frame ≡ a)
  given none a e = absurd cc e
  given (some frame) a e = (frame, refl, cc e)

  not_given : (out : Option PhysFrame) → Option.map (start f) out ≡ none → out ≡ none
  not_given none e = refl
  not_given (some frame) e = absurd cc e

  -- Where the calls follow the list of addresses, a call gives a usable page or comes behind all.
  Follows-GivesAt :
      (m : MemoryMap) (n : ℕ) (out : List (Option PhysFrame))
      → IsMemoryMap m
      → ((i : ℕ)
          → i < n
          → Option.map (start f) (get_or out i none) ≡ get_elem? (frame_addresses m) i)
      → (i : ℕ) → i < n
      → GivesAt m out i
  Follows-GivesAt m n out h follows i lt = elim (Option-cases (get_elem? (frame_addresses m) i)) [
    | inl behind ↦ exhausted (not_given (get_or out i none) (follows i lt ∙ behind)) λ a u.
        let (j, at) = frame_addresses-IsAmong m a h u in
        let before = get_elem?-none (frame_addresses m) i j behind at in
        (j, before, given (get_or out j none) a (follows j (omega (arith, before, lt)) ∙ at))
    | inr (a, at) ↦
        let (frame, e, same) = given (get_or out i none) a (follows i lt ∙ at) in
        gives frame e (
          subst (InUsable m) (sym same)
            (All-get_elem? (InUsable m) (frame_addresses m) i (frame_addresses-InUsable m h) at))
  ]

  -- On a memory map of the kind that the bootloader passes, any number of calls of `allocate_frame`
  -- on a new allocator return. Each gives the frame of a page of a usable region, or none; and where
  -- one gives none, the page at each page-aligned address of a usable region was given before.
  pub allocate_frame-GivesAt :
      (n : ℕ) (m : MemoryMap)
      → IsMemoryMap m
      → n < usize_mod
      → Returns
          (λ (out, t). (length out ≡ n) × ((i : ℕ) → i < n → GivesAt m out i))
          (allocate_frames f n (init m))
  allocate_frame-GivesAt n m h fits =
      Returns-mono (allocate_frame-frame_addresses f n m h fits)
        λ (out, t) (count, follows). (count, Follows-GivesAt m n out h follows)
