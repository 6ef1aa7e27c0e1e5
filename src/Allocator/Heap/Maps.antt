-- ===== src/Allocator/Heap/Maps.antt =====
-- Runs of pages that are mapped, and the frames that they are mapped to.
use os_resources.Prelude.{
  ℕ, zero, suc, ◌+◌, ◌*◌, ◌<◌, ◌≡◌, ◌≢◌, ◌==◌, if◌then◌else◌, Bool-cases, ==_iff, inl, inr, Option,
  some, List, [], ◌∷◌, ◌++◌, length, get_elem?, arith, refl, ap, ◌∙◌,
}
use os_resources.Memory.{page_size}
use os_resources.Memory.Paging.{Pages, FrameAllocator, Calls, here, call, Mapper}

-- `fs` are given by some of the calls with the outcomes `outs`, in their order.
pub data Chosen {A : Type 0} : List A → List (Option A) → Type 0 where
  none_chosen : Chosen [] []
  skip :
      {fs : List A} {outs : List (Option A)} (out : Option A)
      → Chosen fs outs
      → Chosen fs (out ∷ outs)
  choose :
      {fs : List A} {outs : List (Option A)} (a : A)
      → Chosen fs outs
      → Chosen (a ∷ fs) (some a ∷ outs)

module _ {A : Type 0} where
  pub Chosen-later :
      {fs : List A} (xs : List (Option A)) {ys : List (Option A)}
      → Chosen fs ys
      → Chosen fs (xs ++ ys)
  Chosen-later [] c = c
  Chosen-later (x ∷ xs) c = skip x (Chosen-later xs c)

  pub Chosen-none : (xs : List (Option A)) → Chosen [] xs
  Chosen-none [] = none_chosen
  Chosen-none (x ∷ xs) = skip x (Chosen-none xs)

module _ {PhysFrame : Type 0} {fa : FrameAllocator PhysFrame} where
  open fa use {Frames}

  pub Calls-append :
      {s t u : Frames} {xs ys : List (Option PhysFrame)}
      → Calls fa s xs t
      → Calls fa t ys u
      → Calls fa s (xs ++ ys) u
  Calls-append here d = d
  Calls-append (call e c) d = call e (Calls-append c d)

module _ {PhysFrame : Type 0} {p : Pages} {fa : FrameAllocator PhysFrame} (mp : Mapper p fa) where
  open mp use {Tables, present_writable, mapped}

  -- `count` pages from the address `a` on are mapped to the frames, other pages as before.
  pub record Maps (a : ℕ) (t t' : Tables) (frames : List PhysFrame) : Type 0 where
    pub inside :
        (i : ℕ) (frame : PhysFrame)
        → get_elem? frames i ≡ some frame
        → mapped t' (a + i * page_size) ≡ some (frame, present_writable)
    pub outside :
        (q : ℕ) → ((i : ℕ) → i < length frames → q ≢ a + i * page_size) → mapped t' q ≡ mapped t q

  module _ (a : ℕ) (t t' t'' : Tables) (frame : PhysFrame) (frames : List PhysFrame)
      (first : (q : ℕ)
        → mapped t' q ≡ (if q == a then some (frame, present_writable) else mapped t q))
      (rest : Maps (a + page_size) t' t'' frames) where
    first-inside :
        (i : ℕ) (fr : PhysFrame)
        → get_elem? (frame ∷ frames) i ≡ some fr
        → mapped t'' (a + i * page_size) ≡ some (fr, present_writable)
    first-inside zero fr e =
        ap (mapped t'') (omega arith)
        ∙ rest.outside a (λ i lt. omega arith)
        ∙ first a
        ∙ (simp ((==_iff a a).1 refl) (cc e))
    first-inside (suc i) fr e = ap (mapped t'') (omega arith) ∙ rest.inside i fr e

    first-outside :
        (q : ℕ)
        → ((i : ℕ) → i < suc (length frames) → q ≢ a + i * page_size)
        → mapped t'' q ≡ mapped t q
    first-outside q far = elim (Bool-cases (q == a)) [
      | inl same ↦ absurd (far 0 (omega arith) ((==_iff q a).0 same ∙ (omega arith)))
      | inr other ↦
          rest.outside q (λ i lt e. far (suc i) (omega arith) (omega (arith, e)))
          ∙ first q
          ∙ (simp other refl)
    ]

    -- One page more in front.
    pub Maps-first : Maps a t t'' (frame ∷ frames)
    Maps-first = record { inside = first-inside; outside = first-outside }

  pub Maps-nothing : (a : ℕ) (t t' : Tables) → ((q : ℕ) → mapped t' q ≡ mapped t q) → Maps a t t' []
  Maps-nothing a t t' same = record { inside = λ i frame e. cc e; outside = λ q far. same q }
