-- ===== src/Allocator/Heap/Boot.antt =====
-- The heap on the frames of the boot loader's memory map, as `kernel_main` of
-- min-rust-os/src/main.rs sets it up: `init_heap` with a new `BootInfoFrameAllocator`.
use os_resources.Prelude.{
  ℕ, zero, suc, ◌+◌, ◌*◌, ◌<◌, ◌≤◌, ◌≡◌, Returns, Returns-mono, Option, none, some, List, ◌∷◌,
  length, get_elem?, get_elem?-in_range, get_or, arith, refl, ap, sym, subst, ◌∙◌,
}
use os_resources.Memory.{Frames, BootInfoFrameAllocator, MemoryMap, page_size, allocate_frame}
use os_resources.Memory
use os_resources.Memory.Addresses.{IsMemoryMap, InUsable}
use os_resources.Memory.Allocation.{start, allocate_frame-Distinct}
use os_resources.Memory.BootInfo.{Ready, boot_info, Calls-allocate_frames}
use os_resources.Allocator.{heap_start}
use os_resources.Allocator.FixedSizeBlock.{Fallback}
use os_resources.Memory.Paging.{Pages, Calls, Mapper}
use os_resources.Allocator.Heap.{Machine, init_heap}
use os_resources.Allocator.Heap.Maps.{Chosen, none_chosen, skip, choose}
use os_resources.Allocator.Heap.Initialised.{Initialised, initialised, init_heap-Initialised}

-- What is given at different places is different.
abbrev AllDistinct : {A : Type 0} → List (Option A) → Type 0
AllDistinct outs =
    (i j : ℕ) (a : _)
    → i < length outs
    → j < length outs
    → get_or outs i none ≡ some a
    → get_or outs j none ≡ some a
    → i ≡ j

module _ {A : Type 0} where
  AllDistinct-tail :
      (out : Option A) (outs : List (Option A)) → AllDistinct (out ∷ outs) → AllDistinct outs
  AllDistinct-tail out outs h i j a lt lt' e e' =
      omega (arith, h (suc i) (suc j) a (omega arith) (omega arith) e e')

  -- What was chosen was given at some place.
  Chosen-index :
      {fs : List A} {outs : List (Option A)} (i : ℕ) (a : A)
      → Chosen fs outs
      → get_elem? fs i ≡ some a
      → (k : ℕ) × (k < length outs) × (get_or outs k none ≡ some a)
  Chosen-index i a none_chosen e = absurd cc e
  Chosen-index i a (skip out c) e =
      let (k, lt, same) = Chosen-index i a c e in (suc k, omega arith, same)
  Chosen-index zero a (choose b c) e = (0, omega arith, e)
  Chosen-index (suc i) a (choose b c) e =
      let (k, lt, same) = Chosen-index i a c e in (suc k, omega arith, same)

  Chosen-Distinct :
      {fs : List A} {outs : List (Option A)} (i j : ℕ) (a : A)
      → Chosen fs outs
      → AllDistinct outs
      → get_elem? fs i ≡ some a
      → get_elem? fs j ≡ some a
      → i ≡ j
  Chosen-Distinct i j a none_chosen h e e' = absurd cc e
  Chosen-Distinct i j a (skip {outs = outs} out c) h e e' =
      Chosen-Distinct i j a c (AllDistinct-tail out outs h) e e'
  Chosen-Distinct zero zero a (choose b c) h e e' = refl
  Chosen-Distinct zero (suc j) a (choose b c) h e e' =
      let (k, lt, same) = Chosen-index j a c e' in
      absurd (omega (arith, h 0 (suc k) a (omega arith) (omega arith) e same))
  Chosen-Distinct (suc i) zero a (choose b c) h e e' =
      let (k, lt, same) = Chosen-index i a c e in
      absurd (omega (arith, h 0 (suc k) a (omega arith) (omega arith) e' same))
  Chosen-Distinct (suc i) (suc j) a (choose {outs = outs} b c) h e e' =
      ap suc (Chosen-Distinct i j a c (AllDistinct-tail (some b) outs h) e e')

module _ (fr : Frames) (f : Fallback) (p : Pages) (mp : Mapper p (boot_info fr)) where
  open fr use {PhysFrame}
  open mp use {mapped, present_writable}

  -- Each page of the heap has a frame of usable memory, and no other page of the heap has it.
  pub record OnFrames (m : MemoryMap) (t : mp.Tables) : Type 0 where
    frame_of : (i : ℕ) → i < 25 → PhysFrame
    is_mapped :
        (i : ℕ) (lt : i < 25)
        → mapped t (heap_start + i * page_size) ≡ some (frame_of i lt, present_writable)
    usable : (i : ℕ) (lt : i < 25) → InUsable m (start fr (frame_of i lt))
    differ : (i j : ℕ) (lt : i < 25) (lt' : j < 25) → frame_of i lt ≡ frame_of j lt' → i ≡ j

  Calls-AllDistinct :
      (m : MemoryMap) (t : BootInfoFrameAllocator) (outs : List (Option PhysFrame))
      → IsMemoryMap m
      → length outs ≤ 100
      → Calls (boot_info fr) (Memory.init m) outs t
      → AllDistinct outs
  Calls-AllDistinct m t outs h few c i j a lt lt' e e' =
      (allocate_frame-Distinct fr (length outs) m h (omega arith) (Calls-allocate_frames fr c) i j a
        lt lt' e e').0

  pub Initialised-OnFrames :
      (m : MemoryMap) (s : Machine f p (boot_info fr) mp) (out : Option mp.MapToError)
      (s' : Machine f p (boot_info fr) mp)
      → IsMemoryMap m
      → s.frames ≡ Memory.init m
      → Initialised f p (boot_info fr) mp s out s'
      → out ≡ none
      → OnFrames m s'.tables
  Initialised-OnFrames m s none s' h new (initialised frames outs count maps few calls chosen _) e =
      let calls' = subst (λ b. Calls (boot_info fr) b outs s'.frames) new calls in
      let at = λ (i : ℕ) (lt : i < 25). get_elem?-in_range frames i (omega (arith, count)) in
      record {
        frame_of = λ i lt. (at i lt).0;
        is_mapped = λ i lt. maps.inside i (at i lt).0 (at i lt).1;
        usable = λ i lt.
            let (k, less, given) = Chosen-index i (at i lt).0 chosen (at i lt).1 in
            (allocate_frame-Distinct fr (length outs) m h (omega arith)
              (Calls-allocate_frames fr calls') k k (at i lt).0 less less given given).1;
        differ = λ i j lt lt' same.
            Chosen-Distinct i j (at i lt).0 chosen (Calls-AllDistinct m s'.frames outs h few calls')
              (at i lt).1 ((at j lt').1 ∙ ap some (sym same));
      }
  Initialised-OnFrames m s (some error) s' h new i e = absurd cc e

  -- On a memory map of the kind that the boot loader passes, `init_heap` with a new
  -- `BootInfoFrameAllocator` returns, and if it makes no error then each of the 25 pages of the heap
  -- is mapped to a frame of usable memory, a different one for each page.
  pub init_heap-OnFrames :
      (m : MemoryMap) (s : Machine f p (boot_info fr) mp)
      → IsMemoryMap m
      → s.frames ≡ Memory.init m
      → Returns (λ (out, s'). out ≡ none → OnFrames m s'.tables) (init_heap f p (boot_info fr) mp s)
  unfolding Memory.init
  init_heap-OnFrames m s h new =
      Returns-mono
        (init_heap-Initialised f p (boot_info fr) mp s
          (subst (Ready fr 100) (sym new) (h, omega arith)))
        λ (out, s') i. Initialised-OnFrames m s out s' h new i
