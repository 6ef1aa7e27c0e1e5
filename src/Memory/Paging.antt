-- ===== src/Memory/Paging.antt =====
-- Pages, frame allocators and mappers of the crate `x86_64`, as min-rust-os/src/memory.rs and
-- min-rust-os/src/allocator.rs use them. The crate is not part of the repository: these are records
-- of its operations with the laws that the code relies on.
use os_resources.Prelude.{
  ℕ, suc, ◌+◌, ◌-◌, ◌*◌, ◌/◌, ◌^◌, ◌≤◌, ◌<◌, ◌≡◌, ◌==◌, if◌then◌else◌, Result, ok, Returns, Option,
  none, some, List, [], ◌∷◌, length,
}
use os_resources.Memory.{page_size}

-- Each page starts a page behind the one before it, the first at `a`.
abbrev pub StartAt : {Page : Type 0} → (Page → ℕ) → ℕ → List Page → Type 0
StartAt start a [] = Unit
StartAt start a (page ∷ pages) = (start page ≡ a) × StartAt start (a + page_size) pages

-- `VirtAddr` and `Page<Size4KiB>`. The bits of an address from 47 on must be equal, so an address
-- below 2 ^ 47 is one. `range_inclusive` gives the pages that its iterator goes through.
pub record Pages : Type 1 where
  pub VirtAddr : Type 0
  pub Page : Type 0
  pub new : ℕ → Result VirtAddr
  pub add : VirtAddr → ℕ → Result VirtAddr
  pub sub : VirtAddr → ℕ → Result VirtAddr
  pub containing_address : VirtAddr → Page
  pub range_inclusive : Page → Page → List Page
  pub as_u64 : VirtAddr → ℕ
  pub start : Page → ℕ
  pub new-as_u64 : (a : ℕ) → a < 2 ^ 47 → Returns (λ v. as_u64 v ≡ a) (new a)
  pub add-as_u64 :
      (v : VirtAddr) (n : ℕ)
      → as_u64 v + n < 2 ^ 47
      → Returns (λ w. as_u64 w ≡ as_u64 v + n) (add v n)
  pub sub-as_u64 :
      (v : VirtAddr) (n : ℕ)
      → n ≤ as_u64 v
      → as_u64 v < 2 ^ 47
      → Returns (λ w. as_u64 w ≡ as_u64 v - n) (sub v n)
  pub start-containing_address :
      (v : VirtAddr) → start (containing_address v) ≡ as_u64 v / page_size * page_size
  pub range_inclusive-StartAt :
      (first last : Page)
      → start first ≤ start last
      → StartAt start (start first) (range_inclusive first last)
        × (length (range_inclusive first last) ≡ (start last - start first) / page_size + 1)

-- A `FrameAllocator<Size4KiB>`. `Ready n`: `n` more calls do not panic. An implementation must give
-- only frames that nothing uses, so a frame for a page table is none of the frames that are mapped.
pub record FrameAllocator (PhysFrame : Type 0) : Type 1 where
  pub Frames : Type 0
  pub allocate_frame : Frames → Result (Option PhysFrame × Frames)
  pub Ready : ℕ → Frames → Type 0
  pub allocate_frame-Ready :
      (n : ℕ) (s : Frames) → Ready (suc n) s → Returns (λ (out, t). Ready n t) (allocate_frame s)

-- Calls of `allocate_frame` one after another, and what they give.
pub data Calls {PhysFrame : Type 0} (fa : FrameAllocator PhysFrame)
    : fa.Frames → List (Option PhysFrame) → fa.Frames → Type 0 where
  here : {s : fa.Frames} → Calls fa s [] s
  call :
      {out : Option PhysFrame} {outs : List (Option PhysFrame)} {s t u : fa.Frames}
      → fa.allocate_frame s ≡ ok (out, t)
      → Calls fa t outs u
      → Calls fa s (out ∷ outs) u

-- A `Mapper<Size4KiB>`: `mapped` is the frame and the flags that the page at an address has.
-- `map_to` makes page tables with up to three frames, one for each level below the first, and
-- returns an error or changes one mapping. Flushing the mapping from the processor's buffer of
-- translations changes no state of the model.
pub record Mapper {PhysFrame : Type 0} (p : Pages) (fa : FrameAllocator PhysFrame) : Type 1 where
  pub Tables : Type 0
  pub Flags : Type 0
  pub MapToError : Type 0
  pub frame_allocation_failed : MapToError
  pub present_writable : Flags
  pub map_to :
      p.Page
      → PhysFrame
      → Flags
      → Tables × fa.Frames
      → Result (Option MapToError × (Tables × fa.Frames))
  pub mapped : Tables → ℕ → Option (PhysFrame × Flags)
  pub map_to-mapped :
      (n : ℕ) (page : p.Page) (frame : PhysFrame) (flags : Flags) (t : Tables) (s : fa.Frames)
      → fa.Ready (n + 3) s
      → Returns
          (λ (out, (t', s')).
            fa.Ready n s'
            × ((outs : List (Option PhysFrame)) × (length outs ≤ 3) × Calls fa s outs s')
            × ((q : ℕ)
                → mapped t' q ≡ (elim out [
                  | none ↦ if q == p.start page then some (frame, flags) else mapped t q
                  | some error ↦ mapped t q
                ])))
          (map_to page frame flags (t, s))
