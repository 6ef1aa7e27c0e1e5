-- ===== src/Allocator/Heap/Initialised.antt =====
-- `init_heap` of min-rust-os/src/allocator.rs on every branch.
use os_resources.Prelude.{
  ℕ, ◌+◌, ◌-◌, ◌*◌, ◌/◌, ◌≤◌, ◌<◌, ◌≡◌, ◌≢◌, ok, Returns, Returns-ok, Returns-bind, Option, none,
  some, List, length, arith, refl, subst, ap, ◌∙◌,
}
use os_resources.Memory.{page_size}
use os_resources.Allocator.{heap_start, heap_size}
use os_resources.Allocator.FixedSizeBlock.{Fallback}
use os_resources.Allocator.FixedSizeBlock
use os_resources.Memory.Paging.{StartAt, Pages, FrameAllocator, Calls, Mapper}
use os_resources.Allocator.Heap.{Machine, heap_pages, init_heap}
use os_resources.Allocator.Heap.Maps.{Chosen, Maps}
use os_resources.Allocator.Heap.Mapping.{Mapping, map_pages-Mapping}

module _ (p : Pages) where
  open p use {start, as_u64}

  abbrev PageAt : ℕ → p.VirtAddr → Type 0
  PageAt a v = start (p.containing_address v) ≡ a

  PageAt-start : (v : p.VirtAddr) (a : ℕ) → as_u64 v ≡ a → PageAt (a / page_size * page_size) v
  PageAt-start v a e = rw (p.start-containing_address v, e) refl

  -- The heap is 25 pages from its start on.
  pub heap_pages-StartAt :
      Returns (λ pages. StartAt start heap_start pages × (length pages ≡ 25)) (heap_pages p)
  unfolding heap_pages
  heap_pages-StartAt = Returns-bind (p.new-as_u64 heap_start (omega arith)) λ first e.
      Returns-bind (p.add-as_u64 first heap_size (omega (arith, e))) λ behind e'.
        Returns-bind (p.sub-as_u64 behind 1 (omega (arith, e, e')) (omega (arith, e, e')))
          λ last e''.
            let from = PageAt-start first heap_start e in
            let to = PageAt-start last (heap_start + heap_size - 1) (omega (arith, e, e', e'')) in
            let pages =
              p.range_inclusive (p.containing_address first) (p.containing_address last) in
            let (at, count) =
              p.range_inclusive-StartAt (p.containing_address first) (p.containing_address last)
                (omega (arith, from, to)) in
            Returns-ok _
              (subst (λ a. StartAt start a pages) from at, omega (arith, count, from, to))

-- No page but the 25 of the heap is mapped otherwise than before.
abbrev pub OnlyHeap :
    {PhysFrame : Type 0} {p : Pages} {fa : FrameAllocator PhysFrame} (mp : Mapper p fa)
    → mp.Tables
    → mp.Tables
    → Type 0
OnlyHeap mp t t' =
    (q : ℕ) → ((i : ℕ) → i < 25 → q ≢ heap_start + i * page_size) → mp.mapped t' q ≡ mp.mapped t q

module _ {PhysFrame : Type 0} (f : Fallback) (p : Pages) (fa : FrameAllocator PhysFrame)
    (mp : Mapper p fa) where
  open fa use {Ready}
  open mp use {MapToError}

  -- The heap is mapped and the allocator has it, or an error leaves the allocator as it was.
  pub data Initialised (s : Machine f p fa mp)
      : Option MapToError → Machine f p fa mp → Type 0 where
    initialised :
        {s' : Machine f p fa mp} (frames : List PhysFrame) (outs : List (Option PhysFrame))
        → length frames ≡ 25
        → Maps mp heap_start s.tables s'.tables frames
        → length outs ≤ 100
        → Calls fa s.frames outs s'.frames
        → Chosen frames outs
        → s'.allocator ≡ FixedSizeBlock.init f heap_start heap_size s.allocator
        → Initialised s none s'
    stopped :
        {s' : Machine f p fa mp} (error : MapToError) (frames : List PhysFrame)
        (outs : List (Option PhysFrame))
        → length frames < 25
        → Maps mp heap_start s.tables s'.tables frames
        → length outs ≤ 100
        → Calls fa s.frames outs s'.frames
        → Chosen frames outs
        → s'.allocator ≡ s.allocator
        → Initialised s (some error) s'

  -- What follows the loop: the error is handed on, or the allocator is initialised.
  module _ (s : Machine f p fa mp) (pages : List p.Page) (count : length pages ≡ 25) where
    after_loop-Initialised :
        (out : Option MapToError) (s' : Machine f p fa mp)
        → Mapping f p fa mp heap_start pages s out s'
        → Returns
            (λ (o, s''). Initialised s o s'')
            (elim out [
              | some error ↦ ok (some error, s')
              | none ↦ ok (
                none,
                record s' { allocator = FixedSizeBlock.init f heap_start heap_size s'.allocator },
              )
            ])
    after_loop-Initialised none s' m = Returns-ok _ (
        initialised m.frames m.outs (m.all refl ∙ count) m.maps (omega (arith, m.few, count))
          m.calls m.chosen (ap (FixedSizeBlock.init f heap_start heap_size) m.allocator))
    after_loop-Initialised (some error) s' m = Returns-ok _ (
        stopped error m.frames m.outs (omega (arith, m.part error refl, count)) m.maps
          (omega (arith, m.few, count)) m.calls m.chosen m.allocator)

  -- Where the frame allocator can be called a hundred times, `init_heap` returns. Either it makes no
  -- error: then the 25 pages of the heap, and no others, are newly mapped, present and writable, in
  -- their order to frames that the allocator gave one after another, and the allocator is the old
  -- one initialised with the heap. Or it gives an error: then fewer than the 25 pages are mapped, in
  -- the same way, and the allocator is as before.
  pub init_heap-Initialised :
      (s : Machine f p fa mp)
      → Ready 100 s.frames
      → Returns (λ (out, s'). Initialised s out s') (init_heap f p fa mp s)
  unfolding init_heap
  init_heap-Initialised s ready = Returns-bind (heap_pages-StartAt p) λ pages (at, count).
      let enough : 100 ≡ length pages * 4 = omega (arith, count) in
      Returns-bind
        (map_pages-Mapping f p fa mp pages heap_start s at
          (subst (λ n. Ready n s.frames) enough ready))
        λ (out, s') m. after_loop-Initialised s pages count out s' m

  pub Initialised-allocator :
      {s s' : Machine f p fa mp} {out : Option MapToError}
      → Initialised s out s'
      → out ≡ none
      → s'.allocator ≡ FixedSizeBlock.init f heap_start heap_size s.allocator
  Initialised-allocator (initialised frames outs count maps few calls chosen same) e = same
  Initialised-allocator (stopped error frames outs count maps few calls chosen same) e = absurd cc e

  pub Initialised-OnlyHeap :
      {s s' : Machine f p fa mp} {out : Option MapToError}
      → Initialised s out s'
      → out ≡ none
      → OnlyHeap mp s.tables s'.tables
  Initialised-OnlyHeap (initialised frames outs count maps few calls chosen same) e =
      λ q other. maps.outside q (λ i lt. other i (omega (arith, lt, count)))
  Initialised-OnlyHeap (stopped error frames outs count maps few calls chosen same) e = absurd cc e
