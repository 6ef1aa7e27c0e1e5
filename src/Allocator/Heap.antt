-- ===== src/Allocator/Heap.antt =====
-- `init_heap` of min-rust-os/src/allocator.rs: the pages of the heap are mapped to frames, then the
-- allocator is given the heap.
--
-- Pages and page tables are types of the crate `x86_64`, and the function takes any frame allocator
-- and any mapper: these are parameters (Memory/Paging).
pub mod Boot
pub mod Initialised
pub mod Mapping
pub mod Maps
mod Tests
use os_resources.Prelude.{
  ℕ, suc, ◌+◌, ◌-◌, ◌*◌, ◌/◌, ◌^◌, ◌≤◌, ◌<◌, ◌≡◌, ◌==◌, if◌then◌else◌, Result, ok, ◌>>=◌, Returns,
  Option, none, some, List, [], ◌∷◌, ◌++◌, length,
}
use os_resources.Memory.Paging.{StartAt, Pages, FrameAllocator, Mapper}
use os_resources.Allocator.{heap_start, heap_size}
use os_resources.Allocator.FixedSizeBlock.{Fallback, State}
use os_resources.Allocator.FixedSizeBlock

module _ (p : Pages) where
  open p use {new, add, sub, containing_address, range_inclusive, Page}

  -- The block that gives `page_range`.
  unfoldable pub heap_pages : Result (List Page)
  heap_pages = do
    start ← new heap_start
    behind ← add start heap_size
    last ← sub behind 1
    ok (range_inclusive (containing_address start) (containing_address last))

module _ {PhysFrame : Type 0} (f : Fallback) (p : Pages) (fa : FrameAllocator PhysFrame)
    (mp : Mapper p fa) where
  open p use {Page}
  open fa use {Frames, allocate_frame}
  open mp use {Tables, MapToError, frame_allocation_failed, present_writable, map_to}

  -- What `init_heap` changes: the page tables, the frame allocator and the global allocator.
  pub record Machine : Type 0 where
    pub tables : Tables
    pub frames : Frames
    pub allocator : State f

  -- The second half of a round of the loop of `init_heap`: the page and the frame for it.
  unfoldable pub map_page : Page → PhysFrame → Machine → Result (Option MapToError × Machine)
  map_page page frame s = do
    (failed, (tables, frames)) ← map_to page frame present_writable (s.tables, s.frames)
    ok (failed, record s { tables = tables; frames = frames })

  -- The loop of `init_heap` over the pages: no error, or the error with which it ends.
  unfoldable pub map_pages : List Page → Machine → Result (Option MapToError × Machine)
  map_pages [] s = ok (none, s)
  map_pages (page ∷ pages) s = do
    (found, frames) ← allocate_frame s.frames
    elim found [
      | none ↦ ok (some frame_allocation_failed, record s { frames = frames })
      | some frame ↦ do
        (failed, s') ← map_page page frame (record s { frames = frames })
        elim failed [ some error ↦ ok (some error, s') | none ↦ map_pages pages s' ]
    ]

  unfoldable pub init_heap : Machine → Result (Option MapToError × Machine)
  init_heap s = do
    pages ← heap_pages p
    (failed, s') ← map_pages pages s
    elim failed [
      | some error ↦ ok (some error, s')
      | none ↦
          ok (
            none,
            record s' { allocator = FixedSizeBlock.init f heap_start heap_size s'.allocator },
          )
    ]
