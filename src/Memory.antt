-- ===== src/Memory.antt =====
-- min-rust-os/src/memory.rs: physical frames for the page tables.
--
-- Frames and addresses are types of the crate `x86_64`, and the memory map comes from the crate
-- `bootloader`. Neither is part of the repository: `Frames` is what the code relies on.
pub mod Addresses
pub mod Allocation
pub mod BootInfo
pub mod Example
pub mod Exhausted
pub mod Numbers
pub mod Paging
pub mod Tests
pub mod Translate
use os_resources.Prelude.{
  ℕ, zero, suc, ◌+◌, ◌-◌, ◌*◌, ◌/◌, ◌^◌, ◌≡◌, ◌<◌, Bool, Result, ok, ◌>>=◌, Option, none, some,
  List, [], ◌∷◌, ◌++◌, map, if◌then◌else◌,
}
use os_resources.Prelude.Words.{add_usize}

abbrev pub page_size : ℕ
page_size = 4096

pub record Frames : Type 1 where
  -- `x86_64::PhysAddr` and `x86_64::structures::paging::PhysFrame<Size4KiB>`.
  pub PhysAddr : Type 0
  pub PhysFrame : Type 0
  -- `PhysAddr::new` panics unless the bits from 52 on are clear.
  pub new : ℕ → Result PhysAddr
  pub as_u64 : PhysAddr → ℕ
  -- `PhysFrame::containing_address` and `PhysFrame::start_address`.
  pub containing_address : PhysAddr → PhysFrame
  pub start_address : PhysFrame → PhysAddr
  pub new-as_u64 : (a : ℕ) → a < 2 ^ 52 → (p : PhysAddr) × (new a ≡ ok p) × (as_u64 p ≡ a)
  pub start_address-containing_address :
      (p : PhysAddr)
      → as_u64 (start_address (containing_address p)) ≡ as_u64 p / page_size * page_size

-- `bootloader::bootinfo::MemoryRegion`, as far as it is read: whether its type is `Usable`, and
-- the addresses of its range.
pub record MemoryRegion : Type 0 where
  pub usable : Bool
  pub start_addr : ℕ
  pub end_addr : ℕ

abbrev pub MemoryMap : Type 0
MemoryMap = List MemoryRegion

pub record BootInfoFrameAllocator : Type 0 where
  pub memory_map : MemoryMap
  pub next : ℕ

unfoldable pub init : MemoryMap → BootInfoFrameAllocator
init memory_map = record { memory_map = memory_map; next = 0 }

-- `rounds` addresses from `a` on, a page apart.
pages_from : ℕ → ℕ → List ℕ
pages_from zero a = []
pages_from (suc rounds) a = a ∷ pages_from rounds (a + page_size)

-- `(start..end).step_by(4096)`: every 4096th address from the start on and below the end.
step_by_page : ℕ → ℕ → List ℕ
unfolding pages_from
step_by_page start end = pages_from ((end - start + (page_size - 1)) / page_size) start

-- `regions.filter(..).map(..).flat_map(..)`: the start addresses of the usable frames.
unfoldable pub frame_addresses : MemoryMap → List ℕ
unfolding step_by_page
frame_addresses [] = []
frame_addresses (r ∷ regions) =
    let rest = frame_addresses regions in
    if r.usable then step_by_page r.start_addr r.end_addr ++ rest else rest

-- `Iterator::nth` of an iterator whose closure may panic: it runs the closure on all that it skips.
pub nth {ℓ} : {A : Type ℓ} → ℕ → List (Result A) → Result (Option A)
nth n [] = ok none
nth zero (x ∷ xs) = do a ← x; ok (some a)
nth (suc n) (x ∷ xs) = do _ ← x; nth n xs

module _ (f : Frames) where
  open f use {PhysFrame, new, containing_address}

  -- `addr_ranges.flat_map(..).map(..)`.
  pub usable_frames : BootInfoFrameAllocator → List (Result PhysFrame)
  usable_frames s =
      map (λ addr. new addr >>= λ p. ok (containing_address p)) (frame_addresses s.memory_map)

  pub allocate_frame : BootInfoFrameAllocator → Result (Option PhysFrame × BootInfoFrameAllocator)
  unfolding add_usize
  allocate_frame s = do
    frame ← nth s.next (usable_frames s)
    next ← add_usize s.next 1
    ok (frame, record s { next = next })

  -- `EmptyFrameAllocator`, which has no state.
  pub allocate_no_frame : Unit {0} → Result (Option PhysFrame × Unit {0})
  allocate_no_frame s = ok (none, s)
