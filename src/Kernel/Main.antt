-- ===== src/Kernel/Main.antt =====
-- The set-up of the heap in `kernel_main` of min-rust-os/src/main.rs: the page tables, the frame
-- allocator, and `init_heap` on them.
--
-- `OffsetPageTable` of the crate `x86_64` is the mapper: `tables_of` is the mapper's view of it.
mod Tests
use os_resources.Prelude.{
  ℕ, ◌+◌, ◌<◌, ◌^◌, ◌≡◌, Result, ok, panic, expect_failed, ◌>>=◌, Returns, Option, none, some, List,
  arith, refl, ap, subst, sym, ◌∙◌,
}
use os_resources.Memory.{Frames, BootInfoFrameAllocator, MemoryMap}
use os_resources.Memory
use os_resources.Memory.Addresses.{IsMemoryMap}
use os_resources.Memory.BootInfo.{Ready, boot_info}
use os_resources.Memory.Paging.{Pages, Mapper}
use os_resources.Memory.Translate.{PageTables, IsCanonical, init_tables, active_level_4_table}
use os_resources.Memory.Translate
use os_resources.Allocator.{heap_start, heap_size}
use os_resources.Allocator.FixedSizeBlock.{Fallback}
use os_resources.Allocator.FixedSizeBlock
use os_resources.Allocator.Heap.{init_heap}
use os_resources.Allocator.Heap
use os_resources.Allocator.Heap.Initialised.{
  Initialised, OnlyHeap, Initialised-allocator, Initialised-OnlyHeap, init_heap-Initialised,
}
use os_resources.Allocator.Heap.Boot.{OnFrames, Initialised-OnFrames}

-- `BootInfo` of the crate `bootloader`, as far as it is read.
pub record BootInfo : Type 0 where
  pub physical_memory_offset : ℕ
  pub memory_map : MemoryMap

module _ (f : Frames) (pt : PageTables f) (fb : Fallback) (p : Pages) (mp : Mapper p (boot_info f))
    (new_addr : ℕ → Result pt.VirtAddr) (tables_of : pt.OffsetPageTable → mp.Tables) where
  -- What the kernel has when the heap is set up.
  abbrev pub Machine : Type 0
  Machine = Heap.Machine fb p (boot_info f) mp

  -- `m` is the processor with its memory, and `memory` what the pointers of the allocator lead to.
  unfoldable pub set_up_heap :
      Translate.Machine f pt → FixedSizeBlock.Memory → BootInfo → Result Machine
  set_up_heap m memory b = do
    phys_mem_offset ← new_addr b.physical_memory_offset
    mapper ← init_tables f pt m phys_mem_offset
    (failed, s) ← init_heap fb p (boot_info f) mp (record {
      tables = tables_of mapper;
      frames = Memory.init b.memory_map;
      allocator = FixedSizeBlock.new fb memory;
    })
    elim failed [ none ↦ ok s | some error ↦ panic expect_failed ]

  -- The tables that the mapper finds: those of the level 4 table in the frame that CR3 names, seen
  -- through the mapping of the physical memory at `offset`.
  pub record IsActive (m : Translate.Machine f pt) (offset : pt.VirtAddr) (t : mp.Tables)
      : Type 0 where
    pub table : pt.VirtAddr
    pub at : pt.as_u64 table ≡ pt.as_u64 offset + f.as_u64 (f.start_address m.cr3)
    pub found : t ≡ tables_of (pt.new table offset)

  -- The heap is on frames of its own, no other page is mapped otherwise than in the active tables,
  -- and the allocator has the heap; or the set-up panicked where `init_heap` gave an error on the
  -- active tables.
  pub data IsSetUp (m : Translate.Machine f pt) (offset : pt.VirtAddr)
      (memory : FixedSizeBlock.Memory) (b : BootInfo) : Result Machine → Type 0 where
    is_set_up :
        {s : Machine} (active : mp.Tables)
        → IsActive m offset active
        → OnFrames f fb p mp b.memory_map s.tables
        → OnlyHeap mp active s.tables
        → s.allocator ≡ FixedSizeBlock.init fb heap_start heap_size (FixedSizeBlock.new fb memory)
        → IsSetUp m offset memory b (ok s)
    set_up_panics :
        (s s' : Machine) (error : mp.MapToError)
        → IsActive m offset s.tables
        → s.frames ≡ Memory.init b.memory_map
        → s.allocator ≡ FixedSizeBlock.new fb memory
        → init_heap fb p (boot_info f) mp s ≡ ok (some error, s')
        → IsSetUp m offset memory b (panic expect_failed)

  after_init_heap-IsSetUp :
      (m : Translate.Machine f pt) (offset : pt.VirtAddr) (memory : FixedSizeBlock.Memory)
      (b : BootInfo) (s : Machine) (out : Option mp.MapToError) (s' : Machine)
      → IsMemoryMap b.memory_map
      → IsActive m offset s.tables
      → s.frames ≡ Memory.init b.memory_map
      → s.allocator ≡ FixedSizeBlock.new fb memory
      → init_heap fb p (boot_info f) mp s ≡ ok (out, s')
      → Initialised fb p (boot_info f) mp s out s'
      → IsSetUp m offset memory b (elim out [ none ↦ ok s' | some error ↦ panic expect_failed ])
  after_init_heap-IsSetUp m offset memory b s none s' h active frames new runs i =
      is_set_up s.tables active
        (Initialised-OnFrames f fb p mp b.memory_map s none s' h frames i refl)
        (Initialised-OnlyHeap fb p (boot_info f) mp i refl)
        (Initialised-allocator fb p (boot_info f) mp i refl
          ∙ ap (FixedSizeBlock.init fb heap_start heap_size) new)
  after_init_heap-IsSetUp m offset memory b s (some error) s' h active frames new runs i =
      set_up_panics s s' error active frames new runs

  -- Where the boot loader passes a memory map of its kind and an address at which the physical memory
  -- is mapped, `kernel_main` gets behind the set-up of the heap: in the tables that the level 4 table
  -- of CR3 stands for, each page of the heap is now on a frame of usable memory of its own, every
  -- other page is as before, and a new allocator is initialised with the heap; or it panics, and then
  -- `init_heap` gave an error on these tables.
  pub set_up_heap-IsSetUp :
      (m : Translate.Machine f pt) (memory : FixedSizeBlock.Memory) (b : BootInfo)
      (offset : pt.VirtAddr)
      → IsMemoryMap b.memory_map
      → new_addr b.physical_memory_offset ≡ ok offset
      → IsCanonical (pt.as_u64 offset + f.as_u64 (f.start_address m.cr3))
      → IsSetUp m offset memory b (set_up_heap m memory b)
  unfolding set_up_heap init_tables active_level_4_table Memory.init
  set_up_heap-IsSetUp m memory b offset h made canonical =
      let table = pt.add-as_u64 offset (f.as_u64 (f.start_address m.cr3)) canonical in
      let s : Machine = record {
        tables = tables_of (pt.new table.value offset);
        frames = Memory.init b.memory_map;
        allocator = FixedSizeBlock.new fb memory;
      } in
      let heap = init_heap-Initialised fb p (boot_info f) mp s (h, omega arith) in
      rw (made, table.returns, heap.returns)
        (after_init_heap-IsSetUp m offset memory b s heap.value.0 heap.value.1 h
          (record { table = table.value; at = table.holds; found = refl }) refl refl heap.returns
          heap.holds)
