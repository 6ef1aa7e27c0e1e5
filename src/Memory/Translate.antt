-- ===== src/Memory/Translate.antt =====
-- The page tables of min-rust-os/src/memory.rs: the active table, and the translation of an address.
--
-- Addresses, tables and their entries are types of the crate `x86_64`: `PageTables` is what the code
-- uses of them. A machine is the register CR3, the page tables that lie in physical memory, and
-- what a pointer of the kernel leads to.
pub mod SamePage
pub mod Walk
pub mod Tests
use os_resources.Prelude.{
  ℕ, ◌+◌, ◌-◌, ◌*◌, ◌/◌, ◌%◌, ◌^◌, ◌≤◌, ◌<◌, ◌≡◌, ◌⊎◌, inl, inr, Result, ok, panic, explicit,
  undefined, expect, ◌>>=◌, Returns, Option, none, some, List, [], ◌∷◌,
}
use os_resources.Memory.{Frames, page_size}

pub data FrameError : Type 0 where
  frame_not_present huge_frame : FrameError

-- The bits of a virtual address from 47 on are equal.
abbrev pub IsCanonical : ℕ → Type 0
IsCanonical a = (a < 2 ^ 47) ⊎ ((2 ^ 64 - 2 ^ 47 ≤ a) × (a < 2 ^ 64))

pub record PageTables (f : Frames) : Type 1 where
  pub VirtAddr : Type 0
  pub PageTableIndex : Type 0
  pub PageTable : Type 0
  pub PageTableEntry : Type 0
  pub OffsetPageTable : Type 0
  pub as_u64 : VirtAddr → ℕ
  -- The sum of an address and a number, which panics where the result is no address.
  pub add : VirtAddr → ℕ → Result VirtAddr
  pub add_phys : f.PhysAddr → ℕ → Result f.PhysAddr
  pub p4_index : VirtAddr → PageTableIndex
  pub p3_index : VirtAddr → PageTableIndex
  pub p2_index : VirtAddr → PageTableIndex
  pub p1_index : VirtAddr → PageTableIndex
  pub page_offset : VirtAddr → ℕ
  pub index : PageTable → PageTableIndex → PageTableEntry
  pub frame : PageTableEntry → f.PhysFrame ⊎ FrameError
  -- `OffsetPageTable::new`, which gets a pointer to the table of level 4.
  pub new : VirtAddr → VirtAddr → OffsetPageTable
  -- `PageTableIndex::new`, of a number below 512.
  pub new_index : ℕ → PageTableIndex
  pub p4_index-new_index : (v : VirtAddr) → p4_index v ≡ new_index (as_u64 v / 2 ^ 39 % 512)
  pub p3_index-new_index : (v : VirtAddr) → p3_index v ≡ new_index (as_u64 v / 2 ^ 30 % 512)
  pub p2_index-new_index : (v : VirtAddr) → p2_index v ≡ new_index (as_u64 v / 2 ^ 21 % 512)
  pub p1_index-new_index : (v : VirtAddr) → p1_index v ≡ new_index (as_u64 v / 2 ^ 12 % 512)
  pub page_offset-as_u64 : (v : VirtAddr) → page_offset v ≡ as_u64 v % page_size
  pub add-as_u64 :
      (v : VirtAddr) (n : ℕ)
      → IsCanonical (as_u64 v + n)
      → Returns (λ w. as_u64 w ≡ as_u64 v + n) (add v n)
  pub add_phys-as_u64 :
      (p : f.PhysAddr) (n : ℕ)
      → f.as_u64 p + n < 2 ^ 52
      → Returns (λ q. f.as_u64 q ≡ f.as_u64 p + n) (add_phys p n)
  pub as_u64-lt : (p : f.PhysAddr) → f.as_u64 p < 2 ^ 52
  pub start_address-page : (fr : f.PhysFrame) → f.as_u64 (f.start_address fr) % page_size ≡ 0

module _ (f : Frames) (pt : PageTables f) where
  open f use {PhysAddr, PhysFrame, start_address}
  open pt use {
    VirtAddr, PageTableIndex, PageTable, OffsetPageTable, add, add_phys, p4_index, p3_index,
    p2_index, p1_index, page_offset,
  }

  pub record Machine : Type 0 where
    pub cr3 : PhysFrame
    -- The page table that a frame of physical memory holds.
    pub in_frame : PhysFrame → Option PageTable
    -- The page table that a pointer leads to.
    pub pointed_to : VirtAddr → Option PageTable

  module _ (m : Machine) where
    -- A pointer to the active table of level 4.
    unfoldable pub active_level_4_table : VirtAddr → Result VirtAddr
    active_level_4_table physical_memory_offset =
        add physical_memory_offset (f.as_u64 (start_address m.cr3))

    unfoldable pub init_tables : VirtAddr → Result OffsetPageTable
    init_tables physical_memory_offset = do
      level_4_table ← active_level_4_table physical_memory_offset
      ok (pt.new level_4_table physical_memory_offset)

    -- The loop over `table_indexes`: the frame after the last table, or none.
    unfoldable pub walk : List PageTableIndex → VirtAddr → PhysFrame → Result (Option PhysFrame)
    walk [] physical_memory_offset frame = ok (some frame)
    walk (i ∷ table_indexes) physical_memory_offset frame = do
      virt ← add physical_memory_offset (f.as_u64 (start_address frame))
      table ← expect (m.pointed_to virt) undefined
      elim (pt.frame (pt.index table i)) [
        | inl next ↦ walk table_indexes physical_memory_offset next
        | inr error ↦ elim error [ frame_not_present ↦ ok none | huge_frame ↦ panic explicit ]
      ]

    abbrev pub table_indexes : VirtAddr → List PageTableIndex
    table_indexes addr = p4_index addr ∷ p3_index addr ∷ p2_index addr ∷ p1_index addr ∷ []

    unfoldable pub translate_addr_inner : VirtAddr → VirtAddr → Result (Option PhysAddr)
    translate_addr_inner addr physical_memory_offset = do
      found ← walk (table_indexes addr) physical_memory_offset m.cr3
      elim found [
        | none ↦ ok none
        | some frame ↦ do phys ← add_phys (start_address frame) (page_offset addr); ok (some phys)
      ]

    unfoldable pub translate_addr : VirtAddr → VirtAddr → Result (Option PhysAddr)
    translate_addr addr physical_memory_offset = translate_addr_inner addr physical_memory_offset
