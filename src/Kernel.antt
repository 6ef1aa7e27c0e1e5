-- ===== src/Kernel.antt =====
-- The start of the kernel: min-rust-os/src/gdt.rs, and `init` of min-rust-os/src/lib.rs.
--
-- The tables of segments are types of the crate `x86_64`: `Segments` is what the code and the
-- processor use of them.
pub mod Greeting
pub mod Hello
pub mod Spawned
pub mod Init
pub mod Main
pub mod TestRunner
mod Tests
use os_resources.Prelude.{
  ℕ, ◌+◌, ◌*◌, ◌≤◌, ◌≡◌, Bool, true, false, ltb, if◌then◌else◌, Result, ok, panic, out_of_bounds,
  undefined, expect, ◌>>=◌, Returns, Option, none, some, List, set, length, replicate, get_elem?,
}
use os_resources.Memory.Paging.{Pages}
use os_resources.Interrupts.{double_fault_ist_index, DescriptorTable, ChainedPics, idt}

-- Of `TaskStateSegment`, the stacks that a gate can name.
pub record TaskStateSegment (VirtAddr : Type 0) : Type 0 where
  pub interrupt_stack_table : List VirtAddr

-- `GlobalDescriptorTable`: `lookup` is the descriptor that a selector selects, and `free` the number
-- of slots that are left, of which a descriptor takes one or two.
pub record Segments (p : Pages) : Type 1 where
  pub Gdt : Type 0
  pub Descriptor : Type 0
  pub SegmentSelector : Type 0
  pub zero : p.VirtAddr
  pub new : Gdt
  pub kernel_code_segment : Descriptor
  pub tss_segment : TaskStateSegment p.VirtAddr → Descriptor
  pub add_entry : Descriptor → Gdt → Result (SegmentSelector × Gdt)
  pub lookup : Gdt → SegmentSelector → Option Descriptor
  pub slots : Descriptor → ℕ
  pub free : Gdt → ℕ
  pub free-new : free new ≡ 7
  pub slots-code : slots kernel_code_segment ≡ 1
  pub slots-tss : (tss : TaskStateSegment p.VirtAddr) → slots (tss_segment tss) ≡ 2
  pub add_entry-lookup :
      (d : Descriptor) (g : Gdt)
      → slots d ≤ free g
      → Returns
          (λ (selector, g').
            (lookup g' selector ≡ some d)
            × ((s : SegmentSelector) (d' : Descriptor)
                → lookup g s ≡ some d'
                → lookup g' s ≡ some d')
            × (free g' + slots d ≡ free g))
          (add_entry d g)

abbrev pub stack_size : ℕ
stack_size = 4096 * 5

module _ (p : Pages) (g : Segments p) where
  open p use {VirtAddr, add}
  open g use {
    Gdt, Descriptor, SegmentSelector, zero, new, kernel_code_segment, tss_segment, add_entry,
    lookup,
  }

  -- `TaskStateSegment::new` has seven stacks at address 0.
  abbrev pub new_tss : TaskStateSegment VirtAddr
  new_tss = record { interrupt_stack_table = replicate 7 zero }

  -- The initialisation of `TSS`: `stack_start` is the address of the static `STACK`.
  unfoldable pub tss : VirtAddr → Result (TaskStateSegment VirtAddr)
  tss stack_start = do
    stack_end ← add stack_start stack_size
    let table = new_tss.interrupt_stack_table
    if ltb double_fault_ist_index (length table)
        then ok (record { interrupt_stack_table = set table double_fault_ist_index stack_end })
        else panic out_of_bounds

  pub record Selectors : Type 0 where
    pub code_selector : SegmentSelector
    pub tss_selector : SegmentSelector

  -- The initialisation of `GDT`.
  unfoldable pub gdt : TaskStateSegment VirtAddr → Result (Gdt × Selectors)
  gdt t = do
    (code_selector, with_code) ← add_entry kernel_code_segment new
    (tss_selector, with_tss) ← add_entry (tss_segment t) with_code
    ok (with_tss, record { code_selector = code_selector; tss_selector = tss_selector })

  -- The registers of the processor: the table of segments that is loaded, and the descriptors that
  -- the code segment and the task register hold.
  pub record Registers : Type 0 where
    pub gdtr : Option Gdt
    pub cs : Option Descriptor
    pub tr : Option Descriptor

  -- What a selector selects in the table that is loaded; a selector that selects nothing is invalid.
  unfoldable pub select : SegmentSelector → Registers → Result Descriptor
  select selector r = do loaded ← expect r.gdtr undefined; expect (lookup loaded selector) undefined

  -- `gdt::init`.
  unfoldable pub init_gdt : VirtAddr → Registers → Result Registers
  init_gdt stack_start r = do
    t ← tss stack_start
    (table, selectors) ← gdt t
    let loaded = record r { gdtr = some table }
    code ← select selectors.code_selector loaded
    task ← select selectors.tss_selector loaded
    ok (record loaded { cs = some code; tr = some task })

  module _ (d : DescriptorTable) (cp : ChainedPics) where
    pub record Cpu : Type 0 where
      pub registers : Registers
      pub idtr : Option d.Idt
      pub pics : cp.Pics
      pub interrupts_enabled : Bool

    -- `init` of min-rust-os/src/lib.rs.
    unfoldable pub init : VirtAddr → Cpu → Result Cpu
    init stack_start s = do
      registers ← init_gdt stack_start s.registers
      table ← idt d
      let pics = cp.initialize s.pics
      ok (record {
        registers = registers;
        idtr = some table;
        pics = pics;
        interrupts_enabled = true;
      })
