-- ===== src/Kernel/Init.antt =====
-- What `init` of min-rust-os/src/lib.rs leaves behind.
use os_resources.Prelude.{
  ℕ, ◌+◌, ◌<◌, ◌^◌, ◌≡◌, true, false, Returns, Returns-ok, Returns-bind, some, get_elem?, arith,
  refl, ◌∙◌,
}
use os_resources.Memory.Paging.{Pages}
use os_resources.Interrupts.{pic_1_offset, pic_2_offset, double_fault, DescriptorTable, ChainedPics}
use os_resources.Interrupts.Gates.{expected_gate, idt-expected_gate}
use os_resources.Kernel.{
  TaskStateSegment, Segments, stack_size, tss, gdt, Registers, select, init_gdt, Cpu, init,
}

module _ (p : Pages) (g : Segments p) where
  open p use {VirtAddr, as_u64}
  open g use {kernel_code_segment, tss_segment, lookup}

  -- The stack with the index `i` ends `stack_size` bytes behind `stack_start`.
  abbrev pub HasStack : VirtAddr → TaskStateSegment VirtAddr → ℕ → Type 0
  HasStack stack_start t i =
      (stack_end : VirtAddr) × (get_elem? t.interrupt_stack_table i ≡ some stack_end)
      × (as_u64 stack_end ≡ as_u64 stack_start + stack_size)

  tss-HasStack :
      (stack_start : VirtAddr)
      → as_u64 stack_start + stack_size < 2 ^ 47
      → Returns (λ t. HasStack stack_start t 0) (tss p g stack_start)
  unfolding tss
  tss-HasStack stack_start fits =
      Returns-bind (p.add-as_u64 stack_start stack_size fits)
        λ stack_end e. Returns-ok _ (stack_end, refl, e)

  gdt-lookup :
      (t : TaskStateSegment VirtAddr)
      → Returns
          (λ (table, selectors).
            (lookup table selectors.code_selector ≡ some kernel_code_segment)
            × (lookup table selectors.tss_selector ≡ some (tss_segment t)))
          (gdt p g t)
  unfolding gdt
  gdt-lookup t =
      Returns-bind
        (g.add_entry-lookup kernel_code_segment g.new (omega (arith, g.free-new, g.slots-code)))
        λ (code, with_code) (at, _, left).
          Returns-bind
            (g.add_entry-lookup (tss_segment t) with_code
              (omega (arith, g.free-new, g.slots-code, g.slots-tss t, left)))
            λ (task, with_tss) (at', kept, _). Returns-ok _ (kept code kernel_code_segment at, at')

  -- The code segment and the task register hold what they should.
  pub record AreLoaded (stack_start : VirtAddr) (r : Registers p g) : Type 0 where
    task : TaskStateSegment VirtAddr
    cs : r.cs ≡ some kernel_code_segment
    tr : r.tr ≡ some (tss_segment task)
    stack : HasStack stack_start task 0

  init_gdt-AreLoaded :
      (stack_start : VirtAddr) (r : Registers p g)
      → as_u64 stack_start + stack_size < 2 ^ 47
      → Returns (AreLoaded stack_start) (init_gdt p g stack_start r)
  unfolding init_gdt select
  init_gdt-AreLoaded stack_start r fits = Returns-bind (tss-HasStack stack_start fits) λ t stack.
      Returns-bind (gdt-lookup t) λ (table, selectors) (code, task).
        rw (code, task) (Returns-ok _ (record { task = t; cs = refl; tr = refl; stack = stack }))

  module _ (d : DescriptorTable) (cp : ChainedPics) where
    -- The processor is ready for interrupts and exceptions.
    pub record IsReady (stack_start : VirtAddr) (s : Cpu p g d cp) : Type 0 where
      table : d.Idt
      stack_index : ℕ
      task : TaskStateSegment VirtAddr
      enabled : s.interrupts_enabled ≡ true
      idtr : s.idtr ≡ some table
      gates : (v : ℕ) → d.gate table v ≡ expected_gate v
      offsets : cp.offsets s.pics ≡ (pic_1_offset, pic_2_offset)
      waits : cp.waits s.pics ≡ (false, false)
      cs : s.registers.cs ≡ some kernel_code_segment
      tr : s.registers.tr ≡ some (tss_segment task)
      gate : d.gate table 8 ≡ some (double_fault, some stack_index)
      stack : HasStack stack_start task stack_index

    -- On a processor whose controllers have the offsets of `PICS`, and where the static stack lies
    -- below 2 ^ 47, `init` returns. Interrupts are then enabled, with the table of handlers loaded and
    -- the controllers initialised; the code segment is that of the kernel; and the stack that the gate
    -- of the double fault names is, in the task state that is loaded, the static stack of 20 KiB.
    pub init-IsReady :
        (stack_start : VirtAddr) (s : Cpu p g d cp)
        → as_u64 stack_start + stack_size < 2 ^ 47
        → cp.offsets s.pics ≡ (pic_1_offset, pic_2_offset)
        → Returns (IsReady stack_start) (init p g d cp stack_start s)
    unfolding init
    init-IsReady stack_start s fits at =
        Returns-bind (init_gdt-AreLoaded stack_start s.registers fits) λ r loaded.
          Returns-bind (idt-expected_gate d) λ table gates. Returns-ok _ (record {
            table = table;
            stack_index = 0;
            task = loaded.task;
            enabled = refl;
            idtr = refl;
            gates = gates;
            offsets = cp.initialize-offsets s.pics ∙ at;
            waits = cp.initialize-waits s.pics;
            cs = loaded.cs;
            tr = loaded.tr;
            gate = gates 8;
            stack = loaded.stack;
          })
