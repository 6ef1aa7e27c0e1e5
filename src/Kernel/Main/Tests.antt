-- ===== src/Kernel/Main/Tests.antt =====
-- The set-up of the heap at a concrete input: the boot loader passes tables that
-- map one page.
use os_resources.Prelude.{
  ℕ, ◌-◌, ◌/◌, ◌^◌, ◌==◌, true, if◌then◌else◌, Result, ok, inl, some, none, arith, refl,
}
use os_resources.Memory.{page_size}
use os_resources.Memory.Numbers.{pages, mapper, Table, map, map-IsMemoryMap}
use os_resources.Memory.Translate.Tests.{frames, tables, machine}
use os_resources.Allocator.Tests.{exhausted}
use os_resources.Kernel.Main.{BootInfo, set_up_heap, IsSetUp, set_up_heap-IsSetUp}

abbrev boot : BootInfo
boot = record { physical_memory_offset = 2 ^ 40; memory_map = map }

abbrev new_addr : ℕ → Result ℕ
new_addr a = ok a

-- Only the page of the level 4 table is mapped, to the frame that the table lies in.
abbrev view : ℕ × ℕ → Table frames
view (table, offset) q = if q == table then some ((table - offset) / page_size, true) else none

set_up_heap-IsSetUp_example :
    IsSetUp frames tables exhausted pages
      (mapper frames)
      new_addr
      view
      machine
      (2 ^ 40)
      (λ ptr. none)
      boot
      (set_up_heap frames tables exhausted pages
        (mapper frames)
        new_addr
        view
        machine
        (λ ptr. none)
        boot)
set_up_heap-IsSetUp_example =
    set_up_heap-IsSetUp frames tables exhausted pages (mapper frames) new_addr view machine
      (λ ptr. none) boot (2 ^ 40) map-IsMemoryMap refl (inl (omega arith))
