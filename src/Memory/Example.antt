-- ===== src/Memory/Example.antt =====
-- `create_example_mapping` of min-rust-os/src/memory.rs: a page is mapped to the VGA text buffer.
mod Tests
use os_resources.Prelude.{
  ℕ, ◌^◌, ◌<◌, ◌≡◌, ◌==◌, if◌then◌else◌, Result, ok, panic, expect_failed, ◌>>=◌, Returns, Option,
  none, some, List, arith, refl, ap,
}
use os_resources.Memory.{Frames}
use os_resources.Memory.Paging.{Pages, FrameAllocator, Mapper}

-- The physical address of the VGA text buffer.
abbrev pub vga_buffer_addr : ℕ
vga_buffer_addr = 0xb8000

module _ (f : Frames) (p : Pages) (fa : FrameAllocator f.PhysFrame) (mp : Mapper p fa) where
  open p use {Page, start}
  open mp use {Tables, present_writable, mapped, map_to}

  unfoldable pub create_example_mapping : Page → Tables × fa.Frames → Result (Tables × fa.Frames)
  create_example_mapping page s = do
    phys ← f.new vga_buffer_addr
    (failed, s') ← map_to page (f.containing_address phys) present_writable s
    elim failed [ none ↦ ok s' | some error ↦ panic expect_failed ]
