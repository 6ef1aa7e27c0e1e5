-- ===== src/Memory/Example/Tests.antt =====
-- `create_example_mapping` at a concrete page.
use os_resources.Prelude.{
  ◌≡◌, ◌==◌, if◌then◌else◌, ok, panic, expect_failed, none, some, true, refl,
}
use os_resources.Memory.{BootInfoFrameAllocator}
use os_resources.Memory.Tests.{numbers}
use os_resources.Memory.Numbers.{pages, mapper, map}
use os_resources.Memory.BootInfo.{boot_info}
use os_resources.Memory.Example.{create_example_mapping}

abbrev frames : BootInfoFrameAllocator
frames = record { memory_map = map; next = 0 }

example_is_mapped :
    create_example_mapping numbers pages
      (boot_info numbers)
      (mapper numbers)
      0
      ((λ q. none), frames)
    ≡ ok ((λ q. if q == 0 then some (0xb8000, true) else none), frames)
unfolding create_example_mapping
example_is_mapped = refl

mapping_twice_panics :
    create_example_mapping numbers pages
      (boot_info numbers)
      (mapper numbers)
      0
      ((λ q. some (0x1000, true)), frames)
    ≡ panic expect_failed
unfolding create_example_mapping
mapping_twice_panics = refl
