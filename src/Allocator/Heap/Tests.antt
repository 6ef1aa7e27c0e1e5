-- ===== src/Allocator/Heap/Tests.antt =====
-- `init_heap` at a concrete input.
use os_resources.Prelude.{◌≡◌, Returns, none, arith, refl}
use os_resources.Memory.{page_size, BootInfoFrameAllocator, MemoryMap}
use os_resources.Memory
use os_resources.Memory.Tests.{numbers}
use os_resources.Memory.Numbers.{pages, mapper, map, map-IsMemoryMap}
use os_resources.Memory.BootInfo.{boot_info}
use os_resources.Allocator.Tests.{exhausted, empty_lists}
use os_resources.Allocator.Heap.{Machine, init_heap}
use os_resources.Allocator.Heap.Initialised.{Initialised, init_heap-Initialised}
use os_resources.Allocator.Heap.Boot.{OnFrames, init_heap-OnFrames}

abbrev machine : Machine exhausted pages (boot_info numbers) (mapper numbers)
machine = record {
  tables = λ q. none;
  frames = record { memory_map = map; next = 0 };
  allocator = empty_lists;
}

init_heap-Initialised_example :
    Returns
      (λ (out, s'). Initialised exhausted pages (boot_info numbers) (mapper numbers) machine out s')
      (init_heap exhausted pages (boot_info numbers) (mapper numbers) machine)
init_heap-Initialised_example =
    init_heap-Initialised exhausted pages (boot_info numbers) (mapper numbers) machine
      (map-IsMemoryMap, omega arith)

init_heap-OnFrames_example :
    Returns
      (λ (out, s'). out ≡ none → OnFrames numbers exhausted pages (mapper numbers) map s'.tables)
      (init_heap exhausted pages (boot_info numbers) (mapper numbers) machine)
unfolding Memory.init
init_heap-OnFrames_example =
    init_heap-OnFrames numbers exhausted pages (mapper numbers) map machine map-IsMemoryMap refl
