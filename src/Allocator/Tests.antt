-- ===== src/Allocator/Tests.antt =====
-- The allocators at concrete inputs.
use os_resources.Prelude.{
  ℕ, ◌+◌, ◌-◌, ◌^◌, ◌≡◌, refl, ok, panic, overflow, Returns, none, some, [], ◌∷◌, replicate, leb,
  if◌then◌else◌, arith,
}
use os_resources.Prelude.Words.{usize_mod}
use os_resources.Allocator.{Layout, IsLayout, null, align_up, heap_start, heap_size}
use os_resources.Allocator.Align.{
  IsRoundedUp, by_remainder, align_up-eq-by_remainder, align_up-IsRoundedUp,
}
use os_resources.Allocator.Client.{Block, AreOwned, Reach, here, next, allocate, release}
use os_resources.Allocator.Bump
use os_resources.Allocator.Bump.{BumpAllocator, bump_allocator}
use os_resources.Allocator.Bump.Safety.{Untouched, Reach-AreOwned, Reach-init, alloc-first_aligned}
use os_resources.Allocator.FixedSizeBlock
use os_resources.Allocator.FixedSizeBlock.{
  Fallback, Memory, State, write_node, block_sizes, list_index,
}
use os_resources.Allocator.FixedSizeBlock.Blocks.{Answers, list_index-Answers}
use os_resources.Allocator.FixedSizeBlock.Reuse.{alloc-dealloc}

align_up-eq-by_remainder_example : align_up 0x1003 (2 ^ 4) ≡ ok 0x1010
unfolding by_remainder
align_up-eq-by_remainder_example = align_up-eq-by_remainder 0x1003 4 (omega arith)

align_up_panics : align_up (usize_mod - 8) 8 ≡ panic overflow
unfolding align_up
align_up_panics = refl

align_up-IsRoundedUp_example : Returns (IsRoundedUp 0x1003 (2 ^ 4)) (align_up 0x1003 (2 ^ 4))
align_up-IsRoundedUp_example = align_up-IsRoundedUp 0x1003 4 (omega arith) (omega arith)

-- 10 bytes at a multiple of 8.
abbrev ten : Layout
ten = record { size = 10; align = 8 }

ten-IsLayout : IsLayout ten
ten-IsLayout = record { log = 3; log_lt = omega arith; pow = refl; fits = omega arith }

abbrev fresh : BumpAllocator
fresh = record {
  heap_start = heap_start;
  heap_end = heap_start + heap_size;
  next = heap_start;
  allocations = 0;
}

abbrev one_given : BumpAllocator
one_given = record fresh { next = heap_start + 10; allocations = 1 }

init-fresh : Bump.init heap_start heap_size Bump.new ≡ ok fresh
unfolding Bump.init Bump.new
init-fresh = refl

abbrev first_block : Block
first_block = record { addr = heap_start; layout = ten }

alloc-ten : Bump.alloc ten fresh ≡ ok (heap_start, one_given)
unfolding Bump.alloc align_up
alloc-ten = refl

dealloc-ten : Bump.dealloc heap_start ten one_given ≡ ok fresh
unfolding Bump.dealloc
dealloc-ten = refl

Reach-given : Reach bump_allocator Untouched fresh one_given (first_block ∷ [])
Reach-given = next here (allocate heap_start ten ten-IsLayout (omega arith) alloc-ten (omega arith))

Reach-released : Reach bump_allocator Untouched fresh fresh []
Reach-released = next Reach-given (release [] first_block [] refl refl dealloc-ten)

Reach-AreOwned_example : AreOwned heap_start (heap_start + heap_size) (first_block ∷ [])
Reach-AreOwned_example =
    Reach-AreOwned heap_start heap_size (omega arith) (omega arith) init-fresh Reach-given

Reach-init_example : fresh ≡ fresh
Reach-init_example =
    Reach-init heap_start heap_size (omega arith) (omega arith) init-fresh Reach-released

alloc-first_aligned_example :
    (start : ℕ) × IsRoundedUp (heap_start + 10) 8 start
    × (Bump.alloc ten one_given ≡ (
        if leb (start + 10) (heap_start + heap_size)
        then ok (start, record one_given { next = start + 10; allocations = 1 + 1 })
        else ok (null, one_given)))
alloc-first_aligned_example =
    alloc-first_aligned heap_start heap_size ten (omega arith) (omega arith) init-fresh Reach-given
      ten-IsLayout

list_index-Answers_example : Answers 10 block_sizes (list_index ten)
list_index-Answers_example = list_index-Answers ten

list_index-ten : list_index ten ≡ some 1
unfolding list_index
list_index-ten = refl

list_index-sixteen : list_index (record { size = 16; align = 1 }) ≡ some 1
unfolding list_index
list_index-sixteen = refl

-- A fallback that never has memory.
abbrev pub exhausted : Fallback
exhausted = record {
  Heap = Unit {0};
  empty = tt;
  init = λ start size s. s;
  allocate_first_fit = λ layout s. (none, s);
  deallocate = λ ptr layout s. s;
}

abbrev pub empty_lists : State exhausted
empty_lists = record { list_heads = replicate 9 none; fallback_allocator = tt; memory = λ p. none }

alloc-dealloc_example :
    (t : State exhausted) × (FixedSizeBlock.dealloc exhausted 0x1010 ten empty_lists ≡ ok t)
    × (FixedSizeBlock.alloc exhausted (record { size = 16; align = 1 }) t
        ≡ ok (
          0x1010,
          record empty_lists { memory = write_node 0x1010 (record { next = none }) (λ p. none) },
        ))
alloc-dealloc_example =
    alloc-dealloc exhausted empty_lists ten (record { size = 16; align = 1 }) 1 0x1010 refl
      list_index-ten list_index-sixteen
