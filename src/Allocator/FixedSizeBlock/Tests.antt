-- ===== src/Allocator/FixedSizeBlock/Tests.antt =====
-- Runs of min-rust-os/src/allocator/fixed_size_block.rs over a fallback that hands its memory out
-- from the start to the end and takes nothing back.
use os_resources.Prelude.{
  ℕ, ◌≡◌, ok, Option, none, some, List, [], ◌∷◌, map, get_elem?, replicate, All, arith, refl,
}
use os_resources.Allocator.{Layout, IsLayout, from_size_align}
use os_resources.Allocator.Align.{next_multiple}
use os_resources.Allocator.Client.{Block, Disjoint, AreOwned, Reach, here, next, allocate, release}
use os_resources.Allocator.FixedSizeBlock.{
  Memory, State, new, init, alloc, alloc_block, new_block, fallback_alloc, list_index, dealloc,
  dealloc_block, write_node, fixed_size_block_allocator,
}
use os_resources.Allocator.FixedSizeBlock.Free.{Chain, column, free_block}
use os_resources.Allocator.FixedSizeBlock.Safety.{
  WritesInside, Reach-AreOwned-Chain, AreServed, Reach-AreServed,
}
use os_resources.Allocator.FixedSizeBlock.InOrder.{in_order, in_order-Contract}

abbrev five_bytes : Layout
five_bytes = record { size = 5; align = 2 }

five_bytes-IsLayout : IsLayout five_bytes
five_bytes-IsLayout = record { log = 1; log_lt = omega arith; pow = refl; fits = omega arith }

abbrev no_nodes : Memory
no_nodes q = none

abbrev start : State in_order
start = record {
  list_heads = replicate 9 none;
  fallback_allocator = (4100, 4200);
  memory = no_nodes;
}

start_eq : init in_order 4100 100 (new in_order no_nodes) ≡ start
unfolding init new
start_eq = refl

abbrev with_five : State in_order
with_five = record start { fallback_allocator = (4112, 4200) }

five_bytes_alloc : alloc in_order five_bytes start ≡ ok (4104, with_five)
unfolding alloc alloc_block new_block fallback_alloc list_index from_size_align next_multiple
five_bytes_alloc = refl

abbrev twenty_bytes : Layout
twenty_bytes = record { size = 20; align = 4 }

twenty_bytes-IsLayout : IsLayout twenty_bytes
twenty_bytes-IsLayout = record { log = 2; log_lt = omega arith; pow = refl; fits = omega arith }

abbrev with_both : State in_order
with_both = record start { fallback_allocator = (4160, 4200) }

twenty_bytes_alloc : alloc in_order twenty_bytes with_five ≡ ok (4128, with_both)
unfolding alloc alloc_block new_block fallback_alloc list_index from_size_align next_multiple
twenty_bytes_alloc = refl

abbrev five_back : State in_order
five_back = record with_both {
  list_heads = some 4104 ∷ replicate 8 none;
  memory = write_node 4104 (record { next = none }) no_nodes;
}

five_bytes_dealloc : dealloc in_order 4104 five_bytes with_both ≡ ok five_back
unfolding dealloc dealloc_block list_index
five_bytes_dealloc = refl

abbrev five_block : Block
five_block = record { addr = 4104; layout = five_bytes }

abbrev twenty_block : Block
twenty_block = record { addr = 4128; layout = twenty_bytes }

Reach-both :
    Reach
      (fixed_size_block_allocator in_order)
      WritesInside
      start
      with_both
      (twenty_block ∷ five_block ∷ [])
unfolding fixed_size_block_allocator
Reach-both =
    next
      (next here
        (allocate 4104 five_bytes five_bytes-IsLayout (omega arith) five_bytes_alloc (omega arith)))
      (allocate 4128 twenty_bytes twenty_bytes-IsLayout (omega arith) twenty_bytes_alloc
        (omega arith))

Reach-five_back :
    Reach
      (fixed_size_block_allocator in_order)
      WritesInside
      (init in_order 4100 100 (new in_order no_nodes))
      five_back
      (twenty_block ∷ [])
unfolding fixed_size_block_allocator
Reach-five_back =
    rw start_eq
      (next Reach-both (release (twenty_block ∷ []) five_block [] refl refl five_bytes_dealloc))

Reach-AreOwned-Chain_example :
    AreOwned 4100 4200 (twenty_block ∷ [])
    × ((free : List (ℕ × ℕ)) × All (λ b. All (Disjoint b) (map free_block free)) (twenty_block ∷ [])
        × ((i : ℕ) (head : Option ℕ)
            → get_elem? five_back.list_heads i ≡ some head
            → Chain five_back.memory head (column i free)))
Reach-AreOwned-Chain_example =
    Reach-AreOwned-Chain 4100 100 (in_order-Contract 4100 4200) no_nodes (omega arith)
      Reach-five_back

Reach-AreServed_example :
    AreServed 4100 100 (in_order-Contract 4100 4200) no_nodes (omega arith) Reach-five_back
Reach-AreServed_example =
    Reach-AreServed 4100 100 (in_order-Contract 4100 4200) no_nodes (omega arith) Reach-five_back
