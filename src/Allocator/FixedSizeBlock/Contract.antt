-- ===== src/Allocator/FixedSizeBlock/Contract.antt =====
-- What min-rust-os/src/allocator/fixed_size_block.rs relies on its fallback for. The crate
-- `linked_list_allocator` promises it of its `Heap`.
use os_resources.Prelude.{ℕ, ◌+◌, ◌≤◌, ◌<◌, ◌≡◌, ◌↔◌, none, some, List, [], ◌∷◌, ◌++◌, All}
use os_resources.Allocator.{Layout, IsLayout}
use os_resources.Allocator.Client.{Block, AreOwned}
use os_resources.Allocator.FixedSizeBlock.{Memory, node_size, Fallback}

-- The nodes inside the blocks are as before.
abbrev pub Keeps : Memory → Memory → List Block → Type 0
Keeps m m' bs =
    All (λ (b : Block). (q : ℕ) → b.addr ≤ q → q + node_size ≤ b.addr + b.layout.size → m' q ≡ m q)
      bs

-- `Holds heap bs`: the blocks that the heap has handed out and not got back are `bs`, in any order.
-- They lie in the memory from `lo` to `hi` and share no byte, and the heap does not touch them.
pub record Contract (f : Fallback) (lo hi : ℕ) : Type 1 where
  pub Holds : f.Heap → List Block → Type 0
  pub Holds-AreOwned : (h : f.Heap) (bs : List Block) → Holds h bs → AreOwned lo hi bs
  pub Holds-order :
      (h : f.Heap) (xs : List Block) (b : Block) (ys : List Block)
      → Holds h (xs ++ b ∷ ys) ↔ Holds h (b ∷ xs ++ ys)
  pub init-Holds :
      (size : ℕ) (m : Memory) → lo + size ≡ hi → Holds (f.init lo size (f.empty, m)).0 []
  pub allocate-some :
      (l : Layout) (h : f.Heap) (m : Memory) (bs : List Block) (p : ℕ)
      → Holds h bs
      → IsLayout l
      → 0 < l.size
      → (f.allocate_first_fit l (h, m)).0 ≡ some p
      → Holds (f.allocate_first_fit l (h, m)).1.0 (record { addr = p; layout = l } ∷ bs)
        × Keeps m (f.allocate_first_fit l (h, m)).1.1 bs
  pub allocate-none :
      (l : Layout) (h : f.Heap) (m : Memory) (bs : List Block)
      → Holds h bs
      → IsLayout l
      → 0 < l.size
      → (f.allocate_first_fit l (h, m)).0 ≡ none
      → Holds (f.allocate_first_fit l (h, m)).1.0 bs
        × Keeps m (f.allocate_first_fit l (h, m)).1.1 bs
  pub deallocate-Holds :
      (b : Block) (h : f.Heap) (m : Memory) (bs : List Block)
      → Holds h (b ∷ bs)
      → Holds (f.deallocate b.addr b.layout (h, m)).0 bs
        × Keeps m (f.deallocate b.addr b.layout (h, m)).1 bs
