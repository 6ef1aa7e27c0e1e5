-- ===== src/Allocator/LinkedList/Partition.antt =====
-- The heap of min-rust-os/src/allocator/linked_list.rs as parts: the free regions, and the blocks of
-- the client with the sizes that the allocator gives them.
use os_resources.Prelude.{
  ℕ, ◌+◌, ◌%◌, ◌^◌, ◌≤◌, ◌<◌, ◌≡◌, ◌⊎◌, inl, inr, List, [], ◌∷◌, ◌++◌, All, All-imp, All-zip,
  All-middle, All-remove, AllPairs, AllPairs-remove, AllPairs-middle, arith,
}
use os_resources.Allocator.{IsLayout}
use os_resources.Allocator.Client.{Block, Disjoint, Fits, AreOwned}
use os_resources.Allocator.LinkedList.{ListNode, LinkedListAllocator}
use os_resources.Allocator.LinkedList.Adjusted.{adjusted_size}

-- No byte is in both parts.
abbrev pub Apart : ListNode → ListNode → Type 0
Apart a b = (a.start_addr + a.size ≤ b.start_addr) ⊎ (b.start_addr + b.size ≤ a.start_addr)

pub Apart-sym : (a b : ListNode) → Apart a b → Apart b a
Apart-sym a b (inl h) = inr h
Apart-sym a b (inr h) = inl h

-- The part of the heap that a block of the client takes.
abbrev pub part : Block → ListNode
part b = record { start_addr = b.addr; size = adjusted_size b.layout }

-- What holds of a block that the client owns.
pub record IsPart (lo hi : ℕ) (b : Block) : Type 0 where
  pub layout : IsLayout b.layout
  pub small : b.layout.size + 8 ≤ 2 ^ 64
  pub from : lo ≤ b.addr
  pub to : b.addr + adjusted_size b.layout ≤ hi
  pub enough : b.layout.size ≤ adjusted_size b.layout
  pub even : b.addr % 8 ≡ 0
  pub aligned : b.addr % b.layout.align ≡ 0

pub record IsRegion (lo hi : ℕ) (r : ListNode) : Type 0 where
  pub from : lo ≤ r.start_addr
  pub to : r.start_addr + r.size ≤ hi

-- The client owns `bs` of the heap from `lo` to `hi`: the regions and the blocks lie in the heap,
-- and no byte is in two of them.
pub record IsPartition (lo hi : ℕ) (a : LinkedListAllocator) (bs : List Block) : Type 0 where
  pub small : hi < 2 ^ 63
  pub nonnull : 0 < lo
  pub regions : All (IsRegion lo hi) a.next
  pub parts : All (IsPart lo hi) bs
  pub free_apart : AllPairs Apart a.next
  pub owned_apart : AllPairs (λ b c. Apart (part b) (part c)) bs
  pub between : All (λ r. All (λ b. Apart r (part b)) bs) a.next

parts-Disjoint :
    (lo hi : ℕ) (bs : List Block)
    → All (IsPart lo hi) bs
    → AllPairs (λ b c. Apart (part b) (part c)) bs
    → AllPairs Disjoint bs
parts-Disjoint lo hi [] parts apart = tt
parts-Disjoint lo hi (b ∷ bs) parts apart = (
  All-zip (IsPart lo hi) (λ c. Apart (part b) (part c)) (Disjoint b)
      (λ c q h. omega (arith, parts.0.enough, q.enough, h)) bs parts.1 apart.0,
  parts-Disjoint lo hi bs parts.1 apart.1,
)

pub IsPartition-AreOwned :
    {lo hi : ℕ} (a : LinkedListAllocator) (bs : List Block)
    → IsPartition lo hi a bs
    → AreOwned lo hi bs
IsPartition-AreOwned {lo} {hi} a bs v = record {
  fit =
      All-imp (IsPart lo hi) (Fits lo hi)
        (λ b q. record { from = q.from; to = omega (arith, q.to, q.enough); aligned = q.aligned })
        bs v.parts;
  apart = parts-Disjoint lo hi bs v.parts v.owned_apart;
}

-- A region that shares no byte with the others or the blocks joins the list.
pub add-IsPartition :
    {lo hi : ℕ} (n : ListNode) (a : LinkedListAllocator) (bs : List Block)
    → IsRegion lo hi n
    → All (Apart n) a.next
    → All (λ b. Apart n (part b)) bs
    → IsPartition lo hi a bs
    → IsPartition lo hi (record { next = n ∷ a.next }) bs
add-IsPartition n a bs inside free owned v = record {
  small = v.small;
  nonnull = v.nonnull;
  regions = (inside, v.regions);
  parts = v.parts;
  free_apart = (free, v.free_apart);
  owned_apart = v.owned_apart;
  between = (owned, v.between);
}

-- A block that is given back leaves the parts of the client.
pub remove-IsPartition :
    {lo hi : ℕ} (a : LinkedListAllocator) (xs : List Block) (b : Block) (ys : List Block)
    → IsPartition lo hi a (xs ++ b ∷ ys)
    → IsPartition lo hi a (xs ++ ys)
remove-IsPartition {lo} {hi} a xs b ys v = record {
  small = v.small;
  nonnull = v.nonnull;
  regions = v.regions;
  parts = All-remove (IsPart lo hi) xs b ys v.parts;
  free_apart = v.free_apart;
  owned_apart = AllPairs-remove (λ b c. Apart (part b) (part c)) xs b ys v.owned_apart;
  between = All-imp _ _ (λ r h. All-remove (λ c. Apart r (part c)) xs b ys h) a.next v.between;
}

-- The region `r` is taken out of the list, and the block `b` that lies in it goes to the client.
module _ {lo hi : ℕ} (xs : List ListNode) (r : ListNode) (ys : List ListNode) (bs : List Block)
    (v : IsPartition lo hi (record { next = xs ++ r ∷ ys }) bs) where
  -- Every part that lies in the region is apart from what the region is apart from.
  inner-Apart :
      (n : ListNode)
      → r.start_addr ≤ n.start_addr
      → n.start_addr + n.size ≤ r.start_addr + r.size
      → All (Apart n) (xs ++ ys) × All (λ b. Apart n (part b)) bs
  inner-Apart n from to = (
    All-imp (Apart r) (Apart n) (λ q h. omega (arith, h)) (xs ++ ys)
        (AllPairs-middle Apart Apart-sym xs r ys v.free_apart),
    All-imp (λ b. Apart r (part b)) (λ b. Apart n (part b)) (λ b h. omega (arith, h)) bs
        (All-middle _ xs r ys v.between),
  )

  pub taken-IsPartition :
      (b : Block)
      → IsPart lo hi b
      → r.start_addr ≤ b.addr
      → b.addr + adjusted_size b.layout ≤ r.start_addr + r.size
      → IsPartition lo hi (record { next = xs ++ ys }) (b ∷ bs)
  taken-IsPartition b inside from to =
      let (free, owned) = inner-Apart (part b) from to in
      record {
        small = v.small;
        nonnull = v.nonnull;
        regions = All-remove (IsRegion lo hi) xs r ys v.regions;
        parts = (inside, v.parts);
        free_apart = AllPairs-remove Apart xs r ys v.free_apart;
        owned_apart = (owned, v.owned_apart);
        between =
            All-zip (Apart (part b)) _ _ (λ q h k. (Apart-sym (part b) q h, k)) (xs ++ ys) free
              (All-remove _ xs r ys v.between);
      }

  pub divided-IsPartition :
      (b : Block) (excess : ℕ)
      → IsPart lo hi b
      → r.start_addr ≤ b.addr
      → b.addr + adjusted_size b.layout + excess ≡ r.start_addr + r.size
      → IsPartition lo hi
          (record {
            next =
                record { start_addr = b.addr + adjusted_size b.layout; size = excess } ∷ xs ++ ys;
          })
          (b ∷ bs)
  divided-IsPartition b excess inside from to =
      let n : ListNode = record { start_addr = b.addr + adjusted_size b.layout; size = excess } in
      let (free, owned) = inner-Apart n (omega arith) (omega arith) in
      let whole = All-middle (IsRegion lo hi) xs r ys v.regions in
      add-IsPartition n (record { next = xs ++ ys }) (b ∷ bs)
        (record { from = omega (arith, whole.from); to = omega (arith, whole.to) }) free
        (inr (omega arith), owned) (taken-IsPartition b inside from (omega arith))
