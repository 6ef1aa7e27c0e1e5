-- ===== src/Allocator/LinkedList/Regions.antt =====
-- Which region `find_region` of min-rust-os/src/allocator/linked_list.rs takes.
use native.Mathlib.Nat.{pow-le-pow_right}
use os_resources.Prelude.{
  Returns, Returns-ok, leb→le, ℕ, ◌+◌, ◌^◌, ◌≤◌, ◌<◌, ◌≡◌, inl, inr, Bool-cases, leb, if◌then◌else◌,
  ok, Option, none, some, List, [], ◌∷◌, ◌++◌, All, arith, refl, ap,
}
use os_resources.Prelude.Words.{add_usize, checked_add}
use os_resources.Allocator.Align.{next_multiple, align_up-eq}
use os_resources.Allocator.LinkedList.{ListNode, end_addr, alloc_from_region, find_region}

-- The region lies low enough for all sums with it to fit a word.
pub record IsLow (r : ListNode) : Type 0 where
  pub low : r.start_addr + r.size < 2 ^ 63

-- The block from the least aligned address in the region on ends in the region.
unfoldable pub Holds : ListNode → ℕ → ℕ → Type 0
Holds r size align = next_multiple r.start_addr align + size ≤ r.start_addr + r.size

alloc_from_region-Holds :
    (r : ListNode) (size log : ℕ)
    → IsLow r
    → log < 64
    → alloc_from_region r size (2 ^ log)
      ≡ ok (
          if leb (next_multiple r.start_addr (2 ^ log) + size) (r.start_addr + r.size)
          then some (next_multiple r.start_addr (2 ^ log))
          else none)
unfolding alloc_from_region end_addr add_usize checked_add
alloc_from_region-Holds r size log low lt =
    let pow = pow-le-pow_right {n = 2} (omega arith) {i = log} {j = 63} (omega arith) in
    ground (arith, low.low, pow, align_up-eq r.start_addr log (omega arith))

-- What `find_region` finds in a list of regions: the first that holds the block, with the list
-- without it, or none where no region holds it.
pub data Finds (size align : ℕ) (rs : List ListNode)
    : Option (ListNode × ℕ) × List ListNode → Type 0 where
  finds :
      (xs : List ListNode) (r : ListNode) (ys : List ListNode)
      → rs ≡ xs ++ r ∷ ys
      → All (λ x. ¬ (Holds x size align)) xs
      → Holds r size align
      → Finds size align rs (some (r, next_multiple r.start_addr align), xs ++ ys)
  finds_none : All (λ x. ¬ (Holds x size align)) rs → Finds size align rs (none, rs)

Finds-later :
    (size align : ℕ) (r : ListNode) (rs : List ListNode) {found : Option (ListNode × ℕ)}
    {rest : List ListNode}
    → ¬ (Holds r size align)
    → Finds size align rs (found, rest)
    → Finds size align (r ∷ rs) (found, r ∷ rest)
Finds-later size align r rs past (finds xs q ys at before holds) =
    finds (r ∷ xs) q ys (ap (λ l. r ∷ l) at) (past, before) holds
Finds-later size align r rs past (finds_none all) = finds_none (past, all)

-- Where all regions lie below 2 ^ 63 and the alignment is a power of two below 2 ^ 64,
-- `find_region` returns: it takes the first region in which the block from the least aligned
-- address on fits, and no region where it fits in none. The other regions stay as they are.
pub find_region-Finds :
    (size log : ℕ) (rs : List ListNode)
    → All IsLow rs
    → log < 64
    → Returns (Finds size (2 ^ log) rs) (find_region size (2 ^ log) rs)
unfolding find_region Holds
find_region-Finds size log [] low lt = Returns-ok (none, []) (finds_none tt)
find_region-Finds size log (r ∷ rs) low lt =
    let fits = alloc_from_region-Holds r size log low.0 lt in
    elim (Bool-cases (leb (next_multiple r.start_addr (2 ^ log) + size) (r.start_addr + r.size))) [
      | inl inside ↦ record {
        value = (some (r, next_multiple r.start_addr (2 ^ log)), rs);
        returns = rw (fits, inside) refl;
        holds = finds [] r rs refl tt (leb→le _ _ inside);
      }
      | inr past ↦
          let rest = find_region-Finds size log rs low.1 lt in
          record {
            value = (rest.value.0, r ∷ rest.value.1);
            returns = rw (fits, past, rest.returns) refl;
            holds = Finds-later size (2 ^ log) r rs (λ h. ground arith) rest.holds;
          }
    ]
