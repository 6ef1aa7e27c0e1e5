-- ===== src/Allocator/Client.antt =====
-- What a client of a `GlobalAlloc` may do, and what it relies on. The client owns the blocks that
-- it was given and has not given back; it asks for blocks, gives owned blocks back with the layout
-- they were asked for with, and writes to owned blocks. Any allocator of the kernel fits.
use os_resources.Prelude.{
  ℕ, ◌+◌, ◌%◌, ◌≤◌, ◌<◌, ◌≡◌, ◌≢◌, ◌⊎◌, ok, List, [], ◌∷◌, ◌++◌, All, AllPairs,
}
use os_resources.Allocator.{Layout, IsLayout, null, GlobalAlloc}

pub record Block : Type 0 where
  pub addr : ℕ
  pub layout : Layout

-- No byte is in both blocks.
abbrev pub Disjoint : Block → Block → Type 0
Disjoint a b = (a.addr + a.layout.size ≤ b.addr) ⊎ (b.addr + b.layout.size ≤ a.addr)

abbrev pub AllDisjoint : List Block → Type 0
AllDisjoint = AllPairs Disjoint

-- The block lies in the memory from `lo` to `hi`, at an address that its layout asks for.
pub record Fits (lo hi : ℕ) (b : Block) : Type 0 where
  pub from : lo ≤ b.addr
  pub to : b.addr + b.layout.size ≤ hi
  pub aligned : b.addr % b.layout.align ≡ 0

-- What the blocks of a client must be: in the heap, aligned, and pairwise disjoint.
pub record AreOwned (lo hi : ℕ) (bs : List Block) : Type 0 where
  pub fit : All (Fits lo hi) bs
  pub apart : AllDisjoint bs

-- `Writes b s t`: a write of the client to its block `b` turns the memory in `s` into that in `t`.
module _ {S : Type 0} (g : GlobalAlloc S) (Writes : Block → S → S → Type 0) where
  -- A request that is refused returns the null pointer.
  pub data Step : S → List Block → S → List Block → Type 0 where
    allocate :
        {s t : S} {bs : List Block} (p : ℕ) (l : Layout)
        → IsLayout l
        → 0 < l.size
        → g.alloc l s ≡ ok (p, t)
        → p ≢ null
        → Step s bs t (record { addr = p; layout = l } ∷ bs)
    refuse :
        {s t : S} {bs : List Block} (l : Layout)
        → IsLayout l
        → 0 < l.size
        → g.alloc l s ≡ ok (null, t)
        → Step s bs t bs
    release :
        {s t : S} (xs : List Block) (b : Block) (ys : List Block) {bs cs : List Block}
        → bs ≡ xs ++ b ∷ ys
        → cs ≡ xs ++ ys
        → g.dealloc b.addr b.layout s ≡ ok t
        → Step s bs t cs
    write :
        {s t : S} (xs : List Block) (b : Block) (ys : List Block) {bs : List Block}
        → bs ≡ xs ++ b ∷ ys
        → Writes b s t
        → Step s bs t bs

  -- Any number of steps from a fresh heap, which the client owns nothing of.
  pub data Reach (s : S) : S → List Block → Type 0 where
    here : Reach s s []
    next : {t u : S} {bs cs : List Block} → Reach s t bs → Step t bs u cs → Reach s u cs

-- What a step keeps holds in every reachable state.
pub Reach-keeps {κ} :
    {S : Type 0} (g : GlobalAlloc S) (Writes : Block → S → S → Type 0)
    (Inv : S → List Block → Type κ)
    → ((s t : S) (bs cs : List Block) → Step g Writes s bs t cs → Inv s bs → Inv t cs)
    → {s t : S} {bs : List Block} → Inv s []
    → Reach g Writes s t bs
    → Inv t bs
Reach-keeps g Writes Inv keep start here = start
Reach-keeps g Writes Inv keep start (next r st) =
    keep _ _ _ _ st (Reach-keeps g Writes Inv keep start r)
