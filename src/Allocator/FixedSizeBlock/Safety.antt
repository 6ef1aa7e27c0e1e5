-- ===== src/Allocator/FixedSizeBlock/Safety.antt =====
-- What the allocator of min-rust-os/src/allocator/fixed_size_block.rs promises its client.
use os_resources.Prelude.{
  ℕ, zero, suc, ◌+◌, ◌≤◌, ◌<◌, ◌≡◌, ◌≢◌, ◌⊎◌, inl, inr, Result, ok, Returns, Returns-ok,
  Returns-mono, Option, none, some, List, [], ◌∷◌, ◌++◌, map, replicate, All, All-middle, get_elem?,
  arith, refl, subst,
}
use os_resources.Allocator.{Layout, IsLayout, null}
use os_resources.Allocator.Client.{
  Block, Disjoint, AreOwned, Step, allocate, refuse, release, write, Reach, Reach-keeps,
}
use os_resources.Allocator.FixedSizeBlock.{
  Memory, node_size, Fallback, State, new, init, alloc, dealloc, fixed_size_block_allocator,
}
use os_resources.Allocator.FixedSizeBlock.Contract.{Contract}
use os_resources.Allocator.FixedSizeBlock.Free.{Chain, column, free_block}
use os_resources.Allocator.FixedSizeBlock.Kept.{
  raw, IsKept, Disjoint-nodes, Chain-nodes, owned-first, first-Disjoint,
}
use os_resources.Allocator.FixedSizeBlock.Owned.{raw-Covers, held-AreOwned, free-Disjoint}
use os_resources.Allocator.FixedSizeBlock.Served.{Serves, grants, refuses, alloc-Serves}
use os_resources.Allocator.FixedSizeBlock.Released.{dealloc-IsKept}

-- A client that writes to its block destroys no node outside of it.
abbrev pub WritesInside : {f : Fallback} → Block → State f → State f → Type 0
WritesInside b s t =
    (m : Memory) × (t ≡ record s { memory = m })
    × ((q : ℕ) → (q + node_size ≤ b.addr) ⊎ (b.addr + b.layout.size ≤ q) → m q ≡ s.memory q)

module _ {f : Fallback} {lo hi : ℕ} (c : Contract f lo hi) (pos : 0 < lo) where
  served-IsKept :
      (l : Layout) (bs : List Block) (o : Result (ℕ × State f)) (p : ℕ) (t : State f)
      → Serves c l bs o
      → o ≡ ok (p, t)
      → p ≢ null
      → IsKept c t (record { addr = p; layout = l } ∷ bs)
  served-IsKept l bs o p t (grants q u from v) e ne =
      let at : q ≡ p = cc e in let same : u ≡ t = cc e in rw (← at, ← same) v
  served-IsKept l bs o p t (refuses u v) e ne = absurd (ne (cc e))

  refused-IsKept :
      (l : Layout) (bs : List Block) (o : Result (ℕ × State f)) (t : State f)
      → Serves c l bs o
      → o ≡ ok (null, t)
      → IsKept c t bs
  refused-IsKept l bs o t (grants q u from v) e =
      let at : q ≡ 0 = cc e in absurd (omega (arith, at, from, pos))
  refused-IsKept l bs o t (refuses u v) e = let same : u ≡ t = cc e in rw (← same) v

  written-IsKept :
      (s t : State f) (xs : List Block) (b : Block) (ys : List Block)
      → WritesInside b s t
      → IsKept c s (xs ++ b ∷ ys)
      → IsKept c t (xs ++ b ∷ ys)
  written-IsKept s t xs b ys (m, same, outside) v =
      let covers = raw-Covers b (All-middle _ xs b ys v.layouts) in
      let nodes =
        Disjoint-nodes s.memory m (raw b) v.free
          (λ q far. outside q (elim far [
            | inl before ↦ inl (omega (arith, before, covers.addr))
            | inr after ↦ inr (omega (arith, after, covers.addr, covers.size))
          ]))
          v.indices
          (first-Disjoint c s.fallback_allocator (raw b) (xs ++ ys) v.free
            (owned-first c s.fallback_allocator xs b ys v.free v.holds)) in
      rw same (record {
        free = v.free;
        lists = v.lists;
        indices = v.indices;
        chains = λ i head at. Chain-nodes s.memory m head i v.free nodes (v.chains i head at);
        holds = v.holds;
        layouts = v.layouts;
      })

  Step-IsKept :
      (s t : State f) (bs cs : List Block)
      → Step (fixed_size_block_allocator f) WritesInside s bs t cs
      → IsKept c s bs
      → IsKept c t cs
  unfolding fixed_size_block_allocator
  Step-IsKept s t bs cs (allocate p l h size e ne) v =
      served-IsKept l bs (alloc f l s) p t (alloc-Serves c l s bs h size v) e ne
  Step-IsKept s t bs cs (refuse l h size e) v =
      refused-IsKept l bs (alloc f l s) t (alloc-Serves c l s bs h size v) e
  Step-IsKept s t bs cs (release xs b ys e e' d) v =
      let freed = dealloc-IsKept c s xs b ys (subst (IsKept c s) e v) pos in
      let same : freed.value ≡ t = cc (freed.returns, d) in rw (e', ← same) freed.holds
  Step-IsKept s t bs cs (write xs b ys e w) v =
      rw e (written-IsKept s t xs b ys w (subst (IsKept c s) e v))

replicate-none :
    (n i : ℕ) (head : Option ℕ) → get_elem? (replicate n none) i ≡ some head → head ≡ none
replicate-none zero i head e = absurd cc e
replicate-none (suc n) zero head e = cc e
replicate-none (suc n) (suc i) head e = replicate-none n i head e

init-IsKept :
    {f : Fallback} {lo hi : ℕ} (c : Contract f lo hi) (size : ℕ) (m : Memory)
    → lo + size ≡ hi
    → IsKept c (init f lo size (new f m)) []
unfolding init new
init-IsKept c size m e = record {
  free = [];
  lists = refl;
  indices = tt;
  chains = λ i head at. replicate-none 9 i head at;
  holds = c.init-Holds size m e;
  layouts = tt;
}

module _ {f : Fallback} {t : State f} {bs : List Block} (lo size : ℕ)
    (c : Contract f lo (lo + size)) (m : Memory) (pos : 0 < lo)
    (r : Reach (fixed_size_block_allocator f) WritesInside (init f lo size (new f m)) t bs) where
  Reach-IsKept : IsKept c t bs
  Reach-IsKept =
      Reach-keeps (fixed_size_block_allocator f) WritesInside (IsKept c)
        (λ s t bs cs st v. Step-IsKept c pos s t bs cs st v) (init-IsKept c size m refl) r

  -- With a fallback that keeps its contract, for a heap at a non-null address, whatever a client of
  -- the initialised allocator does (requests granted or refused, blocks given back in any order,
  -- writes to owned blocks), the blocks that it owns lie in the heap, at multiples of their
  -- alignments, and share no byte; and no free block of a list shares a byte with one of them.
  pub Reach-AreOwned-Chain :
      AreOwned lo (lo + size) bs
      × ((free : List (ℕ × ℕ)) × All (λ b. All (Disjoint b) (map free_block free)) bs
          × ((i : ℕ) (head : Option ℕ)
              → get_elem? t.list_heads i ≡ some head
              → Chain t.memory head (column i free)))
  Reach-AreOwned-Chain =
      let v = Reach-IsKept in
      (
        held-AreOwned bs v.free v.layouts (c.Holds-AreOwned _ _ v.holds),
        (
          v.free,
          free-Disjoint bs (map free_block v.free) v.layouts (c.Holds-AreOwned _ _ v.holds).apart,
          v.chains,
        ),
      )

  -- What a client can rely on in a state: a request is granted at an address that is not null or
  -- refused, and a block that it owns is taken back. Neither panics.
  pub record AreServed : Type 0 where
    request :
        (l : Layout)
        → IsLayout l
        → 0 < l.size
        → Returns (λ (p, t'). (p ≡ null) ⊎ (lo ≤ p)) (alloc f l t)
    give_back :
        (xs : List Block) (b : Block) (ys : List Block)
        → bs ≡ xs ++ b ∷ ys
        → Returns (λ t'. Unit {0}) (dealloc f b.addr b.layout t)

  Serves-Returns :
      (l : Layout) (o : Result (ℕ × State f))
      → Serves c l bs o
      → Returns (λ (p, t'). (p ≡ null) ⊎ (lo ≤ p)) o
  Serves-Returns l _ (grants p t' from v) = Returns-ok (p, t') (inr from)
  Serves-Returns l _ (refuses t' v) = Returns-ok (null, t') (inl refl)

  -- In every state that a client can reach so, each request returns and each block that the client
  -- owns can be given back: no access through a list leads to memory that holds no node, and no
  -- assertion fails.
  pub Reach-AreServed : AreServed
  Reach-AreServed =
      let v = Reach-IsKept in
      record {
        request = λ l h size_pos. Serves-Returns l _ (alloc-Serves c l t bs h size_pos v);
        give_back = λ xs b ys e.
            Returns-mono (dealloc-IsKept c t xs b ys (subst (IsKept c t) e v) pos) (λ t' k. tt);
      }
