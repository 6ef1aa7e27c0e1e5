-- ===== src/Allocator/FixedSizeBlock/Owned.antt =====
-- The blocks of a client of min-rust-os/src/allocator/fixed_size_block.rs inside those that the
-- fallback gave for them.
use os_resources.Prelude.{
  ℕ, ◌%◌, ◌≤◌, ◌≡◌, inl, inr, Option-cases, List, [], ◌∷◌, ◌++◌, map, All, All-after, All-before,
  All-imp, AllPairs, AllPairs-before, arith, refl,
}
use os_resources.Allocator.{IsLayout}
use os_resources.Allocator.Client.{Block, Disjoint, Fits, AreOwned}
use os_resources.Allocator.FixedSizeBlock.{list_index}
use os_resources.Allocator.FixedSizeBlock.Blocks.{list_index-serves}
use os_resources.Allocator.FixedSizeBlock.Free.{Free, size_of, free_block, block_sizes-size_of}
use os_resources.Allocator.FixedSizeBlock.Kept.{raw, raw_indexed, raw_large, held}
use os_resources.Allocator.FixedSizeBlock.Served.{list_index-lt, list_index-size}

-- A block stands at the start of the one that was given for it, where it is aligned.
pub record Covers (r b : Block) : Type 0 where
  pub addr : r.addr ≡ b.addr
  pub size : b.layout.size ≤ r.layout.size
  pub aligned : r.addr % r.layout.align ≡ 0 → b.addr % b.layout.align ≡ 0

pub raw-Covers : (b : Block) → IsLayout b.layout → Covers (raw b) b
raw-Covers b h = elim (Option-cases (list_index b.layout)) [
  | inl large ↦
      rw (raw_large b.layout large b.addr)
        (record { addr = refl; size = omega arith; aligned = λ e. e })
  | inr (i, indexed) ↦
      let at = block_sizes-size_of i (list_index-lt b.layout i indexed) in
      let serves = λ (e : b.addr % size_of i ≡ 0).
        list_index-serves b.layout i (size_of i) b.addr h indexed at e in
      rw (raw_indexed b.layout i indexed b.addr) (record {
        addr = refl;
        size = list_index-size b.layout i indexed;
        aligned = λ e. (serves e).1;
      })
]

Fits-raw : {lo hi : ℕ} (b : Block) → IsLayout b.layout → Fits lo hi (raw b) → Fits lo hi b
Fits-raw b h w =
    let c = raw-Covers b h in
    record {
      from = omega (arith, w.from, c.addr);
      to = omega (arith, w.to, c.addr, c.size);
      aligned = c.aligned w.aligned;
    }

pub Disjoint-raw :
    (a b : Block) → IsLayout a.layout → IsLayout b.layout → Disjoint (raw a) (raw b) → Disjoint a b
Disjoint-raw a b h k d =
    let c = raw-Covers a h in
    let c' = raw-Covers b k in
    elim d [
      | inl before ↦ inl (omega (arith, before, c.addr, c.size, c'.addr))
      | inr after ↦ inr (omega (arith, after, c.addr, c'.addr, c'.size))
    ]

AllFit-raw :
    (lo hi : ℕ) (bs : List Block)
    → All (λ (b : Block). IsLayout b.layout) bs
    → All (Fits lo hi) (map raw bs)
    → All (Fits lo hi) bs
AllFit-raw lo hi [] h w = tt
AllFit-raw lo hi (b ∷ bs) h w = (Fits-raw b h.0 w.0, AllFit-raw lo hi bs h.1 w.1)

OneDisjoint-raw :
    (a : Block) (bs : List Block)
    → IsLayout a.layout
    → All (λ (b : Block). IsLayout b.layout) bs
    → All (Disjoint (raw a)) (map raw bs)
    → All (Disjoint a) bs
OneDisjoint-raw a [] k h d = tt
OneDisjoint-raw a (b ∷ bs) k h d = (Disjoint-raw a b k h.0 d.0, OneDisjoint-raw a bs k h.1 d.1)

AllDisjoint-raw :
    (bs : List Block)
    → All (λ (b : Block). IsLayout b.layout) bs
    → AllPairs Disjoint (map raw bs)
    → AllPairs Disjoint bs
AllDisjoint-raw [] h d = tt
AllDisjoint-raw (b ∷ bs) h d = (OneDisjoint-raw b bs h.0 h.1 d.0, AllDisjoint-raw bs h.1 d.1)

pub held-AreOwned :
    {lo hi : ℕ} (bs : List Block) (free : Free)
    → All (λ (b : Block). IsLayout b.layout) bs
    → AreOwned lo hi (held bs free)
    → AreOwned lo hi bs
held-AreOwned {lo} {hi} bs free h o = record {
  fit = AllFit-raw lo hi bs h (All-before (Fits lo hi) (map raw bs) (map free_block free) o.fit);
  apart =
      AllDisjoint-raw bs h (AllPairs-before Disjoint (map raw bs) (map free_block free) o.apart);
}

Disjoint-covered : (r b x : Block) → Covers r b → Disjoint r x → Disjoint b x
Disjoint-covered r b x c d = elim d [
  | inl before ↦ inl (omega (arith, before, c.addr, c.size))
  | inr after ↦ inr (omega (arith, after, c.addr))
]

-- The free blocks share no byte with those of the client.
pub free-Disjoint :
    (bs free : List Block)
    → All (λ (b : Block). IsLayout b.layout) bs
    → AllPairs Disjoint (map raw bs ++ free)
    → All (λ (b : Block). All (Disjoint b) free) bs
free-Disjoint [] free h d = tt
free-Disjoint (b ∷ bs) free h d = (
  All-imp (Disjoint (raw b)) (Disjoint b) (λ x. Disjoint-covered (raw b) b x (raw-Covers b h.0))
      free (All-after (Disjoint (raw b)) (map raw bs) free d.0),
  free-Disjoint bs free h.1 d.1,
)
