-- ===== src/Allocator/FixedSizeBlock/InOrder.antt =====
-- A fallback for min-rust-os/src/allocator/fixed_size_block.rs that hands its memory out from the
-- start to the end and takes nothing back. It keeps the contract.
use os_resources.Prelude.{
  ℕ, ◌+◌, ◌≤◌, ◌≡◌, inl, inr, ◌↔◌, leb, if◌then◌else◌, Bool-cases, Option, none, some, List, [],
  ◌∷◌, ◌++◌, All, All-imp, All-middle, All-remove, All-insert, AllPairs, AllPairs-remove,
  AllPairs-middle, AllPairs-insert, arith, refl,
}
use os_resources.Allocator.{Layout, IsLayout}
use os_resources.Allocator.Align.{next_multiple, next_multiple-IsRoundedUp, IsLayout-align}
use os_resources.Allocator.Client.{Block, Disjoint, Fits}
use os_resources.Allocator.FixedSizeBlock.{Memory, Fallback}
use os_resources.Allocator.FixedSizeBlock.Contract.{Contract, Keeps}

-- Where the free memory starts and ends.
abbrev pub serve : Layout → (ℕ × ℕ) × Memory → Option ℕ × ((ℕ × ℕ) × Memory)
serve l ((start, end), m) =
    if leb (next_multiple start l.align + l.size) end
    then (some (next_multiple start l.align), ((next_multiple start l.align + l.size, end), m))
    else (none, ((start, end), m))

abbrev pub in_order : Fallback
in_order = record {
  Heap = ℕ × ℕ;
  empty = (0, 0);
  init = λ start size (h, m). ((start, start + size), m);
  allocate_first_fit = serve;
  deallocate = λ p l s. s;
}

abbrev HasGiven : ℕ → ℕ → ℕ × ℕ → List Block → Type 0
HasGiven lo hi (start, end) bs =
    (lo ≤ start) × (start ≤ hi) × (end ≡ hi) × All (Fits lo start) bs × AllPairs Disjoint bs

Disjoint-flip : (a b : Block) → Disjoint a b → Disjoint b a
Disjoint-flip a b (inl before) = inr before
Disjoint-flip a b (inr after) = inl after

HasGiven-order :
    (lo hi : ℕ) (h : ℕ × ℕ) (xs : List Block) (b : Block) (ys : List Block)
    → HasGiven lo hi h (xs ++ b ∷ ys) ↔ HasGiven lo hi h (b ∷ xs ++ ys)
HasGiven-order lo hi (start, end) xs b ys = (
  (λ (from, to, at, fit, apart). (
    from,
    to,
    at,
    (All-middle (Fits lo start) xs b ys fit, All-remove (Fits lo start) xs b ys fit),
    (AllPairs-middle Disjoint Disjoint-flip xs b ys apart, AllPairs-remove Disjoint xs b ys apart),
  )),
  (λ (from, to, at, fit, apart). (
    from,
    to,
    at,
    All-insert (Fits lo start) xs b ys fit.0 fit.1,
    AllPairs-insert Disjoint Disjoint-flip xs b ys apart.0 apart.1,
  )),
)

same-Keeps : (m : Memory) (bs : List Block) → Keeps m m bs
same-Keeps m [] = tt
same-Keeps m (b ∷ bs) = ((λ q from to. refl), same-Keeps m bs)

Fits-later : (lo a b : ℕ) → a ≤ b → (x : Block) → Fits lo a x → Fits lo b x
Fits-later lo a b h x w = record { from = w.from; to = omega (arith, w.to, h); aligned = w.aligned }

given-HasGiven :
    (lo hi start : ℕ) (l : Layout) (bs : List Block)
    → HasGiven lo hi (start, hi) bs
    → IsLayout l
    → next_multiple start l.align + l.size ≤ hi
    → HasGiven lo hi
        (next_multiple start l.align + l.size, hi)
        (record { addr = next_multiple start l.align; layout = l } ∷ bs)
given-HasGiven lo hi start l bs (from, to, at, fit, apart) v room =
    let up = next_multiple-IsRoundedUp start l.align (IsLayout-align v).0 in
    (
      omega (arith, from, up.above),
      room,
      refl,
      (
        record { from = omega (arith, from, up.above); to = omega arith; aligned = up.multiple },
        All-imp (Fits lo start) (Fits lo (next_multiple start l.align + l.size))
            (Fits-later lo start (next_multiple start l.align + l.size) (omega (arith, up.above)))
            bs fit,
      ),
      (
        All-imp (Fits lo start)
            (Disjoint (record { addr = next_multiple start l.align; layout = l }))
            (λ x w. inr (omega (arith, w.to, up.above))) bs fit,
        apart,
      ),
    )

abbrev Served-HasGiven :
    ℕ → ℕ → Layout → ℕ × ℕ → Memory → List Block → Option ℕ × ((ℕ × ℕ) × Memory) → Type 0
Served-HasGiven lo hi l h m bs (none, (h', m')) = HasGiven lo hi h' bs × (m' ≡ m)
Served-HasGiven lo hi l h m bs (some p, (h', m')) =
    HasGiven lo hi h' (record { addr = p; layout = l } ∷ bs) × (m' ≡ m)

serve-HasGiven :
    (lo hi : ℕ) (l : Layout) (h : ℕ × ℕ) (m : Memory) (bs : List Block)
    → HasGiven lo hi h bs
    → IsLayout l
    → Served-HasGiven lo hi l h m bs (serve l (h, m))
serve-HasGiven lo hi l (start, end) m bs (from, to, at, fit, apart) v =
    elim (Bool-cases (leb (next_multiple start l.align + l.size) end)) [
      | inl e ↦
          rw (e, at)
            (
              given-HasGiven lo hi start l bs (from, to, refl, fit, apart) v
                  (ground (arith, e, at)),
              refl,
            )
      | inr e ↦ rw e ((from, to, at, fit, apart), refl)
    ]

some-HasGiven :
    (lo hi : ℕ) (l : Layout) (h : ℕ × ℕ) (m : Memory) (bs : List Block) (p : ℕ)
    (o : Option ℕ × ((ℕ × ℕ) × Memory))
    → Served-HasGiven lo hi l h m bs o
    → o.0 ≡ some p
    → HasGiven lo hi o.1.0 (record { addr = p; layout = l } ∷ bs) × Keeps m o.1.1 bs
some-HasGiven lo hi l h m bs p (some q, (h', m')) (given, same) e =
    let at : q ≡ p = cc e in rw (← at, same) (given, same-Keeps m bs)
some-HasGiven lo hi l h m bs p (none, (h', m')) (given, same) e = absurd cc e

none-HasGiven :
    (lo hi : ℕ) (l : Layout) (h : ℕ × ℕ) (m : Memory) (bs : List Block)
    (o : Option ℕ × ((ℕ × ℕ) × Memory))
    → Served-HasGiven lo hi l h m bs o
    → o.0 ≡ none
    → HasGiven lo hi o.1.0 bs × Keeps m o.1.1 bs
none-HasGiven lo hi l h m bs (some q, (h', m')) (given, same) e = absurd cc e
none-HasGiven lo hi l h m bs (none, (h', m')) (given, same) e = rw same (given, same-Keeps m bs)

pub in_order-Contract : (lo hi : ℕ) → Contract in_order lo hi
in_order-Contract lo hi = record {
  Holds = HasGiven lo hi;
  Holds-AreOwned = λ (start, end) bs (from, to, at, fit, apart). record {
    fit = All-imp (Fits lo start) (Fits lo hi) (Fits-later lo start hi to) bs fit;
    apart = apart;
  };
  Holds-order = HasGiven-order lo hi;
  init-Holds = λ size m e. (omega arith, omega (arith, e), e, tt, tt);
  allocate-some = λ l h m bs p given v pos e.
      some-HasGiven lo hi l h m bs p (serve l (h, m)) (serve-HasGiven lo hi l h m bs given v) e;
  allocate-none = λ l h m bs given v pos e.
      none-HasGiven lo hi l h m bs (serve l (h, m)) (serve-HasGiven lo hi l h m bs given v) e;
  deallocate-Holds =
      λ b h m bs (from, to, at, fit, apart). ((from, to, at, fit.1, apart.1), same-Keeps m bs);
}
