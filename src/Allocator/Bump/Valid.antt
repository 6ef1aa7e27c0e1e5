-- ===== src/Allocator/Bump/Valid.antt =====
-- The invariant of min-rust-os/src/allocator/bump.rs, and how each operation answers and keeps it.
use os_resources.Prelude.{
  All-remove, AllPairs-remove, ℕ, suc, ◌+◌, ◌-◌, ◌^◌, ◌≤◌, ◌<◌, ◌≡◌, ◌==◌, leb, if◌then◌else◌, ok,
  List, [], ◌∷◌, ◌++◌, length, length-append, All, All-imp, arith, sym, ◌∙◌, Bool-cases, inl, inr,
}
use os_resources.Allocator.{Layout, IsLayout, null}
use os_resources.Allocator.Align.{
  next_multiple, align_up-layout, IsLayout-align, next_multiple-IsRoundedUp,
}
use os_resources.Allocator.Client.{Block, Disjoint, AllDisjoint, Fits}
use os_resources.Allocator.Bump.{BumpAllocator, alloc, dealloc}

-- What `alloc` does with a request that it can compute with.
unfoldable pub granted : Layout → BumpAllocator → ℕ × BumpAllocator
granted l b =
    let start = next_multiple b.next l.align in
    if leb (start + l.size) b.heap_end
    then (start, record b { next = start + l.size; allocations = b.allocations + 1 })
    else (null, b)

pub alloc-granted :
    (l : Layout) (b : BumpAllocator)
    → IsLayout l
    → b.next ≤ b.heap_end
    → b.heap_end < 2 ^ 63
    → b.allocations < 2 ^ 63
    → alloc l b ≡ ok (granted l b)
unfolding alloc granted
alloc-granted l b v h1 h2 h3 =
    ground (arith, IsLayout-align v, align_up-layout b.next v (omega (arith, IsLayout-align v)))

-- The client owns `bs` of the heap from `lo` to `hi`.
pub record IsValid (lo hi : ℕ) (b : BumpAllocator) (bs : List Block) : Type 0 where
  pub start : b.heap_start ≡ lo
  pub stop : b.heap_end ≡ hi
  pub low : lo ≤ b.next
  pub high : b.next ≤ hi
  pub small : hi < 2 ^ 63
  pub nonnull : 0 < lo
  pub few : b.allocations + lo ≤ b.next
  pub count : b.allocations ≡ length bs
  pub idle : b.allocations ≡ 0 → b.next ≡ lo
  pub fit : All (Fits lo b.next) bs
  pub apart : AllDisjoint bs

All-Disjoint_above :
    (lo top : ℕ) (c : Block) (bs : List Block)
    → All (Fits lo top) bs
    → top ≤ c.addr
    → All (Disjoint c) bs
All-Disjoint_above lo top c bs h le =
    All-imp (Fits lo top) (Disjoint c) (λ d f. inr (omega (arith, f.to))) bs h

pub All-Fits_mono :
    (lo top top' : ℕ) (bs : List Block) → top ≤ top' → All (Fits lo top) bs → All (Fits lo top') bs
All-Fits_mono lo top top' bs le =
    All-imp (Fits lo top) (Fits lo top')
      (λ d f. record { from = f.from; to = omega (arith, f.to); aligned = f.aligned }) bs

All-empty {κ} : (P : Block → Type κ) (bs : List Block) → length bs ≡ 0 → All P bs
All-empty P [] e = tt
All-empty P (b ∷ bs) e = absurd (omega arith)

-- What a valid allocator answers to a request.
pub data Answer (hi : ℕ) (l : Layout) (b : BumpAllocator) (p : ℕ) (c : BumpAllocator) : Type 0 where
  given :
      p ≡ next_multiple b.next l.align
      → p + l.size ≤ hi
      → c ≡ record b { next = p + l.size; allocations = b.allocations + 1 }
      → Answer hi l b p c
  denied : hi < next_multiple b.next l.align + l.size → p ≡ null → c ≡ b → Answer hi l b p c

module _ {lo hi : ℕ} {b : BumpAllocator} {bs : List Block} (v : IsValid lo hi b bs) where
  pub Answer-alloc :
      (c : BumpAllocator) (p : ℕ) (l : Layout)
      → IsLayout l
      → alloc l b ≡ ok (p, c)
      → Answer hi l b p c
  unfolding granted
  Answer-alloc c p l h e =
      let same : ok (granted l b) ≡ ok (p, c) =
        sym (alloc-granted l b h (omega (arith, v)) (omega (arith, v)) (omega (arith, v))) ∙ e in
      elim (Bool-cases (leb (next_multiple b.next l.align + l.size) b.heap_end)) [
        | inl fits ↦ given (ground arith) (ground (arith, v)) (ground arith)
        | inr past ↦ denied (ground (arith, v)) (ground arith) (ground arith)
      ]

  pub next-below : (l : Layout) → IsLayout l → b.next ≤ next_multiple b.next l.align
  next-below l h =
      omega (arith, (next_multiple-IsRoundedUp b.next l.align (IsLayout-align h).0).above)

  pub IsValid-given :
      (p : ℕ) (l : Layout)
      → IsLayout l
      → 0 < l.size
      → p ≡ next_multiple b.next l.align
      → p + l.size ≤ hi
      → IsValid lo hi
          (record b { next = p + l.size; allocations = b.allocations + 1 })
          (record { addr = p; layout = l } ∷ bs)
  IsValid-given p l h pos at fits = record {
    start = v.start;
    stop = v.stop;
    low = omega (arith, v.low, next-below l h);
    high = fits;
    small = v.small;
    nonnull = v.nonnull;
    few = omega (arith, v.few, next-below l h);
    count = omega (arith, v.count);
    idle = λ z. absurd (omega arith);
    fit = (
      record {
        from = omega (arith, v.low, next-below l h);
        to = omega arith;
        aligned = rw at (next_multiple-IsRoundedUp b.next l.align (IsLayout-align h).0).multiple;
      },
      All-Fits_mono lo b.next (p + l.size) bs (omega (arith, next-below l h)) v.fit,
    );
    apart = (
      All-Disjoint_above lo b.next (record { addr = p; layout = l }) bs v.fit
          (omega (arith, next-below l h)),
      v.apart,
    );
  }

unfoldable pub released : BumpAllocator → BumpAllocator
released b = record b {
  next = if b.allocations - 1 == 0 then b.heap_start else b.next;
  allocations = b.allocations - 1;
}

pub dealloc-released :
    (p : ℕ) (l : Layout) (b : BumpAllocator) → 0 < b.allocations → dealloc p l b ≡ ok (released b)
unfolding dealloc released
dealloc-released p l b h = ground arith

pub IsValid-released :
    {lo hi : ℕ} (b : BumpAllocator) (xs : List Block) (d : Block) (ys : List Block)
    → IsValid lo hi b (xs ++ d ∷ ys)
    → IsValid lo hi (released b) (xs ++ ys)
unfolding released
IsValid-released {lo} b xs d ys v =
    let n1 : length (xs ++ d ∷ ys) ≡ length xs + suc (length ys) = length-append xs (d ∷ ys) in
    let n2 : length (xs ++ ys) ≡ length xs + length ys = length-append xs ys in
    let apart = AllPairs-remove Disjoint xs d ys v.apart in
    elim (Bool-cases (b.allocations - 1 == 0)) [
      | inl last ↦ rw last (record {
        start = v.start;
        stop = v.stop;
        low = omega (arith, v);
        high = omega (arith, v);
        small = v.small;
        nonnull = v.nonnull;
        few = ground (arith, v);
        count = ground (arith, v);
        idle = λ z. v.start;
        fit = All-empty _ (xs ++ ys) (ground (arith, v));
        apart = apart;
      })
      | inr more ↦ rw more (record {
        start = v.start;
        stop = v.stop;
        low = v.low;
        high = v.high;
        small = v.small;
        nonnull = v.nonnull;
        few = ground (arith, v);
        count = ground (arith, v);
        idle = λ z. absurd (ground arith);
        fit = All-remove (Fits lo b.next) xs d ys v.fit;
        apart = apart;
      })
    ]
