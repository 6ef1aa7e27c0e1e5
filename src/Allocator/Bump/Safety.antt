-- ===== src/Allocator/Bump/Safety.antt =====
-- What the bump allocator promises its client: owned blocks lie in the heap, aligned and disjoint,
-- and no request panics.
use os_resources.Prelude.{
  ℕ, ◌+◌, ◌^◌, ◌<◌, ◌≡◌, leb, if◌then◌else◌, ok, List, [], ◌∷◌, ◌++◌, length, length-append, arith,
  refl, ap, ◌∙◌,
}
use os_resources.Allocator.{Layout, IsLayout, null}
use os_resources.Allocator.Align.{
  next_multiple, IsLayout-align, IsRoundedUp, next_multiple-IsRoundedUp,
}
use os_resources.Allocator.Client.{
  Block, AreOwned, Step, allocate, refuse, release, write, Reach, Reach-keeps,
}
use os_resources.Allocator.Bump.{BumpAllocator, init, new, alloc, bump_allocator}
use os_resources.Allocator.Bump.Valid.{
  granted, alloc-granted, IsValid, given, denied, Answer-alloc, next-below, IsValid-given,
  All-Fits_mono, released, dealloc-released, IsValid-released,
}

-- The allocator keeps no data in the heap, so a write of the client changes none of its state.
abbrev pub Untouched : Block → BumpAllocator → BumpAllocator → Type 0
Untouched b s t = t ≡ s

released-mem :
    (b : BumpAllocator) (bs : List Block) {lo hi : ℕ} (xs : List Block) (d : Block)
    (ys : List Block)
    → bs ≡ xs ++ d ∷ ys
    → IsValid lo hi b bs
    → 0 < b.allocations
released-mem b bs xs d ys e v = omega (arith, v.count, ap length e, length-append xs (d ∷ ys))

Step-IsValid :
    {lo hi : ℕ} (s t : BumpAllocator) (bs cs : List Block)
    → Step bump_allocator Untouched s bs t cs
    → IsValid lo hi s bs
    → IsValid lo hi t cs
Step-IsValid s t bs cs (allocate p l h pos e ne) v = elim (Answer-alloc v t p l h e) [
  | given at fits same ↦ rw same (IsValid-given v p l h pos at fits)
  | denied past z same ↦ absurd (ne z)
]
Step-IsValid s t bs cs (refuse l h pos e) v = elim (Answer-alloc v t null l h e) [
  | given at fits same ↦ absurd (omega (arith, next-below v l h, v.low, v.nonnull))
  | denied past z same ↦ rw same v
]
Step-IsValid s t bs cs (release xs b ys e e' d) v =
    let some_left : 0 < s.allocations = released-mem s bs xs b ys e v in
    let same : t ≡ released s = ground (arith, dealloc-released b.addr b.layout s some_left) in
    rw (same, e') (IsValid-released s xs b ys (rw e at v))
Step-IsValid s t bs cs (write xs b ys e same) v = rw same v

init-IsValid :
    (lo size : ℕ) (s : BumpAllocator)
    → 0 < lo
    → lo + size < 2 ^ 63
    → init lo size new ≡ ok s
    → IsValid lo (lo + size) s []
unfolding init new
init-IsValid lo size s pos small e =
    let at : s ≡ record { heap_start = lo; heap_end = lo + size; next = lo; allocations = 0 } =
      ground arith in
    rw at (record {
      start = refl;
      stop = refl;
      low = omega arith;
      high = omega arith;
      small = small;
      nonnull = pos;
      few = omega arith;
      count = refl;
      idle = λ _. refl;
      fit = tt;
      apart = tt;
    })

Reach-IsValid :
    (lo size : ℕ) {s t : BumpAllocator} {bs : List Block}
    → 0 < lo
    → lo + size < 2 ^ 63
    → init lo size new ≡ ok s
    → Reach bump_allocator Untouched s t bs
    → IsValid lo (lo + size) t bs
Reach-IsValid lo size {s} pos small e r =
    Reach-keeps bump_allocator Untouched (IsValid lo (lo + size))
      (λ s t bs cs. Step-IsValid s t bs cs) (init-IsValid lo size s pos small e) r

-- Whatever a client of the initialised bump allocator does (requests that are granted or refused,
-- blocks given back in any order, writes to owned blocks), the blocks that it owns lie in the heap,
-- at addresses that are multiples of their alignments, and share no byte.
pub Reach-AreOwned :
    (lo size : ℕ) {s t : BumpAllocator} {bs : List Block}
    → 0 < lo
    → lo + size < 2 ^ 63
    → init lo size new ≡ ok s
    → Reach bump_allocator Untouched s t bs
    → AreOwned lo (lo + size) bs
Reach-AreOwned lo size {t} {bs} pos small e r =
    let v = Reach-IsValid lo size pos small e r in
    record { fit = All-Fits_mono lo t.next (lo + size) bs v.high v.fit; apart = v.apart }

-- When a client has given back all that it was given, the bump allocator is in the state that
-- `init` left it in: the whole heap can be handed out again.
pub Reach-init :
    (lo size : ℕ) {s t : BumpAllocator}
    → 0 < lo
    → lo + size < 2 ^ 63
    → init lo size new ≡ ok s
    → Reach bump_allocator Untouched s t []
    → t ≡ s
unfolding init new
Reach-init lo size pos small e r =
    let v = Reach-IsValid lo size pos small e r in ground (arith, v, v.idle v.count)

-- In every state that a client can reach, a request with a valid layout of any size returns without
-- a panic: it is given the least aligned address from `next` on, if the block ends inside the heap,
-- and otherwise the null pointer with the state unchanged.
pub alloc-first_aligned :
    (lo size : ℕ) {s t : BumpAllocator} {bs : List Block} (l : Layout)
    → 0 < lo
    → lo + size < 2 ^ 63
    → init lo size new ≡ ok s
    → Reach bump_allocator Untouched s t bs
    → IsLayout l
    → (start : ℕ) × IsRoundedUp t.next l.align start
      × (alloc l t ≡ (
          if leb (start + l.size) (lo + size)
          then ok (start, record t { next = start + l.size; allocations = t.allocations + 1 })
          else ok (null, t)))
unfolding granted
alloc-first_aligned lo size {t} l pos small e r h =
    let v = Reach-IsValid lo size pos small e r in
    (
      next_multiple t.next l.align,
      next_multiple-IsRoundedUp t.next l.align (IsLayout-align h).0,
      alloc-granted l t h (omega (arith, v)) (omega (arith, v)) (omega (arith, v))
          ∙ ground (arith, v),
    )
