-- ===== src/Memory/Allocation.antt =====
-- What `BootInfoFrameAllocator` of min-rust-os/src/memory.rs promises the page tables.
use mathlib.Core.Option
use native.Mathlib.Nat.{add-zero}
use os_resources.Prelude.{
  ℕ, zero, suc, ◌+◌, ◌%◌, ◌^◌, ◌<◌, ◌≡◌, Result, ok, ◌>>=◌, Returns, Returns-ok, Returns-bind,
  Returns-mono, Option, none, some, List, [], ◌∷◌, map, All, All-imp, All-get_elem?, lt→ltb,
  get_elem?, get_or, length, arith, refl, ap, subst, sym, ◌∙◌,
}
use os_resources.Prelude.Words.{usize_mod, add_usize}
use os_resources.Memory.{
  Frames, MemoryMap, BootInfoFrameAllocator, page_size, init, frame_addresses, nth, usable_frames,
  allocate_frame,
}
use os_resources.Memory.Addresses.{
  InUsable, IsMemoryMap, frame_addresses-InUsable, frame_addresses-Distinct, InUsable-physical,
  Distinct-get_elem?,
}

module _ (f : Frames) where
  open f use {
    PhysFrame, new, as_u64, containing_address, start_address, new-as_u64,
    start_address-containing_address,
  }

  abbrev pub start : PhysFrame → ℕ
  start frame = as_u64 (start_address frame)

  -- The iterator's item for an address.
  abbrev item : ℕ → Result PhysFrame
  item addr = new addr >>= λ p. ok (containing_address p)

  item-start :
      (a : ℕ) → a < 2 ^ 52 → a % page_size ≡ 0 → Returns (λ frame. start frame ≡ a) (item a)
  item-start a small aligned =
      let (p, made, same) = new-as_u64 a small in
      record {
        value = containing_address p;
        returns = rw made;
        holds = omega (arith, start_address-containing_address p, same);
      }

  nth-start :
      (n : ℕ) (addrs : List ℕ)
      → All (λ a. (a < 2 ^ 52) × (a % page_size ≡ 0)) addrs
      → Returns (λ out. Option.map start out ≡ get_elem? addrs n) (nth n (map item addrs))
  unfolding nth
  nth-start n [] h = Returns-ok none refl
  nth-start zero (a ∷ addrs) h =
      let first = item-start a h.0.0 h.0.1 in
      Returns-bind first λ frame e. Returns-ok (some frame) (ap some e)
  nth-start (suc n) (a ∷ addrs) h =
      Returns-bind (item-start a h.0.0 h.0.1) λ frame e. nth-start n addrs h.1

  -- The next call from the state with counter `n`.
  pub allocate_frame-start :
      (m : MemoryMap) (n : ℕ)
      → IsMemoryMap m
      → n + 1 < usize_mod
      → Returns
          (λ (out, t).
            (Option.map start out ≡ get_elem? (frame_addresses m) n)
            × (t ≡ record { memory_map = m; next = n + 1 }))
          (allocate_frame f (record { memory_map = m; next = n }))
  unfolding allocate_frame usable_frames add_usize
  allocate_frame-start m n h fits =
      let physical =
        All-imp (InUsable m) _ (λ a u. InUsable-physical m a h u) _
          (frame_addresses-InUsable m h) in
      Returns-bind (nth-start n (frame_addresses m) physical)
        λ out e. rw (lt→ltb (n + 1) usize_mod fits) (Returns-ok _ (e, refl))

  -- A client that asks `n` times in a row.
  unfoldable pub allocate_frames :
      ℕ → BootInfoFrameAllocator → Result (List (Option PhysFrame) × BootInfoFrameAllocator)
  allocate_frames zero s = ok ([], s)
  allocate_frames (suc n) s = do
    (frame, s') ← allocate_frame f s
    (frames, s'') ← allocate_frames n s'
    ok (frame ∷ frames, s'')

  -- The calls from counter `k` on give the frames of the addresses from `k` on, then none.
  abbrev pub Follows : MemoryMap → ℕ → List (Option PhysFrame) → Type 0
  Follows m k out =
      (i : ℕ)
      → i < length out
      → Option.map start (get_or out i none) ≡ get_elem? (frame_addresses m) (k + i)

  Follows-cons :
      (m : MemoryMap) (k : ℕ) (first : Option PhysFrame) (out : List (Option PhysFrame))
      → Option.map start first ≡ get_elem? (frame_addresses m) k
      → Follows m (k + 1) out
      → Follows m k (first ∷ out)
  Follows-cons m k first out e rest zero h = rw add-zero e
  Follows-cons m k first out e rest (suc i) h =
      let same : k + suc i ≡ k + 1 + i = omega arith in rw same (rest i (omega arith))

  allocate_frames-Follows :
      (n : ℕ) (m : MemoryMap) (k : ℕ)
      → IsMemoryMap m
      → k + n < usize_mod
      → Returns
          (λ (out, t). (length out ≡ n) × Follows m k out)
          (allocate_frames n (record { memory_map = m; next = k }))
  unfolding allocate_frames
  allocate_frames-Follows zero m k h fits = Returns-ok _ (refl, λ i lt. absurd (omega arith))
  allocate_frames-Follows (suc n) m k h fits =
      let one = allocate_frame-start m k h (omega arith) in
      let more = allocate_frames-Follows n m (k + 1) h (omega arith) in
      record {
        value = (one.value.0 ∷ more.value.0, more.value.1);
        returns = rw (one.returns, one.holds.1, more.returns);
        holds = (
          ap suc more.holds.0,
          Follows-cons m k one.value.0 more.value.0 one.holds.0 more.holds.1,
        );
      }

  -- On a memory map of the kind that the bootloader passes, any number of calls of `allocate_frame`
  -- on a new allocator return: the calls give, one after another, the frames that start at the
  -- addresses of the usable pages, in the order of the map, and after the last of them none.
  pub allocate_frame-frame_addresses :
      (n : ℕ) (m : MemoryMap)
      → IsMemoryMap m
      → n < usize_mod
      → Returns
          (λ (out, t).
            (length out ≡ n)
            × ((i : ℕ)
                → i < n
                → Option.map start (get_or out i none) ≡ get_elem? (frame_addresses m) i))
          (allocate_frames n (init m))
  unfolding init
  allocate_frame-frame_addresses n m h fits =
      Returns-mono (allocate_frames-Follows n m 0 h (omega arith)) λ (out, t) (count, g).
        (count, λ i lt. let same : 0 + i ≡ i = omega arith in rw same at (g i (omega arith)))

  -- On such a map no two of the calls give the same frame, and each frame that is given is a page
  -- of a usable region.
  pub allocate_frame-Distinct :
      (n : ℕ) (m : MemoryMap) {out : List (Option PhysFrame)} {t : BootInfoFrameAllocator}
      → IsMemoryMap m
      → n < usize_mod
      → allocate_frames n (init m) ≡ ok (out, t)
      → (i j : ℕ) (frame : PhysFrame) → i < n
      → j < n
      → get_or out i none ≡ some frame
      → get_or out j none ≡ some frame
      → (i ≡ j) × InUsable m (start frame)
  allocate_frame-Distinct n m {out} h fits runs i j frame hi hj e e' =
      let calls = allocate_frame-frame_addresses n m h fits in
      let same : calls.value.0 ≡ out = ground (arith, calls.returns, runs) in
      let g : (i : ℕ)
          → i < n
          → Option.map start (get_or out i none) ≡ get_elem? (frame_addresses m) i =
        subst
          (λ fs.
            (i : ℕ) → i < n → Option.map start (get_or fs i none) ≡ get_elem? (frame_addresses m) i)
          same calls.holds.1 in
      let at_i : get_elem? (frame_addresses m) i ≡ some (start frame) =
        sym (g i hi) ∙ ap (Option.map start) e in
      let at_j : get_elem? (frame_addresses m) j ≡ some (start frame) =
        sym (g j hj) ∙ ap (Option.map start) e' in
      (
        Distinct-get_elem? (frame_addresses m) i j (frame_addresses-Distinct m h) at_i at_j,
        All-get_elem? (InUsable m) (frame_addresses m) i (frame_addresses-InUsable m h) at_i,
      )
