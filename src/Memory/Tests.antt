-- ===== src/Memory/Tests.antt =====
-- The frame allocator at concrete inputs, with addresses and frames that are numbers.
use os_resources.Prelude.{
  ℕ, ◌*◌, ◌/◌, ◌^◌, ◌<◌, ◌≡◌, refl, ltb, if◌then◌else◌, Result, ok, panic, explicit, Returns, true,
  false, none, some, [], ◌∷◌, length, inl, arith,
}
use os_resources.Memory.{
  Frames, MemoryMap, page_size, init, frame_addresses, nth, usable_frames, allocate_frame,
}
use os_resources.Memory.Addresses.{IsMemoryMap, InUsable}
use os_resources.Memory.Exhausted.{GivesAt, allocate_frame-GivesAt}
use os_resources.Memory.Allocation.{allocate_frames, allocate_frame-Distinct}

abbrev pub new : ℕ → Result ℕ
new a = if ltb a (2 ^ 52) then ok a else panic explicit

pub new-small : (a : ℕ) → a < 2 ^ 52 → (p : ℕ) × (new a ≡ ok p) × (p ≡ a)
new-small a h = (a, ground arith, refl)

abbrev pub numbers : Frames
numbers = record {
  PhysAddr = ℕ;
  PhysFrame = ℕ;
  new = new;
  as_u64 = λ p. p;
  containing_address = λ p. p / page_size * page_size;
  start_address = λ frame. frame;
  new-as_u64 = new-small;
  start_address-containing_address = λ p. refl;
}

-- Two usable pages, a reserved page, and one more usable page.
abbrev map : MemoryMap
map =
    record { usable = true; start_addr = 0; end_addr = 0x2000 }
    ∷ record { usable = false; start_addr = 0x2000; end_addr = 0x3000 }
    ∷ record { usable = true; start_addr = 0x5000; end_addr = 0x6000 }
    ∷ []

map-IsMemoryMap : IsMemoryMap map
map-IsMemoryMap = (
  λ e. record { start = refl; stop = refl; physical = omega arith },
  (inl (omega arith), (inl (omega arith), tt)),
  (
    λ e. cc,
    (inl (omega arith), tt),
    (λ e. record { start = refl; stop = refl; physical = omega arith }, tt, tt),
  ),
)

allocate_frame-GivesAt_example :
    Returns
      (λ (out, t). (length out ≡ 4) × ((i : ℕ) → i < 4 → GivesAt numbers map out i))
      (allocate_frames numbers 4 (init map))
allocate_frame-GivesAt_example = allocate_frame-GivesAt numbers 4 map map-IsMemoryMap (omega arith)

four_calls :
    allocate_frames numbers 4 (init map)
    ≡ ok (some 0 ∷ some 0x1000 ∷ some 0x5000 ∷ none ∷ [], record { memory_map = map; next = 4 })
unfolding allocate_frames allocate_frame init usable_frames nth frame_addresses
four_calls = refl

allocate_frame-Distinct_example : (◌≡◌ {A = ℕ} 2 2) × InUsable map 0x5000
allocate_frame-Distinct_example =
    allocate_frame-Distinct numbers 4 map map-IsMemoryMap (omega arith) four_calls 2 2 0x5000
      (omega arith) (omega arith) refl refl
