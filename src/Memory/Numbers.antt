-- ===== src/Memory/Numbers.antt =====
-- Pages and mappings for tests: addresses, pages and frames are numbers, and the page tables are the
-- function that they stand for.
use os_resources.Prelude.{
  ℕ, zero, suc, ◌+◌, ◌-◌, ◌*◌, ◌/◌, ◌^◌, ◌≤◌, ◌≡◌, ◌==◌, Bool, true, ltb, leb, if◌then◌else◌,
  Result, ok, panic, overflow, explicit, Returns-ok, Option, none, some, List, [], ◌∷◌, length,
  arith, refl,
}
use os_resources.Memory.{Frames, page_size, BootInfoFrameAllocator, MemoryMap}
use os_resources.Memory.Addresses.{IsMemoryMap}
use os_resources.Memory.BootInfo.{Ready, boot_info}
use os_resources.Memory.Paging.{StartAt, Pages, Calls, here, Mapper}

abbrev pub count_pages : ℕ → ℕ → List ℕ
count_pages zero a = []
count_pages (suc n) a = a ∷ count_pages n (a + page_size)

pub count_pages-StartAt :
    (n a : ℕ) → StartAt (λ page. page) a (count_pages n a) × (length (count_pages n a) ≡ n)
count_pages-StartAt zero a = (tt, refl)
count_pages-StartAt (suc n) a =
    let (at, count) = count_pages-StartAt n (a + page_size) in ((refl, at), omega (arith, count))

abbrev pub pages : Pages
pages = record {
  VirtAddr = ℕ;
  Page = ℕ;
  new = λ a. if ltb a (2 ^ 47) then ok a else panic explicit;
  add = λ v n. if ltb (v + n) (2 ^ 47) then ok (v + n) else panic explicit;
  sub = λ v n. if leb n v then ok (v - n) else panic overflow;
  containing_address = λ v. v / page_size * page_size;
  range_inclusive = λ first last. count_pages ((last - first) / page_size + 1) first;
  as_u64 = λ v. v;
  start = λ page. page;
  new-as_u64 = λ a h. record { value = a; returns = ground arith; holds = refl };
  add-as_u64 = λ v n h. record { value = v + n; returns = ground arith; holds = refl };
  sub-as_u64 = λ v n h h'. record { value = v - n; returns = ground arith; holds = refl };
  start-containing_address = λ v. refl;
  range_inclusive-StartAt =
      λ first last h. count_pages-StartAt ((last - first) / page_size + 1) first;
}

module _ (f : Frames) where
  abbrev pub Table : Type 0
  Table = ℕ → Option (f.PhysFrame × Bool)

  abbrev pub Mapped : Type 0
  Mapped = Option (Unit {0}) × (Table × BootInfoFrameAllocator)

  -- A page that has a frame is not mapped again.
  abbrev pub put :
      Option (f.PhysFrame × Bool) → ℕ → f.PhysFrame → Bool → Table × BootInfoFrameAllocator → Mapped
  put (some old) page frame flags (t, s) = (some tt, (t, s))
  put none page frame flags (t, s) =
      (none, ((λ q. if q == page then some (frame, flags) else t q), s))

  abbrev pub map_to : ℕ → f.PhysFrame → Bool → Table × BootInfoFrameAllocator → Result Mapped
  map_to page frame flags (t, s) = ok (put (t page) page frame flags (t, s))

  abbrev pub IsMapped :
      ℕ → ℕ → f.PhysFrame → Bool → Table → BootInfoFrameAllocator → Mapped → Type 0
  IsMapped n page frame flags t s (out, (t', s')) =
      Ready f n s'
      × ((outs : List (Option f.PhysFrame)) × (length outs ≤ 3) × Calls (boot_info f) s outs s')
      × ((q : ℕ)
          → t' q ≡ (elim out [
            | none ↦ if q == page then some (frame, flags) else t q
            | some error ↦ t q
          ]))

  pub put-IsMapped :
      (old : Option (f.PhysFrame × Bool)) (n page : ℕ) (frame : f.PhysFrame) (flags : Bool)
      (t : Table) (s : BootInfoFrameAllocator)
      → Ready f (n + 3) s
      → IsMapped n page frame flags t s (put old page frame flags (t, s))
  put-IsMapped none n page frame flags t s ready =
      ((ready.0, omega (arith, ready.1)), ([], omega arith, here), λ q. refl)
  put-IsMapped (some old) n page frame flags t s ready =
      ((ready.0, omega (arith, ready.1)), ([], omega arith, here), λ q. refl)

  abbrev pub mapper : Mapper pages (boot_info f)
  mapper = record {
    Tables = Table;
    Flags = Bool;
    MapToError = Unit {0};
    frame_allocation_failed = tt;
    present_writable = true;
    map_to = map_to;
    mapped = λ t. t;
    map_to-mapped = λ n page frame flags t s ready.
        Returns-ok _ (put-IsMapped (t page) n page frame flags t s ready);
  }

-- 256 usable pages.
abbrev pub map : MemoryMap
map = record { usable = true; start_addr = 0x100000; end_addr = 0x200000 } ∷ []

pub map-IsMemoryMap : IsMemoryMap map
map-IsMemoryMap = (λ e. record { start = refl; stop = refl; physical = omega arith }, tt, tt)
