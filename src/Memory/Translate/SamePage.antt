-- ===== src/Memory/Translate/SamePage.antt =====
-- The translation of min-rust-os/src/memory.rs maps whole pages.
use os_resources.Prelude.{
  ◌+◌, ◌/◌, ◌≡◌, Result, ok, ◌>>=◌, and_then-ok, Returns, Option, none, some, arith, refl, sym, ap,
  ◌∙◌,
}
use os_resources.Memory.{Frames, page_size}
use os_resources.Memory.Translate.{
  PageTables, Machine, walk, table_indexes, translate_addr, translate_addr_inner,
}
use os_resources.Memory.Translate.Walk.{in_page, digits, table_indexes-digits_of}

module _ (f : Frames) (pt : PageTables f) (m : Machine f pt) where
  open f use {PhysAddr, PhysFrame, start_address}
  open pt use {VirtAddr, PageTableIndex, page_offset}

  table_indexes-same_page :
      (v w : VirtAddr)
      → pt.as_u64 v / page_size ≡ pt.as_u64 w / page_size
      → table_indexes f pt m v ≡ table_indexes f pt m w
  table_indexes-same_page v w same =
      table_indexes-digits_of f pt m v
      ∙ ap (digits f pt m 4) same
      ∙ sym (table_indexes-digits_of f pt m w)

  -- What follows the loop.
  abbrev after_walk : VirtAddr → Option PhysFrame → Result (Option PhysAddr)
  after_walk addr found = elim found [
    | none ↦ ok none
    | some fr ↦ pt.add_phys (start_address fr) (page_offset addr) >>= λ phys. ok (some phys)
  ]

  -- The address `w` has a physical address that is as far from `phys` as `w` from `v`.
  abbrev pub Beside : VirtAddr → PhysAddr → VirtAddr → Option PhysAddr → Type 0
  Beside v phys w out =
      (phys' : PhysAddr) × (out ≡ some phys')
      × (f.as_u64 phys' + pt.as_u64 v ≡ f.as_u64 phys + pt.as_u64 w)

  after_walk-Beside :
      (v w : VirtAddr) (found : Option PhysFrame) (phys : PhysAddr)
      → pt.as_u64 v / page_size ≡ pt.as_u64 w / page_size
      → after_walk v found ≡ ok (some phys)
      → Returns (Beside v phys w) (after_walk w found)
  after_walk-Beside v w none phys same e = absurd cc e
  after_walk-Beside v w (some fr) phys same e =
      let a = in_page f pt m fr v in
      let b = in_page f pt m fr w in
      let runs : ok (some a.value) ≡ ok (some phys) = rw (a.returns) at e in
      let is : a.value ≡ phys = cc runs in
      record {
        value = some b.value;
        returns = rw (b.returns) refl;
        holds = (b.value, refl, omega (arith, a.holds, b.holds, same, ap f.as_u64 is));
      }

  -- Where an address has a physical address, each address of the same page has one too, which is as
  -- far from the first as the two addresses are from each other.
  pub translate_addr-same_page :
      (v w offset : VirtAddr) (phys : PhysAddr)
      → pt.as_u64 v / page_size ≡ pt.as_u64 w / page_size
      → translate_addr f pt m v offset ≡ ok (some phys)
      → Returns (Beside v phys w) (translate_addr f pt m w offset)
  unfolding translate_addr translate_addr_inner
  translate_addr-same_page v w offset phys same e =
      let (found, after, walked) =
        and_then-ok (after_walk v) (walk f pt m (table_indexes f pt m v) offset m.cr3) e in
      rw (sym (table_indexes-same_page v w same), walked)
        (after_walk-Beside v w found phys same after)
