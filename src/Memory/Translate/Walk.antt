-- ===== src/Memory/Translate/Walk.antt =====
-- What the translation of an address in min-rust-os/src/memory.rs gives: the walk of the processor
-- through the page tables in physical memory.
use os_resources.Prelude.{
  ℕ, zero, suc, ◌+◌, ◌/◌, ◌%◌, ◌^◌, ◌≡◌, ◌⊎◌, inl, inr, Result, ok, panic, explicit, ◌>>=◌, Returns,
  Option, none, some, List, [], ◌∷◌, ◌++◌, length, arith, refl, ap, sym, subst, ◌∙◌,
}
use os_resources.Memory.{Frames, page_size}
use os_resources.Memory.Translate.{
  FrameError, frame_not_present, huge_frame, IsCanonical, PageTables, Machine, walk, table_indexes,
  translate_addr, translate_addr_inner,
}

module _ (f : Frames) (pt : PageTables f) (m : Machine f pt) where
  open f use {PhysAddr, PhysFrame, start_address}
  open pt use {VirtAddr, PageTableIndex, PageTable, page_offset}
  open m use {in_frame, pointed_to}

  -- The address at which a frame starts.
  abbrev pub at : PhysFrame → ℕ
  at fr = f.as_u64 (start_address fr)

  -- The entry of the table in a frame: the next frame, or why there is none.
  abbrev pub Entry : PhysFrame → PageTableIndex → PhysFrame ⊎ FrameError → Type 0
  Entry fr i out =
      (table : PageTable) × (in_frame fr ≡ some table) × (pt.frame (pt.index table i) ≡ out)

  -- The walk of the processor through the tables, one index for each.
  pub data Leads : PhysFrame → List PageTableIndex → PhysFrame → Type 0 where
    arrived : {fr : PhysFrame} → Leads fr [] fr
    step :
        {fr next last : PhysFrame} {is : List PageTableIndex} (i : PageTableIndex)
        → Entry fr i (inl next)
        → Leads next is last
        → Leads fr (i ∷ is) last

  -- The walk stops at an entry that leads to no frame.
  pub data Stops (fr : PhysFrame) (is : List PageTableIndex) (error : FrameError) : Type 0 where
    stops :
        (path rest : List PageTableIndex) (i : PageTableIndex) (last : PhysFrame)
        → is ≡ path ++ (i ∷ rest)
        → Leads fr path last
        → Entry last i (inr error)
        → Stops fr is error

  -- `levels` levels of tables from a frame on.
  abbrev pub AreTables : ℕ → PhysFrame → Type 0
  AreTables zero fr = Unit
  AreTables (suc levels) fr =
      (table : PageTable) × (in_frame fr ≡ some table)
      × ((i : PageTableIndex) (next : PhysFrame)
          → pt.frame (pt.index table i) ≡ inl next
          → AreTables levels next)

  -- The physical memory is mapped at the offset.
  abbrev pub IsMappedAt : VirtAddr → Type 0
  IsMappedAt offset =
      (fr : PhysFrame) (table : PageTable)
      → in_frame fr ≡ some table
      → IsCanonical (pt.as_u64 offset + at fr)
        × ((v : VirtAddr) → pt.as_u64 v ≡ pt.as_u64 offset + at fr → pointed_to v ≡ some table)

  pub data Walked (fr : PhysFrame) (is : List PageTableIndex)
      : Result (Option PhysFrame) → Type 0 where
    arrives : {last : PhysFrame} → Leads fr is last → Walked fr is (ok (some last))
    not_present : Stops fr is frame_not_present → Walked fr is (ok none)
    is_huge : Stops fr is huge_frame → Walked fr is (panic explicit)

  Walked-step :
      {out : Result (Option PhysFrame)} (fr next : PhysFrame) (i : PageTableIndex)
      (is : List PageTableIndex)
      → Entry fr i (inl next)
      → Walked next is out
      → Walked fr (i ∷ is) out
  Walked-step fr next i is e (arrives l) = arrives (step i e l)
  Walked-step fr next i is e (not_present (stops path rest j last same l e')) =
      not_present (stops (i ∷ path) rest j last (ap (λ js. i ∷ js) same) (step i e l) e')
  Walked-step fr next i is e (is_huge (stops path rest j last same l e')) =
      is_huge (stops (i ∷ path) rest j last (ap (λ js. i ∷ js) same) (step i e l) e')

  -- The round after the entry is read.
  Walked-entry :
      (offset : VirtAddr) (fr : PhysFrame) (i : PageTableIndex) (is : List PageTableIndex)
      (entry : PhysFrame ⊎ FrameError)
      → Entry fr i entry
      → ((next : PhysFrame) → entry ≡ inl next → Walked next is (walk f pt m is offset next))
      → Walked fr (i ∷ is) (elim entry [
        | inl next ↦ walk f pt m is offset next
        | inr error ↦ elim error [ frame_not_present ↦ ok none | huge_frame ↦ panic explicit ]
      ])
  Walked-entry offset fr i is (inl next) e more = Walked-step fr next i is e (more next refl)
  Walked-entry offset fr i is (inr frame_not_present) e more =
      not_present (stops [] is i fr refl arrived e)
  Walked-entry offset fr i is (inr huge_frame) e more = is_huge (stops [] is i fr refl arrived e)

  walk-Walked :
      (offset : VirtAddr) (is : List PageTableIndex) (fr : PhysFrame)
      → IsMappedAt offset
      → AreTables (length is) fr
      → Walked fr is (walk f pt m is offset fr)
  unfolding walk
  walk-Walked offset [] fr mapped tables = arrives arrived
  walk-Walked offset (i ∷ is) fr mapped (table, held, below) =
      let (canonical, leads) = mapped fr table held in
      let virt = pt.add-as_u64 offset (at fr) canonical in
      rw (virt.returns, leads virt.value virt.holds)
        (Walked-entry offset fr i is (pt.frame (pt.index table i)) (table, held, refl)
          λ next e. walk-Walked offset is next mapped (below i next e))

  -- The digits of a page number to the base 512, the last `levels` of them: the index of the page in
  -- the table of each level.
  abbrev pub digits : ℕ → ℕ → List PageTableIndex
  digits zero page = []
  digits (suc levels) page = pt.new_index (page / 512 ^ levels % 512) ∷ digits levels page

  abbrev pub digits_of : VirtAddr → List PageTableIndex
  digits_of addr = digits 4 (pt.as_u64 addr / page_size)

  pub table_indexes-digits_of : (v : VirtAddr) → table_indexes f pt m v ≡ digits_of v
  table_indexes-digits_of v =
      let page = pt.as_u64 v / page_size in
      let slot = λ (a : ℕ). pt.new_index (a % 512) in
      let p4 : pt.p4_index v ≡ slot (page / 512 ^ 3) =
        pt.p4_index-new_index v ∙ ap slot (omega arith) in
      let p3 : pt.p3_index v ≡ slot (page / 512 ^ 2) =
        pt.p3_index-new_index v ∙ ap slot (omega arith) in
      let p2 : pt.p2_index v ≡ slot (page / 512 ^ 1) =
        pt.p2_index-new_index v ∙ ap slot (omega arith) in
      let p1 : pt.p1_index v ≡ slot (page / 512 ^ 0) =
        pt.p1_index-new_index v ∙ ap slot (omega arith) in
      cc

  -- The digits of the page of the address lead to a frame, and the physical address is as far behind its
  -- start as the address is behind the start of its page; or the walk stops.
  pub data Translated (addr : VirtAddr) : Result (Option PhysAddr) → Type 0 where
    translated :
        {fr : PhysFrame} {phys : PhysAddr}
        → Leads m.cr3 (digits_of addr) fr
        → f.as_u64 phys ≡ at fr + pt.as_u64 addr % page_size
        → Translated addr (ok (some phys))
    not_mapped : Stops m.cr3 (digits_of addr) frame_not_present → Translated addr (ok none)
    huge_page : Stops m.cr3 (digits_of addr) huge_frame → Translated addr (panic explicit)

  pub in_page :
      (fr : PhysFrame) (addr : VirtAddr)
      → Returns
          (λ phys. f.as_u64 phys ≡ at fr + pt.as_u64 addr % page_size)
          (pt.add_phys (start_address fr) (page_offset addr))
  in_page fr addr = rw (pt.page_offset-as_u64 addr) (
      pt.add_phys-as_u64 (start_address fr) (pt.as_u64 addr % page_size)
        (omega (arith, pt.as_u64-lt (start_address fr), pt.start_address-page fr)))

  -- What follows the loop.
  after_walk-Translated :
      (addr : VirtAddr) (out : Result (Option PhysFrame))
      → Walked m.cr3 (digits_of addr) out
      → Translated addr (
          out >>= λ found. elim found [
            | none ↦ ok none
            | some fr ↦ pt.add_phys (start_address fr) (page_offset addr) >>= λ phys. ok (some phys)
          ])
  after_walk-Translated addr _ (arrives {last} l) =
      let phys = in_page last addr in rw (phys.returns) (translated l phys.holds)
  after_walk-Translated addr _ (not_present s) = not_mapped s
  after_walk-Translated addr _ (is_huge s) = huge_page s

  -- Where the tables of four levels lie in physical memory, and the physical memory is mapped at the
  -- offset, the translation ends in one of three ways. The digits of the address's page number, to the
  -- base 512, lead through the tables to a frame: then it gives the start of the frame and the offset in the page. Or the
  -- walk comes to an entry that is not present: then it gives none. Or it comes to the entry of a
  -- huge page: then it panics.
  pub translate_addr-Translated :
      (addr offset : VirtAddr)
      → IsMappedAt offset
      → AreTables 4 m.cr3
      → Translated addr (translate_addr f pt m addr offset)
  unfolding translate_addr translate_addr_inner
  translate_addr-Translated addr offset mapped tables = after_walk-Translated addr _ (
      subst (λ is. Walked m.cr3 (digits_of addr) (walk f pt m is offset m.cr3))
        (sym (table_indexes-digits_of addr))
        (walk-Walked offset (digits_of addr) m.cr3 mapped tables))
