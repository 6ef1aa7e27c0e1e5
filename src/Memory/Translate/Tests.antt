-- ===== src/Memory/Translate/Tests.antt =====
-- The translation at concrete inputs: virtual addresses are numbers, a frame is its number.
use os_resources.Prelude.{
  ℕ, zero, suc, ◌≤◌, subst, sym, ◌+◌, ◌-◌, ◌*◌, ◌/◌, ◌%◌, ◌^◌, ◌<◌, ◌≡◌, ◌==◌, ltb, if◌then◌else◌,
  ◌⊎◌, inl, inr, ok, panic, explicit, Returns, Option, none, some, arith, refl,
}
use os_resources.Memory.{Frames, page_size}
use os_resources.Memory.Translate.{
  FrameError, frame_not_present, huge_frame, PageTables, Machine, walk, translate_addr,
  translate_addr_inner,
}
use os_resources.Memory.Translate.Walk.{
  Translated, IsMappedAt, AreTables, translate_addr-Translated,
}
use os_resources.Memory.Translate.SamePage.{Beside, translate_addr-same_page}

abbrev pub frames : Frames
frames = record {
  PhysAddr = ℕ;
  PhysFrame = ℕ;
  new = λ a. if ltb a (2 ^ 52) then ok a else panic explicit;
  as_u64 = λ p. p % 2 ^ 52;
  containing_address = λ p. p % 2 ^ 52 / page_size;
  start_address = λ frame. frame * page_size;
  new-as_u64 = λ a h. (a, ground arith, omega arith);
  start_address-containing_address = λ p. omega arith;
}

abbrev pub Entry : Type 0
Entry = ℕ ⊎ FrameError

abbrev pub tables : PageTables frames
tables = record {
  VirtAddr = ℕ;
  PageTableIndex = ℕ;
  PageTable = ℕ → Entry;
  PageTableEntry = Entry;
  OffsetPageTable = ℕ × ℕ;
  as_u64 = λ v. v;
  add = λ v n. ok (v + n);
  add_phys = λ p n. if ltb (p % 2 ^ 52 + n) (2 ^ 52) then ok (p % 2 ^ 52 + n) else panic explicit;
  p4_index = λ v. v / 2 ^ 39 % 512;
  p3_index = λ v. v / 2 ^ 30 % 512;
  p2_index = λ v. v / 2 ^ 21 % 512;
  p1_index = λ v. v / 2 ^ 12 % 512;
  page_offset = λ v. v % page_size;
  index = λ table i. table i;
  frame = λ entry. entry;
  new = λ table offset. (table, offset);
  new_index = λ i. i;
  p4_index-new_index = λ v. refl;
  p3_index-new_index = λ v. refl;
  p2_index-new_index = λ v. refl;
  p1_index-new_index = λ v. refl;
  page_offset-as_u64 = λ v. refl;
  add-as_u64 = λ v n h. record { value = v + n; returns = refl; holds = refl };
  add_phys-as_u64 =
      λ p n h. record { value = p % 2 ^ 52 + n; returns = ground arith; holds = omega arith };
  as_u64-lt = λ p. omega arith;
  start_address-page = λ fr. omega arith;
}

-- In each table entry 0 leads to the next frame and entry 1 to a huge page.
abbrev pub table : ℕ → ℕ → Entry
table fr i =
    if i == 0 then inl (fr + 1) else if i == 1 then inr huge_frame else inr frame_not_present

abbrev pub held : ℕ → Option (ℕ → Entry)
held fr = if ltb fr 5 then some (table fr) else none

-- The tables are in the frames 1 to 4, and the physical memory is mapped at 2 ^ 40.
abbrev pub machine : Machine frames tables
machine = record { cr3 = 1; in_frame = held; pointed_to = λ v. held ((v - 2 ^ 40) / page_size) }

translate_maps : translate_addr frames tables machine 0x123 (2 ^ 40) ≡ ok (some 0x5123)
unfolding translate_addr translate_addr_inner walk
translate_maps = refl

translate_not_present : translate_addr frames tables machine 0x2123 (2 ^ 40) ≡ ok none
unfolding translate_addr translate_addr_inner walk
translate_not_present = refl

translate_panics : translate_addr frames tables machine (2 ^ 21) (2 ^ 40) ≡ panic explicit
unfolding translate_addr translate_addr_inner walk
translate_panics = refl

table-next : (fr i next : ℕ) → table fr i ≡ inl next → next ≡ fr + 1
table-next fr i next e = ground arith

held-lt : (fr : ℕ) (t : ℕ → Entry) → held fr ≡ some t → fr < 5
held-lt fr t e = ground arith

machine-IsMappedAt : IsMappedAt frames tables machine (2 ^ 40)
machine-IsMappedAt fr t e =
    let lt = held-lt fr t e in
    (
      inl (omega arith),
      λ v same. let number : (v - 2 ^ 40) / page_size ≡ fr = omega (arith, same) in rw number e,
    )

machine-AreTables : (levels fr : ℕ) → levels + fr ≤ 5 → AreTables frames tables machine levels fr
machine-AreTables zero fr h = tt
machine-AreTables (suc levels) fr h = (
  table fr,
  ground arith,
  λ i next e.
      subst (AreTables frames tables machine levels) (sym (table-next fr i next e))
        (machine-AreTables levels (fr + 1) (omega arith)),
)

translate_addr-Translated_example :
    Translated frames tables machine 0x123 (translate_addr frames tables machine 0x123 (2 ^ 40))
translate_addr-Translated_example =
    translate_addr-Translated frames tables machine 0x123 (2 ^ 40) machine-IsMappedAt
      (machine-AreTables 4 1 (omega arith))

translate_addr-same_page_example :
    Returns
      (Beside frames tables machine 0x123 0x5123 0x456)
      (translate_addr frames tables machine 0x456 (2 ^ 40))
translate_addr-same_page_example =
    translate_addr-same_page frames tables machine 0x123 0x456 (2 ^ 40) 0x5123 refl translate_maps
