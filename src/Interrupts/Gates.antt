-- ===== src/Interrupts/Gates.antt =====
-- The table of handlers of min-rust-os/src/interrupts.rs: which vector has which handler.
use os_resources.Prelude.{
  ℕ, ◌+◌, ◌≤◌, ◌<◌, ◌≡◌, ◌==◌, ◌^◌, if◌then◌else◌, Returns, Returns-ok, Returns-bind, Option, none,
  some, arith, refl,
}
use os_resources.Interrupts.{
  pic_1_offset, pic_2_offset, InterruptIndex, timer, keyboard, as_u8, as_usize,
  double_fault_ist_index, Handler, breakpoint, double_fault, timer_interrupt, keyboard_interrupt,
  page_fault, DescriptorTable, idt,
}

-- The vectors 3, 8 and 14 are those of the exceptions, and the lines 0 and 1 of the first controller
-- are those of the timer and the keyboard. Only the double fault has a stack of its own.
abbrev pub expected_gate : ℕ → Option (Handler × Option ℕ)
expected_gate v =
    if v == 3
    then some (breakpoint, none)
    else if v == 8
    then some (double_fault, some 0)
    else if v == 14
    then some (page_fault, none)
    else if v == pic_1_offset + 0
    then some (timer_interrupt, none)
    else if v == pic_1_offset + 1
    then some (keyboard_interrupt, none)
    else none

-- The gates in the order in which they are set.
expected_gate-order :
    (v : ℕ)
    → (if v == 14
        then some (page_fault, none)
        else if v == 33
        then some (keyboard_interrupt, none)
        else if v == 32
        then some (timer_interrupt, none)
        else if v == 8
        then some (double_fault, some 0)
        else if v == 3
        then some (breakpoint, none)
        else none)
      ≡ expected_gate v
expected_gate-order v = ground arith

module _ (d : DescriptorTable) where
  open d use {gate}

  -- The table is set up without a panic, and every vector has the handler that it should have: the
  -- three exceptions, the timer and the keyboard have theirs, and no other vector has one.
  pub idt-expected_gate : Returns (λ t. (v : ℕ) → gate t v ≡ expected_gate v) (idt d)
  unfolding idt as_usize as_u8
  idt-expected_gate =
      Returns-bind (d.gate-set_index 32 timer_interrupt _ (omega arith) (omega arith)) λ t e.
        Returns-bind (d.gate-set_index 33 keyboard_interrupt t (omega arith) (omega arith)) λ t' e'.
          Returns-ok (d.set_page_fault page_fault t') λ v.
            rw
              (
                d.gate-set_page_fault page_fault t' v,
                e' v,
                e v,
                d.gate-set_double_fault double_fault double_fault_ist_index
                    (d.set_breakpoint breakpoint d.new) v,
                d.gate-set_breakpoint breakpoint d.new v,
                d.gate-new v,
              )
              (expected_gate-order v)

-- The vector of an interrupt fits a byte, lies among those of the first controller and not among
-- those of the exceptions or of the second controller, and the two interrupts have different ones.
pub as_u8-bounds :
    (i j : InterruptIndex)
    → (32 ≤ as_u8 i)
      × (pic_1_offset ≤ as_u8 i)
      × (as_u8 i < pic_2_offset)
      × (pic_2_offset + 8 ≤ 2 ^ 8)
      × (as_u8 i ≡ as_u8 j → i ≡ j)
unfolding as_u8
as_u8-bounds timer timer = (omega arith, omega arith, omega arith, omega arith, λ e. refl)
as_u8-bounds timer keyboard =
    (omega arith, omega arith, omega arith, omega arith, λ e. absurd (omega (arith, e)))
as_u8-bounds keyboard timer =
    (omega arith, omega arith, omega arith, omega arith, λ e. absurd (omega (arith, e)))
as_u8-bounds keyboard keyboard = (omega arith, omega arith, omega arith, omega arith, λ e. refl)
