-- ===== src/Interrupts/Tests.antt =====
-- The interrupts at concrete inputs: the table is the function that it stands for, and the
-- controllers are what they wait for.
use os_resources.Prelude.{
  ℕ, ◌+◌, ◌≡◌, ◌==◌, Bool, true, false, ◌&&◌, leb, ltb, if◌then◌else◌, ok, Returns, Returns-ok,
  Option, none, some, [], ◌∷◌, arith, refl,
}
use os_resources.Vga.{ScreenChar}
use os_resources.Vga.Tests.{plain, blank_screen, blank_screen-Shows, colour}
use os_resources.Vga.Printing.{no_lines}
use os_resources.Task.Tests.{bounded, one_waker, no_scancodes}
use os_resources.Interrupts.{
  pic_1_offset, pic_2_offset, Handler, DescriptorTable, ChainedPics, Statics, idt,
}
use os_resources.Interrupts.Gates.{expected_gate, idt-expected_gate}
use os_resources.Interrupts.Delivery.{Context, timer_tick, key, interrupt, deliver_all}
use os_resources.Interrupts.Refinement.{StandsFor, Resumes, seen_all, deliver_all-StandsFor}
use os_resources.Interrupts.Exceptions.{is_page_fault, Handled, interrupt-Handled}

abbrev pub Idt : Type 0
Idt = ℕ → Option (Handler × Option ℕ)

abbrev set_gate : ℕ → Handler → Option ℕ → Idt → Idt
set_gate i h stack t v = if v == i then some (h, stack) else t v

abbrev pub gates : DescriptorTable
gates = record {
  Idt = Idt;
  new = λ v. none;
  set_breakpoint = λ h t. set_gate 3 h none t;
  set_double_fault = λ h stack t. set_gate 8 h (some stack) t;
  set_page_fault = λ h t. set_gate 14 h none t;
  set_index = λ i h t. ok (set_gate i h none t);
  gate = λ t v. t v;
  gate-new = λ v. refl;
  gate-set_breakpoint = λ h t v. refl;
  gate-set_double_fault = λ h stack t v. refl;
  gate-set_page_fault = λ h t v. refl;
  gate-set_index = λ i h t low high. Returns-ok _ (λ v. refl);
}

abbrev within : ℕ → ℕ → Bool
within v offset = leb offset v && ltb v (offset + 8)

-- The offsets of the two controllers, and whether each waits.
abbrev Controllers : Type 0
Controllers = (ℕ × ℕ) × (Bool × Bool)

abbrev notify : ℕ → Controllers → Controllers
notify v (o, w) =
    if within v o.1 then (o, (false, false)) else if within v o.0 then (o, (false, w.1)) else (o, w)

abbrev acknowledge : ℕ → Controllers → Controllers
acknowledge n (o, w) = if ltb n 8 then (o, (true, w.1)) else (o, (true, true))

abbrev pub controllers : ChainedPics
controllers = record {
  Pics = Controllers;
  new = λ first second. ((first, second), (true, true));
  initialize = λ p. (p.0, (false, false));
  notify_end_of_interrupt = notify;
  acknowledge = acknowledge;
  offsets = λ p. p.0;
  waits = λ p. p.1;
  new-offsets = λ first second. refl;
  initialize-offsets = λ p. refl;
  initialize-waits = λ p. refl;
  acknowledge-offsets = λ n p. ground arith;
  acknowledge-waits = λ n p small. ground arith;
  notify-offsets = λ v p. ground arith;
  notify-waits = λ v p low high other. ground arith;
}

abbrev statics : Statics ScreenChar bounded one_waker controllers
statics = record {
  writer = blank_screen;
  scancodes = no_scancodes;
  pics = ((pic_1_offset, pic_2_offset), (false, false));
}

statics-StandsFor : StandsFor bounded one_waker controllers colour statics (no_scancodes, no_lines)
statics-StandsFor = record {
  scancodes = refl;
  writes = record { same = refl; shows = blank_screen-Shows };
  offsets = refl;
  waits = refl;
}

abbrev context : Context
context = record { port = 30; address = []; error_code = []; stack_frame = [] }

deliver_all-StandsFor_example :
    Returns
      (Resumes bounded one_waker controllers colour (
        seen_all bounded one_waker colour
          (timer_tick context ∷ key context ∷ timer_tick context ∷ [])
          (no_scancodes, no_lines)))
      (deliver_all bounded one_waker controllers gates expected_gate
        (timer_tick context ∷ key context ∷ timer_tick context ∷ [])
        statics)
deliver_all-StandsFor_example =
    deliver_all-StandsFor bounded one_waker controllers colour gates expected_gate (λ v. refl)
      (timer_tick context ∷ key context ∷ timer_tick context ∷ []) statics (no_scancodes, no_lines)
      statics-StandsFor

interrupt-Handled_example :
    Handled bounded one_waker controllers context statics no_lines is_page_fault
      (interrupt bounded one_waker controllers gates expected_gate 14 context statics)
interrupt-Handled_example =
    interrupt-Handled bounded one_waker controllers gates expected_gate (λ v. refl) is_page_fault
      context statics no_lines blank_screen-Shows

idt-expected_gate_example : Returns (λ t. (v : ℕ) → t v ≡ expected_gate v) (idt gates)
idt-expected_gate_example = idt-expected_gate gates
