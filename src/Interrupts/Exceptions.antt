-- ===== src/Interrupts/Exceptions.antt =====
-- What the exceptions do in min-rust-os/src/interrupts.rs.
use mathlib.Core.List.{flatten}
use os_resources.Prelude.{ℕ, ◌≡◌, Result, ok, panic, explicit, List, [], ◌∷◌, ◌++◌, refl}
use os_resources.Vga.{Volatile, ScreenChar, Writer}
use os_resources.Vga.Terminal.{Lines, feed_all, Shows, Writes}
use os_resources.Task.{ArrayQueue}
use os_resources.Task.Keyboard.{AtomicWaker}
use os_resources.Interrupts.Texts.{breakpoint_text, page_fault_text, accessed_text, error_code_text}
use os_resources.Interrupts.{
  DescriptorTable, ChainedPics, line, Statics, breakpoint_handler, double_fault_handler,
  page_fault_handler,
}
use os_resources.Interrupts.Gates.{expected_gate}
use os_resources.Interrupts.Delivery.{Exit, resumes, halts, Context, run_handler, interrupt}
use os_resources.Vga.Printing.{print-Writes}

abbrev newline : List ℕ
newline = b'\n' ∷ []

-- The lines with the text of a `println!` behind them.
abbrev printed : ℕ → List (List ℕ) → Lines → Lines
printed colour pieces l = feed_all colour (flatten (line pieces)) l

-- The exceptions that have a handler.
pub data Exception : Type 0 where
  is_breakpoint is_double_fault is_page_fault : Exception

abbrev pub vector_of : Exception → ℕ
vector_of is_breakpoint = 3
vector_of is_double_fault = 8
vector_of is_page_fault = 14

module _ {Cell : Type 0} ⦃v : Volatile ScreenChar Cell⦄ (a : ArrayQueue ℕ) (c : AtomicWaker)
    (cp : ChainedPics) where
  -- How the handling ends: a breakpoint prints its text and resumes; a page fault prints four texts
  -- and halts for ever; a double fault panics. Apart from the screen all is as before.
  pub data Handled (x : Context) (s : Statics Cell a c cp) (l : Lines)
      : Exception → Result (Exit (Statics Cell a c cp)) → Type 0 where
    breakpoint_resumes :
        (writer : Writer Cell)
        → Writes s.writer.colour_code
            (printed s.writer.colour_code ((breakpoint_text ++ newline) ∷ x.stack_frame) l)
            writer
        → Handled x s l is_breakpoint (ok (resumes (record s { writer = writer })))
    double_fault_panics : Handled x s l is_double_fault (panic explicit)
    page_fault_halts :
        (writer : Writer Cell)
        → Writes s.writer.colour_code
            (printed s.writer.colour_code x.stack_frame (
              printed s.writer.colour_code (error_code_text ∷ x.error_code) (
                printed s.writer.colour_code
                  (accessed_text ∷ x.address)
                  (printed s.writer.colour_code (page_fault_text ∷ []) l))))
            writer
        → Handled x s l is_page_fault (ok (halts (record s { writer = writer })))

  module _ (d : DescriptorTable) (t : d.Idt) (gates : (v : ℕ) → d.gate t v ≡ expected_gate v) where
    -- Where the table has the gates that it should have, and the screen shows some lines, a breakpoint
    -- adds its text and the text of the stack frame to them and resumes; a page fault adds its text
    -- and those of the address, of the error code and of the stack frame, each on lines of its own,
    -- and halts for ever; a double fault panics. Nothing else changes.
    pub interrupt-Handled :
        (e : Exception) (x : Context) (s : Statics Cell a c cp) (l : Lines)
        → Shows s.writer l
        → Handled x s l e (interrupt a c cp d t (vector_of e) x s)
    unfolding interrupt run_handler breakpoint_handler double_fault_handler page_fault_handler
    interrupt-Handled is_breakpoint x s l h =
        let k = s.writer.colour_code in
        let shown =
          print-Writes k (line ((breakpoint_text ++ newline) ∷ x.stack_frame)) s.writer l
            (record { same = refl; shows = h }) in
        rw (interrupt, gates 3, shown.returns) (breakpoint_resumes shown.value shown.holds)
    interrupt-Handled is_double_fault x s l h = rw (interrupt, gates 8) double_fault_panics
    interrupt-Handled is_page_fault x s l h =
        let k = s.writer.colour_code in
        let one =
          print-Writes k (line (page_fault_text ∷ [])) s.writer l
            (record { same = refl; shows = h }) in
        let two = print-Writes k (line (accessed_text ∷ x.address)) one.value _ one.holds in
        let three = print-Writes k (line (error_code_text ∷ x.error_code)) two.value _ two.holds in
        let four = print-Writes k (line x.stack_frame) three.value _ three.holds in
        rw (interrupt, gates 14, one.returns, two.returns, three.returns, four.returns)
          (page_fault_halts four.value four.holds)
