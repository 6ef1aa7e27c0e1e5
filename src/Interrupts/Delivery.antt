-- ===== src/Interrupts/Delivery.antt =====
-- Interrupts from the controllers through the table to the handlers of min-rust-os/src/interrupts.rs,
-- one after another.
--
-- The processor takes a vector, looks its gate up and runs the handler. The first controller sends
-- the vector of a line, and then waits until a handler tells it that the interrupt ended.
use os_resources.Prelude.{ℕ, ◌+◌, if◌then◌else◌, Result, ok, ◌>>=◌, none, some, List, [], ◌∷◌}
use os_resources.Vga.{Volatile, ScreenChar}
use os_resources.Task.{ArrayQueue}
use os_resources.Task.Keyboard.{AtomicWaker}
use os_resources.Interrupts.{
  Handler, breakpoint, double_fault, timer_interrupt, keyboard_interrupt, page_fault,
  DescriptorTable, ChainedPics, Statics, timer_interrupt_handler, keyboard_interrupt_handler,
  breakpoint_handler, double_fault_handler, page_fault_handler,
}

-- A handler returns to the code that it interrupted, or it halts for ever.
pub data Exit (A : Type 0) : Type 0 where
  resumes halts : A → Exit A

-- What a handler finds: the byte at the port, and the texts of what the processor reports.
pub record Context : Type 0 where
  pub port : ℕ
  pub address : List (List ℕ)
  pub error_code : List (List ℕ)
  pub stack_frame : List (List ℕ)

-- An interrupt of the first controller, with what it finds: of the timer on line 0, or of the
-- keyboard on line 1.
pub data Interrupt : Type 0 where
  timer_tick key : Context → Interrupt

abbrev pub line_of : Interrupt → ℕ
line_of (timer_tick x) = 0
line_of (key x) = 1

abbrev pub context_of : Interrupt → Context
context_of (timer_tick x) = x
context_of (key x) = x

module _ {Cell : Type 0} ⦃v : Volatile ScreenChar Cell⦄ (a : ArrayQueue ℕ) (c : AtomicWaker)
    (cp : ChainedPics) where
  open cp use {acknowledge, offsets, waits}

  unfoldable pub run_handler :
      Handler → Context → Statics Cell a c cp → Result (Exit (Statics Cell a c cp))
  run_handler breakpoint x s = do s' ← breakpoint_handler a c cp x.stack_frame s; ok (resumes s')
  run_handler double_fault x s = do s' ← double_fault_handler a c cp x.stack_frame s; ok (halts s')
  run_handler timer_interrupt x s = do s' ← timer_interrupt_handler a c cp s; ok (resumes s')
  run_handler keyboard_interrupt x s = do
    s' ← keyboard_interrupt_handler a c cp x.port s
    ok (resumes s')
  run_handler page_fault x s = do
    s' ← page_fault_handler a c cp x.address x.error_code x.stack_frame s
    ok (halts s')

  module _ (d : DescriptorTable) (t : d.Idt) where
    -- A vector without a handler is a double fault.
    unfoldable pub interrupt :
        ℕ → Context → Statics Cell a c cp → Result (Exit (Statics Cell a c cp))
    interrupt vector x s = elim (d.gate t vector) [
      | some (handler, stack) ↦ run_handler handler x s
      | none ↦ run_handler double_fault x s
    ]

    -- A controller that waits does not send the interrupt.
    unfoldable pub deliver : Interrupt → Statics Cell a c cp → Result (Exit (Statics Cell a c cp))
    deliver i s =
        if (waits s.pics).0
        then ok (resumes s)
        else interrupt ((offsets s.pics).0 + line_of i) (context_of i)
            (record s { pics = acknowledge (line_of i) s.pics })

    unfoldable pub deliver_all :
        List Interrupt → Statics Cell a c cp → Result (Exit (Statics Cell a c cp))
    deliver_all [] s = ok (resumes s)
    deliver_all (i ∷ is) s = do
      exit ← deliver i s
      elim exit [ resumes s' ↦ deliver_all is s' | halts s' ↦ ok (halts s') ]
