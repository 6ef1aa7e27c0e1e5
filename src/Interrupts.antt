-- ===== src/Interrupts.antt =====
-- min-rust-os/src/interrupts.rs: the table of interrupt handlers, and the handlers.
--
-- The table and the interrupt controllers are types of the crates `x86_64` and `pic8259`:
-- `DescriptorTable` and `ChainedPics` are what the code and the processor use of them.
pub mod Delivery
pub mod Exceptions
pub mod Gates
pub mod Refinement
pub mod Tests
pub mod Texts
use os_resources.Prelude.{
  ℕ, ◌+◌, ◌≤◌, ◌<◌, ◌≡◌, ◌==◌, ◌^◌, Bool, true, false, if◌then◌else◌, Result, ok, panic, explicit,
  ◌>>=◌, Returns, Option, none, some, List, [], ◌∷◌, ◌++◌,
}
use os_resources.Vga.{Volatile, ScreenChar, Writer, print}
use os_resources.Task.{ArrayQueue}
use os_resources.Task.Keyboard.{
  AtomicWaker, Warning, queue_full, queue_uninitialised, Scancodes, add_scancode,
}
use os_resources.Interrupts.Texts.{
  breakpoint_text, page_fault_text, accessed_text, error_code_text, queue_full_text,
  queue_uninitialised_text,
}

abbrev pub pic_1_offset : ℕ
pic_1_offset = 32

abbrev pub pic_2_offset : ℕ
pic_2_offset = pic_1_offset + 8

pub data InterruptIndex : Type 0 where
  timer keyboard : InterruptIndex

-- A variant without a value of its own has the value behind the one before it.
unfoldable pub as_u8 : InterruptIndex → ℕ
as_u8 timer = pic_1_offset
as_u8 keyboard = pic_1_offset + 1

unfoldable pub as_usize : InterruptIndex → ℕ
as_usize index = as_u8 index

-- `gdt::DOUBLE_FAULT_IST_INDEX`.
abbrev pub double_fault_ist_index : ℕ
double_fault_ist_index = 0

-- The functions that are handlers.
pub data Handler : Type 0 where
  breakpoint double_fault timer_interrupt keyboard_interrupt page_fault : Handler

-- `InterruptDescriptorTable`: `gate` is the handler of a vector, with the index of its stack if it
-- has one of its own. The vectors of the exceptions are those of the processor. Indexing reaches the
-- vectors that are free for use.
pub record DescriptorTable : Type 1 where
  pub Idt : Type 0
  pub new : Idt
  pub set_breakpoint : Handler → Idt → Idt
  pub set_double_fault : Handler → ℕ → Idt → Idt
  pub set_page_fault : Handler → Idt → Idt
  pub set_index : ℕ → Handler → Idt → Result Idt
  pub gate : Idt → ℕ → Option (Handler × Option ℕ)
  pub gate-new : (v : ℕ) → gate new v ≡ none
  pub gate-set_breakpoint :
      (h : Handler) (t : Idt) (v : ℕ)
      → gate (set_breakpoint h t) v ≡ (if v == 3 then some (h, none) else gate t v)
  pub gate-set_double_fault :
      (h : Handler) (stack : ℕ) (t : Idt) (v : ℕ)
      → gate (set_double_fault h stack t) v ≡ (if v == 8 then some (h, some stack) else gate t v)
  pub gate-set_page_fault :
      (h : Handler) (t : Idt) (v : ℕ)
      → gate (set_page_fault h t) v ≡ (if v == 14 then some (h, none) else gate t v)
  pub gate-set_index :
      (i : ℕ) (h : Handler) (t : Idt)
      → 32 ≤ i
      → i < 2 ^ 8
      → Returns
          (λ t'. (v : ℕ) → gate t' v ≡ (if v == i then some (h, none) else gate t v))
          (set_index i h t)

-- `ChainedPics`. A line of the first controller that the processor acknowledges keeps it from
-- sending more, until it is told that the interrupt ended: `waits`, for each of the two.
pub record ChainedPics : Type 1 where
  pub Pics : Type 0
  pub new : ℕ → ℕ → Pics
  pub initialize : Pics → Pics
  pub notify_end_of_interrupt : ℕ → Pics → Pics
  pub acknowledge : ℕ → Pics → Pics
  pub offsets : Pics → ℕ × ℕ
  pub waits : Pics → Bool × Bool
  pub new-offsets : (first second : ℕ) → offsets (new first second) ≡ (first, second)
  pub initialize-offsets : (p : Pics) → offsets (initialize p) ≡ offsets p
  pub initialize-waits : (p : Pics) → waits (initialize p) ≡ (false, false)
  pub acknowledge-offsets : (line : ℕ) (p : Pics) → offsets (acknowledge line p) ≡ offsets p
  pub acknowledge-waits :
      (line : ℕ) (p : Pics) → line < 8 → waits (acknowledge line p) ≡ (true, (waits p).1)
  pub notify-offsets : (v : ℕ) (p : Pics) → offsets (notify_end_of_interrupt v p) ≡ offsets p
  pub notify-waits :
      (v : ℕ) (p : Pics)
      → (offsets p).0 ≤ v
      → v < (offsets p).0 + 8
      → v < (offsets p).1
      → waits (notify_end_of_interrupt v p) ≡ (false, (waits p).1)

module _ (d : DescriptorTable) where
  open d use {Idt, new, set_breakpoint, set_double_fault, set_page_fault, set_index}

  -- The initialisation of `IDT`.
  unfoldable pub idt : Result Idt
  idt = do
    let exceptions =
        set_double_fault double_fault double_fault_ist_index (set_breakpoint breakpoint new)
    with_timer ← set_index (as_usize timer) timer_interrupt exceptions
    with_keyboard ← set_index (as_usize keyboard) keyboard_interrupt with_timer
    ok (set_page_fault page_fault with_keyboard)

abbrev pub warning_text : Warning → List ℕ
warning_text queue_full = queue_full_text
warning_text queue_uninitialised = queue_uninitialised_text

-- `println!`: the text, then a newline.
abbrev pub line : List (List ℕ) → List (List ℕ)
line pieces = pieces ++ (b'\n' ∷ []) ∷ []

module _ (Cell : Type 0) (a : ArrayQueue ℕ) (c : AtomicWaker) (cp : ChainedPics) where
  open cp use {Pics}

  -- What the handlers change: the screen, the scancodes and the controllers. Each is behind a lock
  -- or atomic, and a handler has the processor to itself.
  pub record Statics : Type 0 where
    pub writer : Writer Cell
    pub scancodes : Scancodes a c
    pub pics : Pics

module _ {Cell : Type 0} ⦃v : Volatile ScreenChar Cell⦄ (a : ArrayQueue ℕ) (c : AtomicWaker)
    (cp : ChainedPics) where
  open cp use {notify_end_of_interrupt}

  unfoldable pub timer_interrupt_handler : Statics Cell a c cp → Result (Statics Cell a c cp)
  timer_interrupt_handler s = do
    writer ← print ((b'.' ∷ []) ∷ []) s.writer
    ok (record s { writer = writer; pics = notify_end_of_interrupt (as_u8 timer) s.pics })

  unfoldable pub print_warnings : List Warning → Writer Cell → Result (Writer Cell)
  print_warnings [] w = ok w
  print_warnings (warning ∷ warnings) w = do
    w' ← print (line (warning_text warning ∷ [])) w
    print_warnings warnings w'

  -- `scancode` is what the port 0x60 gives. The warnings of `add_scancode` go to the screen.
  unfoldable pub keyboard_interrupt_handler : ℕ → Statics Cell a c cp → Result (Statics Cell a c cp)
  keyboard_interrupt_handler scancode s = do
    let scancodes = add_scancode a c scancode (record s.scancodes { warnings = [] })
    writer ← print_warnings scancodes.warnings s.writer
    ok (record s {
      writer = writer;
      scancodes = scancodes;
      pics = notify_end_of_interrupt (as_u8 keyboard) s.pics;
    })

  -- `stack_frame` is the pieces of its text.
  unfoldable pub breakpoint_handler :
      List (List ℕ) → Statics Cell a c cp → Result (Statics Cell a c cp)
  breakpoint_handler stack_frame s = do
    writer ← print (line ((breakpoint_text ++ (b'\n' ∷ [])) ∷ stack_frame)) s.writer
    ok (record s { writer = writer })

  -- A panic prints its message and stops the kernel.
  unfoldable pub double_fault_handler :
      List (List ℕ) → Statics Cell a c cp → Result (Statics Cell a c cp)
  double_fault_handler stack_frame s = panic explicit

  -- The statics when the handler comes to `hlt_loop`, which does not return. `address` is what CR2
  -- holds; it, the code and the frame are the pieces of their texts.
  unfoldable pub page_fault_handler :
      List (List ℕ)
      → List (List ℕ)
      → List (List ℕ)
      → Statics Cell a c cp
      → Result (Statics Cell a c cp)
  page_fault_handler address error_code stack_frame s = do
    w ← print (line (page_fault_text ∷ [])) s.writer
    w' ← print (line (accessed_text ∷ address)) w
    w'' ← print (line (error_code_text ∷ error_code)) w'
    writer ← print (line stack_frame) w''
    ok (record s { writer = writer })
