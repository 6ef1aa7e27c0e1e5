-- ===== src/Interrupts/Refinement.antt =====
-- What the interrupts of min-rust-os/src/interrupts.rs do to the screen and to the scancodes, each
-- interrupt after the one before it.
use mathlib.Core.List.{flatten}
use os_resources.Prelude.{
  ℕ, ◌+◌, ◌<◌, ◌≡◌, Bool, true, false, ok, Returns, Returns-ok, Returns-bind, List, [], ◌∷◌, ◌++◌,
  arith, ap, subst, ◌∙◌,
}
use os_resources.Vga.{Volatile, ScreenChar, Writer}
use os_resources.Vga.Terminal.{Lines, feed_all, Writes}
use os_resources.Vga.Printing.{print-Writes}
use os_resources.Task.{ArrayQueue}
use os_resources.Task.Keyboard.{AtomicWaker, Warning, Scancodes, add_scancode}
use os_resources.Interrupts.{
  pic_1_offset, pic_2_offset, timer, keyboard, as_u8, DescriptorTable, ChainedPics, warning_text,
  line, Statics, timer_interrupt_handler, print_warnings, keyboard_interrupt_handler,
}
use os_resources.Interrupts.Gates.{expected_gate}
use os_resources.Interrupts.{InterruptIndex}
use os_resources.Interrupts.Gates.{as_u8-bounds}
use os_resources.Interrupts.Delivery.{
  Exit, resumes, halts, Context, Interrupt, timer_tick, key, run_handler, interrupt, deliver,
  deliver_all,
}

-- What the interrupts should do: a dot for the timer, and for the keyboard the scancode, or a
-- warning on a line of its own.
module _ (a : ArrayQueue ℕ) (c : AtomicWaker) (colour : ℕ) where
  abbrev warned : List Warning → Lines → Lines
  warned [] l = l
  warned (w ∷ ws) l = warned ws (feed_all colour (warning_text w ++ b'\n' ∷ []) l)

  abbrev seen : Interrupt → Scancodes a c × Lines → Scancodes a c × Lines
  seen (timer_tick x) (k, l) = (k, feed_all colour (b'.' ∷ []) l)
  seen (key x) (k, l) =
      let k' = add_scancode a c x.port (record k { warnings = [] }) in (k', warned k'.warnings l)

  abbrev pub seen_all : List Interrupt → Scancodes a c × Lines → Scancodes a c × Lines
  seen_all [] o = o
  seen_all (i ∷ is) o = seen_all is (seen i o)

module _ (cp : ChainedPics) where
  -- The end of an interrupt of the first controller.
  end-waits :
      (i : InterruptIndex) (n : ℕ) (p : cp.Pics)
      → n < 8
      → cp.offsets p ≡ (pic_1_offset, pic_2_offset)
      → cp.waits p ≡ (false, false)
      → (cp.offsets (cp.notify_end_of_interrupt (as_u8 i) (cp.acknowledge n p))
          ≡ (pic_1_offset, pic_2_offset))
        × (cp.waits (cp.notify_end_of_interrupt (as_u8 i) (cp.acknowledge n p)) ≡ (false, false))
  end-waits i n p small at idle =
      let here = cp.acknowledge-offsets n p ∙ at in
      let bounds = as_u8-bounds i i in
      let first : (cp.offsets (cp.acknowledge n p)).0 ≡ pic_1_offset =
        ap (λ (o : ℕ × ℕ). o.0) here in
      let second : (cp.offsets (cp.acknowledge n p)).1 ≡ pic_2_offset =
        ap (λ (o : ℕ × ℕ). o.1) here in
      (
        cp.notify-offsets (as_u8 i) (cp.acknowledge n p) ∙ here,
        cp.notify-waits (as_u8 i) (cp.acknowledge n p) (omega (arith, first, bounds))
              (omega (arith, first, bounds)) (omega (arith, second, bounds))
            ∙ ap (λ (o : Bool × Bool). (false, o.1))
                (cp.acknowledge-waits n p small ∙ ap (λ (o : Bool × Bool). (true, o.1)) idle),
      )

module _ {Cell : Type 0} ⦃v : Volatile ScreenChar Cell⦄ (a : ArrayQueue ℕ) (c : AtomicWaker)
    (cp : ChainedPics) (colour : ℕ) where
  open cp use {acknowledge}

  -- The statics stand for scancodes and lines, and the controllers wait for nothing.
  pub record StandsFor (s : Statics Cell a c cp) (o : Scancodes a c × Lines) : Type 0 where
    pub scancodes : s.scancodes ≡ o.0
    pub writes : Writes colour o.1 s.writer
    pub offsets : cp.offsets s.pics ≡ (pic_1_offset, pic_2_offset)
    pub waits : cp.waits s.pics ≡ (false, false)

  pub data Resumes (o : Scancodes a c × Lines) : Exit (Statics Cell a c cp) → Type 0 where
    resumed : {s : Statics Cell a c cp} → StandsFor s o → Resumes o (resumes s)

  print_warnings-Writes :
      (ws : List Warning) (w : Writer Cell) (l : Lines)
      → Writes colour l w
      → Returns (Writes colour (warned a c colour ws l)) (print_warnings a c cp ws w)
  unfolding print_warnings flatten
  print_warnings-Writes [] w l z = Returns-ok w z
  print_warnings-Writes (x ∷ ws) w l z =
      Returns-bind (print-Writes colour (line (warning_text x ∷ [])) w l z)
        λ w' z'. print_warnings-Writes ws w' _ z'

  timer-StandsFor :
      (s : Statics Cell a c cp) (o : Scancodes a c × Lines) (x : Context)
      → StandsFor s o
      → Returns
          (λ s'. StandsFor s' (seen a c colour (timer_tick x) o))
          (timer_interrupt_handler a c cp (record s { pics = acknowledge 0 s.pics }))
  unfolding timer_interrupt_handler flatten
  timer-StandsFor s o x z =
      let ended = end-waits cp timer 0 s.pics (omega arith) z.offsets z.waits in
      Returns-bind (print-Writes colour ((b'.' ∷ []) ∷ []) s.writer o.1 z.writes) λ writer shown.
        Returns-ok _
          (record { scancodes = z.scancodes; writes = shown; offsets = ended.0; waits = ended.1 })

  keyboard-StandsFor :
      (s : Statics Cell a c cp) (o : Scancodes a c × Lines) (x : Context)
      → StandsFor s o
      → Returns
          (λ s'. StandsFor s' (seen a c colour (key x) o))
          (keyboard_interrupt_handler a c cp x.port (record s { pics = acknowledge 1 s.pics }))
  unfolding keyboard_interrupt_handler
  keyboard-StandsFor s o x z =
      let ended = end-waits cp keyboard 1 s.pics (omega arith) z.offsets z.waits in
      let same =
        ap (λ (k : Scancodes a c). add_scancode a c x.port (record k { warnings = [] }))
          z.scancodes in
      Returns-bind
        (subst
          (λ (k : Scancodes a c). Returns (Writes colour (warned a c colour k.warnings o.1)) (
            print_warnings a c cp
              (add_scancode a c x.port (record s.scancodes { warnings = [] })).warnings s.writer))
          same (print_warnings-Writes _ s.writer o.1 z.writes))
        λ writer shown.
          Returns-ok _
            (record { scancodes = same; writes = shown; offsets = ended.0; waits = ended.1 })

  module _ (d : DescriptorTable) (t : d.Idt) (gates : (v : ℕ) → d.gate t v ≡ expected_gate v) where
    deliver-StandsFor :
        (i : Interrupt) (s : Statics Cell a c cp) (o : Scancodes a c × Lines)
        → StandsFor s o
        → Returns (Resumes (seen a c colour i o)) (deliver a c cp d t i s)
    unfolding deliver interrupt run_handler
    deliver-StandsFor (timer_tick x) s o z =
        let idle = ap (λ (w : Bool × Bool). w.0) z.waits in
        let at : (cp.offsets s.pics).0 + 0 ≡ 32 =
          omega (arith, ap (λ (f : ℕ × ℕ). f.0) z.offsets) in
        rw (idle, at, interrupt, gates 32)
          (Returns-bind (timer-StandsFor s o x z) λ s' z'. Returns-ok (resumes s') (resumed z'))
    deliver-StandsFor (key x) s o z =
        let idle = ap (λ (w : Bool × Bool). w.0) z.waits in
        let at : (cp.offsets s.pics).0 + 1 ≡ 33 =
          omega (arith, ap (λ (f : ℕ × ℕ). f.0) z.offsets) in
        rw (idle, at, interrupt, gates 33)
          (Returns-bind (keyboard-StandsFor s o x z) λ s' z'. Returns-ok (resumes s') (resumed z'))

    -- What follows an interrupt.
    after-Resumes :
        (is : List Interrupt) (o o' : Scancodes a c × Lines) (exit : Exit (Statics Cell a c cp))
        → ((s : Statics Cell a c cp)
            → StandsFor s o
            → Returns (Resumes o') (deliver_all a c cp d t is s))
        → Resumes o exit
        → Returns
            (Resumes o')
            (elim exit [ resumes s' ↦ deliver_all a c cp d t is s' | halts s' ↦ ok (halts s') ])
    after-Resumes is o o' _ more (resumed {s} z) = more s z

    -- Where the table has the gates that it should have, the controllers have their offsets and wait
    -- for nothing, and the screen shows some lines, any number of interrupts of the timer and the
    -- keyboard return, one after the other, and none is held back. The screen then shows the lines
    -- with a dot for each tick and a line for each warning in their order; the scancodes are those of
    -- `add_scancode` for each key in turn; and the controllers wait for nothing.
    pub deliver_all-StandsFor :
        (is : List Interrupt) (s : Statics Cell a c cp) (o : Scancodes a c × Lines)
        → StandsFor s o
        → Returns (Resumes (seen_all a c colour is o)) (deliver_all a c cp d t is s)
    unfolding deliver_all
    deliver_all-StandsFor [] s o z = Returns-ok (resumes s) (resumed z)
    deliver_all-StandsFor (i ∷ is) s o z = Returns-bind (deliver-StandsFor i s o z) λ exit r.
        after-Resumes is (seen a c colour i o) (seen_all a c colour is (seen a c colour i o)) exit
          (λ s' z'. deliver_all-StandsFor is s' (seen a c colour i o) z') r
