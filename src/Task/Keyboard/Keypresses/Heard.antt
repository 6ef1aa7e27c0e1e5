-- ===== src/Task/Keyboard/Keypresses/Heard.antt =====
-- A poll of `print_keypresses` of min-rust-os/src/task/keyboard.rs against interrupts.
use os_resources.Prelude.{
  ℕ, ◌+◌, ◌≤◌, ◌<◌, ◌≡◌, true, ok, ◌>>=◌, Returns, Returns-ok, Returns-bind, Returns-mono, Option,
  none, some, List, [], ◌∷◌, ◌++◌, length, length-append, arith, refl, sym, ap, subst,
}
use os_resources.Vga.{Volatile, ScreenChar, ColourCode, Writer}
use os_resources.Vga.Terminal.{Lines, feed_all, Writes}
use os_resources.Vga.Printing.{feed_all-append}
use os_resources.Task.{ArrayQueue}
use os_resources.Task.Keyboard.{AtomicWaker, Scancodes, interrupts}
use os_resources.Task.Keyboard.Keypresses.{
  PcKeyboard, Gap, handle_scancode, Keypresses, unpolled, listening, Polled, listen,
  poll_keypresses,
}
use os_resources.Task.Keyboard.Keypresses.Queued.{
  still_coming, Queued, interrupts-Queued, Hears, hears, waits, poll_next-Hears,
  new_scancode_stream-Queued,
}
use os_resources.Task.Keyboard.Keypresses.Arrivals.{
  total, behind_first, arrivals, still_coming-length, heard-eq,
}
use os_resources.Task.Keyboard.Keypresses.Typed.{decoded, typed, handle_scancode-Prints}

module _ (a : ArrayQueue ℕ) (c : AtomicWaker) (p : PcKeyboard) where
  open p use {Keyboard}

  -- Where a future stands: `l` in a queue of capacity `n`, and the keyboard that it decodes with.
  pub data Awaits (n : ℕ) (l : List ℕ) (k : Scancodes a c)
      : Keyboard → Keypresses a c p → Type 0 where
    first_poll : k.scancode_queue ≡ none → n ≡ 100 → l ≡ [] → Awaits n l k p.new unpolled
    resumed : (keyboard : Keyboard) → Queued a c n k l → Awaits n l k keyboard (listening keyboard)

module _ {Cell : Type 0} ⦃v : Volatile ScreenChar Cell⦄ (a : ArrayQueue ℕ) (c : AtomicWaker)
    (p : PcKeyboard) (colour : ColourCode) where
  open p use {Keyboard}

  -- The poll is pending: all of `heard` was printed, the queue is empty, and the waker registered.
  pub record IsHeard (n waker : ℕ) (heard : List ℕ) (first : Keyboard) (lines : Lines)
      (o : Polled a c p Cell) : Type 0 where
    pub pending : o.pending ≡ true
    pub keyboard : o.keyboard ≡ (typed p heard first).0
    pub printed : Writes colour (feed_all colour (typed p heard first).1 lines) o.writer
    pub drained : Queued a c n o.scancodes []
    pub registered : c.stored o.scancodes.waker ≡ some waker

  waits-IsHeard :
      (n waker : ℕ) (keyboard : Keyboard) (k : Scancodes a c) (w : Writer Cell) (lines : Lines)
      → Queued a c n k []
      → c.stored k.waker ≡ some waker
      → Writes colour lines w
      → IsHeard n waker [] keyboard lines
          (record { pending = true; keyboard = keyboard; scancodes = k; writer = w })
  unfolding typed feed_all
  waits-IsHeard n waker keyboard k w lines q reg z = record {
    pending = refl;
    keyboard = refl;
    printed = z;
    drained = q;
    registered = reg;
  }

  typed-IsHeard :
      (n waker s : ℕ) (heard : List ℕ) (keyboard keyboard' : Keyboard) (lines : Lines)
      (o : Polled a c p Cell)
      → keyboard' ≡ (decoded p s keyboard).0
      → IsHeard n waker heard keyboard' (feed_all colour (decoded p s keyboard).1 lines) o
      → IsHeard n waker (s ∷ heard) keyboard lines o
  unfolding typed
  typed-IsHeard n waker s heard keyboard keyboard' lines o same h =
      let h' =
        subst (λ x. IsHeard n waker heard x (feed_all colour (decoded p s keyboard).1 lines) o) same
          h in
      record {
        pending = h'.pending;
        keyboard = h'.keyboard;
        printed =
            rw
              (feed_all-append colour (decoded p s keyboard).1
                (typed p heard (decoded p s keyboard).0).1 lines)
              h'.printed;
        drained = h'.drained;
        registered = h'.registered;
      }

  -- A round for a scancode, and what the rest of the poll does.
  hears-IsHeard :
      (n waker s : ℕ) (heard : List ℕ) (gaps : List Gap) (keyboard : Keyboard) (k : Scancodes a c)
      (w : Writer Cell) (lines : Lines)
      → Writes colour lines w
      → ((keyboard' : Keyboard) (w' : Writer Cell) (lines' : Lines)
          → Writes colour lines' w'
          → Returns
              (IsHeard n waker heard keyboard' lines')
              (listen a c p waker gaps keyboard' k w'))
      → Returns (IsHeard n waker (s ∷ heard) keyboard lines) (
          handle_scancode p s keyboard w >>= λ (keyboard', w').
          listen a c p waker gaps keyboard' k w')
  unfolding typed
  hears-IsHeard n waker s heard gaps keyboard k w lines z rest =
      Returns-bind (handle_scancode-Prints p colour s keyboard w lines z)
        λ (keyboard', w') (same, z').
          Returns-mono (rest keyboard' w' _ z')
            λ o h. typed-IsHeard n waker s heard keyboard keyboard' lines o same h

  -- A round behind `poll_next`, which `y` was offered to.
  round-IsHeard :
      (n waker : ℕ) (gaps : List Gap) (keyboard : Keyboard) (w : Writer Cell) (y : List ℕ)
      (lines : Lines) (o : Option ℕ × Scancodes a c)
      → Writes colour lines w
      → ((rest : List ℕ) (keyboard' : Keyboard) (k' : Scancodes a c) (w' : Writer Cell)
            (lines' : Lines)
          → length y ≡ length rest + 1
          → Queued a c n k' rest
          → Writes colour lines' w'
          → Returns
              (IsHeard n waker (rest ++ arrivals gaps rest) keyboard' lines')
              (listen a c p waker gaps keyboard' k' w'))
      → Hears a c n waker y o
      → Returns (IsHeard n waker (y ++ behind_first y (arrivals gaps)) keyboard lines) (elim o.0 [
        | some scancode ↦ do
          (keyboard', w') ← handle_scancode p scancode keyboard w
          listen a c p waker gaps keyboard' o.1 w'
        | none ↦ ok (record { pending = true; keyboard = keyboard; scancodes = o.1; writer = w })
      ])
  round-IsHeard n waker gaps keyboard w y lines _ z next (hears s rest k e q) =
      subst
        (λ y. Returns (IsHeard n waker (y ++ behind_first y (arrivals gaps)) keyboard lines) (
          handle_scancode p s keyboard w >>= λ (keyboard', w').
          listen a c p waker gaps keyboard' k w'))
        (sym e)
        (hears-IsHeard n waker s (rest ++ arrivals gaps rest) gaps keyboard k w lines z
          λ keyboard' w' lines' z'.
            next rest keyboard' k w' lines' (omega (arith, ap length e)) q z')
  round-IsHeard n waker gaps keyboard w y lines _ z next (waits k e q reg) =
      subst
        (λ y.
          Returns (IsHeard n waker (y ++ behind_first y (arrivals gaps)) keyboard lines)
            (ok (record { pending = true; keyboard = keyboard; scancodes = k; writer = w })))
        (sym e) (Returns-ok _ (waits-IsHeard n waker keyboard k w lines q reg z))

  listen-IsHeard :
      (n waker : ℕ) (gaps : List Gap) (keyboard : Keyboard) (k : Scancodes a c) (w : Writer Cell)
      (l : List ℕ) (lines : Lines)
      → Queued a c n k l
      → Writes colour lines w
      → length l + total gaps ≤ n
      → length l + total gaps < length gaps
      → Returns
          (IsHeard n waker (l ++ arrivals gaps l) keyboard lines)
          (listen a c p waker gaps keyboard k w)
  unfolding listen
  listen-IsHeard n waker [] keyboard k w l lines q z room enough = absurd (omega arith)
  listen-IsHeard n waker (gap ∷ gaps) keyboard k w l lines q z room enough =
      let q' = interrupts-Queued a c n gap.before k l q (omega arith) in
      let polled =
        poll_next-Hears a c n waker gap (interrupts a c gap.before k) (l ++ gap.before) q'
          (omega (arith, length-append l gap.before)) in
      let y = (l ++ gap.before) ++ still_coming gap (l ++ gap.before) in
      let size : length y ≤ length l + length gap.before + length gap.early + length gap.late =
        omega (
          arith,
          length-append (l ++ gap.before) (still_coming gap (l ++ gap.before)),
          length-append l gap.before,
          still_coming-length gap (l ++ gap.before),
        ) in
      subst
        (λ heard.
          Returns (IsHeard n waker heard keyboard lines)
            (listen a c p waker (gap ∷ gaps) keyboard k w))
        (sym (heard-eq gap gaps l))
        (Returns-bind polled λ o heard.
          round-IsHeard n waker gaps keyboard w y lines o z
            (λ rest keyboard' k' w' lines' less q' z'.
              listen-IsHeard n waker gaps keyboard' k' w' rest lines' q' z'
                (omega (arith, less, size)) (omega (arith, less, size)))
            heard)

  -- Where the queue has room for what is in it and what interrupts bring, and rounds enough are
  -- given, a poll of `print_keypresses` returns, pending, whatever keyboard interrupts fall between
  -- its steps: it has printed the keys of all scancodes that were in the queue and came during the
  -- poll, each once and in their order, the queue is empty, and the waker of the poll is registered.
  pub poll_keypresses-IsHeard :
      (n waker : ℕ) (gaps : List Gap) (keyboard : Keyboard) (future : Keypresses a c p)
      (k : Scancodes a c) (w : Writer Cell) (l : List ℕ) (lines : Lines)
      → Awaits a c p n l k keyboard future
      → Writes colour lines w
      → length l + total gaps ≤ n
      → length l + total gaps < length gaps
      → Returns
          (IsHeard n waker (l ++ arrivals gaps l) keyboard lines)
          (poll_keypresses a c p waker gaps future k w)
  unfolding poll_keypresses
  poll_keypresses-IsHeard n waker gaps _ _ k w l lines (first_poll fresh size empty) z room enough =
      Returns-bind (new_scancode_stream-Queued a c k fresh) λ k' q.
        listen-IsHeard n waker gaps p.new k' w l lines
          (subst (λ m. Queued a c m k' l) (sym size) (subst (Queued a c 100 k') (sym empty) q)) z
          room enough
  poll_keypresses-IsHeard n waker gaps _ _ k w l lines (resumed keyboard q) z room enough =
      listen-IsHeard n waker gaps keyboard k w l lines q z room enough
