-- ===== src/Task/Keyboard/Keypresses/Woken.antt =====
-- From a keyboard interrupt to the screen, through min-rust-os/src/task/keyboard.rs.
use os_resources.Prelude.{ℕ, ◌+◌, ◌≤◌, ◌<◌, ◌≡◌, Returns, some, List, [], ◌∷◌, length, arith}
use os_resources.Vga.{Volatile, ScreenChar, ColourCode, Writer}
use os_resources.Vga.Terminal.{Lines, Writes}
use os_resources.Task.{ArrayQueue}
use os_resources.Task.Keyboard.{AtomicWaker, Scancodes, add_scancode}
use os_resources.Task.Keyboard.Wakeups.{add_scancode-woken}
use os_resources.Task.Keyboard.Keypresses.{PcKeyboard, Gap, listening, poll_keypresses}
use os_resources.Task.Keyboard.Keypresses.Arrivals.{total, arrivals}
use os_resources.Task.Keyboard.Keypresses.Queued.{Queued, add_scancode-Queued}
use os_resources.Task.Keyboard.Keypresses.Heard.{IsHeard, resumed, poll_keypresses-IsHeard}

module _ {Cell : Type 0} ⦃v : Volatile ScreenChar Cell⦄ (a : ArrayQueue ℕ) (c : AtomicWaker)
    (p : PcKeyboard) (colour : ColourCode) where
  open p use {Keyboard}

  -- Where a poll of `print_keypresses` was left pending, with an empty queue and its waker
  -- registered, the next keyboard interrupt calls the waker, and the poll that follows, where the
  -- queue has room and rounds enough are given, prints the key of that scancode, and those of all
  -- that come meanwhile, and is pending again in the same way.
  pub add_scancode-IsHeard :
      (n waker waker' s : ℕ) (gaps : List Gap) (keyboard : Keyboard) (k : Scancodes a c)
      (w : Writer Cell) (lines : Lines)
      → Queued a c n k []
      → c.stored k.waker ≡ some waker
      → Writes colour lines w
      → 1 + total gaps ≤ n
      → 1 + total gaps < length gaps
      → ((add_scancode a c s k).woken ≡ waker ∷ k.woken)
        × Returns
            (IsHeard a c p colour n waker' (s ∷ arrivals gaps (s ∷ [])) keyboard lines)
            (poll_keypresses a c p waker' gaps (listening keyboard) (add_scancode a c s k) w)
  add_scancode-IsHeard n waker waker' s gaps keyboard k w lines q kept z room enough =
      let (queue, at, queued, woken, gone) =
        add_scancode-woken a c waker s k q.queue q.at q.holds (omega (arith, q.bound)) kept in
      (
        woken,
        poll_keypresses-IsHeard a c p colour n waker' gaps keyboard (listening keyboard)
            (add_scancode a c s k) w (s ∷ []) lines
            (resumed keyboard (add_scancode-Queued a c n s k [] q (omega arith))) z (omega arith)
            (omega arith),
      )
