-- ===== src/Task/Keyboard/Keypresses/Tests.antt =====
-- A run of `print_keypresses` of min-rust-os/src/task/keyboard.rs, on a keyboard whose scancodes
-- below 128 are the characters that they type, and a release from there on.
use os_resources.Prelude.{
  ◌≡◌, ℕ, ltb, if◌then◌else◌, none, some, List, [], ◌∷◌, ◌+◌, Returns, arith, refl,
}
use os_resources.Vga.Printing.{no_lines}
use os_resources.Vga.Tests.{plain, colour, blank_screen, blank_screen-Shows}
use os_resources.Task.Keyboard.{Scancodes, add_scancode}
use os_resources.Task.Tests.{bounded, one_waker, no_scancodes}
use os_resources.Task.Keyboard.Keypresses.{
  PcKeyboard, unicode, Gap, unpolled, listening, poll_keypresses,
}
use os_resources.Task.Keyboard.Keypresses.Queued.{still_coming}
use os_resources.Task.Keyboard.Keypresses.Woken.{add_scancode-IsHeard}
use os_resources.Task.Keyboard.Keypresses.Heard.{IsHeard, first_poll, poll_keypresses-IsHeard}

abbrev plain_keys : PcKeyboard
plain_keys = record {
  Keyboard = ℕ;
  KeyEvent = ℕ;
  Character = ℕ;
  KeyCode = ℕ;
  new = 0;
  add_byte = λ s n. ((if ltb s 128 then some (some s) else some none), n);
  process_keyevent = λ e n. (some (unicode e), n + 1);
  display = λ ch. (ch ∷ []) ∷ [];
  debug = λ key. (key ∷ []) ∷ [];
}

abbrev none_more : Gap
none_more = record { before = []; early = []; late = [] }

-- Two keys while the first poll looks for the first, and a release behind them.
abbrev gaps : List Gap
gaps =
    record { before = []; early = b'a' ∷ []; late = b'b' ∷ [] }
    ∷ record { before = 200 ∷ []; early = []; late = [] }
    ∷ none_more
    ∷ none_more
    ∷ none_more
    ∷ []

abbrev unstarted : Scancodes bounded one_waker
unstarted = record no_scancodes { scancode_queue = none }

poll_keypresses-IsHeard_example :
    Returns
      (IsHeard bounded one_waker plain_keys colour 100 7 (b'a' ∷ b'b' ∷ 200 ∷ []) 0 no_lines)
      (poll_keypresses bounded one_waker plain_keys 7 gaps unpolled unstarted blank_screen)
unfolding still_coming
poll_keypresses-IsHeard_example =
    poll_keypresses-IsHeard bounded one_waker plain_keys colour 100 7 gaps 0 unpolled unstarted
      blank_screen [] no_lines (first_poll refl refl refl)
      (record { same = refl; shows = blank_screen-Shows }) (omega arith) (omega arith)

-- A later poll, with another waker, once a key was pressed; a second one comes before it starts.
abbrev waiting : Scancodes bounded one_waker
waiting = record no_scancodes { waker = some 7 }

abbrev one_more : List Gap
one_more =
    record { before = b'd' ∷ []; early = []; late = [] } ∷ none_more ∷ none_more ∷ none_more ∷ []

add_scancode-IsHeard_example :
    ((add_scancode bounded one_waker b'c' waiting).woken ≡ 7 ∷ [])
    × Returns (IsHeard bounded one_waker plain_keys colour 100 8 (b'c' ∷ b'd' ∷ []) 2 no_lines) (
        poll_keypresses bounded one_waker plain_keys 8 one_more
          (listening 2)
          (add_scancode bounded one_waker b'c' waiting)
          blank_screen)
unfolding still_coming
add_scancode-IsHeard_example =
    add_scancode-IsHeard bounded one_waker plain_keys colour 100 7 8 b'c' one_more 2 waiting
      blank_screen no_lines (record { queue = ([], 100); at = refl; holds = refl; bound = refl })
      refl (record { same = refl; shows = blank_screen-Shows }) (omega arith) (omega arith)
