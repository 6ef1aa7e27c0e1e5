-- ===== src/Task/Keyboard/Keypresses/Typed.antt =====
-- What `print_keypresses` of min-rust-os/src/task/keyboard.rs prints.
use mathlib.Core.List.{flatten}
use os_resources.Prelude.{
  ℕ, ◌≡◌, ok, ◌>>=◌, Returns, Returns-ok, Returns-bind, Option, none, some, List, [], ◌∷◌, ◌++◌,
  refl,
}
use os_resources.Vga.{Volatile, ScreenChar, ColourCode, Writer}
use os_resources.Vga.Terminal.{Lines, feed_all, Writes}
use os_resources.Vga.Printing.{print-Writes}
use os_resources.Task.Keyboard.Keypresses.{
  DecodedKey, unicode, raw_key, PcKeyboard, print_key, handle_event, handle_added, handle_scancode,
}

-- The text of the keys that scancodes stand for, and the keyboard afterwards.
module _ (p : PcKeyboard) where
  open p use {Keyboard, KeyEvent, Character, KeyCode, add_byte, process_keyevent}

  abbrev key_text : Option (DecodedKey Character KeyCode) → List ℕ
  key_text (some (unicode character)) = flatten (p.display character)
  key_text (some (raw_key key)) = flatten (p.debug key)
  key_text none = []

  abbrev added_text : Option (Option KeyEvent) → Keyboard → Keyboard × List ℕ
  added_text (some (some event)) keyboard =
      let (key, keyboard') = process_keyevent event keyboard in (keyboard', key_text key)
  added_text (some none) keyboard = (keyboard, [])
  added_text none keyboard = (keyboard, [])

  abbrev pub decoded : ℕ → Keyboard → Keyboard × List ℕ
  decoded scancode keyboard =
      let (added, keyboard') = add_byte scancode keyboard in added_text added keyboard'

  unfoldable pub typed : List ℕ → Keyboard → Keyboard × List ℕ
  typed [] keyboard = (keyboard, [])
  typed (scancode ∷ scancodes) keyboard =
      let (keyboard', text) = decoded scancode keyboard in
      let (keyboard'', more) = typed scancodes keyboard' in (keyboard'', text ++ more)

  module _ {Cell : Type 0} ⦃v : Volatile ScreenChar Cell⦄ (colour : ColourCode) where
    -- The text was printed.
    abbrev Prints : Keyboard × List ℕ → Lines → Keyboard × Writer Cell → Type 0
    Prints (keyboard, text) lines (keyboard', w) =
        (keyboard' ≡ keyboard) × Writes colour (feed_all colour text lines) w

    handle_key-Prints :
        (key : Option (DecodedKey Character KeyCode)) (keyboard : Keyboard) (w : Writer Cell)
        (lines : Lines)
        → Writes colour lines w
        → Returns (Prints (keyboard, key_text key) lines) (elim key [
          | some key ↦ do w' ← print_key p key w; ok (keyboard, w')
          | none ↦ ok (keyboard, w)
        ])
    unfolding print_key feed_all
    handle_key-Prints (some (unicode character)) keyboard w lines z =
        Returns-bind (print-Writes colour (p.display character) w lines z)
          λ w' z'. Returns-ok (keyboard, w') (refl, z')
    handle_key-Prints (some (raw_key key)) keyboard w lines z =
        Returns-bind (print-Writes colour (p.debug key) w lines z)
          λ w' z'. Returns-ok (keyboard, w') (refl, z')
    handle_key-Prints none keyboard w lines z = Returns-ok (keyboard, w) (refl, z)

    handle_added-Prints :
        (added : Option (Option KeyEvent)) (keyboard : Keyboard) (w : Writer Cell) (lines : Lines)
        → Writes colour lines w
        → Returns (Prints (added_text added keyboard) lines) (handle_added p added keyboard w)
    unfolding handle_added handle_event feed_all
    handle_added-Prints (some (some event)) keyboard w lines z =
        handle_key-Prints (process_keyevent event keyboard).0 (process_keyevent event keyboard).1 w
          lines z
    handle_added-Prints (some none) keyboard w lines z = Returns-ok (keyboard, w) (refl, z)
    handle_added-Prints none keyboard w lines z = Returns-ok (keyboard, w) (refl, z)

    pub handle_scancode-Prints :
        (scancode : ℕ) (keyboard : Keyboard) (w : Writer Cell) (lines : Lines)
        → Writes colour lines w
        → Returns (Prints (decoded scancode keyboard) lines) (handle_scancode p scancode keyboard w)
    unfolding handle_scancode
    handle_scancode-Prints scancode keyboard w lines z =
        handle_added-Prints (add_byte scancode keyboard).0 (add_byte scancode keyboard).1 w lines z
