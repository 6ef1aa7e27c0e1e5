-- ===== src/Task/Keyboard/Keypresses.antt =====
-- `print_keypresses` of min-rust-os/src/task/keyboard.rs, as the future that its polls make.
--
-- The decoding of scancodes is the crate `pc_keyboard`, a parameter. A poll goes on until
-- `poll_next` is pending; the scancodes of the interrupts that fall into it are given for each
-- round of its loop.
pub mod Arrivals
pub mod Heard
pub mod Queued
mod Tests
pub mod Typed
pub mod Woken
use os_resources.Prelude.{
  ℕ, Bool, true, false, Result, ok, ◌>>=◌, Option, none, some, List, [], ◌∷◌,
}
use os_resources.Vga.{Volatile, ScreenChar, Writer, print}
use os_resources.Task.{ArrayQueue}
use os_resources.Task.Keyboard.{AtomicWaker, Scancodes, interrupts, new_scancode_stream, poll_next}

pub data DecodedKey (Character KeyCode : Type 0) : Type 0 where
  unicode : Character → DecodedKey Character KeyCode
  raw_key : KeyCode → DecodedKey Character KeyCode

-- A keyboard of the layout that `Keyboard::new` is called with. `add_byte` gives an error, no event
-- yet, or an event. `display` and `debug` are the pieces that formatting a key gives.
pub record PcKeyboard : Type 1 where
  pub Keyboard : Type 0
  pub KeyEvent : Type 0
  pub Character : Type 0
  pub KeyCode : Type 0
  pub new : Keyboard
  pub add_byte : ℕ → Keyboard → Option (Option KeyEvent) × Keyboard
  pub process_keyevent : KeyEvent → Keyboard → Option (DecodedKey Character KeyCode) × Keyboard
  pub display : Character → List (List ℕ)
  pub debug : KeyCode → List (List ℕ)

-- The keyboard interrupts of a round: before `poll_next`, and at the two places inside it.
pub record Gap : Type 0 where
  pub before : List ℕ
  pub early : List ℕ
  pub late : List ℕ

module _ {Cell : Type 0} ⦃v : Volatile ScreenChar Cell⦄ (p : PcKeyboard) where
  open p use {Keyboard, KeyEvent, Character, KeyCode, add_byte, process_keyevent}

  pub print_key : DecodedKey Character KeyCode → Writer Cell → Result (Writer Cell)
  print_key (unicode character) w = print (p.display character) w
  print_key (raw_key key) w = print (p.debug key) w

  pub handle_event : KeyEvent → Keyboard → Writer Cell → Result (Keyboard × Writer Cell)
  unfolding print_key
  handle_event event keyboard w =
      let (key, keyboard') = process_keyevent event keyboard in
      elim key [ some key ↦ do w' ← print_key key w; ok (keyboard', w') | none ↦ ok (keyboard', w) ]

  pub handle_added :
      Option (Option KeyEvent) → Keyboard → Writer Cell → Result (Keyboard × Writer Cell)
  unfolding handle_event
  handle_added (some (some event)) keyboard w = handle_event event keyboard w
  handle_added (some none) keyboard w = ok (keyboard, w)
  handle_added none keyboard w = ok (keyboard, w)

  -- The body of the loop.
  pub handle_scancode : ℕ → Keyboard → Writer Cell → Result (Keyboard × Writer Cell)
  unfolding handle_added
  handle_scancode scancode keyboard w =
      let (added, keyboard') = add_byte scancode keyboard in handle_added added keyboard' w

module _ (a : ArrayQueue ℕ) (c : AtomicWaker) (p : PcKeyboard) where
  open p use {Keyboard}

  -- Before its first poll, or at the `await`.
  pub data Keypresses : Type 0 where
    unpolled : Keypresses
    listening : Keyboard → Keypresses

  -- What a poll leaves: whether it is pending (a poll for which more rounds must be given is not),
  -- the keyboard, the scancodes and the screen.
  pub record Polled (Cell : Type 0) : Type 0 where
    pub pending : Bool
    pub keyboard : Keyboard
    pub scancodes : Scancodes a c
    pub writer : Writer Cell

  module _ {Cell : Type 0} ⦃v : Volatile ScreenChar Cell⦄ where
    -- The loop, with the waker `waker`, for as many rounds as there are gaps.
    pub listen : ℕ → List Gap → Keyboard → Scancodes a c → Writer Cell → Result (Polled Cell)
    listen waker [] keyboard k w =
        ok (record { pending = false; keyboard = keyboard; scancodes = k; writer = w })
    listen waker (gap ∷ gaps) keyboard k w = do
      (found, k') ← poll_next a c waker gap.early gap.late (interrupts a c gap.before k)
      elim found [
        | some scancode ↦ do
          (keyboard', w') ← handle_scancode p scancode keyboard w
          listen waker gaps keyboard' k' w'
        | none ↦ ok (record { pending = true; keyboard = keyboard; scancodes = k'; writer = w })
      ]

    -- A poll of the future.
    pub poll_keypresses :
        ℕ → List Gap → Keypresses → Scancodes a c → Writer Cell → Result (Polled Cell)
    unfolding listen
    poll_keypresses waker gaps unpolled k w = do
      k' ← new_scancode_stream a c k
      listen waker gaps p.new k' w
    poll_keypresses waker gaps (listening keyboard) k w = listen waker gaps keyboard k w
