-- ===== src/Kernel/Greeting.antt =====
-- What `kernel_main` of min-rust-os/src/main.rs prints before it sets the kernel up.
--
-- The formatting of numbers is the library's: `forty_two` and `third` are the pieces that it gives
-- for 42 and for 1.0 / 3.0.
use mathlib.Core.List.{flatten}
use os_resources.Prelude.{ℕ, Result, ok, expect_failed, expect, ◌>>=◌, Returns, List, [], ◌∷◌, ◌++◌}
use os_resources.Vga.{Volatile, ScreenChar, ColourCode, Writer, write_str, write_fmt, print}
use os_resources.Vga.Terminal.{Lines, feed_all, Shows, Writes, recolour}
use os_resources.Vga.Printing.{print-Writes, write_str-Shows, write_fmt-Shows}

abbrev allo_text : List ℕ
allo_text =
    b'A' ∷ b'l' ∷ b'l' ∷ b'o' ∷ b' ' ∷ b'W' ∷ 195 ∷ 182 ∷ b'r' ∷ b't' ∷ b'!' ∷ b' ' ∷ b'\n' ∷ []

abbrev numbers_text : List ℕ
numbers_text =
    b'P' ∷ b'r' ∷ b'i' ∷ b'n' ∷ b't' ∷ b' ' ∷ b'n' ∷ b'u' ∷ b'm' ∷ b'b' ∷ b'e' ∷ b'r' ∷ b's' ∷ b' '
    ∷ []

abbrev and_text : List ℕ
and_text = b' ' ∷ b'a' ∷ b'n' ∷ b'd' ∷ b' ' ∷ []

abbrev end_text : List ℕ
end_text = b' ' ∷ b'\n' ∷ []

abbrev macro_text : List ℕ
macro_text =
    b'H' ∷ b'e' ∷ b'l' ∷ b'l' ∷ b'o' ∷ b' ' ∷ b'f' ∷ b'r' ∷ b'o' ∷ b'm' ∷ b' ' ∷ b't' ∷ b'h' ∷ b'e'
    ∷ b' ' ∷ b'h' ∷ b'a' ∷ b'n' ∷ b'd' ∷ b' ' ∷ b'c' ∷ b'r' ∷ b'a' ∷ b'f' ∷ b't' ∷ b'e' ∷ b'd'
    ∷ b' ' ∷ b'p' ∷ b'r' ∷ b'i' ∷ b'n' ∷ b't' ∷ b'l' ∷ b'n' ∷ b' ' ∷ b'm' ∷ b'a' ∷ b'c' ∷ b'r'
    ∷ b'o' ∷ b' ' ∷ b':' ∷ b')' ∷ []

abbrev number_text : List ℕ
number_text =
    b'a' ∷ b's' ∷ b'y' ∷ b'n' ∷ b'c' ∷ b' ' ∷ b'n' ∷ b'u' ∷ b'm' ∷ b'b' ∷ b'e' ∷ b'r' ∷ b':' ∷ b' '
    ∷ []

module _ (forty_two third : List (List ℕ)) where
  abbrev numbers : List (List ℕ)
  numbers = (numbers_text ∷ []) ++ forty_two ++ (and_text ∷ []) ++ third ++ end_text ∷ []

  abbrev greeting : ColourCode → Lines → Lines
  greeting k t =
      feed_all k (flatten (macro_text ∷ (b'\n' ∷ []) ∷ []))
        (feed_all k (flatten numbers) (feed_all k allo_text t))

  module _ {Cell : Type 0} ⦃v : Volatile ScreenChar Cell⦄ where
    -- `write_to_vga`, on the writer that its lock guards.
    write_to_vga : Writer Cell → Result (Writer Cell)
    write_to_vga w = do
      (first, w') ← write_str allo_text w
      _ ← expect first expect_failed
      (second, w'') ← write_fmt numbers w'
      _ ← expect second expect_failed
      ok w''

    greet : Writer Cell → Result (Writer Cell)
    greet w = do w' ← write_to_vga w; print (macro_text ∷ (b'\n' ∷ []) ∷ []) w'

    -- On a screen that shows some lines the greeting returns and adds its texts to them.
    greet-Shows :
        (w : Writer Cell) (t : Lines)
        → Shows w t
        → Returns (Writes w.colour_code (greeting w.colour_code t)) (greet w)
    unfolding greet write_to_vga
    greet-Shows w t h =
        let one = write_str-Shows allo_text w t h in
        let two = write_fmt-Shows numbers one.value.1 _ one.holds.1.shows in
        let all =
          recolour (λ k. feed_all k (flatten numbers) (feed_all w.colour_code allo_text t))
            one.holds.1.same two.holds.1 in
        let three = print-Writes w.colour_code (macro_text ∷ (b'\n' ∷ []) ∷ []) two.value.1 _ all in
        record {
          value = three.value;
          returns = rw (one.returns, one.holds.0, two.returns, two.holds.0) three.returns;
          holds = three.holds;
        }

    -- The poll of `example_task`: `async_number` gives 42 at once, so the first poll finishes it.
    poll_example_task : Writer Cell → Result (Writer Cell)
    poll_example_task w = print ((number_text ∷ []) ++ forty_two ++ (b'\n' ∷ []) ∷ []) w

    example_task-Writes :
        (colour : ColourCode) (w : Writer Cell) (t : Lines)
        → Writes colour t w
        → Returns
            (Writes colour
              (feed_all colour (flatten ((number_text ∷ []) ++ forty_two ++ (b'\n' ∷ []) ∷ [])) t))
            (poll_example_task w)
    unfolding poll_example_task
    example_task-Writes colour w t z =
        print-Writes colour ((number_text ∷ []) ++ forty_two ++ (b'\n' ∷ []) ∷ []) w t z
