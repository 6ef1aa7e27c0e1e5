-- ===== src/Vga/Something.antt =====
-- `print_something` of min-rust-os/src/vga_buffer.rs: a writer of its own on the buffer.
--
-- The formatting of numbers is the library's: `forty_two` and `third` are the pieces that it gives
-- for 42 and for 1.0 / 3.0.
use mathlib.Core.List.{flatten}
use os_resources.Prelude.{
  ℕ, Result, ok, expect_failed, expect, ◌>>=◌, Returns, List, [], ◌∷◌, ◌++◌, refl,
}
use os_resources.Vga.{
  Volatile, ScreenChar, ColourCode, Writer, Buffer, pink, black, new_colour_code, write_byte,
  write_string, write_fmt,
}
use os_resources.Vga.Terminal.{
  Lines, feed, feed_all, Shows, Writes, recolour, write_byte-Shows, write_string-Shows,
}
use os_resources.Vga.Printing.{write_fmt-Shows}

abbrev ello_text : List ℕ
ello_text = b'e' ∷ b'l' ∷ b'l' ∷ b'o' ∷ b' ' ∷ []

abbrev woert_text : List ℕ
woert_text = b'W' ∷ 195 ∷ 182 ∷ b'r' ∷ b't' ∷ b'!' ∷ b' ' ∷ b'\n' ∷ []

abbrev numbers_text : List ℕ
numbers_text =
    b'P' ∷ b'r' ∷ b'i' ∷ b'n' ∷ b't' ∷ b' ' ∷ b'n' ∷ b'u' ∷ b'm' ∷ b'b' ∷ b'e' ∷ b'r' ∷ b's' ∷ b' '
    ∷ []

abbrev and_text : List ℕ
and_text = b' ' ∷ b'a' ∷ b'n' ∷ b'd' ∷ b' ' ∷ []

module _ (forty_two third : List (List ℕ)) where
  abbrev numbers : List (List ℕ)
  numbers = (numbers_text ∷ []) ++ forty_two ++ (and_text ∷ []) ++ third

  abbrev something : ColourCode → Lines → Lines
  something k t =
      feed_all k (flatten numbers) (feed_all k woert_text (feed_all k ello_text (feed k b'W' t)))

  module _ {Cell : Type 0} ⦃v : Volatile ScreenChar Cell⦄ where
    new_writer : Buffer Cell → Writer Cell
    new_writer buffer = record {
      column_position = 0;
      colour_code = new_colour_code pink black;
      buffer = buffer;
    }

    print_something : Buffer Cell → Result (Writer Cell)
    unfolding new_writer
    print_something buffer = do
      w ← write_byte b'W' (new_writer buffer)
      w' ← write_string ello_text w
      w'' ← write_string woert_text w'
      (outcome, last) ← write_fmt numbers w''
      _ ← expect outcome expect_failed
      ok last

    -- Where the screen shows some lines to a new writer, `print_something` returns and adds its
    -- texts to them.
    print_something-Shows :
        (buffer : Buffer Cell) (t : Lines)
        → Shows (new_writer buffer) t
        → Returns
            (Writes (new_colour_code pink black) (something (new_colour_code pink black) t))
            (print_something buffer)
    unfolding print_something new_writer
    print_something-Shows buffer t h =
        let k = new_colour_code pink black in
        let one = write_byte-Shows b'W' (new_writer buffer) t h in
        let two = write_string-Shows ello_text one.value _ one.holds.shows in
        let two' =
          recolour (λ k. feed_all k ello_text (feed (new_writer buffer).colour_code b'W' t))
            one.holds.same two.holds in
        let three = write_string-Shows woert_text two.value _ two'.shows in
        let three' =
          recolour
            (λ k. feed_all k woert_text (
              feed_all (new_writer buffer).colour_code ello_text
                (feed (new_writer buffer).colour_code b'W' t)))
            two'.same three.holds in
        let four = write_fmt-Shows numbers three.value _ three'.shows in
        let four' =
          recolour
            (λ k. feed_all k (flatten numbers) (
              feed_all (new_writer buffer).colour_code woert_text (
                feed_all (new_writer buffer).colour_code ello_text
                  (feed (new_writer buffer).colour_code b'W' t))))
            three'.same four.holds.1 in
        record {
          value = four.value.1;
          returns = rw (one.returns, two.returns, three.returns, four.returns, four.holds.0) refl;
          holds = four';
        }
