-- ===== src/Vga.antt =====
-- min-rust-os/src/vga_buffer.rs: the text screen of 25 rows of 80 characters.
--
-- A character on the screen is a `Volatile<ScreenChar>`. The crate `volatile` is not part of the
-- repository: `Volatile` is what the code relies on. The buffer is an array of fixed size, so it is
-- a function of the two indices behind a bounds check.
mod Scroll
pub mod Terminal
pub mod Printing
pub mod Tests
pub mod Colours
mod Something
use os_resources.Prelude.{
  ℕ, zero, suc, ◌+◌, ◌-◌, ◌*◌, ◌%◌, ◌^◌, ◌≡◌, Bool, true, false, ◌&&◌, ◌||◌, ◌==◌, ltb, leb,
  if◌then◌else◌, Result, ok, panic, out_of_bounds, expect_failed, ◌>>=◌, Option, none, some, expect,
  List, [], ◌∷◌, bit_or,
}
use os_resources.Prelude.Words.{add_usize, sub_usize}

-- A memory cell that holds a value of `T`, and that no access may be left out of.
pub record Volatile (T Cell : Type 0) : Type 0 where
  pub read : Cell → T
  pub write : T → Cell → Cell
  pub read-write : (v : T) (c : Cell) → read (write v c) ≡ v

pub data Colour : Type 0 where
  black blue green cyan red magenta brown light_gray : Colour
  dark_gray light_blue light_green light_cyan light_red pink yellow white : Colour

-- `colour as u8`.
as_u8 : Colour → ℕ
as_u8 black = 0
as_u8 blue = 1
as_u8 green = 2
as_u8 cyan = 3
as_u8 red = 4
as_u8 magenta = 5
as_u8 brown = 6
as_u8 light_gray = 7
as_u8 dark_gray = 8
as_u8 light_blue = 9
as_u8 light_green = 10
as_u8 light_cyan = 11
as_u8 light_red = 12
as_u8 pink = 13
as_u8 yellow = 14
as_u8 white = 15

-- The newtype around a `u8`.
abbrev pub ColourCode : Type 0
ColourCode = ℕ

-- `(background as u8) << 4 | (foreground as u8)`; a shift of a `u8` drops the bits beyond 8.
pub new_colour_code : Colour → Colour → ColourCode
unfolding as_u8
new_colour_code foreground background = bit_or (as_u8 background * 2 ^ 4 % 2 ^ 8) (as_u8 foreground)

pub record ScreenChar : Type 0 where
  pub ascii_character : ℕ
  pub colour_code : ColourCode

abbrev pub buffer_height : ℕ
buffer_height = 25

abbrev pub buffer_width : ℕ
buffer_width = 80

abbrev pub Buffer : Type 0 → Type 0
Buffer Cell = ℕ → ℕ → Cell

pub record Writer (Cell : Type 0) : Type 0 where
  pub column_position : ℕ
  pub colour_code : ColourCode
  pub buffer : Buffer Cell

in_bounds : ℕ → ℕ → Bool
in_bounds row col = ltb row buffer_height && ltb col buffer_width

-- What `write_string` writes for a byte: a printable ASCII byte and the newline stand for
-- themselves, any other for the character with code 0xfe.
pub printable : ℕ → ℕ
printable byte = if (leb 0x20 byte && leb byte 0x7e) || byte == b'\n' then byte else 0xfe

module _ {Cell : Type 0} ⦃v : Volatile ScreenChar Cell⦄ where
  -- `buffer.chars[row][col].read()`.
  pub read_char : ℕ → ℕ → Buffer Cell → Result ScreenChar
  unfolding in_bounds
  read_char row col b = if in_bounds row col then ok (v.read (b row col)) else panic out_of_bounds

  -- `buffer.chars[row][col].write(character)`.
  pub write_char : ℕ → ℕ → ScreenChar → Buffer Cell → Result (Buffer Cell)
  unfolding in_bounds
  write_char row col character b =
      if in_bounds row col
      then ok (λ r c. if r == row && c == col then v.write character (b r c) else b r c)
      else panic out_of_bounds

  -- The loop of `clear_row` from column `col`, with `left` rounds to go.
  clear_columns : ScreenChar → ℕ → ℕ → ℕ → Buffer Cell → Result (Buffer Cell)
  clear_columns blank row zero col b = ok b
  clear_columns blank row (suc left) col b = do
    b' ← write_char row col blank b
    clear_columns blank row left (col + 1) b'

  pub clear_row : ℕ → Writer Cell → Result (Writer Cell)
  clear_row row w = do
    let blank : ScreenChar = record { ascii_character = b' '; colour_code = w.colour_code }
    b ← clear_columns blank row buffer_width 0 w.buffer
    ok (record w { buffer = b })

  -- The inner loop of `new_line` from column `col`, with `left` rounds to go.
  copy_columns : ℕ → ℕ → ℕ → Buffer Cell → Result (Buffer Cell)
  copy_columns row zero col b = ok b
  copy_columns row (suc left) col b = do
    character ← read_char row col b
    above ← sub_usize row 1
    b' ← write_char above col character b
    copy_columns row left (col + 1) b'

  -- The outer loop of `new_line` from row `row`, with `left` rounds to go.
  pub copy_rows : ℕ → ℕ → Buffer Cell → Result (Buffer Cell)
  copy_rows zero row b = ok b
  copy_rows (suc left) row b = do
    b' ← copy_columns row buffer_width 0 b
    copy_rows left (row + 1) b'

  pub new_line : Writer Cell → Result (Writer Cell)
  new_line w = do
    b ← copy_rows (buffer_height - 1) 1 w.buffer
    w' ← clear_row (buffer_height - 1) (record w { buffer = b })
    ok (record w' { column_position = 0 })

  -- The second arm of `write_byte`, behind the line break.
  pub put_byte : ℕ → Writer Cell → Result (Writer Cell)
  put_byte byte w = do
    let character : ScreenChar = record { ascii_character = byte; colour_code = w.colour_code }
    b ← write_char (buffer_height - 1) w.column_position character w.buffer
    next ← add_usize w.column_position 1
    ok (record w { buffer = b; column_position = next })

  pub write_byte : ℕ → Writer Cell → Result (Writer Cell)
  write_byte byte w = if byte == b'\n' then new_line w else do
    w' ← (if leb buffer_width w.column_position then new_line w else ok w)
    put_byte byte w'

  -- `bytes` is the text in UTF-8.
  pub write_string : List ℕ → Writer Cell → Result (Writer Cell)
  write_string [] w = ok w
  write_string (byte ∷ bytes) w = do w' ← write_byte (printable byte) w; write_string bytes w'

  -- `fmt::Write::write_str`, whose result is always `Ok(())`.
  pub write_str : List ℕ → Writer Cell → Result (Option (Unit {0}) × Writer Cell)
  write_str s w = do w' ← write_string s w; ok (some tt, w')

  -- `fmt::Write::write_fmt`: the pieces that formatting gives, up to the first error.
  pub write_fmt : List (List ℕ) → Writer Cell → Result (Option (Unit {0}) × Writer Cell)
  write_fmt [] w = ok (some tt, w)
  write_fmt (s ∷ pieces) w = do
    (outcome, w') ← write_str s w
    let rest = write_fmt pieces w'
    elim outcome [ some _ ↦ rest | none ↦ ok (none, w') ]

  -- `_print` on the global writer, which its lock guards.
  pub print : List (List ℕ) → Writer Cell → Result (Writer Cell)
  print pieces w = do (outcome, w') ← write_fmt pieces w; _ ← expect outcome expect_failed; ok w'
