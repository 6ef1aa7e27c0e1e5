-- ===== src/Vga/Scroll.antt =====
-- The loops of `new_line` and `clear_row` of min-rust-os/src/vga_buffer.rs, cell by cell.
use os_resources.Prelude.{
  ℕ, zero, suc, ◌+◌, ◌-◌, ◌≤◌, ◌<◌, ◌≡◌, ◌&&◌, ◌==◌, ltb, leb, if◌then◌else◌, ok, Returns,
  Returns-ok, Returns-bind, Returns-mono, arith, refl,
}
use os_resources.Prelude.Words.{sub_usize}
use os_resources.Vga.{
  Volatile, ScreenChar, Writer, Buffer, buffer_height, buffer_width, read_char, write_char,
  clear_columns, clear_row, copy_columns, copy_rows, new_line,
}

above_row : (row : ℕ) → 0 < row → sub_usize row 1 ≡ ok (row - 1)
unfolding sub_usize
above_row row pos = ground arith

module _ {Cell : Type 0} ⦃v : Volatile ScreenChar Cell⦄ where
  -- What the screen shows at a row and column.
  abbrev pub shown : Buffer Cell → ℕ → ℕ → ScreenChar
  shown b r c = v.read (b r c)

  -- `b'` shows `character` at one place and what `b` shows elsewhere.
  abbrev Written : ℕ → ℕ → ScreenChar → Buffer Cell → Buffer Cell → Type 0
  Written row col character b b' =
      (r c : ℕ) → shown b' r c ≡ (if r == row && c == col then character else shown b r c)

  pub write_char-Written :
      (row col : ℕ) (character : ScreenChar) (b : Buffer Cell)
      → row < buffer_height
      → col < buffer_width
      → Returns (Written row col character b) (write_char row col character b)
  unfolding write_char
  write_char-Written row col character b hr hc = record {
    value = λ r c. if r == row && c == col then v.write character (b r c) else b r c;
    returns = ground arith;
    holds = λ r c. ground (arith, v.read-write character (b r c));
  }

  -- `b'` shows `blank` in the columns from `lo` to `hi` of a row, and elsewhere what `b` shows.
  abbrev Blanked : ScreenChar → (row lo hi : ℕ) → Buffer Cell → Buffer Cell → Type 0
  Blanked blank row lo hi b b' =
      (r c : ℕ) → shown b' r c ≡ (if r == row && (leb lo c && ltb c hi) then blank else shown b r c)

  clear_columns-Blanked :
      (blank : ScreenChar) (row left col : ℕ) (b : Buffer Cell)
      → row < buffer_height
      → col + left ≤ buffer_width
      → Returns (Blanked blank row col (col + left) b) (clear_columns blank row left col b)
  unfolding clear_columns
  clear_columns-Blanked blank row zero col b hr hc = Returns-ok b (λ r c. ground arith)
  clear_columns-Blanked blank row (suc left) col b hr hc =
      Returns-bind (write_char-Written row col blank b hr (omega arith)) λ b' w.
        Returns-mono (clear_columns-Blanked blank row left (col + 1) b' hr (omega arith))
          λ b'' z r c. ground (arith, w r c, z r c)

  read_char-shown :
      (row col : ℕ) (b : Buffer Cell)
      → row < buffer_height
      → col < buffer_width
      → read_char row col b ≡ ok (shown b row col)
  unfolding read_char
  read_char-shown row col b hr hc = ground arith

  -- `b'` shows in the columns from `lo` to `hi` of the row above `row` what `b` shows in `row`.
  abbrev CopiedUp : (row lo hi : ℕ) → Buffer Cell → Buffer Cell → Type 0
  CopiedUp row lo hi b b' =
      (r c : ℕ)
      → shown b' r c
        ≡ (if suc r == row && (leb lo c && ltb c hi) then shown b row c else shown b r c)

  copy_columns-CopiedUp :
      (row left col : ℕ) (b : Buffer Cell)
      → 0 < row
      → row < buffer_height
      → col + left ≤ buffer_width
      → Returns (CopiedUp row col (col + left) b) (copy_columns row left col b)
  unfolding copy_columns
  copy_columns-CopiedUp row zero col b pos hr hc = Returns-ok b (λ r c. ground arith)
  copy_columns-CopiedUp row (suc left) col b pos hr hc =
      rw (read_char-shown row col b hr (omega arith), above_row row pos)
        (Returns-bind
          (write_char-Written (row - 1) col (shown b row col) b (omega arith) (omega arith))
          λ b' w.
            Returns-mono (copy_columns-CopiedUp row left (col + 1) b' pos hr (omega arith))
              λ b'' z r c. ground (arith, w r c, w row c, z r c))

  -- From row `top` down, `b'` shows what `b` shows one row further down.
  abbrev Shifted : (top left : ℕ) → Buffer Cell → Buffer Cell → Type 0
  Shifted top left b b' =
      (r c : ℕ)
      → shown b' r c ≡ (
          if (leb top (suc r) && ltb (suc r) (top + left)) && ltb c buffer_width
          then shown b (suc r) c
          else shown b r c)

  copy_rows-Shifted :
      (left top : ℕ) (b : Buffer Cell)
      → 0 < top
      → top + left ≤ buffer_height
      → Returns (Shifted top left b) (copy_rows left top b)
  unfolding copy_rows
  copy_rows-Shifted zero top b pos h = Returns-ok b (λ r c. ground arith)
  copy_rows-Shifted (suc left) top b pos h =
      Returns-bind (copy_columns-CopiedUp top buffer_width 0 b pos (omega arith) (omega arith))
        λ b' w.
          Returns-mono (copy_rows-Shifted left (top + 1) b' (omega arith) (omega arith))
            λ b'' z r c. ground (arith, w r c, w (suc r) c, z r c)

  -- What a line break leaves: every row shows what the row below it showed, the last row is blank
  -- in the writer's colours, and the next character goes to its first column.
  pub record IsScrolled (w w' : Writer Cell) : Type 0 where
    pub column : w'.column_position ≡ 0
    pub colour : w'.colour_code ≡ w.colour_code
    pub moved :
        (r c : ℕ)
        → suc r < buffer_height
        → c < buffer_width
        → shown w'.buffer r c ≡ shown w.buffer (suc r) c
    pub blank :
        (c : ℕ)
        → c < buffer_width
        → shown w'.buffer (buffer_height - 1) c
          ≡ record { ascii_character = b' '; colour_code = w.colour_code }

  -- `new_line` returns on every screen, with all its accesses inside the buffer, and scrolls it by
  -- one row: each row but the last shows what the next one showed, the last is blank in the writer's
  -- colours, and the column is 0.
  pub new_line-IsScrolled : (w : Writer Cell) → Returns (IsScrolled w) (new_line w)
  unfolding new_line clear_row
  new_line-IsScrolled w =
      let blank : ScreenChar = record { ascii_character = b' '; colour_code = w.colour_code } in
      let up = copy_rows-Shifted (buffer_height - 1) 1 w.buffer (omega arith) (omega arith) in
      let last = buffer_height - 1 in
      let clear =
        clear_columns-Blanked blank last buffer_width 0 up.value (omega arith) (omega arith) in
      record {
        value = record { column_position = 0; colour_code = w.colour_code; buffer = clear.value };
        returns = rw (up.returns, clear.returns);
        holds = record {
          column = refl;
          colour = refl;
          moved = λ r c hr hc. ground (arith, up.holds r c, clear.holds r c);
          blank = λ c hc. ground (arith, clear.holds last c);
        };
      }
