-- ===== src/Vga/Terminal.antt =====
-- What min-rust-os/src/vga_buffer.rs promises of the screen: a terminal that keeps every line that
-- was written to it, of which the screen shows the last 25.
use os_resources.Prelude.{
  ℕ, zero, suc, ◌+◌, ◌-◌, ◌≤◌, ◌<◌, ◌≡◌, ◌==◌, ltb, leb, if◌then◌else◌, ◌&&◌, ok, ◌>>=◌, Returns,
  Returns-ok, Returns-bind, Returns-mono, List, [], ◌∷◌, ◌++◌, length, length-append, get_or, arith,
  refl, Bool-cases, inl, inr, ap, subst, ◌∙◌,
}
use os_resources.Prelude.Words.{add_usize}
use os_resources.Vga.{
  Volatile, ScreenChar, ColourCode, Writer, Buffer, buffer_height, buffer_width, put_byte, new_line,
  write_byte, write_string, printable,
}
use os_resources.Vga.Scroll.{shown, write_char-Written, IsScrolled, new_line-IsScrolled}

-- The line that is being written, from left to right, and the finished lines, the newest first.
pub record Lines : Type 0 where
  pub line : List ScreenChar
  pub finished : List (List ScreenChar)

pub get_or-append_one {ℓ} :
    {A : Type ℓ} (xs : List A) (x : A) (i : ℕ) (d : A)
    → get_or (xs ++ x ∷ []) i d ≡ (if i == length xs then x else get_or xs i d)
get_or-append_one [] x zero d = refl
get_or-append_one [] x (suc i) d = ground arith
get_or-append_one (y ∷ xs) x zero d = ground arith
get_or-append_one (y ∷ xs) x (suc i) d = ground (arith, get_or-append_one xs x i d)

-- Row `i` from the bottom.
abbrev pub line_at : Lines → ℕ → List ScreenChar
line_at t i = get_or (t.line ∷ t.finished) i []

-- What the terminal shows for a byte of text: a newline and the codes from 32 to 126 stand for
-- themselves, any other is shown as 254.
unfoldable pub glyph : ℕ → ℕ
glyph byte =
    if byte == 10 then byte else if ltb byte 32 then 254 else if ltb 126 byte then 254 else byte

printable-eq-glyph : (byte : ℕ) → printable byte ≡ glyph byte
unfolding printable glyph
printable-eq-glyph byte = ground arith

module _ (colour : ColourCode) where
  abbrev pub character : ℕ → ScreenChar
  character byte = record { ascii_character = byte; colour_code = colour }

  -- A newline ends the line, and so does a character that finds 80 in it.
  unfoldable pub feed : ℕ → Lines → Lines
  feed byte t =
      if byte == 10
      then record { line = []; finished = t.line ∷ t.finished }
      else if leb 80 (length t.line)
      then record { line = character byte ∷ []; finished = t.line ∷ t.finished }
      else record { line = t.line ++ character byte ∷ []; finished = t.finished }

  unfoldable pub feed_all : List ℕ → Lines → Lines
  feed_all [] t = t
  feed_all (byte ∷ bytes) t = feed_all bytes (feed (glyph byte) t)

module _ {Cell : Type 0} ⦃v : Volatile ScreenChar Cell⦄ where
  -- The screen shows the newest lines from the bottom up, each filled up with blanks; above lines
  -- that were never written it may show anything.
  pub record Shows (w : Writer Cell) (t : Lines) : Type 0 where
    pub column : w.column_position ≡ length t.line
    pub width : length t.line ≤ 80
    pub rows :
        (i c : ℕ)
        → i < 25
        → i < suc (length t.finished)
        → c < 80
        → shown w.buffer (24 - i) c ≡ get_or (line_at t i) c (character w.colour_code b' ')

  -- The writer keeps its colours.
  pub record Writes (colour : ColourCode) (t : Lines) (w : Writer Cell) : Type 0 where
    pub same : w.colour_code ≡ colour
    pub shows : Shows w t

  scrolled-rows :
      (w w' : Writer Cell) (t : Lines)
      → Shows w t
      → IsScrolled w w'
      → (i c : ℕ) → i < buffer_height
      → i < suc (suc (length t.finished))
      → c < buffer_width
      → shown w'.buffer (buffer_height - 1 - i) c
        ≡ get_or (get_or ([] ∷ t.line ∷ t.finished) i []) c (character w'.colour_code b' ')
  scrolled-rows w w' t s z zero c hi hl hc = rw z.colour (z.blank c hc)
  scrolled-rows w w' t s z (suc i) c hi hl hc =
      let up : suc (buffer_height - 1 - suc i) ≡ buffer_height - 1 - i = omega arith in
      rw z.colour (
        z.moved (buffer_height - 1 - suc i) c (omega arith) hc
        ∙ ap (λ r. shown w.buffer r c) up
        ∙ s.rows i c (omega arith) (omega arith) hc)

  new_line-Shows :
      (w : Writer Cell) (t : Lines)
      → Shows w t
      → Returns
          (Writes w.colour_code (record { line = []; finished = t.line ∷ t.finished }))
          (new_line w)
  new_line-Shows w t s = Returns-mono (new_line-IsScrolled w) λ w' z. record {
    same = z.colour;
    shows = record { column = z.column; width = omega arith; rows = scrolled-rows w w' t s z };
  }

  put-rows :
      (w : Writer Cell) (b : Buffer Cell) (t : Lines) (byte : ℕ)
      → Shows w t
      → ((r c : ℕ)
          → shown b r c ≡ (
              if r == buffer_height - 1 && c == w.column_position
              then character w.colour_code byte
              else shown w.buffer r c))
      → (i c : ℕ) → i < buffer_height
      → i < suc (length t.finished)
      → c < buffer_width
      → shown b (buffer_height - 1 - i) c
        ≡ get_or
            (get_or ((t.line ++ character w.colour_code byte ∷ []) ∷ t.finished) i [])
            c
            (character w.colour_code b' ')
  put-rows w b t byte s z zero c hi hl hc =
      let cell : ScreenChar = character w.colour_code byte in
      let blank : ScreenChar = character w.colour_code b' ' in
      ground (
        arith,
        z (buffer_height - 1) c,
        s.column,
        s.rows 0 c (omega arith) (omega arith) hc,
        get_or-append_one t.line cell c blank,
      )
  put-rows w b t byte s z (suc i) c hi hl hc =
      ground (arith, z (buffer_height - 1 - suc i) c, s.rows (suc i) c hi hl hc)

  put_byte-Shows :
      (byte : ℕ) (w : Writer Cell) (t : Lines)
      → Shows w t
      → length t.line < buffer_width
      → Returns
          (Writes w.colour_code
            (record { line = t.line ++ character w.colour_code byte ∷ []; finished = t.finished }))
          (put_byte byte w)
  unfolding put_byte add_usize
  put_byte-Shows byte w t s room =
      let col = w.column_position in
      let cell : ScreenChar = character w.colour_code byte in
      let put =
        write_char-Written (buffer_height - 1) col cell w.buffer (omega arith)
          (omega (arith, s.column)) in
      record {
        value = record {
          column_position = col + 1;
          colour_code = w.colour_code;
          buffer = put.value;
        };
        returns = rw put.returns (ground (arith, s.column));
        holds = record {
          same = refl;
          shows = record {
            column = omega (arith, s.column, length-append t.line (cell ∷ []));
            width = omega (arith, length-append t.line (cell ∷ []));
            rows = put-rows w put.value t byte s put.holds;
          };
        };
      }

  pub recolour :
      {k k' : ColourCode} {w : Writer Cell} (t : ColourCode → Lines)
      → k ≡ k'
      → Writes k (t k) w
      → Writes k' (t k') w
  recolour {w} t e = subst (λ k. Writes k (t k) w) e

  -- `write_byte` behind its test for the newline.
  write_glyph-Shows :
      (byte : ℕ) (w : Writer Cell) (t : Lines)
      → Shows w t
      → Returns
          (Writes w.colour_code (
            if leb buffer_width (length t.line)
            then record { line = character w.colour_code byte ∷ []; finished = t.line ∷ t.finished }
            else record {
              line = t.line ++ character w.colour_code byte ∷ [];
              finished = t.finished;
            }))
          ((if leb buffer_width w.column_position then new_line w else ok w) >>= put_byte byte)
  write_glyph-Shows byte w t s =
      let same : leb buffer_width w.column_position ≡ leb buffer_width (length t.line) =
        ap (leb buffer_width) s.column in
      elim (Bool-cases (leb buffer_width (length t.line))) [
        | inl full ↦
            rw (same, full)
              (Returns-bind (new_line-Shows w t s) λ w' z.
                Returns-mono (put_byte-Shows byte w' _ z.shows (omega arith)) λ w'' y.
                  recolour
                    (λ k. record { line = character k byte ∷ []; finished = t.line ∷ t.finished })
                    z.same y)
        | inr room ↦ rw (same, room) (put_byte-Shows byte w t s (ground arith))
      ]

  pub write_byte-Shows :
      (byte : ℕ) (w : Writer Cell) (t : Lines)
      → Shows w t
      → Returns (Writes w.colour_code (feed w.colour_code byte t)) (write_byte byte w)
  unfolding write_byte feed
  write_byte-Shows byte w t s = elim (Bool-cases (byte == b'\n')) [
    | inl break ↦ rw break (new_line-Shows w t s)
    | inr other ↦ rw other (write_glyph-Shows byte w t s)
  ]

  pub write_string-Shows :
      (bytes : List ℕ) (w : Writer Cell) (t : Lines)
      → Shows w t
      → Returns (Writes w.colour_code (feed_all w.colour_code bytes t)) (write_string bytes w)
  unfolding write_string feed_all
  write_string-Shows [] w t s = Returns-ok w (record { same = refl; shows = s })
  write_string-Shows (byte ∷ bytes) w t s =
      Returns-bind (write_byte-Shows (printable byte) w t s) λ w' z.
        Returns-mono (write_string-Shows bytes w' _ z.shows) λ w'' y.
          rw (← printable-eq-glyph byte)
            (recolour (λ k. feed_all k bytes (feed w.colour_code (printable byte) t)) z.same y)
