-- ===== src/Vga/Printing.antt =====
-- What `print!` and `println!` of min-rust-os/src/vga_buffer.rs put on the screen.
use mathlib.Core.List.{flatten, append_assoc, append-nil}
use os_resources.Prelude.{
  ℕ, zero, suc, ◌+◌, ◌-◌, ◌≤◌, ◌<◌, ◌≡◌, ok, Returns, Returns-ok, Returns-bind, Returns-mono, List,
  [], ◌∷◌, ◌++◌, length, length-append, get_or, arith, refl, map, ap, ◌∙◌, some, All, subst,
}
use os_resources.Vga.{
  Volatile, ScreenChar, ColourCode, Writer, buffer_height, buffer_width, new_line, write_byte,
  write_string, write_str, write_fmt, print, printable,
}
use os_resources.Vga.Scroll.{shown, IsScrolled, new_line-IsScrolled}
use os_resources.Vga.Terminal.{
  Lines, character, glyph, feed, feed_all, Shows, Writes, recolour, write_string-Shows,
}

pub feed_all-append :
    (k : ColourCode) (xs ys : List ℕ) (t : Lines)
    → feed_all k (xs ++ ys) t ≡ feed_all k ys (feed_all k xs t)
unfolding feed_all
feed_all-append k [] ys t = refl
feed_all-append k (x ∷ xs) ys t = feed_all-append k xs ys (feed k (glyph x) t)

module _ {Cell : Type 0} ⦃v : Volatile ScreenChar Cell⦄ where
  pub write_str-Shows :
      (s : List ℕ) (w : Writer Cell) (t : Lines)
      → Shows w t
      → Returns
          (λ (out, w'). (out ≡ some tt) × Writes w.colour_code (feed_all w.colour_code s t) w')
          (write_str s w)
  unfolding write_str
  write_str-Shows s w t h =
      Returns-bind (write_string-Shows s w t h) λ w' y. Returns-ok (some tt, w') (refl, y)

  pub write_fmt-Shows :
      (pieces : List (List ℕ)) (w : Writer Cell) (t : Lines)
      → Shows w t
      → Returns
          (λ (out, w').
            (out ≡ some tt) × Writes w.colour_code (feed_all w.colour_code (flatten pieces) t) w')
          (write_fmt pieces w)
  unfolding write_fmt write_str feed_all flatten
  write_fmt-Shows [] w t s = Returns-ok (some tt, w) (refl, record { same = refl; shows = s })
  write_fmt-Shows (s ∷ pieces) w t h =
      let one = write_string-Shows s w t h in
      let mid = feed_all w.colour_code s t in
      let more = write_fmt-Shows pieces one.value mid one.holds.shows in
      record {
        value = more.value;
        returns = rw one.returns more.returns;
        holds = (
          more.holds.0,
          rw (feed_all-append w.colour_code s (flatten pieces) t)
              (recolour (λ k. feed_all k (flatten pieces) mid) one.holds.same more.holds.1),
        );
      }

  -- Printing on a screen that shows some lines shows those lines with the text added: printable
  -- characters go to the end of the last line, an 81st begins a new line, and so does a newline; any
  -- other byte is shown as 0xfe. It never panics and leaves the colours alone.
  pub print-Shows :
      (pieces : List (List ℕ)) (w : Writer Cell) (t : Lines)
      → Shows w t
      → Returns (Writes w.colour_code (feed_all w.colour_code (flatten pieces) t)) (print pieces w)
  unfolding print
  print-Shows pieces w t h =
      let r = write_fmt-Shows pieces w t h in
      record { value = r.value.1; returns = rw (r.returns, r.holds.0); holds = r.holds.1 }

  pub print-Writes :
      (colour : ColourCode) (pieces : List (List ℕ)) (w : Writer Cell) (l : Lines)
      → Writes colour l w
      → Returns (Writes colour (feed_all colour (flatten pieces) l)) (print pieces w)
  print-Writes colour pieces w l z =
      subst (λ k. Returns (Writes k (feed_all k (flatten pieces) l)) (print pieces w)) z.same
        (print-Shows pieces w l z.shows)

abbrev pub no_lines : Lines
no_lines = record { line = []; finished = [] }

-- A text of printable ASCII characters.
abbrev pub IsPrintable : ℕ → Type 0
IsPrintable byte = (0x20 ≤ byte) × (byte ≤ 0x7e)

feed-printable :
    (k : ColourCode) (byte : ℕ) (t : Lines)
    → IsPrintable byte
    → length t.line < buffer_width
    → feed k (glyph byte) t
      ≡ record { line = t.line ++ character k byte ∷ []; finished = t.finished }
unfolding feed glyph
feed-printable k byte t h room = ground arith

-- A text that fits the line goes to its end.
feed_all-printable :
    (k : ColourCode) (s : List ℕ) (t : Lines)
    → All IsPrintable s
    → length t.line + length s ≤ buffer_width
    → feed_all k s t ≡ record { line = t.line ++ map (character k) s; finished = t.finished }
unfolding feed_all
feed_all-printable k [] t h fits = rw append-nil
feed_all-printable k (byte ∷ s) t h fits =
    let more : List ScreenChar = t.line ++ character k byte ∷ [] in
    rw
      (
        feed-printable k byte t h.0 (omega arith),
        feed_all-printable k s (record { line = more; finished = t.finished }) h.1
            (omega (arith, length-append t.line (character k byte ∷ []))),
        append_assoc,
      )
      refl

-- A text and a newline, on an empty terminal.
feed_all-text :
    (k : ColourCode) (s : List ℕ)
    → All IsPrintable s
    → length s ≤ buffer_width
    → feed_all k (flatten (s ∷ (b'\n' ∷ []) ∷ [])) no_lines
      ≡ record { line = []; finished = map (character k) s ∷ [] }
unfolding flatten
feed_all-text k s h fits =
    feed_all-append k s (b'\n' ∷ []) no_lines
    ∙ ap (feed_all k (b'\n' ∷ [])) (feed_all-printable k s no_lines h (omega arith))
    ∙ (unfold feed_all feed glyph in refl)

get_or-map {ℓ κ} :
    {A : Type ℓ} {B : Type κ} (f : A → B) (xs : List A) (i : ℕ) (a : A) (b : B)
    → i < length xs
    → get_or (map f xs) i b ≡ f (get_or xs i a)
get_or-map f [] i a b h = absurd (omega arith)
get_or-map f (x ∷ xs) zero a b h = refl
get_or-map f (x ∷ xs) (suc i) a b h = get_or-map f xs i a b (omega arith)

module _ {Cell : Type 0} ⦃v : Volatile ScreenChar Cell⦄ where
  first_row :
      (w w' : Writer Cell)
      → IsScrolled w w'
      → (i c : ℕ) → i < 1
      → c < buffer_width
      → shown w'.buffer (buffer_height - 1 - i) c
        ≡ get_or (get_or ([] ∷ []) i []) c (character w'.colour_code b' ')
  first_row w w' z zero c one hc = rw z.colour (z.blank c hc)
  first_row w w' z (suc i) c one hc = absurd (omega arith)

  new_line-no_lines : (w : Writer Cell) → Returns (Writes w.colour_code no_lines) (new_line w)
  new_line-no_lines w = Returns-mono (new_line-IsScrolled w) λ w' z. record {
    same = z.colour;
    shows = record {
      column = z.column;
      width = omega arith;
      rows = λ i c hi one hc. first_row w w' z i c one hc;
    };
  }

  write_string-break :
      (bytes : List ℕ) (w : Writer Cell)
      → Returns
          (Writes w.colour_code (feed_all w.colour_code bytes no_lines))
          (write_string (b'\n' ∷ bytes) w)
  unfolding write_string write_byte printable
  write_string-break bytes w = Returns-bind (new_line-no_lines w) λ w' z.
      Returns-mono (write_string-Shows bytes w' no_lines z.shows)
        λ w'' y. recolour (λ k. feed_all k bytes no_lines) z.same y

  print-cons :
      (s : List ℕ) (pieces : List (List ℕ)) (w w' : Writer Cell)
      → write_string s w ≡ ok w'
      → print (s ∷ pieces) w ≡ print pieces w'
  unfolding print write_fmt write_str
  print-cons s pieces w w' e = rw e

  -- On any screen and at any column, printing a newline, a text of at most 80 printable ASCII
  -- characters and a newline puts the text in the writer's colours at the left of the last row but
  -- one.
  pub print-line :
      (s : List ℕ) (w : Writer Cell)
      → All IsPrintable s
      → length s ≤ buffer_width
      → Returns
          (λ w'.
            (i : ℕ)
            → i < length s
            → shown w'.buffer (buffer_height - 2) i ≡ character w.colour_code (get_or s i 0))
          (print ((b'\n' ∷ []) ∷ s ∷ (b'\n' ∷ []) ∷ []) w)
  unfolding feed_all
  print-line s w h fits =
      let broken = write_string-break [] w in
      rw (print-cons (b'\n' ∷ []) (s ∷ (b'\n' ∷ []) ∷ []) w broken.value broken.returns) (
        Returns-mono (print-Shows (s ∷ (b'\n' ∷ []) ∷ []) broken.value no_lines broken.holds.shows)
          λ w' y i hi.
            let k = w.colour_code in
            let text = λ (k : ColourCode). feed_all k (flatten (s ∷ (b'\n' ∷ []) ∷ [])) no_lines in
            let z =
              subst (λ t. Writes k t w') (feed_all-text k s h fits)
                (recolour {w = w'} text broken.holds.same y) in
            z.shows.rows 1 i (omega arith) (omega arith) (omega arith)
            ∙ get_or-map (character k) s i 0 (character w'.colour_code b' ') hi)
