-- ===== src/Vga/Tests.antt =====
-- The screen at concrete inputs, with cells that are plain values.
use os_resources.Prelude.{ℕ, zero, suc, ◌<◌, ◌≡◌, refl, Returns, List, [], ◌∷◌, get_or, arith}
use mathlib.Core.List.{flatten}
use os_resources.Vga.{Volatile, ScreenChar, Writer, new_line, print}
use os_resources.Vga.Scroll.{shown, IsScrolled, new_line-IsScrolled}
use os_resources.Vga.Terminal.{character, glyph, feed, feed_all, Shows, Writes}
use os_resources.Vga.Printing.{no_lines, print-Shows, print-line}

instance abbrev pub plain : Volatile ScreenChar ScreenChar
plain = record { read = λ c. c; write = λ v c. v; read-write = λ v c. refl }

abbrev pub colour : ℕ
colour = 13

-- A blank screen.
abbrev pub blank_screen : Writer ScreenChar
blank_screen = record {
  column_position = 0;
  colour_code = colour;
  buffer = λ r c. character colour b' ';
}

new_line-IsScrolled_example : Returns (IsScrolled blank_screen) (new_line blank_screen)
new_line-IsScrolled_example = new_line-IsScrolled blank_screen

blank_screen-rows :
    (i c : ℕ)
    → i < 25
    → i < 1
    → c < 80
    → character colour b' ' ≡ get_or (get_or ([] ∷ []) i []) c (character colour b' ')
blank_screen-rows zero c hi one hc = refl
blank_screen-rows (suc i) c hi one hc = absurd (omega arith)

pub blank_screen-Shows : Shows blank_screen no_lines
blank_screen-Shows = record { column = refl; width = omega arith; rows = blank_screen-rows }

abbrev hello : List ℕ
hello = b'H' ∷ b'i' ∷ []

print-Shows_example :
    Returns
      (Writes colour (record {
        line = [];
        finished = (character colour b'H' ∷ character colour b'i' ∷ []) ∷ [];
      }))
      (print (hello ∷ (b'\n' ∷ []) ∷ []) blank_screen)
unfolding flatten feed_all feed glyph
print-Shows_example =
    print-Shows (hello ∷ (b'\n' ∷ []) ∷ []) blank_screen no_lines blank_screen-Shows

print-line_example :
    Returns
      (λ w'. (i : ℕ) → i < 2 → shown w'.buffer 23 i ≡ character colour (get_or hello i 0))
      (print ((b'\n' ∷ []) ∷ hello ∷ (b'\n' ∷ []) ∷ []) blank_screen)
print-line_example = print-line hello blank_screen (omega arith) (omega arith)
