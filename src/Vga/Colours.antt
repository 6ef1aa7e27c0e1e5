-- ===== src/Vga/Colours.antt =====
-- The colour byte of min-rust-os/src/vga_buffer.rs: foreground in the low half, background in the
-- high half.
use os_resources.Prelude.{
  ℕ, ◌+◌, ◌*◌, ◌/◌, ◌%◌, ◌^◌, ◌<◌, ◌≡◌, ◌==◌, ==_iff, passes_below, passes_below-at, List, [], ◌∷◌,
  get_or, bit_or, arith, refl, true,
}
use os_resources.Vga.{
  Colour, black, blue, green, cyan, red, magenta, brown, light_gray, dark_gray, light_blue,
  light_green, light_cyan, light_red, pink, yellow, white, as_u8, new_colour_code,
}

-- The variants in the order of their numbers.
abbrev pub colours : List Colour
colours =
    black ∷ blue ∷ green ∷ cyan ∷ red ∷ magenta ∷ brown ∷ light_gray ∷ dark_gray ∷ light_blue
    ∷ light_green ∷ light_cyan ∷ light_red ∷ pink ∷ yellow ∷ white ∷ []

-- The colour with a number; the numbers from 16 on name none.
abbrev pub of_u8 : ℕ → Colour
of_u8 n = get_or colours n black

of_u8-as_u8 : (c : Colour) → of_u8 (as_u8 c) ≡ c
unfolding as_u8
of_u8-as_u8 black = refl
of_u8-as_u8 blue = refl
of_u8-as_u8 green = refl
of_u8-as_u8 _ = refl

as_u8-lt : (c : Colour) → as_u8 c < 16
unfolding as_u8
as_u8-lt black = omega arith
as_u8-lt _ = omega arith

join_table : passes_below (λ n. bit_or (n / 16 * 2 ^ 4 % 2 ^ 8) (n % 16) == n) 256 ≡ true
unfolding passes_below
join_table = refl

-- A colour code is the sum of its two halves.
new_colour_code-eq :
    (foreground background : Colour)
    → new_colour_code foreground background ≡ as_u8 background * 16 + as_u8 foreground
unfolding new_colour_code
new_colour_code-eq f b =
    let n = as_u8 b * 16 + as_u8 f in
    let small : (as_u8 f < 16) × (as_u8 b < 16) = (as_u8-lt f, as_u8-lt b) in
    let high : n / 16 ≡ as_u8 b = omega arith in
    let low : n % 16 ≡ as_u8 f = omega arith in
    let joined = (==_iff _ n).0 (passes_below-at _ 256 {n = n} join_table (omega arith)) in
    rw (high, low) at joined

-- A colour code gives back the two colours that it was made of, and fits a byte.
new_colour_code-of_u8 :
    (foreground background : Colour)
    → (new_colour_code foreground background < 2 ^ 8)
      × (of_u8 (new_colour_code foreground background % 16) ≡ foreground)
      × (of_u8 (new_colour_code foreground background / 16) ≡ background)
new_colour_code-of_u8 f b =
    let code = new_colour_code f b in
    let small : (as_u8 f < 16) × (as_u8 b < 16) = (as_u8-lt f, as_u8-lt b) in
    let low : code % 16 ≡ as_u8 f = omega (arith, new_colour_code-eq f b) in
    let high : code / 16 ≡ as_u8 b = omega (arith, new_colour_code-eq f b) in
    (omega (arith, new_colour_code-eq f b), rw low (of_u8-as_u8 f), rw high (of_u8-as_u8 b))
