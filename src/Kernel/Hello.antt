-- ===== src/Kernel/Hello.antt =====
-- `write_to_vga_unsafe` of min-rust-os/src/main.rs: text straight into the VGA buffer.
--
-- The memory is a byte for each address.
use os_resources.Prelude.{
  ℕ, zero, suc, ◌+◌, ◌*◌, ◌<◌, ◌≡◌, ◌≢◌, ◌==◌, if◌then◌else◌, ==_iff, ◌⊎◌, ◌≤◌, inl, inr, List, [],
  ◌∷◌, length, get_elem?, some, arith, refl, ap, ◌∙◌,
}
use os_resources.Memory.Example.{vga_buffer_addr}

abbrev pub hello : List ℕ
hello =
    b'H' ∷ b'i' ∷ b' ' ∷ b'f' ∷ b'r' ∷ b'o' ∷ b'm' ∷ b' ' ∷ b't' ∷ b'h' ∷ b'e' ∷ b' ' ∷ b'm' ∷ b'i'
    ∷ b'n' ∷ b'i' ∷ b'm' ∷ b'a' ∷ b'l' ∷ b' ' ∷ b'O' ∷ b'S' ∷ b' ' ∷ b':' ∷ b')' ∷ []

-- Cyan.
abbrev pub cyan : ℕ
cyan = 0xb

abbrev pub Bytes : Type 0
Bytes = ℕ → ℕ

-- A store through a pointer.
abbrev pub store : ℕ → ℕ → Bytes → Bytes
store address byte m q = if q == address then byte else m q

-- The loop, from the character `i` on.
unfoldable pub write_characters : ℕ → List ℕ → Bytes → Bytes
write_characters i [] m = m
write_characters i (byte ∷ bytes) m =
    write_characters (i + 1) bytes
      (store (vga_buffer_addr + (i * 2 + 1)) cyan (store (vga_buffer_addr + i * 2) byte m))

unfoldable pub write_to_vga_unsafe : Bytes → Bytes
write_to_vga_unsafe m = write_characters 0 hello m

-- From the character `i` on there are the bytes, each with its colour, and nothing else changed.
pub record AreWritten (i : ℕ) (bytes : List ℕ) (m m' : Bytes) : Type 0 where
  pub characters :
      (k byte : ℕ) → get_elem? bytes k ≡ some byte → m' (vga_buffer_addr + (i + k) * 2) ≡ byte
  pub colours :
      (k byte : ℕ) → get_elem? bytes k ≡ some byte → m' (vga_buffer_addr + ((i + k) * 2 + 1)) ≡ cyan
  pub outside :
      (q : ℕ)
      → (q < vga_buffer_addr + i * 2) ⊎ (vga_buffer_addr + (i + length bytes) * 2 ≤ q)
      → m' q ≡ m q

store-same : (a byte : ℕ) (m : Bytes) → store a byte m a ≡ byte
store-same a byte m = simp ((==_iff a a).1 refl) refl

store-other : (a byte q : ℕ) (m : Bytes) → q ≢ a → store a byte m q ≡ m q
store-other a byte q m other = ground (arith, other)

module _ (i b : ℕ) (bytes : List ℕ) (m m' : Bytes)
    (rest : AreWritten
      (i + 1)
      bytes
      (store (vga_buffer_addr + (i * 2 + 1)) cyan (store (vga_buffer_addr + i * 2) b m))
      m') where
  abbrev here : ℕ
  here = vga_buffer_addr + i * 2

  abbrev next : ℕ
  next = vga_buffer_addr + (i * 2 + 1)

  first-characters :
      (k byte : ℕ) → get_elem? (b ∷ bytes) k ≡ some byte → m' (vga_buffer_addr + (i + k) * 2) ≡ byte
  first-characters zero byte e =
      ap m' (omega arith)
      ∙ rest.outside here (inl (omega arith))
      ∙ store-other next cyan here (store here b m) (λ same. omega (arith, same))
      ∙ store-same here b m
      ∙ cc e
  first-characters (suc k) byte e = ap m' (omega arith) ∙ rest.characters k byte e

  first-colours :
      (k byte : ℕ)
      → get_elem? (b ∷ bytes) k ≡ some byte
      → m' (vga_buffer_addr + ((i + k) * 2 + 1)) ≡ cyan
  first-colours zero byte e =
      ap m' (omega arith)
      ∙ rest.outside next (inl (omega arith))
      ∙ store-same next cyan (store here b m)
  first-colours (suc k) byte e = ap m' (omega arith) ∙ rest.colours k byte e

  first-outside :
      (q : ℕ)
      → (q < vga_buffer_addr + i * 2) ⊎ (vga_buffer_addr + (i + suc (length bytes)) * 2 ≤ q)
      → m' q ≡ m q
  first-outside q h =
      rest.outside q
        (elim h [ inl below ↦ inl (omega (arith, below)) | inr above ↦ inr (omega (arith, above)) ])
      ∙ store-other next cyan q (store here b m) (λ same. omega (arith, same, h))
      ∙ store-other here b q m (λ same. omega (arith, same, h))

write_characters-AreWritten :
    (bytes : List ℕ) (i : ℕ) (m : Bytes) → AreWritten i bytes m (write_characters i bytes m)
unfolding write_characters
write_characters-AreWritten [] i m = record {
  characters = λ k byte e. cc e;
  colours = λ k byte e. cc e;
  outside = λ q h. refl;
}
write_characters-AreWritten (b ∷ bytes) i m =
    let here = vga_buffer_addr + i * 2 in
    let next = vga_buffer_addr + (i * 2 + 1) in
    let rest = write_characters-AreWritten bytes (i + 1) (store next cyan (store here b m)) in
    record {
      characters = first-characters i b bytes m _ rest;
      colours = first-colours i b bytes m _ rest;
      outside = first-outside i b bytes m _ rest;
    }

-- `write_to_vga_unsafe` puts the text into the buffer, character by character and each in cyan, and
-- changes no other byte of the memory.
write_to_vga_unsafe-AreWritten : (m : Bytes) → AreWritten 0 hello m (write_to_vga_unsafe m)
unfolding write_to_vga_unsafe
write_to_vga_unsafe-AreWritten m = write_characters-AreWritten hello 0 m
