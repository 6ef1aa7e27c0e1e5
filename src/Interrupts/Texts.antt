-- ===== src/Interrupts/Texts.antt =====
-- The texts that min-rust-os/src/interrupts.rs and min-rust-os/src/task/keyboard.rs print from
-- interrupts, without the newline at their end.
use os_resources.Prelude.{ℕ, List, [], ◌∷◌}

abbrev pub breakpoint_text : List ℕ
breakpoint_text =
    b'E' ∷ b'X' ∷ b'C' ∷ b'E' ∷ b'P' ∷ b'T' ∷ b'I' ∷ b'O' ∷ b'N' ∷ b':' ∷ b' ' ∷ b'B' ∷ b'R' ∷ b'E'
    ∷ b'A' ∷ b'K' ∷ b'P' ∷ b'O' ∷ b'I' ∷ b'N' ∷ b'T' ∷ []

abbrev pub page_fault_text : List ℕ
page_fault_text =
    b'E' ∷ b'X' ∷ b'C' ∷ b'E' ∷ b'P' ∷ b'T' ∷ b'I' ∷ b'O' ∷ b'N' ∷ b':' ∷ b' ' ∷ b'P' ∷ b'A' ∷ b'G'
    ∷ b'E' ∷ b' ' ∷ b'F' ∷ b'A' ∷ b'U' ∷ b'L' ∷ b'T' ∷ []

abbrev pub accessed_text : List ℕ
accessed_text =
    b'A' ∷ b'c' ∷ b'c' ∷ b'e' ∷ b's' ∷ b's' ∷ b'e' ∷ b'd' ∷ b' ' ∷ b'A' ∷ b'd' ∷ b'd' ∷ b'r' ∷ b'e'
    ∷ b's' ∷ b's' ∷ b':' ∷ b' ' ∷ []

abbrev pub error_code_text : List ℕ
error_code_text =
    b'E' ∷ b'r' ∷ b'r' ∷ b'o' ∷ b'r' ∷ b' ' ∷ b'C' ∷ b'o' ∷ b'd' ∷ b'e' ∷ b':' ∷ b' ' ∷ []

abbrev pub queue_full_text : List ℕ
queue_full_text =
    b'W' ∷ b'A' ∷ b'R' ∷ b'N' ∷ b'I' ∷ b'N' ∷ b'G' ∷ b':' ∷ b' ' ∷ b's' ∷ b'c' ∷ b'a' ∷ b'n' ∷ b'c'
    ∷ b'o' ∷ b'd' ∷ b'e' ∷ b' ' ∷ b'q' ∷ b'u' ∷ b'e' ∷ b'u' ∷ b'e' ∷ b' ' ∷ b'f' ∷ b'i' ∷ b'l'
    ∷ b'l' ∷ b';' ∷ b' ' ∷ b'd' ∷ b'r' ∷ b'o' ∷ b'p' ∷ b'p' ∷ b'i' ∷ b'n' ∷ b'g' ∷ b' ' ∷ b'k'
    ∷ b'e' ∷ b'y' ∷ b'b' ∷ b'o' ∷ b'a' ∷ b'r' ∷ b'd' ∷ b' ' ∷ b'i' ∷ b'n' ∷ b'p' ∷ b'u' ∷ b't' ∷ []

abbrev pub queue_uninitialised_text : List ℕ
queue_uninitialised_text =
    b'W' ∷ b'A' ∷ b'R' ∷ b'N' ∷ b'I' ∷ b'N' ∷ b'G' ∷ b':' ∷ b' ' ∷ b's' ∷ b'c' ∷ b'a' ∷ b'n' ∷ b'c'
    ∷ b'o' ∷ b'd' ∷ b'e' ∷ b' ' ∷ b'q' ∷ b'u' ∷ b'e' ∷ b'u' ∷ b'e' ∷ b' ' ∷ b'u' ∷ b'n' ∷ b'i'
    ∷ b'n' ∷ b'i' ∷ b't' ∷ b'i' ∷ b'a' ∷ b'l' ∷ b'i' ∷ b's' ∷ b'e' ∷ b'd' ∷ []
