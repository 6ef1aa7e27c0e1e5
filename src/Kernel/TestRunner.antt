-- ===== src/Kernel/TestRunner.antt =====
-- The test runner of min-rust-os/src/lib.rs: the tests, the serial output and the exit from QEMU.
--
-- The serial port is a type of the crate `uart_16550`: `SerialPort` is what the code uses of it. A
-- write to it does not fail, so `_print` of min-rust-os/src/serial.rs does not panic. The text of a
-- number is given by `decimal`.
pub mod Verdict
use os_resources.Prelude.{ℕ, ◌+◌, ◌*◌, ◌≡◌, List, [], ◌∷◌, ◌++◌, length}

pub record SerialPort : Type 1 where
  pub Port : Type 0
  pub write_str : List ℕ → Port → Port

abbrev pub running_text : List ℕ
running_text = b'R' ∷ b'u' ∷ b'n' ∷ b'n' ∷ b'i' ∷ b'n' ∷ b'g' ∷ b' ' ∷ []

abbrev pub tests_text : List ℕ
tests_text = b' ' ∷ b't' ∷ b'e' ∷ b's' ∷ b't' ∷ b's' ∷ b'\n' ∷ []

abbrev pub dots_text : List ℕ
dots_text = b'.' ∷ b'.' ∷ b'.' ∷ b'\t' ∷ []

abbrev pub ok_text : List ℕ
ok_text = b'[' ∷ b'o' ∷ b'k' ∷ b']' ∷ b'\n' ∷ []

abbrev pub failed_text : List ℕ
failed_text = b'[' ∷ b'f' ∷ b'a' ∷ b'i' ∷ b'l' ∷ b'e' ∷ b'd' ∷ b']' ∷ b'\n' ∷ b'\n' ∷ []

abbrev pub error_text : List ℕ
error_text = b'E' ∷ b'r' ∷ b'r' ∷ b'o' ∷ b'r' ∷ b':' ∷ b' ' ∷ []

abbrev pub error_end : List ℕ
error_end = b'\n' ∷ b'\n' ∷ []

pub data QemuExitCode : Type 0 where
  success failure : QemuExitCode

unfoldable pub as_u32 : QemuExitCode → ℕ
as_u32 success = 0x10
as_u32 failure = 0x11

-- Code returns, or it panics with a message; what it changed till then stays changed.
pub data Ran (A : Type 0) : Type 0 where
  returned : A → Ran A
  panicked : List ℕ → A → Ran A

-- The port of the isa-debug-exit device.
abbrev pub exit_port : ℕ
exit_port = 0xf4

module _ (sp : SerialPort) where
  -- The serial port, and what was written to other ports, the number of the port first.
  pub record Machine : Type 0 where
    pub serial : sp.Port
    pub writes : List (ℕ × ℕ)

  -- `serial_print!` of the pieces of a text.
  unfoldable pub serial_print : List (List ℕ) → Machine → Machine
  serial_print [] m = m
  serial_print (s ∷ pieces) m = serial_print pieces (record m { serial = sp.write_str s m.serial })

  unfoldable pub exit_qemu : QemuExitCode → Machine → Machine
  exit_qemu exit_code m = record m { writes = m.writes ++ (exit_port, as_u32 exit_code) ∷ [] }

  -- A function with the text of its type's name.
  pub record Test : Type 0 where
    pub type_name : List ℕ
    pub call : Machine → Ran Machine

  -- `Testable::run`.
  unfoldable pub run_test : Test → Machine → Ran Machine
  run_test test m = elim (test.call (serial_print (test.type_name ∷ dots_text ∷ []) m)) [
    | returned m' ↦ returned (serial_print (ok_text ∷ []) m')
    | panicked message m' ↦ panicked message m'
  ]

  -- The loop of `test_runner`.
  unfoldable pub run_tests : List Test → Machine → Ran Machine
  run_tests [] m = returned m
  run_tests (test ∷ tests) m = elim (run_test test m) [
    | returned m' ↦ run_tests tests m'
    | panicked message m' ↦ panicked message m'
  ]

  unfoldable pub test_panic_handler : List ℕ → Machine → Machine
  test_panic_handler info m =
      exit_qemu failure
        (serial_print (error_text ∷ info ∷ error_end ∷ []) (serial_print (failed_text ∷ []) m))

  module _ (decimal : ℕ → List ℕ) where
    unfoldable pub test_runner : List Test → Machine → Ran Machine
    test_runner tests m =
        elim (run_tests tests
          (serial_print (running_text ∷ decimal (length tests) ∷ tests_text ∷ []) m)) [
            | returned m' ↦ returned (exit_qemu success m')
            | panicked message m' ↦ panicked message m'
          ]

    -- `test_kernel_main` behind `init`, with its panic handler: the machine when it halts.
    unfoldable pub test_kernel_main : List Test → Machine → Machine
    test_kernel_main tests m = elim (test_runner tests m) [
      | returned m' ↦ m'
      | panicked info m' ↦ test_panic_handler info m'
    ]
