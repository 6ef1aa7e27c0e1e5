-- ===== src/Kernel/TestRunner/Verdict.antt =====
-- The exit status of QEMU tells whether all tests of min-rust-os/src/lib.rs passed.
use os_resources.Prelude.{
  ℕ, ◌+◌, ◌*◌, ◌≡◌, ◌==◌, if◌then◌else◌, ◌⊎◌, inl, inr, Option, none, some, List, [], ◌∷◌, All,
  length, refl, sym, subst, ap, Bool-cases, ◌++◌, ◌∙◌,
}
use os_resources.Kernel.TestRunner.{
  SerialPort, running_text, tests_text, dots_text, ok_text, failed_text, error_text, error_end,
  QemuExitCode, success, failure, as_u32, Ran, returned, panicked, Machine, serial_print, exit_qemu,
  Test, run_test, run_tests, test_panic_handler, test_runner, test_kernel_main,
}

-- The port of the isa-debug-exit device, `iobase` among the arguments of QEMU in
-- min-rust-os/Cargo.toml.
abbrev pub debug_exit_iobase : ℕ
debug_exit_iobase = 0xf4

-- The device ends QEMU at the first write to its port, with the status `(value << 1) | 1`.
abbrev pub exit_status : List (ℕ × ℕ) → Option ℕ
exit_status [] = none
exit_status ((port, value) ∷ writes) =
    let rest = exit_status writes in
    if port == debug_exit_iobase then some (value * 2 + 1) else rest

-- A write behind others decides where none of them did.
exit_status-append :
    (writes : List (ℕ × ℕ)) (value : ℕ)
    → exit_status writes ≡ none
    → exit_status (writes ++ (debug_exit_iobase, value) ∷ []) ≡ some (value * 2 + 1)
exit_status-append [] value none_yet = refl
exit_status-append ((port, before) ∷ writes) value none_yet =
    elim (Bool-cases (port == debug_exit_iobase)) [
      | inl same ↦ absurd cc (none_yet, same)
      | inr other ↦ rw other (exit_status-append writes value (rw other at none_yet))
    ]

-- `test-success-exit-code` of min-rust-os/Cargo.toml.
abbrev pub test_success_exit_code : ℕ
test_success_exit_code = 33

module _ (sp : SerialPort) where
  -- The machine when a test is called, and after a test that returned.
  abbrev pub before : Test sp → Machine sp → Machine sp
  before test m = serial_print sp (test.type_name ∷ dots_text ∷ []) m

  abbrev pub after : Machine sp → Machine sp
  after m = serial_print sp (ok_text ∷ []) m

  -- Each test returns, on the machine that the tests before it left.
  abbrev pub AllReturn : List (Test sp) → Machine sp → Type 0
  AllReturn [] m = Unit
  AllReturn (test ∷ tests) m =
      (m' : Machine sp) × (test.call (before test m) ≡ returned m') × AllReturn tests (after m')

  abbrev pub machine_of : Ran (Machine sp) → Machine sp
  machine_of (returned m) = m
  machine_of (panicked message m) = m

  -- No exit was asked for.
  abbrev pub StillRuns : Machine sp → Type 0
  StillRuns m = exit_status m.writes ≡ none

  -- A test does not ask for an exit itself.
  abbrev pub IsQuiet : Test sp → Type 0
  IsQuiet test = (m : Machine sp) → StillRuns m → StillRuns (machine_of (test.call m))

  returned-inj : {m m' : Machine sp} → returned m ≡ returned m' → m ≡ m'
  returned-inj e = cc e

  serial_print-writes :
      (pieces : List (List ℕ)) (m : Machine sp) → (serial_print sp pieces m).writes ≡ m.writes
  unfolding serial_print
  serial_print-writes [] m = refl
  serial_print-writes (s ∷ pieces) m =
      serial_print-writes pieces (record m { serial = sp.write_str s m.serial })

  printed-StillRuns :
      (pieces : List (List ℕ)) (m : Machine sp) → StillRuns m → StillRuns (serial_print sp pieces m)
  printed-StillRuns pieces m runs = ap exit_status (serial_print-writes pieces m) ∙ runs

  -- How the tests end, and that no exit was asked for till then.
  data Ends (tests : List (Test sp)) (m : Machine sp) : Ran (Machine sp) → Type 0 where
    all_return : {m' : Machine sp} → AllReturn tests m → StillRuns m' → Ends tests m (returned m')
    one_panics :
        {message : List ℕ} {m' : Machine sp}
        → ¬ (AllReturn tests m)
        → StillRuns m'
        → Ends tests m (panicked message m')

  Ends-after :
      (test : Test sp) (tests : List (Test sp)) (m m' : Machine sp) (ran : Ran (Machine sp))
      → test.call (before test m) ≡ returned m'
      → Ends tests (after m') ran
      → Ends (test ∷ tests) m ran
  Ends-after test tests m m' ran e (all_return all runs) = all_return (m', e, all) runs
  Ends-after test tests m m' ran e (one_panics not_all runs) =
      one_panics
        (λ (m'', e', all).
          not_all
            (subst (λ (n : Machine sp). AllReturn tests (after n)) (returned-inj (sym e' ∙ e)) all))
        runs

  Ends-cons :
      (test : Test sp) (tests : List (Test sp)) (m : Machine sp) (ran : Ran (Machine sp))
      → test.call (before test m) ≡ ran
      → StillRuns (machine_of ran)
      → ((m' : Machine sp) → StillRuns m' → Ends tests m' (run_tests sp tests m'))
      → Ends
          (test ∷ tests)
          m
          (elim (elim ran as (λ r. Ran (Machine sp)) [
            | returned m' ↦ returned (after m')
            | panicked message m' ↦ panicked message m'
          ])
            as (λ r. Ran (Machine sp)) [
              | returned m' ↦ run_tests sp tests m'
              | panicked message m' ↦ panicked message m'
            ])
  Ends-cons test tests m (returned m') e runs more =
      Ends-after test tests m m' _ e (more (after m') (printed-StillRuns (ok_text ∷ []) m' runs))
  Ends-cons test tests m (panicked message m') e runs more = one_panics (λ (m'', e', _). cc) runs

  run_tests-Ends :
      (tests : List (Test sp)) (m : Machine sp)
      → All IsQuiet tests
      → StillRuns m
      → Ends tests m (run_tests sp tests m)
  unfolding run_tests run_test
  run_tests-Ends [] m quiet runs = all_return tt runs
  run_tests-Ends (test ∷ tests) m (quiet, later) runs =
      Ends-cons test tests m (test.call (before test m)) refl
        (quiet (before test m) (printed-StillRuns (test.type_name ∷ dots_text ∷ []) m runs))
        (λ m' runs'. run_tests-Ends tests m' later runs')

  exit_qemu-status :
      (code : QemuExitCode) (m : Machine sp)
      → StillRuns m
      → exit_status (exit_qemu sp code m).writes ≡ some (as_u32 code * 2 + 1)
  unfolding exit_qemu
  exit_qemu-status code m runs = exit_status-append m.writes (as_u32 code) runs

  -- All tests return, and the status is the one for success; or not all do, and it is 35.
  abbrev pub Verdict : List (Test sp) → Machine sp → Machine sp → Type 0
  Verdict tests m halted =
      (AllReturn tests m × (exit_status halted.writes ≡ some test_success_exit_code))
      ⊎ (¬ (AllReturn tests m) × (exit_status halted.writes ≡ some 35))

  -- What follows the tests.
  ran-Verdict :
      (tests : List (Test sp)) (m : Machine sp) (ran : Ran (Machine sp))
      → Ends tests m ran
      → Verdict tests m
          (elim (elim ran as (λ r. Ran (Machine sp)) [
            | returned m' ↦ returned (exit_qemu sp success m')
            | panicked message m' ↦ panicked message m'
          ])
            as (λ r. Machine sp) [
              | returned m' ↦ m'
              | panicked info m' ↦ test_panic_handler sp info m'
            ])
  unfolding as_u32 test_panic_handler
  ran-Verdict tests m _ (all_return {m'} all runs) = inl (all, exit_qemu-status success m' runs)
  ran-Verdict tests m _ (one_panics {message} {m'} not_all runs) =
      let report = error_text ∷ message ∷ error_end ∷ [] in
      let failed = serial_print sp (failed_text ∷ []) m' in
      inr (
        not_all,
        exit_qemu-status failure (serial_print sp report failed)
            (printed-StillRuns report failed (printed-StillRuns (failed_text ∷ []) m' runs)),
      )

  -- Where no exit was asked for before, and no test asks for one itself, QEMU exits with the
  -- status that Cargo.toml names for success exactly where every test returns, each on the machine
  -- that those before it left; where one panics the status is 35.
  pub test_kernel_main-Verdict :
      (decimal : ℕ → List ℕ) (tests : List (Test sp)) (m : Machine sp)
      → All IsQuiet tests
      → StillRuns m
      → Verdict tests
          (serial_print sp (running_text ∷ decimal (length tests) ∷ tests_text ∷ []) m)
          (test_kernel_main sp decimal tests m)
  unfolding test_kernel_main test_runner
  test_kernel_main-Verdict decimal tests m quiet start =
      let greeting = running_text ∷ decimal (length tests) ∷ tests_text ∷ [] in
      let greeted = serial_print sp greeting m in
      ran-Verdict tests greeted (run_tests sp tests greeted)
        (run_tests-Ends tests greeted quiet (printed-StillRuns greeting m start))
