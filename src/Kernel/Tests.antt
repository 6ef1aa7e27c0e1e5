-- ===== src/Kernel/Tests.antt =====
-- The start of the kernel at concrete inputs: a table of segments is the list of its descriptors.
use os_resources.Prelude.{
  ℕ, zero, suc, ◌+◌, ◌-◌, ◌≤◌, ◌≡◌, true, false, leb, if◌then◌else◌, Result, ok, panic, explicit,
  Returns, Option, none, some, List, [], ◌∷◌, ◌++◌, length, get_elem?, arith, refl,
}
use os_resources.Memory.Numbers.{pages}
use os_resources.Interrupts.{pic_1_offset, pic_2_offset}
use os_resources.Interrupts.Tests.{gates, controllers}
use os_resources.Kernel.{TaskStateSegment, Segments, Cpu, init}
use os_resources.Kernel.TestRunner.{
  SerialPort, running_text, tests_text, returned, panicked, as_u32, Machine, serial_print,
  exit_qemu, Test, run_test, run_tests, test_runner, test_kernel_main,
}
use os_resources.Kernel.TestRunner.Verdict.{exit_status, Verdict, test_kernel_main-Verdict}
use os_resources.Kernel.Init.{IsReady, init-IsReady}

-- A descriptor of the code segment, or of a task state.
abbrev Descriptor : Type 0
Descriptor = Option (TaskStateSegment ℕ)

abbrev slots : Descriptor → ℕ
slots none = 1
slots (some t) = 2

abbrev used : List Descriptor → ℕ
used [] = 0
used (d ∷ g) = slots d + used g

pub used-append : (g : List Descriptor) (d : Descriptor) → used (g ++ d ∷ []) ≡ used g + slots d
used-append [] d = omega arith
used-append (e ∷ g) d = omega (arith, used-append g d)

pub slots-positive : (d : Descriptor) → 1 ≤ slots d
slots-positive none = omega arith
slots-positive (some t) = omega arith

pub get_elem?-last :
    (g : List Descriptor) (d : Descriptor) → get_elem? (g ++ d ∷ []) (length g) ≡ some d
get_elem?-last [] d = refl
get_elem?-last (e ∷ g) d = get_elem?-last g d

pub get_elem?-before :
    (g : List Descriptor) (d d' : Descriptor) (s : ℕ)
    → get_elem? g s ≡ some d'
    → get_elem? (g ++ d ∷ []) s ≡ some d'
get_elem?-before [] d d' s e = absurd cc e
get_elem?-before (x ∷ g) d d' zero e = e
get_elem?-before (x ∷ g) d d' (suc s) e = get_elem?-before g d d' s e

abbrev add_entry : Descriptor → List Descriptor → Result (ℕ × List Descriptor)
add_entry d g = if leb (slots d) (7 - used g) then ok (length g, g ++ d ∷ []) else panic explicit

pub add_entry-lookup :
    (d : Descriptor) (g : List Descriptor)
    → slots d ≤ 7 - used g
    → Returns
        (λ (selector, g').
          (get_elem? g' selector ≡ some d)
          × ((s : ℕ) (d' : Descriptor) → get_elem? g s ≡ some d' → get_elem? g' s ≡ some d')
          × (7 - used g' + slots d ≡ 7 - used g))
        (add_entry d g)
add_entry-lookup d g fits = record {
  value = (length g, g ++ d ∷ []);
  returns = ground arith;
  holds = (
    get_elem?-last g d,
    λ s d' e. get_elem?-before g d d' s e,
    omega (arith, used-append g d, slots-positive d),
  );
}

abbrev segments : Segments pages
segments = record {
  Gdt = List Descriptor;
  Descriptor = Descriptor;
  SegmentSelector = ℕ;
  zero = 0;
  new = [];
  kernel_code_segment = none;
  tss_segment = λ t. some t;
  add_entry = add_entry;
  lookup = λ g s. get_elem? g s;
  slots = slots;
  free = λ g. 7 - used g;
  free-new = refl;
  slots-code = refl;
  slots-tss = λ t. refl;
  add_entry-lookup = add_entry-lookup;
}

abbrev powered_on : Cpu pages segments gates controllers
powered_on = record {
  registers = record { gdtr = none; cs = none; tr = none };
  idtr = none;
  pics = ((pic_1_offset, pic_2_offset), (false, true));
  interrupts_enabled = false;
}

init-IsReady_example :
    Returns
      (IsReady pages segments gates controllers 0x20_0000)
      (init pages segments gates controllers 0x20_0000 powered_on)
init-IsReady_example =
    init-IsReady pages segments gates controllers 0x20_0000 powered_on (omega arith) refl

-- The serial port is what was sent through it.
abbrev serial_port : SerialPort
serial_port = record { Port = List ℕ; write_str = λ s sent. sent ++ s }

abbrev passing : Test serial_port
passing = record { type_name = b'a' ∷ []; call = λ m. returned m }

abbrev failing : Test serial_port
failing = record { type_name = b'b' ∷ []; call = λ m. panicked (b'!' ∷ []) m }

abbrev machine : Machine serial_port
machine = record { serial = []; writes = (0x20, 0x11) ∷ [] }

-- A number is given by one digit.
abbrev decimal : ℕ → List ℕ
decimal n = (b'0' + n) ∷ []

passing_exits :
    exit_status (test_kernel_main serial_port decimal (passing ∷ passing ∷ []) machine).writes
    ≡ some 33
unfolding test_kernel_main test_runner run_tests run_test serial_print exit_qemu as_u32
passing_exits = refl

test_kernel_main-Verdict_example :
    Verdict serial_port
      (passing ∷ failing ∷ [])
      (serial_print serial_port (running_text ∷ (b'2' ∷ []) ∷ tests_text ∷ []) machine)
      (test_kernel_main serial_port decimal (passing ∷ failing ∷ []) machine)
test_kernel_main-Verdict_example =
    test_kernel_main-Verdict serial_port decimal (passing ∷ failing ∷ []) machine
      ((λ m runs. runs), ((λ m runs. runs), tt)) refl
