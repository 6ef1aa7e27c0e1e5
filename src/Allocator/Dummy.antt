-- ===== src/Allocator/Dummy.antt =====
-- `Dummy` of min-rust-os/src/allocator.rs, which has no state.
use os_resources.Prelude.{ℕ, Result, ok, panic, explicit}
use os_resources.Allocator.{Layout, null, GlobalAlloc}

unfoldable pub alloc : Layout → Unit {0} → Result (ℕ × Unit {0})
alloc layout s = ok (null, s)

unfoldable pub dealloc : ℕ → Layout → Unit {0} → Result (Unit {0})
dealloc ptr layout s = panic explicit

abbrev pub dummy : GlobalAlloc (Unit {0})
dummy = record { alloc = alloc; dealloc = dealloc }
