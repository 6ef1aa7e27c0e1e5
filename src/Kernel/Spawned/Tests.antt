-- ===== src/Kernel/Spawned/Tests.antt =====
-- The end of `kernel_main` of min-rust-os/src/main.rs on counters in place of the two futures.
use os_resources.Prelude.{Returns, [], ◌∷◌, arith}
use os_resources.Task.Tests.{bounded}
use os_resources.Task.Executor.{Executor}
use os_resources.Task.Executor.Run.{AreRounds}
use os_resources.Task.Executor.Tests.{
  counters, count-spends, busy, quiet, busy-IsBounded, quiet-IsBounded,
}
use os_resources.Kernel.Spawned.{AreSpawned, run_tasks, run_tasks-AreRounds}

run_tasks-AreRounds_example :
    Returns
      (λ out.
        (e : Executor counters bounded) × AreSpawned counters bounded 0 5 e
        × AreRounds counters bounded (busy ∷ quiet ∷ []) e (2, []) out)
      (run_tasks counters bounded 0 5 0 4 (busy ∷ quiet ∷ []) (2, []))
run_tasks-AreRounds_example =
    run_tasks-AreRounds counters bounded (λ w. w.0) count-spends 0 5 0 4 4 (busy ∷ quiet ∷ [])
      (2, []) (omega arith) (busy-IsBounded, (quiet-IsBounded, tt)) (omega arith) (omega arith)
      (omega arith)
