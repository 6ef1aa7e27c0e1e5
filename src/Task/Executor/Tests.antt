-- ===== src/Task/Executor/Tests.antt =====
-- Runs of the loop of min-rust-os/src/task/executor.rs, on counters in place of futures and a world
-- that keeps which tasks were polled.
use os_resources.Prelude.{
  ℕ, zero, suc, ◌+◌, ◌≤◌, ◌≡◌, ◌==◌, Bool, true, false, ◌||◌, Returns, some, none, List, [], ◌∷◌,
  length, arith, refl,
}
use os_resources.Prelude.Maps.{get, insert}
use os_resources.Task.{Polled, Futures, Task}
use os_resources.Task.Tests.{bounded}
use os_resources.Task.Executor.{Executor, new, run_ready_tasks}
use os_resources.Task.Executor.Valid.{IsValid}
use os_resources.Task.Executor.Kept.{new-IsValid, spawned-IsValid}
use os_resources.Task.Executor.Drain.{IsDrained, run_ready_tasks-IsDrained}
use os_resources.Task.Executor.Run.{Interrupted, IsBounded, run, AreRounds}
use os_resources.Task.Executor.Run.Served.{run-AreRounds}

-- How many wake-ups are left, and the tasks that were polled.
abbrev pub Log : Type 0
Log = ℕ × List ℕ

-- A future is the number of polls before it is finished; before that it wakes itself, as often as
-- the world still lets it.
abbrev count : ℕ → ℕ → Log → Polled ℕ Log
count id zero (left, log) = record {
  ready = true;
  future = 0;
  world = (left, id ∷ log);
  woken = [];
}
count id (suc n) (zero, log) = record {
  ready = false;
  future = n;
  world = (0, id ∷ log);
  woken = [];
}
count id (suc n) (suc left, log) = record {
  ready = false;
  future = n;
  world = (left, id ∷ log);
  woken = id ∷ [];
}

pub count-spends :
    (id n : ℕ) (world : Log)
    → length (count id n world).woken + (count id n world).world.0 ≤ world.0
count-spends id zero (left, log) = omega arith
count-spends id (suc n) (zero, log) = omega arith
count-spends id (suc n) (suc left, log) = omega arith

abbrev contains : ℕ → List ℕ → Bool
contains j [] = false
contains j (id ∷ log) = (id == j) || contains j log

abbrev pub WasLogged : ℕ → Log → Type 0
WasLogged j (left, log) = contains j log ≡ true

pub count-logs : (id n : ℕ) (world : Log) → WasLogged id (count id n world).world
count-logs id zero (left, log) = ground arith
count-logs id (suc n) (zero, log) = ground arith
count-logs id (suc n) (suc left, log) = ground arith

pub count-keeps :
    (j id n : ℕ) (world : Log) → WasLogged j world → WasLogged j (count id n world).world
count-keeps j id zero (left, log) h = ground arith
count-keeps j id (suc n) (zero, log) h = ground arith
count-keeps j id (suc n) (suc left, log) h = ground arith

abbrev pub counters : Futures
counters = record { Future = ℕ; World = Log; poll = count }

abbrev two_polls : Task ℕ
two_polls = record { id = 7; future = 2 }

abbrev started : Executor counters bounded
started = record { tasks = (7, two_polls) ∷ []; task_queue = (7 ∷ [], 100); waker_cache = [] }

started-IsValid : IsValid counters bounded started
unfolding new get insert
started-IsValid =
    spawned-IsValid counters bounded two_polls (new counters bounded) (7 ∷ [], 100)
      (new-IsValid counters bounded) refl

run_ready_tasks-IsDrained_example :
    Returns
      (λ (e', world'). IsDrained counters bounded WasLogged started (5, []) e' world')
      (run_ready_tasks counters bounded 10 started (5, []))
run_ready_tasks-IsDrained_example =
    run_ready_tasks-IsDrained counters bounded (λ w. w.0) count-spends WasLogged count-logs
      count-keeps 10 started (5, []) started-IsValid (omega arith) (omega arith)

-- The task is woken between the two looks at the queue, and one that is not there after that.
abbrev pub busy : Interrupted Log
busy = record {
  early = λ (left, log). ((1, log), 7 ∷ []);
  late = some (λ (left, log). ((1, log), 8 ∷ []));
}

-- Nothing comes any more.
abbrev pub quiet : Interrupted Log
quiet = record { early = λ (left, log). ((0, log), []); late = none }

pub busy-IsBounded : IsBounded counters bounded (λ w. w.0) 4 busy
busy-IsBounded = record { few = λ (left, log). omega arith }

pub quiet-IsBounded : IsBounded counters bounded (λ w. w.0) 4 quiet
quiet-IsBounded = record { few = λ (left, log). omega arith }

run-AreRounds_example :
    Returns
      (AreRounds counters bounded (busy ∷ quiet ∷ []) started (3, []))
      (run counters bounded 4 (busy ∷ quiet ∷ []) started (3, []))
run-AreRounds_example =
    run-AreRounds counters bounded (λ w. w.0) count-spends 4 4 (busy ∷ quiet ∷ []) started (3, [])
      (busy-IsBounded, (quiet-IsBounded, tt)) started-IsValid (omega arith) (omega arith)
      (omega arith)
