-- ===== src/Task/Tests.antt =====
-- Runs of the executors of min-rust-os/src/task/ on counters in place of futures.
use os_resources.Prelude.{
  Bool, ◌↔◌, ok, ℕ, zero, suc, ◌<◌, ◌≡◌, ◌≢◌, true, false, ltb, lt→ltb, le→ltb, if◌then◌else◌,
  Option, none, some, List, [], ◌∷◌, ◌++◌, length, arith, refl, ◌⊎◌, inl, inr, get_elem?, Returns,
}
use os_resources.Prelude.Maps.{get, insert}
use os_resources.Task.{Polled, Futures, ArrayQueue, Task, new_task_ids}
use os_resources.Task.Simple
use os_resources.Task.Keyboard.{
  AtomicWaker, Scancodes, wake, add_scancode, interrupts, pop_scancode, poll_registered, poll_next,
}
use os_resources.Task.Keyboard.Wakeups.{Answers, poll_next-Answers}
use os_resources.Task.Executor.Sleep.{sleep_if_idle, sleep_if_idle-halts}
use os_resources.Task.Ids.{new_task_ids-Distinct}
use os_resources.Task.Simple.{run-finishes}
use os_resources.Task.Executor.{
  Executor, new, spawn, wake_task, wake_all, cached_waker, after_poll, poll_task, run_task,
}
use os_resources.Task.Executor.Valid.{IsValid, IsPolled, run_task-IsPolled}
use os_resources.Task.Executor.Kept.{new-IsValid, spawned-IsValid, Spawns, spawn-Spawns}

-- A bounded queue: what is in it, and its capacity.
abbrev pub Bounded : Type 0
Bounded = List ℕ × ℕ

abbrev bounded_push : ℕ → Bounded → Option Bounded
bounded_push a (l, n) = if ltb (length l) n then some (l ++ a ∷ [], n) else none

abbrev bounded_pop : Bounded → Option (ℕ × Bounded)
bounded_pop ([], n) = none
bounded_pop (a ∷ l, n) = some (a, (l, n))

pub bounded_pop-empty : (q : Bounded) → q.0 ≡ [] → bounded_pop q ≡ none
bounded_pop-empty ([], n) e = refl
bounded_pop-empty (a ∷ l, n) e = cc

pub bounded_pop-first :
    (q : Bounded) (a : ℕ) (rest : List ℕ)
    → q.0 ≡ a ∷ rest
    → (q' : Bounded) × (bounded_pop q ≡ some (a, q')) × (q'.0 ≡ rest) × (q'.1 ≡ q.1)
bounded_pop-first ([], n) a rest e = cc
bounded_pop-first (b ∷ l, n) a rest e = ((l, n), cc, cc, refl)

abbrev bounded_is_empty : Bounded → Bool
bounded_is_empty ([], n) = true
bounded_is_empty (a ∷ l, n) = false

pub bounded_is_empty_iff : (q : Bounded) → (bounded_is_empty q ≡ true) ↔ (q.0 ≡ [])
bounded_is_empty_iff ([], n) = (λ e. refl, λ e. refl)
bounded_is_empty_iff (a ∷ l, n) = (λ e. cc, λ e. cc)

abbrev pub bounded : ArrayQueue ℕ
bounded = record {
  Queue = Bounded;
  new = λ n. ([], n);
  push = bounded_push;
  pop = bounded_pop;
  is_empty = bounded_is_empty;
  is_empty-items = bounded_is_empty_iff;
  items = λ (l, n). l;
  capacity = λ (l, n). n;
  items-new = λ n. refl;
  capacity-new = λ n. refl;
  push-room = λ a (l, n) room. ((l ++ a ∷ [], n), (rw (lt→ltb (length l) n room) refl), refl, refl);
  push-full = λ a (l, n) full. rw (le→ltb (length l) n full) refl;
  pop-empty = bounded_pop-empty;
  pop-first = bounded_pop-first;
}

-- A future is the number of polls before it is finished; before that it wakes itself, as often as
-- the world still lets it.
abbrev count : ℕ → ℕ → ℕ → Polled ℕ ℕ
count id zero world = record { ready = true; future = 0; world = world; woken = [] }
count id (suc n) zero = record { ready = false; future = n; world = 0; woken = [] }
count id (suc n) (suc w) = record { ready = false; future = n; world = w; woken = id ∷ [] }

count-finishes :
    (id n world : ℕ) → ((count id n world).ready ≡ true) ⊎ ((count id n world).future < n)
count-finishes id zero world = inl refl
count-finishes id (suc n) zero = inr (omega arith)
count-finishes id (suc n) (suc w) = inr (omega arith)

abbrev counters : Futures
counters = record { Future = ℕ; World = ℕ; poll = count }

abbrev two_polls : Task ℕ
two_polls = record { id = 7; future = 2 }

abbrev started : Executor counters bounded
started = record { tasks = (7, two_polls) ∷ []; task_queue = (7 ∷ [], 100); waker_cache = [] }

started-IsValid : IsValid counters bounded started
unfolding new get insert
started-IsValid =
    spawned-IsValid counters bounded two_polls (new counters bounded) (7 ∷ [], 100)
      (new-IsValid counters bounded) refl

spawn-Spawns_example :
    Spawns counters bounded two_polls started (spawn counters bounded two_polls started)
spawn-Spawns_example = spawn-Spawns counters bounded two_polls started started-IsValid

abbrev once_more : Executor counters bounded
once_more = record {
  tasks = (7, record { id = 7; future = 1 }) ∷ (7, two_polls) ∷ [];
  task_queue = (7 ∷ 7 ∷ [], 100);
  waker_cache = (7, record { task_id = 7 }) ∷ [];
}

run_task-IsPolled_example : IsPolled counters bounded 7 two_polls (count 7 2 5) started once_more 4
unfolding get insert run_task poll_task after_poll cached_waker wake_all wake_task
run_task-IsPolled_example =
    run_task-IsPolled counters bounded 7 two_polls started 5 started-IsValid refl refl

new_task_ids-Distinct_example : get_elem? (new_task_ids 3 0).0 0 ≢ get_elem? (new_task_ids 3 0).0 2
new_task_ids-Distinct_example =
    new_task_ids-Distinct 3 0 2 (omega arith) (omega arith) (omega arith) (λ e. omega (arith, e))

abbrev two_tasks : List (Task ℕ)
two_tasks = two_polls ∷ record { id = 8; future = 0 } ∷ []

run-finishes_example :
    ((Simple.run counters 4 (record { task_queue = two_tasks }) 9).0 ≡ Simple.new counters)
    × Simple.Finish counters two_tasks 9
        (Simple.run counters 4 (record { task_queue = two_tasks }) 9).1
unfolding Simple.rounds
run-finishes_example = run-finishes counters (λ n. n) count-finishes 4 two_tasks 9 (omega arith)

abbrev pub one_waker : AtomicWaker
one_waker = record {
  Cell = Option ℕ;
  new = none;
  register = λ w c. some w;
  take = λ c. (c, none);
  stored = λ c. c;
  stored-new = refl;
  stored-register = λ w c. refl;
  take-stored = λ c. (refl, refl);
}

abbrev pub no_scancodes : Scancodes bounded one_waker
no_scancodes = record { scancode_queue = some ([], 100); waker = none; woken = []; warnings = [] }

-- A scancode that comes just after the registration is found by the second look at the queue.
late_scancode :
    poll_next bounded one_waker 7 [] (30 ∷ []) no_scancodes
    ≡ ok (some 30, record no_scancodes { woken = 7 ∷ [] })
unfolding poll_next poll_registered pop_scancode interrupts add_scancode wake
late_scancode = refl

poll_next-Answers_example :
    Returns (Answers bounded one_waker 7) (poll_next bounded one_waker 7 [] (30 ∷ []) no_scancodes)
poll_next-Answers_example =
    poll_next-Answers bounded one_waker 7 [] (30 ∷ []) no_scancodes ([], 100) refl

abbrev no_ids : List ℕ
no_ids = []

abbrev one_woken : List ℕ
one_woken = 7 ∷ []

sleep_if_idle-halts_example :
    Returns
      (λ (halts, q). (halts ≡ true) ↔ ((no_ids ≡ []) × (one_woken ≡ []) × (q.0 ≡ [])))
      (sleep_if_idle counters bounded one_woken (no_ids, 100))
sleep_if_idle-halts_example =
    sleep_if_idle-halts counters bounded one_woken (no_ids, 100) (omega arith)
