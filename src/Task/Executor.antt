-- ===== src/Task/Executor.antt =====
-- min-rust-os/src/task/executor.rs: poll the tasks whose wakers were called.
pub mod Valid
pub mod Kept
pub mod Rounds
pub mod Run
pub mod Step
pub mod Tests
pub mod Drain
pub mod Sleep
use os_resources.Prelude.{
  ℕ, zero, suc, ◌≡◌, Bool, true, false, if◌then◌else◌, Result, ok, panic, explicit, expect_failed,
  expect, ◌>>=◌, Option, none, some, List, [], ◌∷◌,
}
use os_resources.Prelude.Maps.{get, insert, remove}
use os_resources.Task.{Polled, Futures, ArrayQueue, Task}

-- The waker of a task: calling it pushes the task's id to the queue of the executor.
pub record TaskWaker : Type 0 where
  pub task_id : ℕ

module _ (f : Futures) (a : ArrayQueue ℕ) where
  open f use {Future, World, poll}
  open a use {Queue, push, pop, is_empty}

  pub record Executor : Type 0 where
    pub tasks : List (ℕ × Task Future)
    pub task_queue : Queue
    pub waker_cache : List (ℕ × TaskWaker)

  unfoldable pub new : Executor
  new = record { tasks = []; task_queue = a.new 100; waker_cache = [] }

  unfoldable pub spawn : Task Future → Executor → Result Executor
  spawn task e = elim (get task.id e.tasks) [
    | some old ↦ panic explicit
    | none ↦ do
      queue ← expect (push task.id e.task_queue) expect_failed
      ok (record e { tasks = insert task.id task e.tasks; task_queue = queue })
  ]

  -- `TaskWaker::wake_task`, which `wake` and `wake_by_ref` call.
  unfoldable pub wake_task : TaskWaker → Queue → Result Queue
  wake_task w queue = expect (push w.task_id queue) expect_failed

  -- The wakers of some tasks, called one after another.
  unfoldable pub wake_all : List ℕ → Queue → Result Queue
  wake_all [] queue = ok queue
  wake_all (id ∷ ids) queue = do
    queue' ← wake_task (record { task_id = id }) queue
    wake_all ids queue'

  -- `waker_cache.entry(task_id).or_insert_with(..)`: the waker, and the cache that holds it.
  unfoldable pub cached_waker : ℕ → List (ℕ × TaskWaker) → TaskWaker × List (ℕ × TaskWaker)
  cached_waker id cache = elim (get id cache) [
    | some waker ↦ (waker, cache)
    | none ↦ let waker : TaskWaker = record { task_id = id } in (waker, insert id waker cache)
  ]

  -- The state once a task was polled: a finished task goes, with its waker.
  unfoldable pub after_poll : ℕ → Task Future → Polled Future World → Executor → Executor
  after_poll id task polled e =
      if polled.ready
      then record e { tasks = remove id e.tasks; waker_cache = remove id e.waker_cache }
      else record e { tasks = insert id (record task { future = polled.future }) e.tasks }

  -- The part of the loop of `run_ready_tasks` behind the lookup.
  unfoldable pub poll_task : ℕ → Task Future → Executor → World → Result (Executor × World)
  unfolding cached_waker after_poll
  poll_task id task e world = do
    let (waker, cache) = cached_waker id e.waker_cache
    let polled = poll waker.task_id task.future world
    queue ← wake_all polled.woken e.task_queue
    ok (
      after_poll id task polled (record e { task_queue = queue; waker_cache = cache }),
      polled.world,
    )

  -- One round of the loop of `run_ready_tasks` for a popped id: a wake-up of a task that is no
  -- longer there is passed over.
  unfoldable pub run_task : ℕ → Executor → World → Result (Executor × World)
  run_task id e world = elim (get id e.tasks) [
    | some task ↦ poll_task id task e world
    | none ↦ ok (e, world)
  ]

  -- `run_ready_tasks`, at most `fuel` rounds of its loop.
  unfoldable pub run_ready_tasks : ℕ → Executor → World → Result (Executor × World)
  run_ready_tasks zero e world = ok (e, world)
  run_ready_tasks (suc fuel) e world = elim (pop e.task_queue) [
    | none ↦ ok (e, world)
    | some (id, queue) ↦ do
      (e', world') ← run_task id (record e { task_queue = queue }) world
      run_ready_tasks fuel e' world'
  ]
