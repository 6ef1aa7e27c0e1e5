-- ===== src/Kernel/Spawned.antt =====
-- The tasks of `kernel_main` of min-rust-os/src/main.rs: the executor is made, gets the two tasks
-- and runs.
mod Tests
use os_resources.Prelude.{
  ℕ, ◌+◌, ◌%◌, ◌^◌, ◌≤◌, ◌<◌, ◌≡◌, ◌≢◌, ◌==◌, ==_iff, if◌then◌else◌, Bool-cases, inl, inr, Result,
  ok, ◌>>=◌, Returns, Returns-ok, Returns-bind, Returns-mono, Option, none, some, List, [], ◌∷◌,
  ◌++◌, length, length-append, All, arith, refl, sym, ◌∙◌, ap, subst,
}
use os_resources.Prelude.Maps.{get}
use os_resources.Task.{Futures, ArrayQueue, Task, new_task_id, new_task}
use os_resources.Task.Executor.{Executor, new, spawn}
use os_resources.Task.Executor.Valid.{IsValid}
use os_resources.Task.Executor.Kept.{new-IsValid, Spawns, spawns, overflows, clashes, spawn-Spawns}
use os_resources.Task.Executor.Run.{Interrupted, Running, run, IsBounded, AreRounds}
use os_resources.Task.Executor.Run.Served.{run-AreRounds}

module _ (f : Futures) (a : ArrayQueue ℕ) where
  open f use {Future, World, poll}
  open a use {items, capacity}

  -- `example_task()` and `keyboard::print_keypresses()` are futures; `next_id` is `NEXT_ID`.
  spawn_tasks : Future → Future → ℕ → Result (Executor f a × ℕ)
  spawn_tasks example_task print_keypresses next_id = do
    let (first, next_id') = new_task example_task next_id
    e ← spawn f a first (new f a)
    let (second, next_id'') = new_task print_keypresses next_id'
    e' ← spawn f a second e
    ok (e', next_id'')

  -- The end of `kernel_main`, for as many rounds of the executor's loop as interrupts are given for.
  pub run_tasks : Future → Future → ℕ → ℕ → List (Interrupted World) → World → Result (Running f a)
  unfolding spawn_tasks
  run_tasks example_task print_keypresses next_id fuel is world = do
    (e, next_id') ← spawn_tasks example_task print_keypresses next_id
    run f a fuel is e world

  record IsSpawned (t : Task Future) (e e' : Executor f a) : Type 0 where
    valid : IsValid f a e'
    queued : items e'.task_queue ≡ items e.task_queue ++ t.id ∷ []
    same : capacity e'.task_queue ≡ capacity e.task_queue
    tasks : (j : ℕ) → get j e'.tasks ≡ (if j == t.id then some t else get j e.tasks)

  spawned-found :
      (t : Task Future) (e e' : Executor f a) → IsSpawned t e e' → get t.id e'.tasks ≡ some t
  spawned-found t e e' s = s.tasks t.id ∙ (simp ((==_iff t.id t.id).1 refl) refl)

  spawned-others :
      (t : Task Future) (e e' : Executor f a) (j : ℕ)
      → IsSpawned t e e'
      → j ≢ t.id
      → get j e'.tasks ≡ get j e.tasks
  spawned-others t e e' j s differs = elim (Bool-cases (j == t.id)) [
    | inl same ↦ absurd (differs ((==_iff j t.id).0 same))
    | inr other ↦ s.tasks j ∙ (simp other refl)
  ]

  Spawns-Returns :
      (t : Task Future) (e : Executor f a) (o : Result (Executor f a))
      → get t.id e.tasks ≡ none
      → length (items e.task_queue) < capacity e.task_queue
      → Spawns f a t e o
      → Returns (IsSpawned t e) o
  Spawns-Returns t e _ fresh room (spawns e' fresh' room' v queued same tasks) =
      Returns-ok e' (record { valid = v; queued = queued; same = same; tasks = tasks })
  Spawns-Returns t e _ fresh room (overflows fresh' full) = absurd (omega arith)
  Spawns-Returns t e _ fresh room (clashes old there) = absurd cc (fresh, there)

  -- Both tasks are there, under ids of their own, and are the next to be polled.
  pub record AreSpawned (example_task print_keypresses : Future) (e : Executor f a) : Type 0 where
    pub valid : IsValid f a e
    pub first : Task Future
    pub second : Task Future
    pub futures : (first.future ≡ example_task) × (second.future ≡ print_keypresses)
    pub distinct : first.id ≢ second.id
    pub found : (get first.id e.tasks ≡ some first) × (get second.id e.tasks ≡ some second)
    pub queued : items e.task_queue ≡ first.id ∷ second.id ∷ []
    pub bound : capacity e.task_queue ≡ 100

  spawn_tasks-AreSpawned :
      (example_task print_keypresses : Future) (next_id : ℕ)
      → next_id + 1 < 2 ^ 64
      → Returns
          (λ (e, next_id'). AreSpawned example_task print_keypresses e)
          (spawn_tasks example_task print_keypresses next_id)
  unfolding spawn_tasks new_task new_task_id new get
  spawn_tasks-AreSpawned example_task print_keypresses next_id fits =
      let first : Task Future = record { id = next_id; future = example_task } in
      let second : Task Future = record {
        id = (next_id + 1) % 2 ^ 64;
        future = print_keypresses;
      } in
      let empty = a.items-new 100 in
      let other : next_id ≢ (next_id + 1) % 2 ^ 64 = λ e. omega (arith, e) in
      Returns-bind
        (Spawns-Returns first (new f a) _ refl (omega (arith, ap length empty, a.capacity-new 100))
          (spawn-Spawns f a first (new f a) (new-IsValid f a)))
        λ e s.
          Returns-bind
            (Spawns-Returns second e _
              (spawned-others first (new f a) e second.id s (λ e. other (sym e)))
              (omega (
                arith,
                ap length empty,
                a.capacity-new 100,
                s.same,
                ap length s.queued,
                length-append (items (a.new 100)) (next_id ∷ []),
              ))
              (spawn-Spawns f a second e s.valid))
            λ e' s'. Returns-ok _ (record {
              valid = s'.valid;
              first = first;
              second = second;
              futures = (refl, refl);
              distinct = other;
              found = (
                spawned-others second e e' next_id s' other ∙ spawned-found first (new f a) e s,
                spawned-found second e e' s',
              );
              queued =
                  s'.queued
                  ∙ ap (λ l. l ++ second.id ∷ []) (s.queued ∙ ap (λ l. l ++ next_id ∷ []) empty);
              bound = s'.same ∙ s.same ∙ a.capacity-new 100;
            })

  module _ (spent : World → ℕ)
      (spends : (id : ℕ) (future : Future) (world : World)
        → length (poll id future world).woken + spent (poll id future world).world
          ≤ spent world) where
    -- Where the counter of ids is not at its end, the first wake-ups leave room for the two tasks in
    -- a queue of 100 ids, and no more is woken in any round, the end of `kernel_main` spawns its two
    -- tasks under ids of their own, and its executor makes any number of rounds from there without a
    -- panic, unless the processor stays halted: the first round polls both, and each round polls all
    -- tasks whose ids the interrupts before it woke. Where no interrupt comes any more behind a
    -- round, the processor stays halted exactly where the queue is empty.
    pub run_tasks-AreRounds :
        (example_task print_keypresses : Future) (next_id room fuel : ℕ)
        (is : List (Interrupted World)) (world : World)
        → next_id + 1 < 2 ^ 64
        → All (IsBounded f a spent room) is
        → room ≤ 100
        → room ≤ fuel
        → 2 + spent world ≤ room
        → Returns
            (λ out.
              (e : Executor f a) × AreSpawned example_task print_keypresses e
              × AreRounds f a is e world out)
            (run_tasks example_task print_keypresses next_id fuel is world)
    unfolding run_tasks
    run_tasks-AreRounds example_task print_keypresses next_id room fuel is world fits bs little
          enough first =
        Returns-bind (spawn_tasks-AreSpawned example_task print_keypresses next_id fits)
          λ (e, last) s.
            Returns-mono
              (run-AreRounds f a spent spends room fuel is e world bs s.valid
                (omega (arith, s.bound, little)) enough (omega (arith, ap length s.queued, first)))
              λ out rounds. (e, s, rounds)
