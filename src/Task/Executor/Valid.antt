-- ===== src/Task/Executor/Valid.antt =====
-- What the executor of min-rust-os/src/task/executor.rs keeps, and what a round of its loop does.
use os_resources.Prelude.{
  ℕ, ◌≡◌, ◌==◌, Bool-cases, if◌then◌else◌, inl, inr, ok, and_then-ok, Option-cases, none, some,
  List, arith, refl, sym, ◌∙◌, ap, subst,
}
use os_resources.Prelude.Maps.{get, get-insert, get-remove}
use os_resources.Task.{Polled, Futures, ArrayQueue, Task}
use os_resources.Task.Executor.{
  TaskWaker, Executor, wake_all, cached_waker, after_poll, poll_task, run_task,
}

abbrev pub waker_of : ℕ → TaskWaker
waker_of id = record { task_id = id }

-- Every task stands under its own id, and every cached waker wakes the task that it is cached for,
-- which exists.
pub record IsValid (f : Futures) (a : ArrayQueue ℕ) (e : Executor f a) : Type 0 where
  pub keyed : (id : ℕ) (t : Task f.Future) → get id e.tasks ≡ some t → t.id ≡ id
  pub own : (id : ℕ) (w : TaskWaker) → get id e.waker_cache ≡ some w → w ≡ waker_of id
  pub present : (id : ℕ) → get id e.tasks ≡ none → get id e.waker_cache ≡ none

module _ (f : Futures) (a : ArrayQueue ℕ) where
  open f use {Future, World, poll}
  open a use {Queue}

  cached_waker-own :
      (id : ℕ) (cache : List (ℕ × TaskWaker))
      → ((w : TaskWaker) → get id cache ≡ some w → w ≡ waker_of id)
      → ((cached_waker f a id cache).0 ≡ waker_of id)
        × ((j : ℕ)
            → get j (cached_waker f a id cache).1
              ≡ (if j == id then some (waker_of id) else get j cache))
  unfolding cached_waker
  cached_waker-own id cache own = elim (Option-cases (get id cache)) [
    | inl e ↦ rw (e, cached_waker) (refl, λ j. ground (arith, get-insert id j (waker_of id) cache))
    | inr (w, e) ↦ rw (e, cached_waker) (own w e, λ j. ground (arith, own w e, e))
  ]

  -- What is left once the task `id` was polled with the outcome `p`.
  pub record IsPolled (id : ℕ) (task : Task Future) (p : Polled Future World) (e e' : Executor f a)
      (world' : World) : Type 0 where
    pub world : world' ≡ p.world
    pub queue : wake_all f a p.woken e.task_queue ≡ ok e'.task_queue
    pub tasks :
        (j : ℕ)
        → get j e'.tasks ≡ (
            if j == id
            then (if p.ready then none else some (record task { future = p.future }))
            else get j e.tasks)
    pub wakers :
        (j : ℕ)
        → get j e'.waker_cache ≡ (
            if j == id then (if p.ready then none else some (waker_of id)) else get j e.waker_cache)

  after_poll-IsPolled :
      (id : ℕ) (task : Task Future) (p : Polled Future World) (e : Executor f a)
      (cache : List (ℕ × TaskWaker)) (queue : Queue)
      → ((j : ℕ) → get j cache ≡ (if j == id then some (waker_of id) else get j e.waker_cache))
      → wake_all f a p.woken e.task_queue ≡ ok queue
      → IsPolled id task p e
          (after_poll f a id task p (record e { task_queue = queue; waker_cache = cache }))
          p.world
  unfolding after_poll
  after_poll-IsPolled id task p e cache queue h woken = elim (Bool-cases p.ready) [
    | inl done ↦ record {
      world = refl;
      queue = simp done woken;
      tasks = λ j. simp (done, get-remove id j e.tasks) refl;
      wakers = λ j. simp (done, get-remove id j cache) (ground (arith, h j));
    }
    | inr pending ↦ record {
      world = refl;
      queue = simp pending woken;
      tasks = λ j. simp pending (get-insert id j (record task { future = p.future }) e.tasks);
      wakers = λ j. simp pending (h j);
    }
  ]

  pub run_task-poll_task :
      (id : ℕ) (task : Task Future) (e : Executor f a) (world : World)
      → get id e.tasks ≡ some task
      → run_task f a id e world ≡ poll_task f a id task e world
  unfolding run_task
  run_task-poll_task id task e world found = rw (found, run_task) refl

  -- In a valid state, where the round for a popped id of a task returns, it polls the task once, with
  -- a waker that wakes the task itself: the world and the queue are what the poll and its wake-ups leave, a finished task is
  -- gone with its waker, another has its new future and a cached waker, and no other task or waker
  -- has changed.
  pub run_task-IsPolled :
      (id : ℕ) (task : Task Future) (e : Executor f a) (world : World) {e' : Executor f a}
      {world' : World}
      → IsValid f a e
      → get id e.tasks ≡ some task
      → run_task f a id e world ≡ ok (e', world')
      → IsPolled id task (poll id task.future world) e e' world'
  unfolding poll_task
  run_task-IsPolled id task e world {e'} {world'} v found runs =
      let (waker, cache) = cached_waker f a id e.waker_cache in
      let own = cached_waker-own id e.waker_cache (v.own id) in
      let p = poll waker.task_id task.future world in
      let polls : poll_task f a id task e world ≡ ok (e', world') =
        sym (run_task-poll_task id task e world found) ∙ runs in
      let (queue, ends, woken) = and_then-ok _ (wake_all f a p.woken e.task_queue) polls in
      let polled = after_poll-IsPolled id task p e cache queue own.1 woken in
      let same : p ≡ poll id task.future world =
        ap (λ (w : TaskWaker). poll w.task_id task.future world) own.0 in
      let left : after_poll f a id task p (record e { task_queue = queue; waker_cache = cache })
          ≡ e' =
        cc in
      let left_world : p.world ≡ world' = cc in
      subst (λ q. IsPolled id task q e e' world') same
        (subst (λ w. IsPolled id task p e e' w) left_world
          (subst (λ x. IsPolled id task p e x p.world) left polled))

  pub run_task-woken :
      (id : ℕ) (task : Task Future) (e : Executor f a) (world : World) {queue : Queue}
      → IsValid f a e
      → get id e.tasks ≡ some task
      → wake_all f a (poll id task.future world).woken e.task_queue ≡ ok queue
      → (out : Executor f a × World) × (run_task f a id e world ≡ ok out)
  unfolding poll_task
  run_task-woken id task e world {queue} v found woken =
      let (waker, cache) = cached_waker f a id e.waker_cache in
      let own = cached_waker-own id e.waker_cache (v.own id) in
      let p = poll waker.task_id task.future world in
      let same : poll id task.future world ≡ p =
        sym (ap (λ (w : TaskWaker). poll w.task_id task.future world) own.0) in
      let here : wake_all f a p.woken e.task_queue ≡ ok queue =
        subst (λ (q : Polled Future World). wake_all f a q.woken e.task_queue ≡ ok queue) same
          woken in
      (
        (after_poll f a id task p (record e { task_queue = queue; waker_cache = cache }), p.world),
        run_task-poll_task id task e world found ∙ (rw here refl),
      )
