-- ===== src/Task/Executor/Kept.antt =====
-- The executor of min-rust-os/src/task/executor.rs keeps its invariant.
use os_resources.Prelude.{
  Bool-cases, ltb, ltb→lt, arith, Result, ℕ, ◌≡◌, ◌==◌, ==_iff, ◌⊎◌, Bool, true, false,
  if◌then◌else◌, inl, inr, ok, panic, explicit, expect_failed, ◌<◌, ◌≤◌, ◌++◌, length, Option,
  Option-cases, none, some, [], ◌∷◌, refl, sym, ◌∙◌, ap, subst,
}
use os_resources.Prelude.Maps.{get, insert, get-insert}
use os_resources.Task.{Polled, Futures, ArrayQueue, Task}
use os_resources.Task.Executor.{Executor, new, spawn, run_task}
use os_resources.Task.Executor.Valid.{IsValid, IsPolled, waker_of, run_task-IsPolled}

-- What is found where an entry became `x` unless it was removed.
entry-some :
    {A : Type 0} (same removed : Bool) {x : A} {before : Option A} {y : A}
    → (if same then (if removed then none else some x) else before) ≡ some y
    → ((same ≡ true) × (x ≡ y)) ⊎ (before ≡ some y)
entry-some true true e = cc
entry-some true false e = inl (refl, cc)
entry-some false removed e = inr e

entry-none :
    {A B : Type 0} (same removed : Bool) (x : A) (x' : B) {before : Option A} {before' : Option B}
    → (before ≡ none → before' ≡ none)
    → (if same then (if removed then none else some x) else before) ≡ none
    → (if same then (if removed then none else some x') else before') ≡ none
entry-none true true x x' h e = refl
entry-none true false x x' h e = cc
entry-none false removed x x' h e = h e

entry-absent :
    {A : Type 0} (same : Bool) (x : A) {before : Option A}
    → (if same then some x else before) ≡ none
    → before ≡ none
entry-absent true x e = cc
entry-absent false x e = e

module _ (f : Futures) (a : ArrayQueue ℕ) where
  open f use {Future, World, poll}
  open a use {Queue, items, capacity}

  -- Only a task that is there is polled.
  pub run_task-passed :
      (id : ℕ) (e : Executor f a) (world : World)
      → get id e.tasks ≡ none
      → run_task f a id e world ≡ ok (e, world)
  unfolding run_task
  run_task-passed id e world gone = rw (gone, run_task) refl

  IsPolled-IsValid :
      (id : ℕ) (task : Task Future) (p : Polled Future World) (e e' : Executor f a) (world' : World)
      → get id e.tasks ≡ some task
      → IsValid f a e
      → IsPolled f a id task p e e' world'
      → IsValid f a e'
  IsPolled-IsValid id task p e e' world' found v polled = record {
    keyed = λ j t here. elim (entry-some (j == id) p.ready (sym (polled.tasks j) ∙ here)) [
      | inl (same, eq) ↦
          sym (ap (λ (u : Task Future). u.id) eq)
          ∙ v.keyed id task found
          ∙ sym ((==_iff j id).0 same)
      | inr before ↦ v.keyed j t before
    ];
    own = λ j w here. elim (entry-some (j == id) p.ready (sym (polled.wakers j) ∙ here)) [
      | inl (same, eq) ↦ sym eq ∙ ap waker_of (sym ((==_iff j id).0 same))
      | inr before ↦ v.own j w before
    ];
    present = λ j gone.
        polled.wakers j
        ∙ entry-none (j == id) p.ready _ (waker_of id) (v.present j) (sym (polled.tasks j) ∙ gone);
  }

  pub run_task-IsValid :
      (id : ℕ) (e : Executor f a) (world : World) {e' : Executor f a} {world' : World}
      → IsValid f a e
      → run_task f a id e world ≡ ok (e', world')
      → IsValid f a e'
  run_task-IsValid id e world {e'} {world'} v runs = elim (Option-cases (get id e.tasks)) [
    | inl gone ↦
        let same : e ≡ e' = cc (run_task-passed id e world gone, runs) in subst (IsValid f a) same v
    | inr (task, found) ↦
        IsPolled-IsValid id task _ e e' world' found v
          (run_task-IsPolled f a id task e world v found runs)
  ]

  pub new-IsValid : IsValid f a (new f a)
  unfolding new get
  new-IsValid = record { keyed = λ id t e. cc; own = λ id w e. cc; present = λ id e. refl }

  pub spawned-IsValid :
      (t : Task Future) (e : Executor f a) (queue : Queue)
      → IsValid f a e
      → get t.id e.tasks ≡ none
      → IsValid f a (record e { tasks = insert t.id t e.tasks; task_queue = queue })
  spawned-IsValid t e queue v fresh = record {
    keyed = λ id u here.
        elim (entry-some (id == t.id) false (sym (get-insert t.id id t e.tasks) ∙ here)) [
          | inl (same, eq) ↦ cc ((==_iff id t.id).0 same, eq)
          | inr before ↦ v.keyed id u before
        ];
    own = v.own;
    present = λ id gone.
        v.present id (entry-absent (id == t.id) t (sym (get-insert t.id id t e.tasks) ∙ gone));
  }

  -- The outcome of a spawn: the task is added, or the panic of a full queue or of an id that is
  -- taken.
  pub data Spawns (t : Task Future) (e : Executor f a) : Result (Executor f a) → Type 0 where
    spawns :
        (e' : Executor f a)
        → get t.id e.tasks ≡ none
        → length (items e.task_queue) < capacity e.task_queue
        → IsValid f a e'
        → items e'.task_queue ≡ items e.task_queue ++ t.id ∷ []
        → capacity e'.task_queue ≡ capacity e.task_queue
        → ((j : ℕ) → get j e'.tasks ≡ (if j == t.id then some t else get j e.tasks))
        → Spawns t e (ok e')
    overflows :
        get t.id e.tasks ≡ none
        → capacity e.task_queue ≤ length (items e.task_queue)
        → Spawns t e (panic expect_failed)
    clashes : (old : Task Future) → get t.id e.tasks ≡ some old → Spawns t e (panic explicit)

  -- In a valid state a task with a new id is accepted where the queue has room: it is found under
  -- its id, its id goes to the end of the queue, the other tasks are as before and the state is
  -- valid. A task with a new id and a full queue is a panic, and so is a task with the id of
  -- another one.
  pub spawn-Spawns :
      (t : Task Future) (e : Executor f a) → IsValid f a e → Spawns t e (spawn f a t e)
  unfolding spawn
  spawn-Spawns t e v = elim (Option-cases (get t.id e.tasks)) [
    | inl fresh ↦ elim (Bool-cases (ltb (length (items e.task_queue)) (capacity e.task_queue))) [
      | inl room ↦
          let (queue, pushed, all, same) = a.push-room t.id e.task_queue (ltb→lt _ _ room) in
          let e' = record e { tasks = insert t.id t e.tasks; task_queue = queue } in
          let done : spawn f a t e ≡ ok e' = rw (fresh, spawn, pushed) refl in
          rw done (
            spawns e' fresh (ltb→lt _ _ room) (spawned-IsValid t e queue v fresh) all same
              (λ j. get-insert t.id j t e.tasks))
      | inr full ↦
          let crowded : capacity e.task_queue ≤ length (items e.task_queue) = ground arith in
          let done : spawn f a t e ≡ panic expect_failed =
            rw (fresh, spawn, a.push-full t.id e.task_queue crowded) refl in
          rw done (overflows fresh crowded)
    ]
    | inr (old, there) ↦
        let done : spawn f a t e ≡ panic explicit = rw (there, spawn) refl in
        rw done (clashes old there)
  ]
