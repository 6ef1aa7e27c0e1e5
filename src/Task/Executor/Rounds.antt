-- ===== src/Task/Executor/Rounds.antt =====
-- One round of `run_ready_tasks` of min-rust-os/src/task/executor.rs where the queue has room.
use mathlib.Core.List.{append-nil, append_assoc}
use os_resources.Prelude.{
  ℕ, ◌+◌, ◌≤◌, ◌≡◌, ◌==◌, ◌⊎◌, inl, inr, Bool-cases, Returns, Returns-ok, none, some, List, [], ◌∷◌,
  ◌++◌, length, length-append, arith, refl, sym, ◌∙◌, ap, subst, ==_iff,
}
use os_resources.Prelude.Maps.{get}
use os_resources.Task.{Polled, Futures, ArrayQueue, Task}
use os_resources.Task.Executor.{Executor, wake_task, wake_all, run_task}
use os_resources.Task.Executor.Valid.{
  IsValid, IsPolled, waker_of, run_task-IsPolled, run_task-woken,
}

module _ (f : Futures) (a : ArrayQueue ℕ) where
  open f use {Future, World, poll}
  open a use {Queue, items, capacity, push, pop}

  -- Wakers that are called put their ids to the end of a queue that has room for them.
  pub wake_all-room :
      (ids : List ℕ) (queue : Queue)
      → length (items queue) + length ids ≤ capacity queue
      → Returns
          (λ q. (items q ≡ items queue ++ ids) × (capacity q ≡ capacity queue))
          (wake_all f a ids queue)
  unfolding wake_all wake_task
  wake_all-room [] queue room = Returns-ok queue (sym (append-nil (items queue)), refl)
  wake_all-room (id ∷ ids) queue room =
      let more = a.push-room id queue (omega arith) in
      let rest =
        wake_all-room ids more.0
          (omega (arith, ap length more.2, more.3, length-append (items queue) (id ∷ []))) in
      record {
        value = rest.value;
        returns = rw more.1 rest.returns;
        holds = (
          rest.holds.0 ∙ ap (λ l. l ++ ids) more.2 ∙ append_assoc (items queue) (id ∷ []) ids,
          rest.holds.1 ∙ more.3,
        );
      }

  pub run_task-Returns :
      (id : ℕ) (task : Task Future) (e : Executor f a) (world : World)
      → IsValid f a e
      → get id e.tasks ≡ some task
      → length (items e.task_queue) + length (poll id task.future world).woken
        ≤ capacity e.task_queue
      → Returns
          (λ (e', world').
            IsPolled f a id task (poll id task.future world) e e' world'
            × (items e'.task_queue ≡ items e.task_queue ++ (poll id task.future world).woken)
            × (capacity e'.task_queue ≡ capacity e.task_queue))
          (run_task f a id e world)
  run_task-Returns id task e world v found room =
      let woken = wake_all-room (poll id task.future world).woken e.task_queue room in
      let ((e', world'), runs) = run_task-woken f a id task e world v found woken.returns in
      let polled = run_task-IsPolled f a id task e world v found runs in
      let queue : woken.value ≡ e'.task_queue = cc (polled.queue, woken.returns) in
      record {
        value = (e', world');
        returns = runs;
        holds =
            subst
              (λ q.
                IsPolled f a id task (poll id task.future world) e e' world'
                × (items q ≡ items e.task_queue ++ (poll id task.future world).woken)
                × (capacity q ≡ capacity e.task_queue))
              queue (polled, woken.holds.0, woken.holds.1);
      }

  -- Nothing is left to do for the id: its task is gone, or has a waker of its own.
  unfoldable pub Served : ℕ → Executor f a → Type 0
  Served id e = (get id e.tasks ≡ none) ⊎ (get id e.waker_cache ≡ some (waker_of id))

  pub IsPolled-Served :
      (id : ℕ) (task : Task Future) (p : Polled Future World) (e e' : Executor f a) (world' : World)
      → IsPolled f a id task p e e' world'
      → Served id e' × ((j : ℕ) → Served j e → Served j e')
  unfolding Served
  IsPolled-Served id task p e e' world' polled =
      let here : Served id e' = elim (Bool-cases p.ready) [
        | inl done ↦ inl (polled.tasks id ∙ (simp (done, (==_iff id id).1 refl) refl))
        | inr pending ↦ inr (polled.wakers id ∙ (simp (pending, (==_iff id id).1 refl) refl))
      ] in
      (
        here,
        λ j before. elim (Bool-cases (j == id)) [
          | inl same ↦ subst (λ k. Served k e') (sym ((==_iff j id).0 same)) here
          | inr other ↦ elim before [
            | inl gone ↦ inl (polled.tasks j ∙ (simp other gone))
            | inr own ↦ inr (polled.wakers j ∙ (simp other own))
          ]
        ],
      )
