-- ===== src/Task/Executor/Drain.antt =====
-- `run_ready_tasks` of min-rust-os/src/task/executor.rs ends, with an empty queue.
use os_resources.Prelude.{
  List-cases, ℕ, zero, suc, ◌+◌, ◌≤◌, ◌≡◌, inl, inr, Returns, Returns-ok, Returns-mono, List, [],
  ◌∷◌, ◌++◌, length, length-append, All, All-before, All-imp, none, arith, refl, sym, ◌∙◌, ap,
  subst,
}
use os_resources.Prelude.Maps.{get}
use os_resources.Task.{Futures, ArrayQueue}
use os_resources.Task.Executor.{Executor, run_ready_tasks}
use os_resources.Task.Executor.Valid.{IsValid}
use os_resources.Task.Executor.Rounds.{Served}
use os_resources.Task.Executor.Step.{Handled, run_task-Round}

length-none : {A : Type 0} (l : List A) → length l ≤ 0 → l ≡ []
length-none [] h = refl
length-none (a ∷ rest) h = absurd (omega arith)

module _ (f : Futures) (a : ArrayQueue ℕ) where
  open f use {Future, World, poll}
  open a use {Queue, items, capacity, push, pop}

  -- The queue is empty, and nothing is left to do for any id that stood in it.
  pub record IsDrained (WasPolled : ℕ → World → Type 0) (e : Executor f a) (world : World)
      (e' : Executor f a) (world' : World) : Type 0 where
    pub valid : IsValid f a e'
    pub drained : items e'.task_queue ≡ []
    pub served : All (λ id. Served f a id e') (items e.task_queue)
    pub others : (id : ℕ) → Served f a id e → Served f a id e'
    pub same : capacity e'.task_queue ≡ capacity e.task_queue
    pub handled : All (Handled f a WasPolled e world') (items e.task_queue)
    pub before : (id : ℕ) → WasPolled id world → WasPolled id world'

  empty-IsDrained :
      (WasPolled : ℕ → World → Type 0) (e : Executor f a) (world : World)
      → IsValid f a e
      → items e.task_queue ≡ []
      → IsDrained WasPolled e world e world
  empty-IsDrained WasPolled e world v none_left = record {
    valid = v;
    drained = none_left;
    served = subst (All (λ id. Served f a id e)) (sym none_left) tt;
    others = λ id h. h;
    same = refl;
    handled = subst (All (Handled f a WasPolled e world)) (sym none_left) tt;
    before = λ id h. h;
  }

  -- What was handled behind a round was handled.
  later-Handled :
      (WasPolled : ℕ → World → Type 0) (e e' : Executor f a) (world' world'' : World)
      → ((j : ℕ) → get j e'.tasks ≡ none → Handled f a WasPolled e world' j)
      → ((j : ℕ) → WasPolled j world' → WasPolled j world'')
      → (j : ℕ) → Handled f a WasPolled e' world'' j
      → Handled f a WasPolled e world'' j
  later-Handled WasPolled e e' world' world'' gone before j (inl none_left) =
      elim (gone j none_left) [ inl missing ↦ inl missing | inr polled ↦ inr (before j polled) ]
  later-Handled WasPolled e e' world' world'' gone before j (inr polled) = inr polled

  popped-IsValid :
      (e : Executor f a) (queue : Queue)
      → IsValid f a e
      → IsValid f a (record e { task_queue = queue })
  popped-IsValid e queue v = record { keyed = v.keyed; own = v.own; present = v.present }

  -- `spent` bounds the wake-ups that the futures and the interrupts still make while tasks run.
  module _ (spent : World → ℕ)
      (spends : (id : ℕ) (future : Future) (world : World)
        → length (poll id future world).woken + spent (poll id future world).world ≤ spent world)
      (Since : World → Type 0)
      (since : (id : ℕ) (future : Future) (world : World)
        → Since world
        → Since (poll id future world).world)
      (WasPolled : ℕ → World → Type 0)
      (polls : (id : ℕ) (future : Future) (world : World)
        → Since world
        → WasPolled id (poll id future world).world)
      (keeps : (j id : ℕ) (future : Future) (world : World)
        → WasPolled j world
        → WasPolled j (poll id future world).world) where
    pub run_ready_tasks-Since :
        (fuel : ℕ) (e : Executor f a) (world : World)
        → Since world
        → IsValid f a e
        → length (items e.task_queue) + spent world ≤ capacity e.task_queue
        → length (items e.task_queue) + spent world ≤ fuel
        → Returns
            (λ (e', world'). IsDrained WasPolled e world e' world' × Since world')
            (run_ready_tasks f a fuel e world)
    unfolding run_ready_tasks Served
    run_ready_tasks-Since zero e world from v room enough =
        Returns-ok (e, world)
          (
            empty-IsDrained WasPolled e world v (length-none (items e.task_queue) (omega arith)),
            from,
          )
    run_ready_tasks-Since (suc fuel) e world from v room enough =
        elim (List-cases (items e.task_queue)) [
          | inl none_left ↦ record {
            value = (e, world);
            returns = rw (a.pop-empty e.task_queue none_left, run_ready_tasks) refl;
            holds = (empty-IsDrained WasPolled e world v none_left, from);
          }
          | inr (id, rest, queued) ↦
              let (queue, popped, left, same) = a.pop-first e.task_queue id rest queued in
              let e₁ = record e { task_queue = queue } in
              let round =
                run_task-Round f a spent spends Since since WasPolled polls keeps id e₁ world from
                  (popped-IsValid e queue v)
                  (omega (arith, ap length left, ap length queued, same)) in
              let r = round.holds in
              let out =
                run_ready_tasks-Since fuel round.value.0 round.value.1 r.reached r.valid
                  (omega (
                    arith,
                    ap length left,
                    ap length queued,
                    same,
                    ap length r.appended,
                    length-append (items queue) r.woken,
                    r.budget,
                    r.same,
                  ))
                  (omega (
                    arith,
                    ap length left,
                    ap length queued,
                    same,
                    ap length r.appended,
                    length-append (items queue) r.woken,
                    r.budget,
                    r.same,
                  )) in
              record {
                value = out.value;
                returns = rw (popped, run_ready_tasks, round.returns) out.returns;
                holds = (
                  record {
                    valid = out.holds.0.valid;
                    drained = out.holds.0.drained;
                    served = subst (All (λ i. Served f a i out.value.0)) (sym queued) (
                      out.holds.0.others id r.served,
                      All-before (λ i. Served f a i out.value.0) rest r.woken
                          (subst (All (λ i. Served f a i out.value.0))
                            (r.appended ∙ ap (λ l. l ++ r.woken) left) out.holds.0.served),
                    );
                    others = λ i h. out.holds.0.others i (r.others i h);
                    same = out.holds.0.same ∙ r.same ∙ same;
                    handled = subst (All (Handled f a WasPolled e out.value.1)) (sym queued) (
                      elim r.handled [
                        | inl missing ↦ inl missing
                        | inr polled ↦ inr (out.holds.0.before id polled)
                      ],
                      All-imp (Handled f a WasPolled round.value.0 out.value.1)
                          (Handled f a WasPolled e out.value.1)
                          (later-Handled WasPolled e round.value.0 round.value.1 out.value.1 r.gone
                            out.holds.0.before)
                          rest
                          (All-before (Handled f a WasPolled round.value.0 out.value.1) rest r.woken
                            (subst (All (Handled f a WasPolled round.value.0 out.value.1))
                              (r.appended ∙ ap (λ l. l ++ r.woken) left) out.holds.0.handled)),
                    );
                    before = λ i h. out.holds.0.before i (r.before i h);
                  },
                  out.holds.1,
                );
              }
        ]

  module _ (spent : World → ℕ)
      (spends : (id : ℕ) (future : Future) (world : World)
        → length (poll id future world).woken + spent (poll id future world).world ≤ spent world)
      (WasPolled : ℕ → World → Type 0)
      (polls : (id : ℕ) (future : Future) (world : World)
        → WasPolled id (poll id future world).world)
      (keeps : (j id : ℕ) (future : Future) (world : World)
        → WasPolled j world
        → WasPolled j (poll id future world).world) where
    -- Where the queue has room for what is in it and all wake-ups that may come, and the fuel is at
    -- least as much, `run_ready_tasks` returns without a panic, in a valid state with an empty
    -- queue: every task whose id stood in the queue was polled, if it was there, and is gone or has
    -- a cached waker of its own.
    pub run_ready_tasks-IsDrained :
        (fuel : ℕ) (e : Executor f a) (world : World)
        → IsValid f a e
        → length (items e.task_queue) + spent world ≤ capacity e.task_queue
        → length (items e.task_queue) + spent world ≤ fuel
        → Returns
            (λ (e', world'). IsDrained WasPolled e world e' world')
            (run_ready_tasks f a fuel e world)
    run_ready_tasks-IsDrained fuel e world v room enough =
        Returns-mono
          (run_ready_tasks-Since spent spends (λ w. Unit {0}) (λ id future w h. tt) WasPolled
            (λ id future w h. polls id future w) keeps fuel e world tt v room enough)
          λ (e', world') out. out.0
