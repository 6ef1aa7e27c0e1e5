-- ===== src/Task/Executor/Step.antt =====
-- One round of `run_ready_tasks` of min-rust-os/src/task/executor.rs, within a bound on wake-ups.
use mathlib.Core.List.{append-nil}
use os_resources.Prelude.{
  ℕ, ◌+◌, ◌≤◌, ◌≡◌, ◌==◌, ==_iff, ◌⊎◌, inl, inr, Bool-cases, Returns, Option-cases, none, List, [],
  ◌++◌, length, arith, refl, sym, ◌∙◌, ap, subst,
}
use os_resources.Prelude.Maps.{get}
use os_resources.Task.{Futures, ArrayQueue, Task}
use os_resources.Task.Executor.{Executor, run_task}
use os_resources.Task.Executor.Valid.{IsValid, IsPolled}
use os_resources.Task.Executor.Kept.{run_task-passed, run_task-IsValid}
use os_resources.Task.Executor.Rounds.{run_task-Returns, Served, IsPolled-Served}

module _ (f : Futures) (a : ArrayQueue ℕ) where
  open f use {Future, World, poll}
  open a use {Queue, items, capacity}

  -- `WasPolled id world`: in the world it is seen that the task `id` was polled. The task is not
  -- there, or was polled.
  abbrev pub Handled : (ℕ → World → Type 0) → Executor f a → World → ℕ → Type 0
  Handled WasPolled e world id = (get id e.tasks ≡ none) ⊎ WasPolled id world

  -- `spent` bounds the wake-ups that the futures and the interrupts still make while tasks run, and
  -- `Since` are the worlds that the polls come to.
  module _ (spent : World → ℕ)
      (spends : (id : ℕ) (future : Future) (world : World)
        → length (poll id future world).woken + spent (poll id future world).world ≤ spent world)
      (Since : World → Type 0)
      (since : (id : ℕ) (future : Future) (world : World)
        → Since world
        → Since (poll id future world).world)
      (WasPolled : ℕ → World → Type 0)
      (polls : (id : ℕ) (future : Future) (world : World)
        → Since world
        → WasPolled id (poll id future world).world)
      (keeps : (j id : ℕ) (future : Future) (world : World)
        → WasPolled j world
        → WasPolled j (poll id future world).world) where
    -- A finished task was polled.
    IsPolled-gone :
        (id : ℕ) (task : Task Future) (e e' : Executor f a) (world world' : World)
        → Since world
        → IsPolled f a id task (poll id task.future world) e e' world'
        → (j : ℕ) → get j e'.tasks ≡ none
        → Handled WasPolled e world' j
    IsPolled-gone id task e e' world world' from polled j gone = elim (Bool-cases (j == id)) [
      | inl same ↦ inr (
          subst (λ i. WasPolled i world') (sym ((==_iff j id).0 same))
            (subst (WasPolled id) (sym polled.world) (polls id task.future world from)))
      | inr other ↦ inl (sym (polled.tasks j ∙ (simp other refl)) ∙ gone)
    ]

    pub record Round (id : ℕ) (e : Executor f a) (world : World) (e' : Executor f a)
        (world' : World) : Type 0 where
      pub valid : IsValid f a e'
      pub woken : List ℕ
      pub appended : items e'.task_queue ≡ items e.task_queue ++ woken
      pub budget : length woken + spent world' ≤ spent world
      pub same : capacity e'.task_queue ≡ capacity e.task_queue
      pub served : Served f a id e'
      pub others : (j : ℕ) → Served f a j e → Served f a j e'
      pub handled : Handled WasPolled e world' id
      pub before : (j : ℕ) → WasPolled j world → WasPolled j world'
      pub reached : Since world'
      pub gone : (j : ℕ) → get j e'.tasks ≡ none → Handled WasPolled e world' j

    pub run_task-Round :
        (id : ℕ) (e : Executor f a) (world : World)
        → Since world
        → IsValid f a e
        → length (items e.task_queue) + spent world ≤ capacity e.task_queue
        → Returns (λ (e', world'). Round id e world e' world') (run_task f a id e world)
    unfolding Served
    run_task-Round id e world from v room = elim (Option-cases (get id e.tasks)) [
      | inl gone ↦ record {
        value = (e, world);
        returns = run_task-passed f a id e world gone;
        holds = record {
          valid = v;
          woken = [];
          appended = sym (append-nil (items e.task_queue));
          budget = omega arith;
          same = refl;
          served = inl gone;
          others = λ j h. h;
          handled = inl gone;
          before = λ j h. h;
          reached = from;
          gone = λ j h. inl h;
        };
      }
      | inr (task, found) ↦
          let out =
            run_task-Returns f a id task e world v found
              (omega (arith, spends id task.future world)) in
          let served = IsPolled-Served f a id task _ e out.value.0 out.value.1 out.holds.0 in
          record {
            value = out.value;
            returns = out.returns;
            holds = record {
              valid = run_task-IsValid f a id e world v out.returns;
              woken = (poll id task.future world).woken;
              appended = out.holds.1;
              budget = omega (arith, spends id task.future world, ap spent out.holds.0.world);
              same = out.holds.2;
              served = served.0;
              others = served.1;
              handled =
                  inr (
                    subst (WasPolled id) (sym out.holds.0.world) (polls id task.future world from));
              before = λ j h.
                  subst (WasPolled j) (sym out.holds.0.world) (keeps j id task.future world h);
              reached = subst Since (sym out.holds.0.world) (since id task.future world from);
              gone = IsPolled-gone id task e out.value.0 world out.value.1 from out.holds.0;
            };
          }
    ]
