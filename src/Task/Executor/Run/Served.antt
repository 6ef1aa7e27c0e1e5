-- ===== src/Task/Executor/Run/Served.antt =====
-- The loop of `run` of min-rust-os/src/task/executor.rs loses no wake-up.
use mathlib.Core.List.{append-nil}
use os_resources.Prelude.{
  ℕ, ◌+◌, ◌≤◌, ◌≡◌, ◌≢◌, Bool, true, false, if◌then◌else◌, ok, ◌>>=◌, Returns, Returns-ok,
  Returns-bind, Returns-mono, Option, none, some, List, [], ◌∷◌, ◌++◌, length, length-append, All,
  arith, refl, ◌∙◌, ap, sym,
}
use os_resources.Task.{Futures, ArrayQueue}
use os_resources.Task.Executor.{Executor}
use os_resources.Task.Executor.Valid.{IsValid}
use os_resources.Task.Executor.Rounds.{wake_all-room}
use os_resources.Task.Executor.Step.{Handled}
use os_resources.Task.Executor.Drain.{IsDrained, run_ready_tasks-Since}
use os_resources.Task.Executor.Sleep.{sleep_if_idle}
use os_resources.Task.Executor.Run.{
  Interrupted, Running, goes_on, halted, wake_up, run_round, run, by_late, sleep_if_idle-woken,
  IsBounded, IsRound, EndsRound, next_round, idle, AreRounds, no_more, and_then, stays_halted,
}
use os_resources.Task.Executor.Run.Polls.{Since, start, polled, PolledSince, just_now, earlier}

module _ (f : Futures) (a : ArrayQueue ℕ) where
  open f use {Future, World, poll}
  open a use {Queue, items, capacity, is_empty}

  -- What the first part of a round leaves, up to the end of `sleep_if_idle`.
  record Slept (i : Interrupted World) (e : Executor f a) (world : World) (halts : Bool)
      (e' : Executor f a) (behind : World) : Type 0 where
    valid : IsValid f a e'
    reached : Since f world behind
    handled : All (Handled f a (PolledSince f world) e behind) (items e.task_queue)
    woken : items e'.task_queue ≡ (i.early behind).1
    same : capacity e'.task_queue ≡ capacity e.task_queue
    halts_idle : halts ≡ true → (i.early behind).1 ≡ []
    goes_busy : halts ≡ false → (i.early behind).1 ≢ []

  -- A round that no interrupt comes behind.
  quiet-IsRound :
      (i : Interrupted World) (e : Executor f a) (world : World) (halts : Bool) (e' : Executor f a)
      (behind : World)
      → i.late ≡ none
      → Slept i e world halts e' behind
      → IsRound f a i e world e' (i.early behind).0
  quiet-IsRound i e world halts e' behind which s = record {
    valid = s.valid;
    behind = behind;
    reached = s.reached;
    handled = s.handled;
    left = ap (λ l. (by_late f a l (i.early behind).0).0) (sym which);
    woken =
        s.woken
        ∙ sym (append-nil (i.early behind).1)
        ∙ ap (λ l. (i.early behind).1 ++ (by_late f a l (i.early behind).0).1) (sym which);
    same = s.same;
  }

  wake_up-EndsRound :
      (i : Interrupted World) (late : Option (World → World × List ℕ)) (e : Executor f a)
      (world : World) (halts : Bool) (e' : Executor f a) (behind : World)
      → i.late ≡ late
      → length ((i.early behind).1 ++ (by_late f a late (i.early behind).0).1)
        ≤ capacity e.task_queue
      → Slept i e world halts e' behind
      → Returns (EndsRound f a i e world) (wake_up f a late halts e' (i.early behind).0)
  unfolding wake_up
  wake_up-EndsRound i (some late) e world halts e' behind which bound s =
      let ids = (late (i.early behind).0).1 in
      let woken =
        wake_all-room f a ids e'.task_queue
          (omega (arith, bound, length-append (i.early behind).1 ids, ap length s.woken, s.same)) in
      record {
        value = goes_on (record e' { task_queue = woken.value }) (late (i.early behind).0).0;
        returns = rw woken.returns refl;
        holds =
            next_round (record e' { task_queue = woken.value }) (late (i.early behind).0).0
              (record {
                valid = record {
                  keyed = s.valid.keyed;
                  own = s.valid.own;
                  present = s.valid.present;
                };
                behind = behind;
                reached = s.reached;
                handled = s.handled;
                left = ap (λ l. (by_late f a l (i.early behind).0).0) (sym which);
                woken =
                    woken.holds.0
                    ∙ ap (λ l. l ++ ids) s.woken
                    ∙ ap (λ l. (i.early behind).1 ++ (by_late f a l (i.early behind).0).1)
                        (sym which);
                same = woken.holds.1 ∙ s.same;
              })
              (λ no_late. absurd (cc (which, no_late)));
      }
  wake_up-EndsRound i none e world true e' behind which bound s =
      Returns-ok (halted e' (i.early behind).0) (
        idle e' (i.early behind).0 (quiet-IsRound i e world true e' behind which s) which
          (s.woken ∙ s.halts_idle refl))
  wake_up-EndsRound i none e world false e' behind which bound s =
      Returns-ok (goes_on e' (i.early behind).0) (
        next_round e' (i.early behind).0 (quiet-IsRound i e world false e' behind which s)
          (λ no_late empty. s.goes_busy refl (sym s.woken ∙ empty)))

  module _ (spent : World → ℕ)
      (spends : (id : ℕ) (future : Future) (world : World)
        → length (poll id future world).woken + spent (poll id future world).world
          ≤ spent world) where
    -- `sleep_if_idle` behind the polls of a round, and what follows it.
    slept-EndsRound :
        (room : ℕ) (i : Interrupted World) (e : Executor f a) (world : World) (e' : Executor f a)
        (behind : World)
        → IsBounded f a spent room i
        → room ≤ capacity e.task_queue
        → IsDrained f a (PolledSince f world) e world e' behind
        → Since f world behind
        → Returns (EndsRound f a i e world) (do
          let (world'', ids) = (if is_empty e'.task_queue then i.early behind else (behind, []))
          (halts, queue) ← sleep_if_idle f a ids e'.task_queue
          wake_up f a i.late halts (record e' { task_queue = queue }) world'')
    slept-EndsRound room i e world e' behind b enough d reached =
        let late = (by_late f a i.late (i.early behind).0).1 in
        let bound : length ((i.early behind).1 ++ late) ≤ capacity e.task_queue =
          omega (arith, b.few behind, enough) in
        rw ((a.is_empty-items e'.task_queue).1 d.drained) (
          Returns-bind
            (sleep_if_idle-woken f a (i.early behind).1 e'.task_queue d.drained
              (omega (arith, bound, length-append (i.early behind).1 late, d.same)))
            λ (halts, queue) (all, same, idles, goes).
              wake_up-EndsRound i i.late e world halts (record e' { task_queue = queue }) behind
                refl bound
                (record {
                  valid = record {
                    keyed = d.valid.keyed;
                    own = d.valid.own;
                    present = d.valid.present;
                  };
                  reached = reached;
                  handled = d.handled;
                  woken = all;
                  same = same ∙ d.same;
                  halts_idle = idles;
                  goes_busy = goes;
                }))

    run_round-EndsRound :
        (room fuel : ℕ) (i : Interrupted World) (e : Executor f a) (world : World)
        → IsBounded f a spent room i
        → IsValid f a e
        → room ≤ capacity e.task_queue
        → room ≤ fuel
        → length (items e.task_queue) + spent world ≤ room
        → Returns (EndsRound f a i e world) (run_round f a fuel i e world)
    unfolding run_round
    run_round-EndsRound room fuel i e world b v enough enough' little =
        Returns-bind
          (run_ready_tasks-Since f a spent spends (Since f world)
            (λ id future w h. polled id future h) (PolledSince f world)
            (λ id future w h. just_now future h) (λ j id future w h. earlier id future h) fuel e
            world start v (omega arith) (omega arith))
          λ (e', behind) (d, reached). slept-EndsRound room i e world e' behind b enough d reached

    -- What a round ends with, and the rounds behind it.
    after_round-AreRounds :
        (fuel room : ℕ) (i : Interrupted World) (is : List (Interrupted World)) (e : Executor f a)
        (world : World) (next : Running f a)
        → ((e' : Executor f a) (world' : World)
            → IsRound f a i e world e' world'
            → Returns (AreRounds f a is e' world') (run f a fuel is e' world'))
        → EndsRound f a i e world next
        → Returns (AreRounds f a (i ∷ is) e world) (elim next [
          | goes_on e' world' ↦ run f a fuel is e' world'
          | halted e' world' ↦ ok (halted e' world')
        ])
    after_round-AreRounds fuel room i is e world _ rest (next_round e' world' r busy) =
        Returns-mono (rest e' world' r)
          λ out rounds. and_then i is (next_round e' world' r busy) rounds
    after_round-AreRounds fuel room i is e world _ rest (idle e' world' r no_late empty) =
        Returns-ok (halted e' world') (stays_halted i is (idle e' world' r no_late empty))

    -- Where the queue has room, and the fuel is enough, for the wake-ups that are left at the start
    -- and for those of the interrupts of any round, the loop of `run` makes any number of rounds
    -- without a panic, unless the processor stays halted. In each round the polls made in it are
    -- polls of every task whose id stood in the queue at its start, if the task is there; the queue
    -- behind it holds exactly the ids that the interrupts behind the polls wake. Where no interrupt
    -- comes any more behind a round, the processor stays halted exactly where the queue is empty.
    pub run-AreRounds :
        (room fuel : ℕ) (is : List (Interrupted World)) (e : Executor f a) (world : World)
        → All (IsBounded f a spent room) is
        → IsValid f a e
        → room ≤ capacity e.task_queue
        → room ≤ fuel
        → length (items e.task_queue) + spent world ≤ room
        → Returns (AreRounds f a is e world) (run f a fuel is e world)
    unfolding run
    run-AreRounds room fuel [] e world bs v enough enough' little =
        Returns-ok (goes_on e world) (no_more e world)
    run-AreRounds room fuel (i ∷ is) e world bs v enough enough' little =
        Returns-bind (run_round-EndsRound room fuel i e world bs.0 v enough enough' little)
          λ next ends.
            after_round-AreRounds fuel room i is e world next
              (λ e' world' r.
                run-AreRounds room fuel is e' world' bs.1 r.valid (omega (arith, r.same, enough))
                  enough' (omega (arith, ap length r.woken, ap spent r.left, bs.0.few r.behind)))
              ends
