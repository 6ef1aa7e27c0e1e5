-- ===== src/Task/Executor/Run.antt =====
-- The loop of `run` of min-rust-os/src/task/executor.rs, for as many rounds as interrupts are given
-- for.
pub mod Polls
pub mod Served
use os_resources.Prelude.{
  ℕ, ◌+◌, ◌≤◌, ◌≡◌, ◌≢◌, Bool, true, false, Bool-cases, if◌then◌else◌, Result, ok, ◌>>=◌, Returns,
  Returns-ok, Returns-bind, Returns-mono, Option, none, some, List, [], ◌∷◌, ◌++◌, length,
  length-append, All, inl, inr, arith, refl, ◌∙◌, ap, sym, subst,
}
use mathlib.Core.List.{append-nil}
use os_resources.Task.{Futures, ArrayQueue}
use os_resources.Task.Executor.{Executor, wake_all, run_ready_tasks}
use os_resources.Task.Executor.Valid.{IsValid}
use os_resources.Task.Executor.Rounds.{wake_all-room}
use os_resources.Task.Executor.Step.{Handled}
use os_resources.Task.Executor.Drain.{IsDrained, run_ready_tasks-Since}
use os_resources.Task.Executor.Sleep.{sleep_if_idle}
use os_resources.Task.Executor.Run.Polls.{Since, start, polled, PolledSince, just_now, earlier}

-- The interrupts of a round: what they do to the world, and the ids that they wake. `early` are
-- those between the two looks of `sleep_if_idle`, `late` those from there to the next round, which
-- end a halt; none where no interrupt comes any more. Those that fall into a poll belong to it.
pub record Interrupted (World : Type 0) : Type 0 where
  pub early : World → World × List ℕ
  pub late : Option (World → World × List ℕ)

module _ (f : Futures) (a : ArrayQueue ℕ) where
  open f use {Future, World, poll}
  open a use {Queue, items, capacity, is_empty}

  -- The loop goes on, or the processor is halted for good.
  pub data Running : Type 0 where
    goes_on : Executor f a → World → Running
    halted : Executor f a → World → Running

  -- From the end of `sleep_if_idle`, which halts the processor or not, to the next round: only an
  -- interrupt ends a halt.
  wake_up : Option (World → World × List ℕ) → Bool → Executor f a → World → Result Running
  wake_up (some late) halts e world = do
    queue ← wake_all f a (late world).1 e.task_queue
    ok (goes_on (record e { task_queue = queue }) (late world).0)
  wake_up none true e world = ok (halted e world)
  wake_up none false e world = ok (goes_on e world)

  run_round : ℕ → Interrupted World → Executor f a → World → Result Running
  unfolding wake_up
  run_round fuel i e world = do
    (e', world') ← run_ready_tasks f a fuel e world
    let (world'', ids) = (if is_empty e'.task_queue then i.early world' else (world', []))
    (halts, queue) ← sleep_if_idle f a ids e'.task_queue
    wake_up i.late halts (record e' { task_queue = queue }) world''

  pub run : ℕ → List (Interrupted World) → Executor f a → World → Result Running
  unfolding run_round
  run fuel [] e world = ok (goes_on e world)
  run fuel (i ∷ is) e world = do
    next ← run_round fuel i e world
    elim next [
      | goes_on e' world' ↦ run fuel is e' world'
      | halted e' world' ↦ ok (halted e' world')
    ]

  -- The ids that interrupts wake from a world on, and the world afterwards.
  abbrev pub by_late : Option (World → World × List ℕ) → World → World × List ℕ
  by_late none world = (world, [])
  by_late (some late) world = late world

  abbrev pub woken_by : Interrupted World → World → List ℕ
  woken_by i world = (i.early world).1 ++ (by_late i.late (i.early world).0).1

  abbrev pub left_by : Interrupted World → World → World
  left_by i world = (by_late i.late (i.early world).0).0

  sleep_if_idle-woken :
      (ids : List ℕ) (queue : Queue)
      → items queue ≡ []
      → length ids ≤ capacity queue
      → Returns
          (λ (halts, q).
            (items q ≡ ids)
            × (capacity q ≡ capacity queue)
            × (halts ≡ true → ids ≡ [])
            × (halts ≡ false → ids ≢ []))
          (sleep_if_idle f a ids queue)
  unfolding sleep_if_idle
  sleep_if_idle-woken ids queue empty room =
      let woken = wake_all-room f a ids queue (omega (arith, ap length empty, room)) in
      let all : items woken.value ≡ ids = woken.holds.0 ∙ ap (λ l. l ++ ids) empty in
      record {
        value = (is_empty woken.value, woken.value);
        returns = rw ((a.is_empty-items queue).1 empty, woken.returns) refl;
        holds = (
          all,
          woken.holds.1,
          (λ halts. sym all ∙ (a.is_empty-items woken.value).0 halts),
          (λ goes none_woken. cc ((a.is_empty-items woken.value).1 (all ∙ none_woken), goes)),
        );
      }

  -- Interrupts that wake few tasks, and leave few wake-ups to the polls: `spent` bounds those.
  pub record IsBounded (spent : World → ℕ) (room : ℕ) (i : Interrupted World) : Type 0 where
    pub few : (world : World) → length (woken_by i world) + spent (left_by i world) ≤ room

  -- A round: polls take the world at its start to `behind`, and every task whose id stood in the
  -- queue at the start was polled by one of them, if it was there; in the queue are the ids that the
  -- interrupts behind the polls woke.
  pub record IsRound (i : Interrupted World) (e : Executor f a) (world : World) (e' : Executor f a)
      (world' : World) : Type 0 where
    pub valid : IsValid f a e'
    pub behind : World
    pub reached : Since f world behind
    pub handled : All (Handled f a (PolledSince f world) e behind) (items e.task_queue)
    pub left : world' ≡ left_by i behind
    pub woken : items e'.task_queue ≡ woken_by i behind
    pub same : capacity e'.task_queue ≡ capacity e.task_queue

  -- A round and how it ends. Where no interrupt comes any more, the processor halts exactly where
  -- no task is left to poll.
  pub data EndsRound (i : Interrupted World) (e : Executor f a) (world : World)
      : Running → Type 0 where
    next_round :
        (e' : Executor f a) (world' : World)
        → IsRound i e world e' world'
        → (i.late ≡ none → items e'.task_queue ≢ [])
        → EndsRound i e world (goes_on e' world')
    idle :
        (e' : Executor f a) (world' : World)
        → IsRound i e world e' world'
        → i.late ≡ none
        → items e'.task_queue ≡ []
        → EndsRound i e world (halted e' world')

  -- As many rounds as there are interrupts given for, or fewer where the processor stays halted.
  pub data AreRounds : List (Interrupted World) → Executor f a → World → Running → Type 0 where
    no_more : (e : Executor f a) (world : World) → AreRounds [] e world (goes_on e world)
    and_then :
        (i : Interrupted World) (is : List (Interrupted World)) {e e' : Executor f a}
        {world world' : World} {out : Running}
        → EndsRound i e world (goes_on e' world')
        → AreRounds is e' world' out
        → AreRounds (i ∷ is) e world out
    stays_halted :
        (i : Interrupted World) (is : List (Interrupted World)) {e e' : Executor f a}
        {world world' : World}
        → EndsRound i e world (halted e' world')
        → AreRounds (i ∷ is) e world (halted e' world')
