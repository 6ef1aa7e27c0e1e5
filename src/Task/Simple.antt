-- ===== src/Task/Simple.antt =====
-- min-rust-os/src/task/simple_executor.rs: polling all tasks in turn until all are finished.
--
-- The waker that the tasks are polled with does nothing, so what is woken is left out.
use mathlib.Core.List.{append-nil, append_assoc}
use os_resources.Prelude.{
  ℕ, zero, suc, ◌+◌, ◌≤◌, ◌<◌, ◌≡◌, ◌⊎◌, inl, inr, true, false, Bool-cases, if◌then◌else◌, List, [],
  ◌∷◌, ◌++◌, length, arith, refl, sym, ◌∙◌, ap,
}
use os_resources.Task.{Futures, Task}

module _ (f : Futures) where
  open f use {Future, World, poll}

  pub record SimpleExecutor : Type 0 where
    pub task_queue : List (Task Future)

  unfoldable pub new : SimpleExecutor
  new = record { task_queue = [] }

  unfoldable pub spawn : Task Future → SimpleExecutor → SimpleExecutor
  spawn task e = record { task_queue = e.task_queue ++ task ∷ [] }

  -- `run`, at most `fuel` rounds of its loop.
  unfoldable pub run : ℕ → SimpleExecutor → World → SimpleExecutor × World
  run zero e world = (e, world)
  run (suc fuel) e world = elim e.task_queue [
    | [] ↦ (e, world)
    | task ∷ rest ↦
        let polled = poll task.id task.future world in
        let again : List (Task Future) =
          if polled.ready then rest else rest ++ record task { future = polled.future } ∷ [] in
        run fuel (record { task_queue = again }) polled.world
  ]

  -- One pass over some tasks, in their order: those that are not finished, and the world afterwards.
  unfoldable pub pass : List (Task Future) → World → List (Task Future) × World
  pass [] world = ([], world)
  pass (task ∷ rest) world =
      let polled = poll task.id task.future world in
      let (later, world') = pass rest polled.world in
      (if polled.ready then later else record task { future = polled.future } ∷ later, world')

  -- A round for each task at the front of the queue.
  run-pass_front :
      (xs ys : List (Task Future)) (n fuel : ℕ) (world : World)
      → n ≡ length xs + fuel
      → run n (record { task_queue = xs ++ ys }) world
        ≡ run fuel (record { task_queue = ys ++ (pass xs world).0 }) (pass xs world).1
  unfolding run pass
  run-pass_front [] ys n fuel world count =
      ap (λ m. run m (record { task_queue = ys }) world) (omega (arith, count))
      ∙ ap (λ q. run fuel (record { task_queue = q }) world) (sym (append-nil ys))
  run-pass_front (t ∷ xs) ys zero fuel world count = absurd (omega (arith, count))
  run-pass_front (t ∷ xs) ys (suc n) fuel world count =
      let p = poll t.id t.future world in
      elim (Bool-cases p.ready) [
        | inl done ↦ rw (run, done) (run-pass_front xs ys n fuel p.world (omega (arith, count)))
        | inr pending ↦
            let t' = record t { future = p.future } in
            let w' = (pass xs p.world).1 in
            rw (run, pending)
              (ap (λ q. run n (record { task_queue = q }) p.world) (append_assoc xs ys (t' ∷ []))
                ∙ run-pass_front xs (ys ++ t' ∷ []) n fuel p.world (omega (arith, count))
                ∙ ap (λ q. run fuel (record { task_queue = q }) w')
                    (append_assoc ys (t' ∷ []) (pass xs p.world).0))
      ]

  -- As many rounds of the loop of the simple executor as there are tasks poll each of them once, in the order of the queue,
  -- and leave those that are not finished in that order; the remaining rounds go on from there.
  run-pass :
      (tasks : List (Task Future)) (fuel : ℕ) (world : World)
      → run (length tasks + fuel) (record { task_queue = tasks }) world
        ≡ run fuel (record { task_queue = (pass tasks world).0 }) (pass tasks world).1
  run-pass tasks fuel world =
      ap (λ q. run (length tasks + fuel) (record { task_queue = q }) world) (sym (append-nil tasks))
      ∙ run-pass_front tasks [] (length tasks + fuel) fuel world refl

  -- Polls of some tasks, in any order, that take one world to another: a task is polled until a poll
  -- of it is ready, and stands anywhere among the others till then.
  pub data Finish : List (Task Future) → World → World → Type 0 where
    all_finished : {world : World} → Finish [] world world
    finished :
        {world last : World} (before : List (Task Future)) (t : Task Future)
        (behind : List (Task Future))
        → (poll t.id t.future world).ready ≡ true
        → Finish (before ++ behind) (poll t.id t.future world).world last
        → Finish (before ++ t ∷ behind) world last
    unfinished :
        {world last : World} (before : List (Task Future)) (t : Task Future)
        (behind before' behind' : List (Task Future))
        → (poll t.id t.future world).ready ≡ false
        → before' ++ behind' ≡ before ++ behind
        → Finish
            (before' ++ record t { future = (poll t.id t.future world).future } ∷ behind')
            (poll t.id t.future world).world
            last
        → Finish (before ++ t ∷ behind) world last

  -- `polls` bounds how often a future is still polled before it is finished.
  module _ (polls : Future → ℕ)
      (finishes : (id : ℕ) (future : Future) (world : World)
        → ((poll id future world).ready ≡ true)
          ⊎ (polls (poll id future world).future < polls future)) where
    -- The rounds that a queue takes.
    unfoldable pub rounds : List (Task Future) → ℕ
    rounds [] = 0
    rounds (task ∷ rest) = polls task.future + 1 + rounds rest

    rounds-append :
        (xs : List (Task Future)) (t : Task Future)
        → rounds (xs ++ t ∷ []) ≡ rounds xs + (polls t.future + 1)
    unfolding rounds
    rounds-append [] t = omega arith
    rounds-append (x ∷ xs) t = omega (arith, rounds-append xs t)

    -- Where every future is finished after a bounded number of polls, whatever happens in the
    -- meantime, the loop of the simple executor ends with no task left, after no more rounds than
    -- those polls and one for each task; what it did to the world are polls of its tasks, one after
    -- another, each until a poll of it was ready.
    pub run-finishes :
        (fuel : ℕ) (tasks : List (Task Future)) (world : World)
        → rounds tasks ≤ fuel
        → ((run fuel (record { task_queue = tasks }) world).0 ≡ new)
          × Finish tasks world (run fuel (record { task_queue = tasks }) world).1
    unfolding run rounds new
    run-finishes zero [] world enough = (refl, all_finished)
    run-finishes zero (t ∷ rest) world enough = absurd (omega arith)
    run-finishes (suc fuel) [] world enough = (refl, all_finished)
    run-finishes (suc fuel) (t ∷ rest) world enough =
        let p = poll t.id t.future world in
        elim (Bool-cases p.ready) [
          | inl done ↦
              let later = run-finishes fuel rest p.world (omega arith) in
              rw (run, done) (later.0, finished [] t rest done later.1)
          | inr pending ↦ elim (finishes t.id t.future world) [
            | inl done ↦ absurd (cc)
            | inr fewer ↦
                let t' : Task Future = record t { future = p.future } in
                let later =
                  run-finishes fuel (rest ++ t' ∷ []) p.world
                    (omega (arith, rounds-append rest t', fewer)) in
                rw (run, pending)
                  (later.0, unfinished [] t rest rest [] pending (append-nil rest) later.1)
          ]
        ]
