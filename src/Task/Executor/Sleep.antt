-- ===== src/Task/Executor/Sleep.antt =====
-- `sleep_if_idle` of min-rust-os/src/task/executor.rs against interrupts.
use os_resources.Prelude.{
  ◌+◌, ℕ, ◌≤◌, ◌≡◌, ◌↔◌, Bool, true, false, Bool-cases, if◌then◌else◌, inl, inr, Result, ok, ◌>>=◌,
  Returns, List, [], ◌++◌, length, refl, sym, ◌∙◌, ap,
}
use os_resources.Task.{Futures, ArrayQueue}
use os_resources.Task.Executor.{wake_all}
use os_resources.Task.Executor.Rounds.{wake_all-room}

module _ (f : Futures) (a : ArrayQueue ℕ) where
  open a use {Queue, items, capacity, is_empty}

  -- Whether the processor halts, and the queue. `early` are the ids that interrupts wake between the
  -- first look at the queue and `interrupts::disable`; from there on interrupts are held back until
  -- the processor halts, and end the halt.
  unfoldable pub sleep_if_idle : List ℕ → Queue → Result (Bool × Queue)
  sleep_if_idle early queue =
      if is_empty queue
      then (wake_all f a early queue >>= λ queue'. ok (is_empty queue', queue'))
      else ok (false, queue)

  -- Where the queue has room for what interrupts wake, `sleep_if_idle` returns, and the processor
  -- halts exactly where the queue was empty and nothing was woken before the interrupts were
  -- disabled; the queue is then empty.
  pub sleep_if_idle-halts :
      (early : List ℕ) (queue : Queue)
      → length (items queue) + length early ≤ capacity queue
      → Returns
          (λ (halts, q). (halts ≡ true) ↔ ((items queue ≡ []) × (early ≡ []) × (items q ≡ [])))
          (sleep_if_idle early queue)
  unfolding sleep_if_idle
  sleep_if_idle-halts early queue room = elim (Bool-cases (is_empty queue)) [
    | inl idle ↦
        let empty = (a.is_empty-items queue).0 idle in
        let woken = wake_all-room f a early queue room in
        let all : items woken.value ≡ early = woken.holds.0 ∙ ap (λ l. l ++ early) empty in
        record {
          value = (is_empty woken.value, woken.value);
          returns = rw (idle, woken.returns) refl;
          holds = (
            (λ halts.
                let left = (a.is_empty-items woken.value).0 halts in (empty, sym all ∙ left, left)),
            (λ (e, none_woken, left). (a.is_empty-items woken.value).1 left),
          );
        }
    | inr filled ↦ record {
      value = (false, queue);
      returns = rw filled refl;
      holds =
          ((λ h. cc), (λ (empty, none_woken, left). cc (filled, (a.is_empty-items queue).1 empty)));
    }
  ]
