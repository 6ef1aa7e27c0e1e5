-- ===== src/Task/Executor/Run/Polls.antt =====
-- Polls of tasks, as min-rust-os/src/task/executor.rs makes them one after another.
use os_resources.Prelude.{ℕ}
use os_resources.Task.{Futures}

module _ (f : Futures) where
  open f use {Future, World, poll}

  -- The worlds that polls, and nothing else, make of the first one.
  pub data Since (first : World) : World → Type 0 where
    start : Since first first
    polled :
        {world : World} (id : ℕ) (future : Future)
        → Since first world
        → Since first (poll id future world).world

  -- The task `id` was polled on the way from the first world.
  pub data PolledSince (first : World) (id : ℕ) : World → Type 0 where
    just_now :
        {world : World} (future : Future)
        → Since first world
        → PolledSince first id (poll id future world).world
    earlier :
        {world : World} (other : ℕ) (future : Future)
        → PolledSince first id world
        → PolledSince first id (poll other future world).world
