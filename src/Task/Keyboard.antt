-- ===== src/Task/Keyboard.antt =====
-- min-rust-os/src/task/keyboard.rs: the queue of scancodes between the keyboard interrupt and the
-- task that waits for them. A waker is the id that it was made for.
--
-- The `AtomicWaker` of the crate `futures_util` is a parameter; each of its calls is one step. The
-- queue is behind a `OnceCell`: none before it is initialised.
pub mod Interrupts
pub mod Keypresses
pub mod Wakeups
use os_resources.Prelude.{
  ℕ, ◌≡◌, Result, ok, panic, expect_failed, expect, ◌>>=◌, Option, none, some, List, [], ◌∷◌, ◌++◌,
}
use os_resources.Task.{ArrayQueue}

-- `register` keeps a waker, `take` takes it out, and `wake` takes it out and calls it.
pub record AtomicWaker : Type 1 where
  pub Cell : Type 0
  pub new : Cell
  pub register : ℕ → Cell → Cell
  pub take : Cell → Option ℕ × Cell
  pub stored : Cell → Option ℕ
  pub stored-new : stored new ≡ none
  pub stored-register : (w : ℕ) (c : Cell) → stored (register w c) ≡ some w
  pub take-stored : (c : Cell) → ((take c).0 ≡ stored c) × (stored (take c).1 ≡ none)

pub data Warning : Type 0 where
  queue_full queue_uninitialised : Warning

module _ (a : ArrayQueue ℕ) (c : AtomicWaker) where
  open a use {Queue, push, pop}
  open c use {Cell, register, take}

  -- `SCANCODE_QUEUE` and `WAKER`, the wakers that were called, and the warnings that were printed.
  pub record Scancodes : Type 0 where
    pub scancode_queue : Option Queue
    pub waker : Cell
    pub woken : List ℕ
    pub warnings : List Warning

  unfoldable pub wake : Scancodes → Scancodes
  wake k =
      let (waker, cell) = take k.waker in
      elim waker [
        | some w ↦ record k { waker = cell; woken = w ∷ k.woken }
        | none ↦ record k { waker = cell }
      ]

  unfoldable pub add_scancode : ℕ → Scancodes → Scancodes
  add_scancode scancode k = elim k.scancode_queue [
    | some queue ↦ elim (push scancode queue) [
      | some queue' ↦ wake (record k { scancode_queue = some queue' })
      | none ↦ record k { warnings = queue_full ∷ k.warnings }
    ]
    | none ↦ record k { warnings = queue_uninitialised ∷ k.warnings }
  ]

  -- The keyboard interrupts of some scancodes, in their order.
  unfoldable pub interrupts : List ℕ → Scancodes → Scancodes
  interrupts [] k = k
  interrupts (scancode ∷ scancodes) k = interrupts scancodes (add_scancode scancode k)

  -- `ScancodeStream::new`.
  unfoldable pub new_scancode_stream : Scancodes → Result Scancodes
  new_scancode_stream k = elim k.scancode_queue [
    | some queue ↦ panic expect_failed
    | none ↦ ok (record k { scancode_queue = some (a.new 100) })
  ]

  -- `queue.pop()` on the queue behind the `OnceCell`.
  unfoldable pub pop_scancode : Scancodes → Result (Option ℕ × Scancodes)
  pop_scancode k = do
    queue ← expect k.scancode_queue expect_failed
    elim (pop queue) [
      | some (scancode, queue') ↦ ok (some scancode, record k { scancode_queue = some queue' })
      | none ↦ ok (none, k)
    ]

  -- `poll_next` behind the fast path: `late` are the interrupts between the registration and the
  -- second `pop`.
  unfoldable pub poll_registered : ℕ → List ℕ → Scancodes → Result (Option ℕ × Scancodes)
  poll_registered w late k = do
    (found, k') ← pop_scancode (interrupts late (record k { waker = register w k.waker }))
    elim found [
      | some scancode ↦ ok (some scancode, record k' { waker = (take k'.waker).1 })
      | none ↦ ok (none, k')
    ]

  -- `poll_next` with the waker `w`, and none for `Poll::Pending`: `early` are the interrupts between
  -- the fast path and the registration.
  unfoldable pub poll_next : ℕ → List ℕ → List ℕ → Scancodes → Result (Option ℕ × Scancodes)
  poll_next w early late k = do
    (found, k') ← pop_scancode k
    elim found [
      | some scancode ↦ ok (some scancode, k')
      | none ↦ poll_registered w late (interrupts early k')
    ]
