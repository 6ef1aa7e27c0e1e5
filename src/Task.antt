-- ===== src/Task.antt =====
-- min-rust-os/src/task/mod.rs: tasks and their ids.
--
-- A future is a state machine that the compiler makes; its `poll` is a parameter. The queues of the
-- crate `crossbeam_queue` are not part of the repository: `ArrayQueue` is what the code relies on.
pub mod Ids
pub mod Executor
pub mod Keyboard
pub mod Simple
pub mod Tests
use os_resources.Prelude.{
  true, ◌↔◌, ℕ, ◌+◌, ◌%◌, ◌^◌, ◌≤◌, ◌<◌, ◌≡◌, Bool, Option, none, some, List, [], ◌∷◌, ◌++◌, length,
  zero, suc, get_elem?, arith, refl, sym, ◌∙◌, ap,
}

-- What polling does: whether the future is finished, the future and the world afterwards, and the
-- ids whose wakers were called meanwhile, by the future or by an interrupt, in their order.
pub record Polled (Future World : Type 0) : Type 0 where
  pub ready : Bool
  pub future : Future
  pub world : World
  pub woken : List ℕ

-- `poll id` polls with a waker that wakes the task `id`.
pub record Futures : Type 1 where
  pub Future : Type 0
  pub World : Type 0
  pub poll : ℕ → Future → World → Polled Future World

-- A queue of bounded length, first in, first out. `push` fails on a full queue.
pub record ArrayQueue (A : Type 0) : Type 1 where
  pub Queue : Type 0
  pub new : ℕ → Queue
  pub push : A → Queue → Option Queue
  pub pop : Queue → Option (A × Queue)
  pub is_empty : Queue → Bool
  pub items : Queue → List A
  pub capacity : Queue → ℕ
  pub is_empty-items : (q : Queue) → (is_empty q ≡ true) ↔ (items q ≡ [])
  pub items-new : (n : ℕ) → items (new n) ≡ []
  pub capacity-new : (n : ℕ) → capacity (new n) ≡ n
  pub push-room :
      (a : A) (q : Queue)
      → length (items q) < capacity q
      → (q' : Queue) × (push a q ≡ some q')
        × (items q' ≡ items q ++ a ∷ [])
        × (capacity q' ≡ capacity q)
  pub push-full : (a : A) (q : Queue) → capacity q ≤ length (items q) → push a q ≡ none
  pub pop-empty : (q : Queue) → items q ≡ [] → pop q ≡ none
  pub pop-first :
      (q : Queue) (a : A) (rest : List A)
      → items q ≡ a ∷ rest
      → (q' : Queue) × (pop q ≡ some (a, q')) × (items q' ≡ rest) × (capacity q' ≡ capacity q)

-- `TaskId::new` on the counter `NEXT_ID`: the id, and the counter afterwards. `fetch_add` wraps.
unfoldable pub new_task_id : ℕ → ℕ × ℕ
new_task_id next_id = (next_id, (next_id + 1) % 2 ^ 64)

pub record Task (Future : Type 0) : Type 0 where
  pub id : ℕ
  pub future : Future

-- `Task::new`, on the counter `NEXT_ID`.
unfoldable pub new_task : {Future : Type 0} → Future → ℕ → Task Future × ℕ
unfolding new_task_id
new_task future next_id =
    let (id, next_id') = new_task_id next_id in (record { id = id; future = future }, next_id')

-- `n` ids, one after another, and the counter afterwards.
unfoldable pub new_task_ids : ℕ → ℕ → List ℕ × ℕ
new_task_ids zero next_id = ([], next_id)
new_task_ids (suc n) next_id =
    let (id, next_id') = new_task_id next_id in
    let (ids, last) = new_task_ids n next_id' in (id ∷ ids, last)
