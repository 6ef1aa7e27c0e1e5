-- ===== src/Task/Keyboard/Keypresses/Queued.antt =====
-- The scancodes that wait in the queue of min-rust-os/src/task/keyboard.rs, in their order.
use mathlib.Core.List.{append-nil, append_assoc}
use os_resources.Prelude.{
  ℕ, ◌+◌, ◌≤◌, ◌<◌, ◌≡◌, Returns, ok, Option, none, some, List, [], ◌∷◌, ◌++◌, List-cases, inl, inr,
  length, length-append, arith, refl, sym, ap, ◌∙◌, subst,
}
use os_resources.Task.{ArrayQueue}
use os_resources.Task.Keyboard.{
  AtomicWaker, Scancodes, add_scancode, interrupts, pop_scancode, poll_registered, poll_next,
  new_scancode_stream,
}
use os_resources.Task.Keyboard.Wakeups.{left_over}
use os_resources.Task.Keyboard.Interrupts.{wake-queue, add_scancode-pushed}
use os_resources.Task.Keyboard.Keypresses.{Gap}

-- The interrupts inside `poll_next`, which come only where the queue was empty at first.
unfoldable pub still_coming : Gap → List ℕ → List ℕ
still_coming gap [] = gap.early ++ gap.late
still_coming gap (scancode ∷ l) = []

append-none : (xs ys : List ℕ) → xs ++ ys ≡ [] → ys ≡ []
append-none [] ys e = e
append-none (x ∷ xs) ys e = absurd cc e

module _ (a : ArrayQueue ℕ) (c : AtomicWaker) where
  open a use {Queue, push, pop, items, capacity}
  open c use {Cell, register, take, stored}

  -- The queue, of capacity `n`, holds the scancodes `l`.
  pub record Queued (n : ℕ) (k : Scancodes a c) (l : List ℕ) : Type 0 where
    pub queue : Queue
    pub at : k.scancode_queue ≡ some queue
    pub holds : items queue ≡ l
    pub bound : capacity queue ≡ n

  pub add_scancode-Queued :
      (n s : ℕ) (k : Scancodes a c) (l : List ℕ)
      → Queued n k l
      → length l < n
      → Queued n (add_scancode a c s k) (l ++ s ∷ [])
  add_scancode-Queued n s k l v room =
      let more = a.push-room s v.queue (omega (arith, ap length v.holds, v.bound)) in
      record {
        queue = more.0;
        at =
            ap (λ (x : Scancodes a c). x.scancode_queue)
              (add_scancode-pushed a c s k v.queue more.0 v.at more.1)
            ∙ wake-queue a c (record k { scancode_queue = some more.0 });
        holds = more.2 ∙ ap (λ x. x ++ s ∷ []) v.holds;
        bound = more.3 ∙ v.bound;
      }

  pub interrupts-Queued :
      (n : ℕ) (ss : List ℕ) (k : Scancodes a c) (l : List ℕ)
      → Queued n k l
      → length l + length ss ≤ n
      → Queued n (interrupts a c ss k) (l ++ ss)
  unfolding interrupts
  interrupts-Queued n [] k l v room = subst (Queued n k) (sym (append-nil l)) v
  interrupts-Queued n (s ∷ ss) k l v room =
      let one = add_scancode-Queued n s k l v (omega arith) in
      subst (Queued n (interrupts a c ss (add_scancode a c s k))) (append_assoc l (s ∷ []) ss) (
        interrupts-Queued n ss (add_scancode a c s k) (l ++ s ∷ []) one
          (omega (arith, length-append l (s ∷ []))))

  -- What a poll with the waker `w` does to a queue that has `l` to offer: it takes the first
  -- scancode, and where there is none it leaves its waker.
  pub data Hears (n w : ℕ) (l : List ℕ) : Option ℕ × Scancodes a c → Type 0 where
    hears :
        (s : ℕ) (rest : List ℕ) (k : Scancodes a c)
        → l ≡ s ∷ rest
        → Queued n k rest
        → Hears n w l (some s, k)
    waits :
        (k : Scancodes a c)
        → l ≡ []
        → Queued n k []
        → stored k.waker ≡ some w
        → Hears n w l (none, k)

  pop_scancode-none :
      (n : ℕ) (k : Scancodes a c) → Queued n k [] → pop_scancode a c k ≡ ok (none, k)
  unfolding pop_scancode
  pop_scancode-none n k v = simp (pop_scancode, v.at, a.pop-empty v.queue v.holds) refl

  pop_scancode-some :
      (n s : ℕ) (rest : List ℕ) (k : Scancodes a c)
      → Queued n k (s ∷ rest)
      → (q : Queue) × (pop_scancode a c k ≡ ok (some s, record k { scancode_queue = some q }))
        × (items q ≡ rest)
        × (capacity q ≡ n)
  unfolding pop_scancode
  pop_scancode-some n s rest k v =
      let (q, popped, left, same) = a.pop-first v.queue s rest v.holds in
      (q, simp (pop_scancode, v.at, popped) refl, left, same ∙ v.bound)

  -- The second look at the queue, where the waker is registered.
  poll_registered-Hears :
      (n w : ℕ) (late : List ℕ) (k : Scancodes a c) (l : List ℕ)
      → Queued n k l
      → length l + length late ≤ n
      → Returns (Hears n w (l ++ late)) (poll_registered a c w late k)
  unfolding poll_registered interrupts
  poll_registered-Hears n w late k l v room =
      let registered : Scancodes a c = record k { waker = register w k.waker } in
      let v' =
        interrupts-Queued n late registered l
          (record { queue = v.queue; at = v.at; holds = v.holds; bound = v.bound }) room in
      elim (List-cases (l ++ late)) [
        | inl empty ↦
            let v'' = subst (Queued n (interrupts a c late registered)) empty v' in
            record {
              value = (none, interrupts a c late registered);
              returns = rw (pop_scancode-none n (interrupts a c late registered) v'') refl;
              holds = waits (interrupts a c late registered) empty v'' (
                  subst (λ ss. stored (interrupts a c ss registered).waker ≡ some w)
                    (sym (append-none l late empty)) (c.stored-register w k.waker));
            }
        | inr (s, rest, some_left) ↦
            let (q, popped, left, same) =
              pop_scancode-some n s rest (interrupts a c late registered)
                (subst (Queued n (interrupts a c late registered)) some_left v') in
            record {
              value = (some s, left_over a c (interrupts a c late registered) q);
              returns = rw popped refl;
              holds =
                  hears s rest (left_over a c (interrupts a c late registered) q) some_left
                    (record { queue = q; at = refl; holds = left; bound = same });
            }
      ]

  -- A poll takes the first of the scancodes that wait and come, in their order.
  pub poll_next-Hears :
      (n w : ℕ) (gap : Gap) (k : Scancodes a c) (l : List ℕ)
      → Queued n k l
      → length l + length gap.early + length gap.late ≤ n
      → Returns (Hears n w (l ++ still_coming gap l)) (poll_next a c w gap.early gap.late k)
  unfolding poll_next still_coming
  poll_next-Hears n w gap k [] v room =
      let v' = interrupts-Queued n gap.early k [] v (omega arith) in
      let out =
        poll_registered-Hears n w gap.late (interrupts a c gap.early k) gap.early v'
          (omega arith) in
      record {
        value = out.value;
        returns = rw (pop_scancode-none n k v) out.returns;
        holds = out.holds;
      }
  poll_next-Hears n w gap k (s ∷ rest) v room =
      let (q, popped, left, same) = pop_scancode-some n s rest k v in
      record {
        value = (some s, record k { scancode_queue = some q });
        returns = rw popped refl;
        holds =
            hears s rest (record k { scancode_queue = some q }) (append-nil (s ∷ rest))
              (record { queue = q; at = refl; holds = left; bound = same });
      }

  -- A new queue is empty.
  pub new_scancode_stream-Queued :
      (k : Scancodes a c)
      → k.scancode_queue ≡ none
      → Returns (λ k'. Queued 100 k' []) (new_scancode_stream a c k)
  unfolding new_scancode_stream
  new_scancode_stream-Queued k fresh = record {
    value = record k { scancode_queue = some (a.new 100) };
    returns = rw (fresh, new_scancode_stream) refl;
    holds = record {
      queue = a.new 100;
      at = refl;
      holds = a.items-new 100;
      bound = a.capacity-new 100;
    };
  }
