-- ===== src/Task/Keyboard/Wakeups.antt =====
-- No wake-up of min-rust-os/src/task/keyboard.rs is lost to an interrupt.
use os_resources.Prelude.{
  ℕ, ◌<◌, ◌≡◌, inl, inr, List-cases, ok, Returns, Option, none, some, List, [], ◌∷◌, ◌++◌, length,
  arith, refl, ◌∙◌, ap,
}
use os_resources.Task.{ArrayQueue}
use os_resources.Task.Keyboard.{
  AtomicWaker, Scancodes, wake, add_scancode, interrupts, pop_scancode, poll_registered, poll_next,
}
use os_resources.Task.Keyboard.Interrupts.{
  MissesNothing, waits, finds, wake-queue, add_scancode-pushed, interrupts-MissesNothing,
  interrupts-queue,
}

-- The state once a scancode was taken after the registration.
abbrev pub left_over :
    (a : ArrayQueue ℕ) (c : AtomicWaker) → Scancodes a c → a.Queue → Scancodes a c
left_over a c k rest = record k { scancode_queue = some rest; waker = (c.take k.waker).1 }

module _ (a : ArrayQueue ℕ) (c : AtomicWaker) where
  open a use {Queue, push, pop, items, capacity}
  open c use {Cell, register, take, stored}

  -- What a poll leaves: a scancode, or a queue that is empty with the waker registered.
  pub data Answers (w : ℕ) : Option ℕ × Scancodes a c → Type 0 where
    ready : (scancode : ℕ) (k : Scancodes a c) → Answers w (some scancode, k)
    pending :
        (k : Scancodes a c) (q : Queue)
        → k.scancode_queue ≡ some q
        → items q ≡ []
        → stored k.waker ≡ some w
        → Answers w (none, k)

  pop_scancode-empty :
      (k : Scancodes a c) (q : Queue)
      → k.scancode_queue ≡ some q
      → items q ≡ []
      → pop_scancode a c k ≡ ok (none, k)
  unfolding pop_scancode
  pop_scancode-empty k q at empty = simp (pop_scancode, at, a.pop-empty q empty) refl

  pop_scancode-first :
      (k : Scancodes a c) (q : Queue) (b : ℕ) (rest : List ℕ)
      → k.scancode_queue ≡ some q
      → items q ≡ b ∷ rest
      → (q' : Queue) × (pop_scancode a c k ≡ ok (some b, record k { scancode_queue = some q' }))
  unfolding pop_scancode
  pop_scancode-first k q b rest at some_left =
      let (q', popped, left, same) = a.pop-first q b rest some_left in
      (q', simp (pop_scancode, at, popped) refl)

  register-MissesNothing :
      (w : ℕ) (k : Scancodes a c) (q : Queue)
      → k.scancode_queue ≡ some q
      → MissesNothing a c w (record k { waker = register w k.waker })
  register-MissesNothing w k q at = elim (List-cases (items q)) [
    | inl empty ↦ waits q at empty (c.stored-register w k.waker)
    | inr (b, rest, some_left) ↦ finds q b rest at some_left
  ]

  poll_registered-Answers :
      (w : ℕ) (late : List ℕ) (k : Scancodes a c) (q : Queue)
      → k.scancode_queue ≡ some q
      → Returns (Answers w) (poll_registered a c w late k)
  unfolding poll_registered
  poll_registered-Answers w late k q at =
      let registered = record k { waker = register w k.waker } in
      elim (interrupts-MissesNothing a c w late registered (register-MissesNothing w k q at)) [
        | waits q' at' empty kept ↦ record {
          value = (none, interrupts a c late registered);
          returns = rw (pop_scancode-empty (interrupts a c late registered) q' at' empty) refl;
          holds = pending (interrupts a c late registered) q' at' empty kept;
        }
        | finds q' b rest at' some_left ↦
            let (q'', popped) =
              pop_scancode-first (interrupts a c late registered) q' b rest at' some_left in
            record {
              value = (some b, left_over a c (interrupts a c late registered) q'');
              returns = rw popped refl;
              holds = ready b (left_over a c (interrupts a c late registered) q'');
            }
      ]

  -- On an initialised queue a poll returns, whatever interrupts fall between its steps: it gives a
  -- scancode, or the task is pending with an empty queue and its waker registered.
  pub poll_next-Answers :
      (w : ℕ) (early late : List ℕ) (k : Scancodes a c) (q : Queue)
      → k.scancode_queue ≡ some q
      → Returns (Answers w) (poll_next a c w early late k)
  unfolding poll_next
  poll_next-Answers w early late k q at = elim (List-cases (items q)) [
    | inl empty ↦
        let (q', at') = interrupts-queue a c early k q at in
        let out = poll_registered-Answers w late (interrupts a c early k) q' at' in
        record {
          value = out.value;
          returns = rw (pop_scancode-empty k q at empty) out.returns;
          holds = out.holds;
        }
    | inr (b, rest, some_left) ↦
        let (q', popped) = pop_scancode-first k q b rest at some_left in
        record {
          value = (some b, record k { scancode_queue = some q' });
          returns = rw popped refl;
          holds = ready b (record k { scancode_queue = some q' });
        }
  ]

  -- Where the queue is empty with room for a scancode, and a waker is registered, as a pending poll
  -- leaves them, a keyboard interrupt puts its scancode into the queue and calls the waker, which is
  -- no longer registered.
  pub add_scancode-woken :
      (w scancode : ℕ) (k : Scancodes a c) (q : Queue)
      → k.scancode_queue ≡ some q
      → items q ≡ []
      → 0 < capacity q
      → stored k.waker ≡ some w
      → (q' : Queue) × ((add_scancode a c scancode k).scancode_queue ≡ some q')
        × (items q' ≡ scancode ∷ [])
        × ((add_scancode a c scancode k).woken ≡ w ∷ k.woken)
        × (stored (add_scancode a c scancode k).waker ≡ none)
  unfolding wake
  add_scancode-woken w scancode k q at empty room kept =
      let (q', pushed, all, same) = a.push-room scancode q (omega (arith, ap length empty, room)) in
      let done = add_scancode-pushed a c scancode k q q' at pushed in
      let (takes, gone) = c.take-stored k.waker in
      let taken : (take k.waker).0 ≡ some w = takes ∙ kept in
      (
        q',
        ap (λ (x : Scancodes a c). x.scancode_queue) done
            ∙ wake-queue a c (record k { scancode_queue = some q' }),
        all ∙ ap (λ l. l ++ scancode ∷ []) empty,
        ap (λ (x : Scancodes a c). x.woken) done ∙ (rw (taken, wake) refl),
        ap (λ (x : Scancodes a c). stored x.waker) done ∙ (rw (taken, wake) gone),
      )
