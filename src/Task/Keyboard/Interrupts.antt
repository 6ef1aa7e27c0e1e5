-- ===== src/Task/Keyboard/Interrupts.antt =====
-- The keyboard interrupts of min-rust-os/src/task/keyboard.rs, and what they leave to a waiting task.
use os_resources.Prelude.{
  ℕ, ◌≡◌, ◌⊎◌, inl, inr, Bool-cases, Option-cases, ltb, ltb→lt, none, some, List, [], ◌∷◌, ◌++◌,
  length, arith, refl, ◌∙◌, ap,
}
use os_resources.Task.{ArrayQueue}
use os_resources.Task.Keyboard.{AtomicWaker, queue_full, Scancodes, wake, add_scancode, interrupts}

module _ (a : ArrayQueue ℕ) (c : AtomicWaker) where
  open a use {Queue, push, pop, items, capacity}
  open c use {Cell, register, take, stored}

  -- A registered task misses nothing: its waker is still there while no scancode is.
  pub data MissesNothing (w : ℕ) (k : Scancodes a c) : Type 0 where
    waits :
        (q : Queue)
        → k.scancode_queue ≡ some q
        → items q ≡ []
        → stored k.waker ≡ some w
        → MissesNothing w k
    finds :
        (q : Queue) (scancode : ℕ) (rest : List ℕ)
        → k.scancode_queue ≡ some q
        → items q ≡ scancode ∷ rest
        → MissesNothing w k

  pub wake-queue : (k : Scancodes a c) → (wake a c k).scancode_queue ≡ k.scancode_queue
  unfolding wake
  wake-queue k = elim (Option-cases (take k.waker).0) [
    | inl e ↦ rw (e, wake) refl
    | inr (w, e) ↦ rw (e, wake) refl
  ]

  pub add_scancode-pushed :
      (scancode : ℕ) (k : Scancodes a c) (q q' : Queue)
      → k.scancode_queue ≡ some q
      → push scancode q ≡ some q'
      → (add_scancode a c scancode k) ≡ wake a c (record k { scancode_queue = some q' })
  unfolding add_scancode
  add_scancode-pushed scancode k q q' at pushed = rw (at, add_scancode, pushed) refl

  add_scancode-full :
      (scancode : ℕ) (k : Scancodes a c) (q : Queue)
      → k.scancode_queue ≡ some q
      → push scancode q ≡ none
      → (add_scancode a c scancode k) ≡ record k { warnings = queue_full ∷ k.warnings }
  unfolding add_scancode
  add_scancode-full scancode k q at full = simp (add_scancode, at, full) refl

  append-nonempty : (l : List ℕ) (s : ℕ) → (b : ℕ) × (rest : List ℕ) × (l ++ s ∷ [] ≡ b ∷ rest)
  append-nonempty [] s = (s, [], refl)
  append-nonempty (b ∷ l) s = (b, l ++ s ∷ [], refl)

  -- A queue that is initialised stays so; one that a scancode fits into is not empty afterwards.
  add_scancode-queue :
      (scancode : ℕ) (k : Scancodes a c) (q : Queue)
      → k.scancode_queue ≡ some q
      → ((q' : Queue) × (b : ℕ) × (rest : List ℕ) × ((add_scancode a c scancode k).scancode_queue
            ≡ some q')
          × (items q' ≡ b ∷ rest))
        ⊎ (add_scancode a c scancode k ≡ record k { warnings = queue_full ∷ k.warnings })
  add_scancode-queue scancode k q at = elim (Bool-cases (ltb (length (items q)) (capacity q))) [
    | inl room ↦
        let (q', pushed, all, same) = a.push-room scancode q (ltb→lt _ _ room) in
        let (b, rest, some_left) = append-nonempty (items q) scancode in
        inl (
          q',
          b,
          rest,
          ap (λ (x : Scancodes a c). x.scancode_queue)
                (add_scancode-pushed scancode k q q' at pushed)
              ∙ wake-queue (record k { scancode_queue = some q' }),
          all ∙ some_left,
        )
    | inr full ↦ inr (add_scancode-full scancode k q at (a.push-full scancode q (ground arith)))
  ]

  add_scancode-MissesNothing :
      (w scancode : ℕ) (k : Scancodes a c)
      → MissesNothing w k
      → MissesNothing w (add_scancode a c scancode k)
  add_scancode-MissesNothing w scancode k (waits q at empty kept) =
      elim (add_scancode-queue scancode k q at) [
        | inl (q', b, rest, at', some_left) ↦ finds q' b rest at' some_left
        | inr full ↦ rw full (waits q at empty kept)
      ]
  add_scancode-MissesNothing w scancode k (finds q b rest at some_left) =
      elim (add_scancode-queue scancode k q at) [
        | inl (q', b', rest', at', some_left') ↦ finds q' b' rest' at' some_left'
        | inr full ↦ rw full (finds q b rest at some_left)
      ]

  pub interrupts-MissesNothing :
      (w : ℕ) (scancodes : List ℕ) (k : Scancodes a c)
      → MissesNothing w k
      → MissesNothing w (interrupts a c scancodes k)
  unfolding interrupts
  interrupts-MissesNothing w [] k h = h
  interrupts-MissesNothing w (s ∷ scancodes) k h =
      interrupts-MissesNothing w scancodes (add_scancode a c s k)
        (add_scancode-MissesNothing w s k h)

  pub interrupts-queue :
      (scancodes : List ℕ) (k : Scancodes a c) (q : Queue)
      → k.scancode_queue ≡ some q
      → (q' : Queue) × ((interrupts a c scancodes k).scancode_queue ≡ some q')
  unfolding interrupts
  interrupts-queue [] k q at = (q, at)
  interrupts-queue (s ∷ scancodes) k q at = elim (add_scancode-queue s k q at) [
    | inl (q', b, rest, at', some_left) ↦ interrupts-queue scancodes (add_scancode a c s k) q' at'
    | inr full ↦
        interrupts-queue scancodes (add_scancode a c s k) q
          (ap (λ (x : Scancodes a c). x.scancode_queue) full ∙ at)
  ]
