-- ===== src/Task/Keyboard/Keypresses/Arrivals.antt =====
-- The scancodes that come during a poll of `print_keypresses` of min-rust-os/src/task/keyboard.rs.
use mathlib.Core.List.{append_assoc}
use os_resources.Prelude.{
  ℕ, ◌+◌, ◌≤◌, ◌≡◌, List, [], ◌∷◌, ◌++◌, length, length-append, arith, sym, ap, ◌∙◌,
}
use os_resources.Task.Keyboard.Keypresses.{Gap}
use os_resources.Task.Keyboard.Keypresses.Queued.{still_coming}

-- How many scancodes the interrupts of some gaps bring at most.
abbrev pub total : List Gap → ℕ
total [] = 0
total (gap ∷ gaps) = length gap.before + length gap.early + length gap.late + total gaps

-- The scancodes of the interrupts that fall into a round that starts with `l` in the queue.
abbrev pub coming : Gap → List ℕ → List ℕ
coming gap l = gap.before ++ still_coming gap (l ++ gap.before)

-- What goes on with the rest of a list, where there is one.
abbrev pub behind_first : List ℕ → (List ℕ → List ℕ) → List ℕ
behind_first [] next = []
behind_first (scancode ∷ rest) next = next rest

-- The scancodes of all interrupts that fall into a poll: a round goes by as long as the queue, with
-- what comes in the round, has a scancode for it.
abbrev pub arrivals : List Gap → List ℕ → List ℕ
arrivals [] l = []
arrivals (gap ∷ gaps) l = coming gap l ++ behind_first (l ++ coming gap l) (arrivals gaps)

pub still_coming-length :
    (gap : Gap) (l : List ℕ) → length (still_coming gap l) ≤ length gap.early + length gap.late
unfolding still_coming
still_coming-length gap [] = omega (arith, length-append gap.early gap.late)
still_coming-length gap (s ∷ l) = omega arith

-- All that a poll finds, as what its first round has to offer and the rest.
pub heard-eq :
    (gap : Gap) (gaps : List Gap) (l : List ℕ)
    → l ++ arrivals (gap ∷ gaps) l
      ≡ ((l ++ gap.before) ++ still_coming gap (l ++ gap.before))
        ++ behind_first ((l ++ gap.before) ++ still_coming gap (l ++ gap.before)) (arrivals gaps)
heard-eq gap gaps l =
    sym (append_assoc l (coming gap l) (behind_first (l ++ coming gap l) (arrivals gaps)))
    ∙ ap (λ y. y ++ behind_first y (arrivals gaps))
        (sym (append_assoc l gap.before (still_coming gap (l ++ gap.before))))
