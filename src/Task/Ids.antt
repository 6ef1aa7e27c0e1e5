-- ===== src/Task/Ids.antt =====
-- `TaskId::new` of min-rust-os/src/task/mod.rs gives every id once.
use os_resources.Prelude.{
  ℕ, zero, suc, ◌+◌, ◌^◌, ◌≤◌, ◌<◌, ◌≡◌, ◌≢◌, some, get_elem?, arith, sym, ◌∙◌, ap,
}
use os_resources.Task.{new_task_id, new_task_ids}

-- The `i`th id from a counter `k`.
new_task_ids-get_elem? :
    (n k i : ℕ) → k + n ≤ 2 ^ 64 → i < n → get_elem? (new_task_ids n k).0 i ≡ some (k + i)
unfolding new_task_id new_task_ids
new_task_ids-get_elem? zero k i fits lt = absurd (omega arith)
new_task_ids-get_elem? (suc n) k zero fits lt = ap some (omega arith)
new_task_ids-get_elem? (suc n) k (suc i) fits lt =
    ap (λ c. get_elem? (new_task_ids n c).0 i) (omega arith)
    ∙ new_task_ids-get_elem? n (k + 1) i (omega arith) (omega arith)
    ∙ ap some (omega arith)

some_inj : {a b : ℕ} → some a ≡ some b → a ≡ b
some_inj e = cc e

-- However many ids are made from the first on, up to 2 ^ 64 of them, no two of them are the same.
pub new_task_ids-Distinct :
    (n i j : ℕ)
    → n ≤ 2 ^ 64
    → i < n
    → j < n
    → i ≢ j
    → get_elem? (new_task_ids n 0).0 i ≢ get_elem? (new_task_ids n 0).0 j
new_task_ids-Distinct n i j fits lt_i lt_j other same =
    let first = new_task_ids-get_elem? n 0 i (omega arith) lt_i in
    let second = new_task_ids-get_elem? n 0 j (omega arith) lt_j in
    let equal : 0 + i ≡ 0 + j = some_inj (sym first ∙ same ∙ second) in other (omega (arith, equal))
