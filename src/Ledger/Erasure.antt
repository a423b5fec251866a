-- ===== src/Ledger/Erasure.antt =====
-- What the erasure of a task leaves (harness/ledger/jsonl.py `erase_task`).
use adk_coding_agent.Prelude.{
  ℕ, zero, suc, ◌+◌, ◌-◌, ◌≤◌, String, ◌≡◌, refl, ap, ◌∙◌, Bool, true, false, not, Option, List, [],
  ◌∷◌, ◌==◌, eq_iff, if◌then◌else◌, arith, filter, take, length,
}
use adk_coding_agent.Prelude.Int.{ℤ, pos_part}
use adk_coding_agent.Ledger.Models.{LedgerEvent}
use adk_coding_agent.Ledger.Store.{of_task, selected, read, erase_task}

module _ {P : Type 0} where
  filter-erase :
      (p : LedgerEvent P → Bool) (t task : String) (es : List (LedgerEvent P))
      → ((e : LedgerEvent P) → p e ≡ true → e.task_id ≡ t)
      → filter p (filter (λ event. not (of_task task event)) es)
        ≡ (if t == task then [] else filter p es)
  filter-erase p t task [] h = ground arith
  filter-erase p t task (x ∷ es) h =
      ground (arith, filter-erase p t task es h, h x, eq_iff x.task_id task, eq_iff t task)

  take-if :
      (n : ℕ) (t : Bool) (xs : List (LedgerEvent P))
      → take n (if t then [] else xs) ≡ (if t then [] else take n xs)
  take-if zero true xs = refl
  take-if (suc n) true xs = refl
  take-if n false xs = refl

  selected-task :
      (t : String) (after_sequence : ℤ) (as_of : Option ℕ) (kinds : List String) (e : LedgerEvent P)
      → selected t after_sequence as_of kinds e ≡ true
      → e.task_id ≡ t
  selected-task t after_sequence as_of kinds e h = ground (arith, eq_iff e.task_id t)

  length-filter-le :
      (p : LedgerEvent P → Bool) (es : List (LedgerEvent P)) → length (filter p es) ≤ length es
  length-filter-le p [] = omega arith
  length-filter-le p (x ∷ es) = ground (arith, length-filter-le p es)

  filter-twice :
      (p : LedgerEvent P → Bool) (es : List (LedgerEvent P)) → filter p (filter p es) ≡ filter p es
  filter-twice p [] = refl
  filter-twice p (x ∷ es) = ground (arith, filter-twice p es)

  -- Once a task is erased every read of it is empty, and every read of another task returns what it
  -- did before.
  pub erase_task-read :
      (es : List (LedgerEvent P)) (task t : String) (after_sequence : ℤ) (as_of : Option ℕ)
      (kinds : List String) (limit : ℤ)
      → read (erase_task es task).1 t after_sequence as_of kinds limit
        ≡ (if t == task then [] else read es t after_sequence as_of kinds limit)
  unfolding read erase_task
  erase_task-read es task t after_sequence as_of kinds limit =
      ap (take (pos_part limit)) (
        filter-erase (selected t after_sequence as_of kinds) t task es
          (λ e h. selected-task t after_sequence as_of kinds e h))
      ∙ take-if (pos_part limit) (t == task) (filter (selected t after_sequence as_of kinds) es)

  -- The number that is returned is that of the events that are gone, and erasing the task again
  -- removes none.
  pub erase_task_count :
      (es : List (LedgerEvent P)) (task : String)
      → ((erase_task es task).0 + length (erase_task es task).1 ≡ length es)
        × (erase_task (erase_task es task).1 task ≡ (0, (erase_task es task).1))
  unfolding erase_task
  erase_task_count es task =
      let p = λ (event : LedgerEvent P). not (of_task task event) in
      (
        omega (arith, length-filter-le p es),
        ap (λ (l : List (LedgerEvent P)). (length (filter p es) - length l, l)) (filter-twice p es)
            ∙ ap (λ (n : ℕ). (n, filter p es)) (omega arith),
      )
