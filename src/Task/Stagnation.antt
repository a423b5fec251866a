-- ===== src/Task/Stagnation.antt =====
-- What repeated actions lead to (harness/state/progress.py).
use adk_coding_agent.Prelude.{
  ℕ, zero, suc, ◌+◌, ◌-◌, ◌≤◌, ◌<◌, min, String, ◌≡◌, refl, sym, ap, ◌∙◌, Bool, true, List, [], ◌∷◌,
  ◌++◌, eqb, eq_refl, length, drop, all, arith, length-append, length-drop, Bool-cases, inl, inr,
}
use mathlib.Core.List.{append-nil}
use adk_coding_agent.Prelude.Int.{ℤ, pos, negsuc, pos_part}
use adk_coding_agent.Prelude.Keyed.{string_eq, mem_key, mem_key-append}
use adk_coding_agent.Task.Models.{TaskLedger}
use adk_coding_agent.Task.Progress.{last_items, batch_ledger}

-- The history never outgrows a positive limit.
pub length-last_items :
    (limit : ℕ) (history : List String)
    → 0 < limit
    → length (last_items (pos limit) history) ≡ min limit (length history)
unfolding last_items
length-last_items limit history h = ground (arith, length-drop (length history - limit) history)

drop-append : (n : ℕ) (xs ys : List String) → n ≤ length xs → drop n (xs ++ ys) ≡ drop n xs ++ ys
drop-append zero xs ys h = refl
drop-append (suc n) [] ys h = absurd (omega arith)
drop-append (suc n) (x ∷ xs) ys h = drop-append n xs ys (omega arith)

-- The newest actions stay in the history, as far as the limit allows.
last_items-append :
    (limit : ℤ) (xs ys : List String)
    → length ys ≤ pos_part limit
    → (zs : List String) × (last_items limit (xs ++ ys) ≡ zs ++ ys)
unfolding last_items
last_items-append (pos limit) xs ys h = elim (Bool-cases (eqb limit 0)) [
  | inl e ↦ (xs, rw e)
  | inr e ↦ (
    drop (length (xs ++ ys) - limit) xs,
    rw e (drop-append (length (xs ++ ys) - limit) xs ys (omega (arith, length-append {0} xs ys))),
  )
]
last_items-append (negsuc n) xs [] h = (drop (suc n) (xs ++ []), sym (append-nil _))
last_items-append (negsuc n) xs (y ∷ ys) h = absurd (omega arith)

all-map_true :
    (p : String → Bool) (xs : List String)
    → ((x : String) → mem_key x xs ≡ true → p x ≡ true)
    → all p xs ≡ true
all-map_true p [] h = refl
all-map_true p (x ∷ xs) h =
    ground (arith, h x (ground (arith, eq_refl x)), all-map_true p xs (λ y m. h y (ground arith)))

-- Every action of a batch is known to a history that ends in the batch.
batch_known : (zs xs : List String) → all (λ x. mem_key x (zs ++ xs)) xs ≡ true
batch_known zs xs =
    all-map_true (λ x. mem_key x (zs ++ xs)) xs (λ x m. ground (arith, mem_key-append x zs xs))

-- A batch that is registered twice in a row, and fits the history, counts as no progress the second
-- time, whatever the history was.
pub batch_again :
    (l : TaskLedger) (fingerprints : List String) (limit : ℤ)
    → length fingerprints ≤ pos_part limit
    → (batch_ledger (batch_ledger l fingerprints limit) fingerprints limit).no_progress_count
      ≡ (batch_ledger l fingerprints limit).no_progress_count + 1
unfolding batch_ledger
batch_again l [] limit h = refl
batch_again l (f ∷ fs) limit h =
    let (zs, kept) = last_items-append limit l.recent_action_fingerprints (f ∷ fs) h in
    let known : all (λ x. mem_key x (last_items limit (l.recent_action_fingerprints ++ f ∷ fs)))
          (f ∷ fs)
        ≡ true =
      ap (λ (hs : List String). all (λ x. mem_key x hs) (f ∷ fs)) kept ∙ batch_known zs (f ∷ fs) in
    ground arith
