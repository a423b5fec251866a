-- ===== src/Runs/Rows.antt =====
-- The rows of the event table: their numbers and their source keys, and what an insert makes of them
-- (harness/server/registry.py).
use adk_coding_agent.Prelude.{
  ℕ, suc, ◌+◌, String, ◌≡◌, refl, ap, sym, subst, ◌∙◌, false, Option, none, some, List, [], ◌∷◌,
  ◌++◌, map, max, eq_iff, eq_refl, if◌then◌else◌, filter, find, length, length-append, All,
  All-append, arith, Bool-cases, inl, inr,
}
use adk_coding_agent.Prelude.Unique.{Slot, slot, clashes, Unique, Unique-snoc}
use adk_coding_agent.Runs.Store.{EventRow}
use adk_coding_agent.Runs.Append.{of_run, has_source, max_sequence}

module _ {E : Type 0} where
  abbrev pub Numbered : ℕ → List (EventRow E) → Type 0
  Numbered n [] = Unit
  Numbered n (row ∷ rows) = (row.sequence ≡ n) × Numbered (suc n) rows

  -- The stream of a run.
  abbrev pub rows_of : String → List (EventRow E) → List (EventRow E)
  rows_of run_id rows = filter (of_run run_id) rows

  abbrev pub source_slot : EventRow E → Slot
  source_slot row = slot row.run_id row.source_key

  -- The envelope carries the run and the number of its row.
  abbrev pub IsTrue : EventRow E → Type 0
  IsTrue row = (row.envelope.sequence ≡ row.sequence) × (row.envelope.run_id ≡ row.run_id)

  pub record IsTable (rows : List (EventRow E)) : Type 0 where
    pub numbered : (run_id : String) → Numbered 1 (rows_of run_id rows)
    pub unique : Unique (map source_slot rows)
    pub envelopes_true : All IsTrue rows

  Numbered-snoc :
      (n : ℕ) (rows : List (EventRow E)) (row : EventRow E)
      → Numbered n rows
      → row.sequence ≡ n + length rows
      → Numbered n (rows ++ row ∷ [])
  Numbered-snoc n [] row h s = (ground arith, tt)
  Numbered-snoc n (x ∷ rows) row h s = (h.0, Numbered-snoc (suc n) rows row h.1 (ground arith))

  pub rows_of-snoc :
      (run_id : String) (rows : List (EventRow E)) (row : EventRow E)
      → rows_of run_id (rows ++ row ∷ [])
        ≡ (if of_run run_id row then rows_of run_id rows ++ row ∷ [] else rows_of run_id rows)
  rows_of-snoc run_id [] row = refl
  rows_of-snoc run_id (x ∷ rows) row = ground (arith, rows_of-snoc run_id rows row)

  pub max-from :
      (run_id : String) (n : ℕ) (rows : List (EventRow E))
      → Numbered (suc n) (rows_of run_id rows)
      → max n (max_sequence run_id rows) ≡ n + length (rows_of run_id rows)
  max-from run_id n [] h = ground arith
  max-from run_id n (row ∷ rows) h = elim (Bool-cases (of_run run_id row)) [
    | inl own ↦ ground (arith, max-from run_id (suc n) rows)
    | inr other ↦ ground (arith, max-from run_id n rows)
  ]

  -- The largest number of a run is the length of its stream.
  pub max_sequence-length :
      (rows : List (EventRow E)) (run_id : String)
      → IsTable rows
      → max_sequence run_id rows ≡ length (rows_of run_id rows)
  max_sequence-length rows run_id h = omega (arith, max-from run_id 0 rows (h.numbered run_id))

  -- A source key that no row of the run has is new in the table.
  unused :
      (run_id : String) (key : Option String) (rows : List (EventRow E))
      → find (has_source run_id key) rows ≡ none
      → clashes (slot run_id key) (map source_slot rows) ≡ false
  unused run_id none [] h = refl
  unused run_id none (row ∷ rows) h = unused run_id none rows (ground arith)
  unused run_id (some key) [] h = refl
  unused run_id (some key) (row ∷ rows) h =
      elim row.source_key
          as (λ k.
            row.source_key ≡ k
            → clashes (slot run_id (some key)) (slot row.run_id k ∷ map source_slot rows) ≡ false) [
              | none ↦ λ e. ground (arith, unused run_id (some key) rows)
              | some j ↦ λ e. ground (
                arith,
                unused run_id (some key) rows,
                eq_iff row.run_id run_id,
                eq_iff run_id row.run_id,
                eq_iff j key,
                eq_iff key j,
              )
            ]
        refl

  map-snoc {κ} :
      {B : Type κ} (f : EventRow E → B) (rows : List (EventRow E)) (row : EventRow E)
      → map f (rows ++ row ∷ []) ≡ map f rows ++ f row ∷ []
  map-snoc f [] row = refl
  map-snoc f (x ∷ rows) row = ap (◌∷◌ (f x)) (map-snoc f rows row)

  -- A row under the next number and a new source key keeps the table.
  pub insert-IsTable :
      (rows : List (EventRow E)) (row : EventRow E)
      → IsTable rows
      → row.sequence ≡ suc (max_sequence row.run_id rows)
      → find (has_source row.run_id row.source_key) rows ≡ none
      → IsTrue row
      → IsTable (rows ++ row ∷ [])
  insert-IsTable rows row h s fresh true_row = record {
    numbered = λ run_id.
        subst (Numbered 1) (sym (rows_of-snoc run_id rows row))
          (elim (Bool-cases (of_run run_id row)) [
            | inl own ↦ rw own (
                Numbered-snoc 1 (rows_of run_id rows) row (h.numbered run_id) (
                  let same = (eq_iff row.run_id run_id).0 own in
                  s
                  ∙ ap (λ r. suc (max_sequence r rows)) same
                  ∙ ap suc (max_sequence-length rows run_id h)
                  ∙ (omega arith)))
            | inr other ↦ rw other (h.numbered run_id)
          ]);
    unique = subst Unique (sym (map-snoc source_slot rows row)) (
        Unique-snoc (source_slot row) (map source_slot rows) h.unique
          (unused row.run_id row.source_key rows fresh));
    envelopes_true = All-append IsTrue rows (row ∷ []) h.envelopes_true (true_row, tt);
  }

  -- An insert raises the largest number of its run by one.
  pub max_sequence-snoc :
      (rows : List (EventRow E)) (row : EventRow E)
      → IsTable rows
      → IsTable (rows ++ row ∷ [])
      → max_sequence row.run_id (rows ++ row ∷ []) ≡ suc (max_sequence row.run_id rows)
  max_sequence-snoc rows row h after = ground (
    arith,
    max_sequence-length rows row.run_id h,
    max_sequence-length (rows ++ row ∷ []) row.run_id after,
    rows_of-snoc row.run_id rows row,
    eq_refl row.run_id,
    length-append (rows_of row.run_id rows) (row ∷ []),
  )
