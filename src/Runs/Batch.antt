-- ===== src/Runs/Batch.antt =====
-- What an append of a batch does to the event table (harness/server/registry.py).
use mathlib.Core.List.{append-nil, append_assoc}
use adk_coding_agent.Prelude.{
  ℕ, suc, String, ◌≡◌, ◌⊎◌, refl, ap, sym, subst, ◌∙◌, true, false, Option, none, some, List, [],
  ◌∷◌, ◌++◌, eq_refl, find, All, arith, inl, inr,
}
use adk_coding_agent.Prelude.Result.{ok, >>=-eq-ok, ◌>>=◌}
use adk_coding_agent.Runs.Models.{EventType, ServerEnvelope, EventAppendResult}
use adk_coding_agent.Runs.Store.{EventRow}
use adk_coding_agent.Runs.Append.{
  Stream, of_run, has_source, max_sequence, new_row, same_envelope, append_one, append_loop,
}
use adk_coding_agent.Runs.Replay.{envelopes_of}
use adk_coding_agent.Runs.Journal.{created_envelopes}
use adk_coding_agent.Runs.Rows.{IsTable, max_sequence-snoc, insert-IsTable}

module _ {E : Type 0} where
  -- The rows that a call adds: those of the envelopes that it created, all of its run.
  pub record Added (run_id : String) (rows after : List (EventRow E))
      (created : List (ServerEnvelope E)) : Type 0 where
    pub added : List (EventRow E)
    pub tail : after ≡ rows ++ added
    pub created_by : envelopes_of added ≡ created
    pub of_the_run : All (λ row. of_run run_id row ≡ true) added

module _ {E : Type 0} (type : EventType E) where
  -- One turn has found the row of its key, or has inserted one.
  pub append_one-cases :
      (c : Stream) (found : Option (EventRow E)) (rows : List (EventRow E)) (n : ℕ) (event : E)
      (key : Option String) (now : ℕ) (outcome : EventAppendResult E) (after : List (EventRow E))
      (m : ℕ)
      → append_one type c found rows n event key now ≡ ok (outcome, after, m)
      → ((row : EventRow E) × (found ≡ some row)
          × (same_envelope type c row.envelope event ≡ true)
          × (outcome ≡ record { envelope = row.envelope; created = false })
          × (after ≡ rows)
          × (m ≡ n))
        ⊎ ((found ≡ none)
            × (outcome ≡ record { envelope = (new_row c n key event now).envelope; created = true })
            × (after ≡ rows ++ new_row c n key event now ∷ [])
            × (m ≡ suc n))
  unfolding append_one
  append_one-cases c none rows n event key now outcome after m h = inr (ground arith)
  append_one-cases c (some row) rows n event key now outcome after m h =
      inl (row, refl, ground arith, ground arith, ground arith, ground arith)

  -- A loop that returned was one turn and the rest of the loop.
  pub append_loop-cons :
      (c : Stream) (rows : List (EventRow E)) (n : ℕ) (event : E) (key : Option String)
      (items : List (E × Option String)) (now : ℕ) (outcomes : List (EventAppendResult E))
      (after : List (EventRow E))
      → append_loop type c rows n ((event, key) ∷ items) now ≡ ok (outcomes, after)
      → (outcome : EventAppendResult E) × (middle : List (EventRow E)) × (m : ℕ) × (rest : List
          (EventAppendResult E))
        × (append_one type c (find (has_source c.run_id key) rows) rows n event key now
            ≡ ok (outcome, middle, m))
        × (append_loop type c middle m items now ≡ ok (rest, after))
        × (outcomes ≡ outcome ∷ rest)
  unfolding append_loop
  append_loop-cons c rows n event key items now outcomes after h =
      let first = append_one type c (find (has_source c.run_id key) rows) rows n event key now in
      let ((outcome, middle, m), did, more) =
        >>=-eq-ok first
          (λ ((outcome, rows, m) : EventAppendResult E × List (EventRow E) × ℕ).
            append_loop type c rows m items now
            >>= λ ((rest, rows) : List (EventAppendResult E) × List (EventRow E)).
                ok (outcome ∷ rest, rows))
          h in
      let ((rest, last), looped, joined) =
        >>=-eq-ok (append_loop type c middle m items now)
          (λ ((rest, rows) : List (EventAppendResult E) × List (EventRow E)).
            ok (outcome ∷ rest, rows))
          more in
      (outcome, middle, m, rest, did, looped ∙ ground arith, ground arith)

  pub append_loop-Added :
      (c : Stream) (rows : List (EventRow E)) (items : List (E × Option String)) (now : ℕ)
      (outcomes : List (EventAppendResult E)) (after : List (EventRow E)) (n : ℕ)
      → IsTable rows
      → n ≡ suc (max_sequence c.run_id rows)
      → append_loop type c rows n items now ≡ ok (outcomes, after)
      → IsTable after × Added c.run_id rows after (created_envelopes outcomes)
  unfolding append_loop
  append_loop-Added c rows [] now outcomes after n h s ret = (
    subst IsTable (ground arith) h,
    record {
      added = [];
      tail = ground (arith, append-nil rows);
      created_by = ground arith;
      of_the_run = tt;
    },
  )
  append_loop-Added c rows ((event, key) ∷ items) now outcomes after n h s ret =
      let (outcome, middle, m, rest, did, looped, joined) =
        append_loop-cons c rows n event key items now outcomes after ret in
      elim (append_one-cases c (find (has_source c.run_id key) rows) rows n event key now outcome
        middle m did) [
          | inl (row, found, same, out, unchanged, m_eq) ↦
              let (valid, more) =
                append_loop-Added c middle items now rest after m (subst IsTable (sym unchanged) h)
                  (m_eq ∙ s ∙ ap (λ r. suc (max_sequence c.run_id r)) (sym unchanged)) looped in
              (
                valid,
                record {
                  added = more.added;
                  tail = more.tail ∙ ap (λ r. r ++ more.added) unchanged;
                  created_by =
                      more.created_by
                      ∙ sym (
                          ap created_envelopes joined ∙ ap (λ o. created_envelopes (o ∷ rest)) out);
                  of_the_run = more.of_the_run;
                },
              )
          | inr (fresh, out, inserted, m_eq) ↦
              let row = new_row c n key event now in
              let table = insert-IsTable rows row h s fresh (refl, refl) in
              let (valid, more) =
                append_loop-Added c middle items now rest after m
                  (subst IsTable (sym inserted) table)
                  (m_eq
                    ∙ ap suc (s ∙ sym (max_sequence-snoc rows row h table))
                    ∙ ap (λ r. suc (max_sequence c.run_id r)) (sym inserted))
                  looped in
              (
                valid,
                record {
                  added = row ∷ more.added;
                  tail =
                      more.tail
                      ∙ ap (λ r. r ++ more.added) inserted
                      ∙ append_assoc rows (row ∷ []) more.added;
                  created_by =
                      ap (◌∷◌ row.envelope) more.created_by
                      ∙ sym (
                          ap created_envelopes joined ∙ ap (λ o. created_envelopes (o ∷ rest)) out);
                  of_the_run = (eq_refl c.run_id, more.of_the_run);
                },
              )
        ]
