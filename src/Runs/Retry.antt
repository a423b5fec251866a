-- ===== src/Runs/Retry.antt =====
-- A batch that is appended again under its source keys (harness/server/registry.py).
use adk_coding_agent.Prelude.{
  ℕ, suc, String, ◌≡◌, refl, ap, sym, subst, ◌∙◌, Bool, true, false, Option, none, some, List, [],
  ◌∷◌, ◌++◌, map, eq_refl, find, arith, inl, inr, map-map,
}
use adk_coding_agent.Prelude.Result.{Result, ok, >>=-eq-ok, ◌>>=◌}
use adk_coding_agent.Prelude.Keyed.{string_eq}
use adk_coding_agent.Runs.Models.{EventType, EventAppendResult, RunRecord}
use adk_coding_agent.Runs.Store.{EventRow, Store, get_run}
use adk_coding_agent.Runs.Append.{
  Stream, stream_for, has_source, max_sequence, new_row, same_envelope, append_one, append_loop,
  append_transaction, checked_append, append_events_with_outcomes, zip, resolved_keys, envelopes,
}
use adk_coding_agent.Runs.Batch.{append_one-cases, append_loop-cons}

module _ {E : Type 0} where
  -- What a call returns for an event that an earlier one inserted.
  abbrev pub repeated : EventAppendResult E → EventAppendResult E
  repeated o = record { envelope = o.envelope; created = false }

  -- Every event of the batch has a source key.
  abbrev pub IsKeyed : List (E × Option String) → Type 0
  IsKeyed [] = Unit
  IsKeyed ((event, none) ∷ items) = ⊥
  IsKeyed ((event, some key) ∷ items) = IsKeyed items

  pub find-append :
      (p : EventRow E → Bool) (xs ys : List (EventRow E)) (row : EventRow E)
      → find p xs ≡ some row
      → find p (xs ++ ys) ≡ some row
  find-append p [] ys row h = absurd (ground arith)
  find-append p (x ∷ xs) ys row h = ground (arith, find-append p xs ys row)

  pub find-snoc :
      (p : EventRow E → Bool) (xs : List (EventRow E)) (row : EventRow E)
      → find p xs ≡ none
      → p row ≡ true
      → find p (xs ++ row ∷ []) ≡ some row
  find-snoc p [] row h g = ground arith
  find-snoc p (x ∷ xs) row h g = ground (arith, find-snoc p xs row)

module _ {E : Type 0} (type : EventType E) where
  -- The row that stands for an event of a batch.
  abbrev pub IsRecorded :
      Stream → List (EventRow E) → E → Option String → EventAppendResult E → Type 0
  IsRecorded c rows event key o =
      (row : EventRow E) × (find (has_source c.run_id key) rows ≡ some row)
      × (same_envelope type c row.envelope event ≡ true)
      × (row.envelope ≡ o.envelope)

  abbrev pub AreRecorded :
      Stream → List (EventRow E) → List (E × Option String) → List (EventAppendResult E) → Type 0
  AreRecorded c rows [] [] = Unit
  AreRecorded c rows ((event, key) ∷ items) (o ∷ outcomes) =
      IsRecorded c rows event key o × AreRecorded c rows items outcomes
  AreRecorded c rows _ _ = ⊥

  same_envelope_refl :
      (c : Stream) (n : ℕ) (event : E) (key : Option String) (now : ℕ)
      → same_envelope type c (new_row c n key event now).envelope event ≡ true
  same_envelope_refl c n event key now =
      ground (arith, type.beq_iff event event, eq_refl c.session_id, eq_refl c.invocation_id)

  -- A loop that returned leaves the rows that were there, in front.
  loop_tail :
      (c : Stream) (rows : List (EventRow E)) (n : ℕ) (items : List (E × Option String)) (now : ℕ)
      (outcomes : List (EventAppendResult E)) (after : List (EventRow E))
      → append_loop type c rows n items now ≡ ok (outcomes, after)
      → (p : EventRow E → Bool) (row : EventRow E) → find p rows ≡ some row
      → find p after ≡ some row
  unfolding append_loop
  loop_tail c rows n [] now outcomes after h p row f = ground arith
  loop_tail c rows n ((event, key) ∷ items) now outcomes after h p row f =
      let (o, middle, m, rest, did, looped, joined) =
        append_loop-cons type c rows n event key items now outcomes after h in
      loop_tail c middle m items now rest after looped p row
        (elim (append_one-cases type c (find (has_source c.run_id key) rows) rows n event key now o
          middle m did) [
            | inl (found_row, found, same, out, unchanged, m_eq) ↦ ap (find p) unchanged ∙ f
            | inr (fresh, out, inserted, m_eq) ↦
                ap (find p) inserted ∙ find-append p rows (new_row c n key event now ∷ []) row f
          ])

  loop_records :
      (c : Stream) (rows : List (EventRow E)) (n : ℕ) (items : List (E × Option String)) (now : ℕ)
      (outcomes : List (EventAppendResult E)) (after : List (EventRow E))
      → IsKeyed items
      → append_loop type c rows n items now ≡ ok (outcomes, after)
      → AreRecorded c after items outcomes
  unfolding append_loop
  loop_records c rows n [] now outcomes after k h =
      let none_left : [] ≡ outcomes = ground arith in subst (AreRecorded c after []) none_left tt
  loop_records c rows n ((event, none) ∷ items) now outcomes after k h = absurd k
  loop_records c rows n ((event, some key) ∷ items) now outcomes after k h =
      let (o, middle, m, rest, did, looped, joined) =
        append_loop-cons type c rows n event (some key) items now outcomes after h in
      let own = has_source c.run_id (some key) in
      let row = new_row c n (some key) event now in
      let first : IsRecorded c after event (some key) o =
        elim (append_one-cases type c (find own rows) rows n event (some key) now o middle m did) [
          | inl (found_row, found, same, out, unchanged, m_eq) ↦ (
            found_row,
            loop_tail c middle m items now rest after looped own found_row
                (ap (find own) unchanged ∙ found),
            same,
            ap (λ (x : EventAppendResult E). x.envelope) (sym out),
          )
          | inr (fresh, out, inserted, m_eq) ↦ (
            row,
            loop_tail c middle m items now rest after looped own row (
                ap (find own) inserted
                ∙ find-snoc own rows row fresh (ground (arith, eq_refl c.run_id, eq_refl key))),
            same_envelope_refl c n event (some key) now,
            ap (λ (x : EventAppendResult E). x.envelope) (sym out),
          )
        ] in
      subst (AreRecorded c after ((event, some key) ∷ items)) (sym joined)
        (first, loop_records c middle m items now rest after k looped)

  -- The loop over events that are recorded finds them all.
  loop_finds :
      (c : Stream) (rows : List (EventRow E)) (n : ℕ) (items : List (E × Option String)) (now : ℕ)
      (outcomes : List (EventAppendResult E))
      → AreRecorded c rows items outcomes
      → append_loop type c rows n items now ≡ ok (map repeated outcomes, rows)
  unfolding append_loop append_one
  loop_finds c rows n [] now [] r = refl
  loop_finds c rows n [] now (o ∷ outcomes) r = absurd r
  loop_finds c rows n ((event, key) ∷ items) now [] r = absurd r
  loop_finds c rows n ((event, key) ∷ items) now (o ∷ outcomes) r =
      let (row, found, same, env) = r.0 in
      rw (found, same, loop_finds c rows n items now outcomes r.1)
        (ap (λ e. ok (record { envelope = e; created = false } ∷ map repeated outcomes, rows)) env)

  -- What an append does once its arguments are checked.
  abbrev pub transaction_of :
      Store E
      → String
      → List E
      → Bool
      → Option String
      → Option String
      → Option (List (Option String))
      → ℕ
      → Result (List (EventAppendResult E) × Store E)
  transaction_of s run_id [] durable session_id invocation_id keys now = ok ([], s)
  transaction_of s run_id (event ∷ events) durable session_id invocation_id keys now =
      append_transaction type (get_run s run_id) s durable session_id invocation_id
        (zip (event ∷ events) (resolved_keys keys (event ∷ events))) now

  -- Arguments that passed the checks once pass them in every state.
  pub append-transaction :
      (s t : Store E) (run_id : String) (events : List E) (durable : Bool)
      (session_id invocation_id : Option String) (keys : Option (List (Option String)))
      (now later : ℕ) (r : List (EventAppendResult E) × Store E)
      → append_events_with_outcomes type s run_id events durable session_id invocation_id keys now
        ≡ ok r
      → append_events_with_outcomes type t run_id events durable session_id invocation_id keys later
        ≡ transaction_of t run_id events durable session_id invocation_id keys later
  unfolding append_events_with_outcomes checked_append
  append-transaction s t run_id [] durable session_id invocation_id keys now later r h =
      ground arith
  append-transaction s t run_id (event ∷ events) durable session_id invocation_id keys now later r
        h =
      ground arith

  pub transaction-loop :
      (run : RunRecord) (s : Store E) (durable : Bool) (session_id invocation_id : Option String)
      (items : List (E × Option String)) (now : ℕ) (outcomes : List (EventAppendResult E))
      (after : Store E)
      → append_transaction type (some run) s durable session_id invocation_id items now
        ≡ ok (outcomes, after)
      → (rows : List (EventRow E)) × (append_loop type
            (stream_for run durable session_id invocation_id)
            s.events
            (suc (max_sequence run.run_id s.events))
            items
            now
          ≡ ok (outcomes, rows))
        × (after ≡ record s { events = rows; event_sink = s.event_sink ++ envelopes outcomes })
  unfolding append_transaction
  transaction-loop run s durable session_id invocation_id items now outcomes after h =
      let ((os, rows), looped, last) =
        >>=-eq-ok
          (append_loop type (stream_for run durable session_id invocation_id) s.events
            (suc (max_sequence run.run_id s.events)) items now)
          (λ ((os, rows) : List (EventAppendResult E) × List (EventRow E)).
            ok (os, record s { events = rows; event_sink = s.event_sink ++ envelopes os }))
          h in
      (rows, looped ∙ ground arith, ground arith)

  -- An append that returned has recorded its events.
  pub transaction-records :
      (run : RunRecord) (s : Store E) (durable : Bool) (session_id invocation_id : Option String)
      (items : List (E × Option String)) (now : ℕ) (outcomes : List (EventAppendResult E))
      (after : Store E)
      → IsKeyed items
      → append_transaction type (some run) s durable session_id invocation_id items now
        ≡ ok (outcomes, after)
      → AreRecorded (stream_for run durable session_id invocation_id) after.events items outcomes
  transaction-records run s durable session_id invocation_id items now outcomes after k h =
      let c = stream_for run durable session_id invocation_id in
      let (rows, looped, did) =
        transaction-loop run s durable session_id invocation_id items now outcomes after h in
      subst (λ r. AreRecorded c r items outcomes) (sym (ap (λ (x : Store E). x.events) did))
        (loop_records c s.events (suc (max_sequence run.run_id s.events)) items now outcomes rows k
          looped)

  -- Where the events are recorded, an append finds them.
  pub transaction-finds :
      (run : RunRecord) (u : Store E) (durable : Bool) (session_id invocation_id : Option String)
      (items : List (E × Option String)) (now : ℕ) (outcomes : List (EventAppendResult E))
      → AreRecorded (stream_for run durable session_id invocation_id) u.events items outcomes
      → append_transaction type (some run) u durable session_id invocation_id items now
        ≡ ok (map repeated outcomes, record u { event_sink = u.event_sink ++ envelopes outcomes })
  unfolding append_transaction
  transaction-finds run u durable session_id invocation_id items now outcomes recorded =
      ap
        (λ (m : Result (List (EventAppendResult E) × List (EventRow E))).
          m >>= λ ((os, rows) : List (EventAppendResult E) × List (EventRow E)).
          ok (os, record u { events = rows; event_sink = u.event_sink ++ envelopes os }))
        (loop_finds (stream_for run durable session_id invocation_id) u.events
          (suc (max_sequence run.run_id u.events)) items now outcomes recorded)
      ∙ ap (λ l. ok (map repeated outcomes, record u { event_sink = u.event_sink ++ l }))
          (map-map (λ (o : EventAppendResult E). o.envelope) repeated outcomes)

  -- What is recorded stays so while every row that can be found is found.
  pub AreRecorded-kept :
      (c : Stream) (rows later : List (EventRow E)) (items : List (E × Option String))
      (outcomes : List (EventAppendResult E))
      → ((p : EventRow E → Bool) (row : EventRow E)
          → find p rows ≡ some row
          → find p later ≡ some row)
      → AreRecorded c rows items outcomes
      → AreRecorded c later items outcomes
  AreRecorded-kept c rows later [] [] kept r = tt
  AreRecorded-kept c rows later [] (o ∷ outcomes) kept r = absurd r
  AreRecorded-kept c rows later ((event, key) ∷ items) [] kept r = absurd r
  AreRecorded-kept c rows later ((event, key) ∷ items) (o ∷ outcomes) kept r =
      let (row, found, same, env) = r.0 in
      (
        (row, kept (has_source c.run_id key) row found, same, env),
        AreRecorded-kept c rows later items outcomes kept r.1,
      )

  pub transaction-missing :
      (s : Store E) (durable : Bool) (session_id invocation_id : Option String)
      (items : List (E × Option String)) (now : ℕ) (r : List (EventAppendResult E) × Store E)
      → append_transaction type none s durable session_id invocation_id items now ≡ ok r
      → ⊥
  unfolding append_transaction
  transaction-missing s durable session_id invocation_id items now r h = ground arith
