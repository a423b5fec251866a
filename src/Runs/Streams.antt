-- ===== src/Runs/Streams.antt =====
-- What the appends and `terminalize` do to the registry and to the stream of the run
-- (harness/server/registry.py).
use mathlib.Core.List.{append-nil}
use adk_coding_agent.Prelude.{
  ℕ, suc, String, ◌≡◌, ◌⊎◌, refl, ap, sym, subst, ◌∙◌, Bool, true, false, not, Option, none, some,
  List, [], ◌∷◌, ◌++◌, eq_refl, if◌then◌else◌, find, arith, inl, inr,
}
use adk_coding_agent.Prelude.Result.{Result, ok, err, value_error}
use adk_coding_agent.Prelude.Keyed.{string_eq}
use adk_coding_agent.Prelude.Table.{update_where}
use adk_coding_agent.Prelude.Text.{Text}
use adk_coding_agent.Runs.Models.{
  RunStatus, queued, status_eq, is_active, RunRecord, EventType, EventAppendResult, ServerEnvelope,
  bounded_error,
}
use adk_coding_agent.Runs.Store.{EventRow, Store, get_run, set_status}
use adk_coding_agent.Runs.Append.{
  has_source, max_sequence, new_row, append_events_with_outcomes, append_transaction, zip,
  resolved_keys, stream_for,
}
use adk_coding_agent.Runs.Terminal.{
  Terminal, Expected, terminal_status, expected_status, stream_of, announce, freeze,
  terminal_replay, terminal_new, terminal_found, terminalize,
}
use adk_coding_agent.Runs.Rows.{IsTable, insert-IsTable}
use adk_coding_agent.Runs.Batch.{Added, append_loop-Added}
use adk_coding_agent.Runs.Journal.{created_envelopes}
use adk_coding_agent.Runs.Retry.{append-transaction, transaction-loop}
use adk_coding_agent.Runs.Registry.{is_row}
use adk_coding_agent.Runs.Moves.{
  IsRegistry, Moves, Evolves-same, Evolves-trans, IsRegistry-same, update-Moves, rows-Moves,
  get_run-id,
}

module _ {E : Type 0} where
  -- A call on the stream of a run: the registry moves on, by the envelopes that it created.
  pub record Streams (s t : Store E) (run_id : String) (created : List (ServerEnvelope E))
      : Type 0 where
    pub moves : Moves s t
    pub events : Added run_id s.events t.events created

  Added-none :
      (s t : Store E) (run_id : String) → t.events ≡ s.events → Added run_id s.events t.events []
  Added-none s t run_id e = record {
    added = [];
    tail = e ∙ sym (append-nil s.events);
    created_by = refl;
    of_the_run = tt;
  }

  Streams-none :
      (s t : Store E) (run_id : String)
      → IsRegistry s
      → t.runs ≡ s.runs
      → t.events ≡ s.events
      → Streams s t run_id []
  Streams-none s t run_id h r e = record {
    moves = (IsRegistry-same s t r e h, Evolves-same s t r e);
    events = Added-none s t run_id e;
  }

module _ {E : Type 0} (type : EventType E) where
  found-Streams :
      (found : Option RunRecord) (s t : Store E) (run_id : String) (durable : Bool)
      (session_id invocation_id : Option String) (items : List (E × Option String)) (now : ℕ)
      (outcomes : List (EventAppendResult E))
      → IsRegistry s
      → get_run s run_id ≡ found
      → append_transaction type found s durable session_id invocation_id items now
        ≡ ok (outcomes, t)
      → Streams s t run_id (created_envelopes outcomes)
  unfolding append_transaction
  found-Streams none s t run_id durable session_id invocation_id items now outcomes h looked ret =
      absurd (ground arith)
  found-Streams (some run) s t run_id durable session_id invocation_id items now outcomes h looked
        ret =
      let (rows, looped, did) =
        transaction-loop type run s durable session_id invocation_id items now outcomes t ret in
      let events : t.events ≡ rows = ap (λ (x : Store E). x.events) did in
      let (table, added) =
        append_loop-Added type (stream_for run durable session_id invocation_id) s.events items now
          outcomes rows (suc (max_sequence run.run_id s.events)) h.table refl looped in
      let own : Added run.run_id s.events t.events (created_envelopes outcomes) =
        subst (λ r. Added run.run_id s.events r (created_envelopes outcomes)) (sym events) added in
      record {
        moves =
            rows-Moves s t run run_id (created_envelopes outcomes) h looked
              (ap (λ (x : Store E). x.runs) did) (subst IsTable (sym events) table) own;
        events =
            subst (λ i. Added i s.events t.events (created_envelopes outcomes))
              (get_run-id s run_id run looked) own;
      }

  pub append-Streams :
      (s t : Store E) (run_id : String) (events : List E) (durable : Bool)
      (session_id invocation_id : Option String) (keys : Option (List (Option String))) (now : ℕ)
      (outcomes : List (EventAppendResult E))
      → IsRegistry s
      → append_events_with_outcomes type s run_id events durable session_id invocation_id keys now
        ≡ ok (outcomes, t)
      → Streams s t run_id (created_envelopes outcomes)
  append-Streams s t run_id [] durable session_id invocation_id keys now outcomes h ret =
      let first =
        sym (
          append-transaction type s s run_id [] durable session_id invocation_id keys now now
            (outcomes, t) ret)
        ∙ ret in
      let none_left : [] ≡ outcomes = ground arith in
      let same : s ≡ t = ground arith in
      subst (λ os. Streams s t run_id (created_envelopes os)) none_left
        (subst (λ x. Streams s x run_id []) same (Streams-none s s run_id h refl refl))
  append-Streams s t run_id (event ∷ events) durable session_id invocation_id keys now outcomes h
        ret =
      found-Streams (get_run s run_id) s t run_id durable session_id invocation_id
        (zip (event ∷ events) (resolved_keys keys (event ∷ events))) now outcomes h refl
        (sym (
            append-transaction type s s run_id (event ∷ events) durable session_id invocation_id
              keys now now (outcomes, t) ret)
          ∙ ret)

  pub announce-ok :
      (found : Option RunRecord) (envelope : ServerEnvelope E) (s t : Store E)
      (result : EventAppendResult E)
      → announce found envelope s ≡ ok (result, t)
      → (t.runs ≡ s.runs)
        × (t.events ≡ s.events)
        × (result ≡ record { envelope = envelope; created = true })
  announce-ok none envelope s t result h = absurd (ground arith)
  announce-ok (some run) envelope s t result h = (ground arith, ground arith, ground arith)

  freeze-Streams :
      (s t : Store E) (run : RunRecord) (run_id : String) (status expected : RunStatus) (event : E)
      (source_key : String) (error : Option Text) (now : ℕ) (result : EventAppendResult E)
      → IsRegistry s
      → get_run s run_id ≡ some run
      → find (has_source run.run_id (some source_key)) s.events ≡ none
      → is_active expected ≡ true
      → status_eq status queued ≡ false
      → freeze s run status expected event source_key error now ≡ ok (result, t)
      → Streams s t run_id (created_envelopes (result ∷ []))
  unfolding freeze
  freeze-Streams s t run run_id status expected event source_key error now result h looked fresh
        active ended ret =
      let row =
        new_row (stream_of run) (suc (max_sequence run.run_id s.events)) (some source_key) event
          now in
      let written = record s { events = s.events ++ row ∷ [] } in
      let frozen = record written {
        runs = update_where (is_row run.run_id expected) (set_status status error now) s.runs;
      } in
      let (runs, events, made) =
        announce-ok (get_run frozen run.run_id) row.envelope frozen t result (ground arith) in
      let table = insert-IsTable s.events row h.table refl fresh (refl, refl) in
      let own : Added run.run_id s.events written.events (row.envelope ∷ []) = record {
        added = row ∷ [];
        tail = refl;
        created_by = refl;
        of_the_run = (eq_refl run.run_id, tt);
      } in
      let first = rows-Moves s written run run_id (row.envelope ∷ []) h looked refl table own in
      let second =
        update-Moves written t run.run_id expected status error now first.0 active ended runs
          events in
      record {
        moves = (second.0, Evolves-trans s written t first.1 second.1);
        events =
            subst (λ i. Added i s.events t.events (created_envelopes (result ∷ [])))
              (get_run-id s run_id run looked)
              (subst
                (λ (x : EventAppendResult E).
                  Added run.run_id s.events t.events (created_envelopes (x ∷ [])))
                (sym made)
                (subst (λ r. Added run.run_id s.events r (row.envelope ∷ [])) (sym events) own));
      }

  terminal_replay-ok :
      (found : Option (EventRow E)) (s t : Store E) (run : RunRecord) (event : E)
      (error : Option Text) (result : EventAppendResult E)
      → terminal_replay type found s run event error ≡ ok (result, t)
      → (t.runs ≡ s.runs) × (t.events ≡ s.events) × (result.created ≡ false)
  unfolding terminal_replay
  terminal_replay-ok none s t run event error result h = absurd (ground arith)
  terminal_replay-ok (some row) s t run event error result h =
      (ground arith, ground arith, ground arith)

  pub terminal_new-ok :
      (found : Option (EventRow E)) (s : Store E) (run : RunRecord) (status expected : RunStatus)
      (event : E) (source_key : String) (error : Option Text) (now : ℕ)
      (r : EventAppendResult E × Store E)
      → terminal_new type found s run status expected event source_key error now ≡ ok r
      → (found ≡ none) × (freeze s run status expected event source_key error now ≡ ok r)
  unfolding terminal_new
  terminal_new-ok none s run status expected event source_key error now r h = (refl, h)
  terminal_new-ok (some row) s run status expected event source_key error now r h =
      absurd (ground arith)

  pub terminal_ways :
      (same unexpected : Bool) (replayed moved : Result (EventAppendResult E × Store E))
      (r : EventAppendResult E × Store E)
      → (if same then replayed else if unexpected then err value_error else moved) ≡ ok r
      → ((same ≡ true) × (replayed ≡ ok r)) ⊎ ((unexpected ≡ false) × (moved ≡ ok r))
  terminal_ways true unexpected replayed moved r h = inl (refl, h)
  terminal_ways false true replayed moved r h = absurd (ground arith)
  terminal_ways false false replayed moved r h = inr (refl, h)

  terminal_found-Streams :
      (found : Option RunRecord) (s t : Store E) (run_id : String) (terminal : Terminal)
      (expected : Expected) (event : E) (source_key : String) (error : Option Text) (now : ℕ)
      (result : EventAppendResult E)
      → IsRegistry s
      → get_run s run_id ≡ found
      → terminal_found type found s
          (terminal_status terminal)
          (expected_status expected)
          event
          source_key
          error
          now
        ≡ ok (result, t)
      → Streams s t run_id (created_envelopes (result ∷ []))
  unfolding terminal_found
  terminal_found-Streams none s t run_id terminal expected event source_key error now result h
        looked ret =
      absurd (ground arith)
  terminal_found-Streams (some run) s t run_id terminal expected event source_key error now result h
        looked ret =
      let existing = find (has_source run.run_id (some source_key)) s.events in
      let status = terminal_status terminal in
      elim (terminal_ways (status_eq run.status status)
        (not (status_eq run.status (expected_status expected)))
        (terminal_replay type existing s run event error)
        (terminal_new type existing s run status (expected_status expected) event source_key error
          now)
        (result, t) ret) [
          | inl (same, replayed) ↦
              let (runs, events, kept) =
                terminal_replay-ok existing s t run event error result replayed in
              subst (Streams s t run_id) (ground arith) (Streams-none s t run_id h runs events)
          | inr (expected_found, moved) ↦
              let (fresh, frozen) =
                terminal_new-ok existing s run status (expected_status expected) event source_key
                  error now (result, t) moved in
              freeze-Streams s t run run_id status (expected_status expected) event source_key error
                now result h looked fresh (active_expected expected) (ended_terminal terminal)
                frozen
        ]
    where
      active_expected : (x : Expected) → is_active (expected_status x) ≡ true
      active_expected x = ground arith

      ended_terminal : (x : Terminal) → status_eq (terminal_status x) queued ≡ false
      ended_terminal x = ground arith

  pub terminalize-Streams :
      (s t : Store E) (run_id : String) (terminal : Terminal) (event : E) (source_key : String)
      (expected : Expected) (error : Option Text) (now : ℕ) (result : EventAppendResult E)
      → IsRegistry s
      → terminalize type s run_id terminal event source_key expected error now ≡ ok (result, t)
      → Streams s t run_id (created_envelopes (result ∷ []))
  unfolding terminalize
  terminalize-Streams s t run_id terminal event source_key expected error now result h ret =
      terminal_found-Streams (get_run s run_id) s t run_id terminal expected event source_key
        (bounded_error error) now result h refl (ground arith)
