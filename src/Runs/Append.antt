-- ===== src/Runs/Append.antt =====
-- The appends of `SqliteRunEventStore` (harness/server/registry.py). The number of an inserted event
-- is above all numbers of its run and its source key is not yet there, so that the keys of the table
-- cannot refuse it.
use adk_coding_agent.Prelude.{
  ℕ, suc, String, Bool, true, false, not, ◌&&◌, Option, none, some, List, [], ◌∷◌, ◌++◌, map, max,
  leb, eqb, ◌==◌, if◌then◌else◌, length, find, all, option_eq,
}
use adk_coding_agent.Prelude.Result.{
  Result, ok, err, value_error, key_error, validation_error, index_error, ◌>>=◌,
}
use adk_coding_agent.Prelude.Keyed.{string_eq, mem_key}
use adk_coding_agent.Prelude.Text.{codes}
use adk_coding_agent.Runs.Models.{
  RunRecord, is_between, given_or, EventType, ServerEnvelope, EventAppendResult,
}
use adk_coding_agent.Runs.Store.{EventRow, Store, get_run}

-- The arguments of an append beside the events and their keys, once they are resolved.
pub record Stream : Type 0 where
  pub run_id : String
  pub session_id : String
  pub invocation_id : String
  pub durable : Bool

abbrev pub bool_eq : Bool → Bool → Bool
bool_eq true b = b
bool_eq false b = not b

abbrev pub is_source_key : String → Bool
is_source_key key = is_between 512 (codes key)

abbrev pub concrete_keys : List (Option String) → List String
concrete_keys [] = []
concrete_keys (none ∷ keys) = concrete_keys keys
concrete_keys (some key ∷ keys) = key ∷ concrete_keys keys

-- `len(set(keys)) == len(keys)`
abbrev pub are_distinct : List String → Bool
are_distinct [] = true
are_distinct (key ∷ keys) = not (mem_key key keys) && are_distinct keys

-- What pydantic asks of an envelope beyond what holds of the run and the number.
abbrev pub is_valid_stream : Stream → Bool
is_valid_stream c =
    leb (length (codes c.session_id)) 256 && leb (length (codes c.invocation_id)) 256

-- The session and the invocation of a batch: those given, or the run's.
abbrev pub stream_for : RunRecord → Bool → Option String → Option String → Stream
stream_for run durable session_id invocation_id = record {
  run_id = run.run_id;
  session_id = given_or session_id run.session_id;
  invocation_id = given_or invocation_id run.invocation_id;
  durable = durable;
}

module _ {E : Type 0} where
  abbrev pub of_run : String → EventRow E → Bool
  of_run run_id row = row.run_id == run_id

  -- `WHERE run_id=? AND source_key=?`; a key that is NULL is equal to none.
  abbrev pub has_source : String → Option String → EventRow E → Bool
  has_source run_id none row = false
  has_source run_id (some key) row = row.run_id == run_id && option_eq row.source_key (some key)

  -- `COALESCE(MAX(sequence), 0)`
  abbrev pub max_sequence : String → List (EventRow E) → ℕ
  max_sequence run_id [] = 0
  max_sequence run_id (row ∷ rows) =
      let rest = max_sequence run_id rows in
      if of_run run_id row then max row.sequence rest else rest

  abbrev pub envelopes : List (EventAppendResult E) → List (ServerEnvelope E)
  envelopes outcomes = map (λ (o : EventAppendResult E). o.envelope) outcomes

  -- `(None,) * len(events)`
  abbrev pub no_keys : List E → List (Option String)
  no_keys [] = []
  no_keys (event ∷ events) = none ∷ no_keys events

  abbrev pub resolved_keys : Option (List (Option String)) → List E → List (Option String)
  resolved_keys none events = no_keys events
  resolved_keys (some keys) events = keys

  abbrev pub zip : List E → List (Option String) → List (E × Option String)
  zip (event ∷ events) (key ∷ keys) = (event, key) ∷ zip events keys
  zip _ _ = []

  abbrev pub new_envelope : Stream → ℕ → E → ServerEnvelope E
  new_envelope c sequence event = record {
    sequence = sequence;
    run_id = c.run_id;
    session_id = c.session_id;
    invocation_id = c.invocation_id;
    durable = c.durable;
    event = event;
  }

  abbrev pub new_row : Stream → ℕ → Option String → E → ℕ → EventRow E
  new_row c sequence key event now = record {
    run_id = c.run_id;
    sequence = sequence;
    source_key = key;
    envelope = new_envelope c sequence event;
    created_at = now;
  }

module _ {E : Type 0} (type : EventType E) where
  -- `event.run_id is not None and event.run_id != run_id`
  abbrev pub names_run : String → E → Bool
  names_run run_id event = elim (type.run_id event) [ none ↦ true | some named ↦ named == run_id ]

  abbrev pub same_envelope : Stream → ServerEnvelope E → E → Bool
  same_envelope c existing event =
      type.beq existing.event event
      && bool_eq existing.durable c.durable
      && existing.session_id == c.session_id
      && existing.invocation_id == c.invocation_id

  -- One turn of the loop, once the row of the source key is looked up.
  unfoldable pub append_one :
      Stream
      → Option (EventRow E)
      → List (EventRow E)
      → ℕ
      → E
      → Option String
      → ℕ
      → Result (EventAppendResult E × List (EventRow E) × ℕ)
  append_one c (some row) rows next_sequence event key now =
      if same_envelope c row.envelope event
      then ok (record { envelope = row.envelope; created = false }, rows, next_sequence)
      else err value_error
  append_one c none rows next_sequence event key now =
      if is_valid_stream c
      then ok (
        record { envelope = new_envelope c next_sequence event; created = true },
        rows ++ new_row c next_sequence key event now ∷ [],
        suc next_sequence,
      )
      else err validation_error

  -- The loop over the events and their keys.
  unfoldable pub append_loop :
      Stream
      → List (EventRow E)
      → ℕ
      → List (E × Option String)
      → ℕ
      → Result (List (EventAppendResult E) × List (EventRow E))
  unfolding append_one
  append_loop c rows next_sequence [] now = ok ([], rows)
  append_loop c rows next_sequence ((event, key) ∷ items) now =
      append_one c (find (has_source c.run_id key) rows) rows next_sequence event key now
      >>= λ (outcome, rows, next_sequence).
          append_loop c rows next_sequence items now >>= λ (outcomes, rows).
          ok (outcome ∷ outcomes, rows)

  -- The transaction, once the run is looked up, and the calls of the sink after it.
  unfoldable pub append_transaction :
      Option RunRecord
      → Store E
      → Bool
      → Option String
      → Option String
      → List (E × Option String)
      → ℕ
      → Result (List (EventAppendResult E) × Store E)
  unfolding append_loop
  append_transaction none s durable session_id invocation_id items now = err key_error
  append_transaction (some run) s durable session_id invocation_id items now =
      append_loop (stream_for run durable session_id invocation_id) s.events
        (suc (max_sequence run.run_id s.events)) items now
      >>= λ (outcomes, rows).
          ok (outcomes, record s { events = rows; event_sink = s.event_sink ++ envelopes outcomes })

  -- The checks of the source keys and of the events, of which there is one at least.
  unfoldable pub checked_append :
      Store E
      → String
      → List E
      → Bool
      → Option String
      → Option String
      → List (Option String)
      → ℕ
      → Result (List (EventAppendResult E) × Store E)
  unfolding append_transaction
  checked_append s run_id events durable session_id invocation_id keys now =
      if not (eqb (length keys) (length events))
      then err value_error
      else if not (all is_source_key (concrete_keys keys))
      then err value_error
      else if not (are_distinct (concrete_keys keys))
      then err value_error
      else if not (all (names_run run_id) events)
      then err value_error
      else append_transaction (get_run s run_id) s durable session_id invocation_id
          (zip events keys) now

  unfoldable pub append_events_with_outcomes :
      Store E
      → String
      → List E
      → Bool
      → Option String
      → Option String
      → Option (List (Option String))
      → ℕ
      → Result (List (EventAppendResult E) × Store E)
  unfolding checked_append
  append_events_with_outcomes s run_id events durable session_id invocation_id keys now =
      if not durable then err value_error else elim events [
        | [] ↦ ok ([], s)
        | event ∷ rest ↦
            checked_append s run_id (event ∷ rest) durable session_id invocation_id
              (resolved_keys keys (event ∷ rest)) now
      ]

  -- `outcomes[0]`
  abbrev first_outcome :
      List (EventAppendResult E) × Store E → Result (EventAppendResult E × Store E)
  first_outcome ([], s) = err index_error
  first_outcome (outcome ∷ outcomes, s) = ok (outcome, s)

  unfoldable pub append_event_with_outcome :
      Store E
      → String
      → E
      → Bool
      → Option String
      → Option String
      → Option String
      → ℕ
      → Result (EventAppendResult E × Store E)
  unfolding append_events_with_outcomes
  append_event_with_outcome s run_id event durable session_id invocation_id key now =
      append_events_with_outcomes s run_id (event ∷ []) durable session_id invocation_id
        (some (key ∷ [])) now
      >>= first_outcome

  unfoldable pub append_event :
      Store E
      → String
      → E
      → Bool
      → Option String
      → Option String
      → Option String
      → ℕ
      → Result (ServerEnvelope E × Store E)
  unfolding append_event_with_outcome
  append_event s run_id event durable session_id invocation_id key now =
      append_event_with_outcome s run_id event durable session_id invocation_id key now
      >>= λ (outcome, after). ok (outcome.envelope, after)

  unfoldable pub append_events :
      Store E
      → String
      → List E
      → Bool
      → Option String
      → Option String
      → Option (List (Option String))
      → ℕ
      → Result (List (ServerEnvelope E) × Store E)
  unfolding append_events_with_outcomes
  append_events s run_id events durable session_id invocation_id keys now =
      append_events_with_outcomes s run_id events durable session_id invocation_id keys now
      >>= λ (outcomes, after). ok (envelopes outcomes, after)
