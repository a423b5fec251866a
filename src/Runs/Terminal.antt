-- ===== src/Runs/Terminal.antt =====
-- `terminalize` of `SqliteRunEventStore` (harness/server/registry.py). The status that ends a run and
-- the status that is expected of it are arguments of types of their own, as the source's literals are.
use adk_coding_agent.Prelude.{
  ℕ, suc, String, true, false, not, ◌&&◌, Option, none, some, [], ◌∷◌, ◌++◌, eqb, ◌==◌,
  if◌then◌else◌, length, filter, find,
}
use adk_coding_agent.Prelude.Keyed.{string_eq}
use adk_coding_agent.Prelude.Result.{Result, ok, err, value_error, key_error, assertion_error}
use adk_coding_agent.Prelude.Table.{update_where}
use adk_coding_agent.Prelude.Text.{Text}
use adk_coding_agent.Runs.Models.{
  RunStatus, queued, running, completed, cancelled, failed, status_eq, RunRecord, bounded_error,
  has_error, error_eq, EventType, ServerEnvelope, EventAppendResult,
}
use adk_coding_agent.Runs.Store.{EventRow, Store, get_run, set_status}
use adk_coding_agent.Runs.Append.{
  Stream, is_source_key, has_source, max_sequence, new_envelope, new_row, names_run,
}

pub data Terminal : Type 0 where
  completes cancels fails : Terminal

pub data Expected : Type 0 where
  from_queued from_running : Expected

abbrev pub terminal_status : Terminal → RunStatus
terminal_status completes = completed
terminal_status cancels = cancelled
terminal_status fails = failed

abbrev pub expected_status : Expected → RunStatus
expected_status from_queued = queued
expected_status from_running = running

abbrev pub stream_of : RunRecord → Stream
stream_of run = record {
  run_id = run.run_id;
  session_id = run.session_id;
  invocation_id = run.invocation_id;
  durable = true;
}

module _ {E : Type 0} where
  -- The run that is read back for its sink, and the call of the event's.
  abbrev pub announce :
      Option RunRecord → ServerEnvelope E → Store E → Result (EventAppendResult E × Store E)
  announce none envelope s = err assertion_error
  announce (some run) envelope s = ok (
    record { envelope = envelope; created = true },
    record s { run_sink = s.run_sink ++ run ∷ []; event_sink = s.event_sink ++ envelope ∷ [] },
  )

  -- The `INSERT`, the `UPDATE` and its count of rows.
  unfoldable pub freeze :
      Store E
      → RunRecord
      → RunStatus
      → RunStatus
      → E
      → String
      → Option Text
      → ℕ
      → Result (EventAppendResult E × Store E)
  unfolding get_run
  freeze s run status expected event source_key error now =
      let sequence = suc (max_sequence run.run_id s.events) in
      let is_row = λ (r : RunRecord). r.run_id == run.run_id && status_eq r.status expected in
      let frozen = record s {
        runs = update_where is_row (set_status status error now) s.runs;
        events = s.events ++ new_row (stream_of run) sequence (some source_key) event now ∷ [];
      } in
      if eqb (length (filter is_row s.runs)) 1
      then announce (get_run frozen run.run_id) (new_envelope (stream_of run) sequence event) frozen
      else err value_error

module _ {E : Type 0} (type : EventType E) where
  -- A terminal run whose call is repeated.
  unfoldable pub terminal_replay :
      Option (EventRow E)
      → Store E
      → RunRecord
      → E
      → Option Text
      → Result (EventAppendResult E × Store E)
  terminal_replay none s run event error = err value_error
  terminal_replay (some row) s run event error =
      if error_eq run.error error && type.beq row.envelope.event event
      then ok (
        record { envelope = row.envelope; created = false },
        record s { event_sink = s.event_sink ++ row.envelope ∷ [] },
      )
      else err value_error

  -- An active run, whose source key must be new.
  unfoldable pub terminal_new :
      Option (EventRow E)
      → Store E
      → RunRecord
      → RunStatus
      → RunStatus
      → E
      → String
      → Option Text
      → ℕ
      → Result (EventAppendResult E × Store E)
  unfolding freeze
  terminal_new none s run status expected event source_key error now =
      freeze s run status expected event source_key error now
  terminal_new (some row) s run status expected event source_key error now = err value_error

  unfoldable pub terminal_found :
      Option RunRecord
      → Store E
      → RunStatus
      → RunStatus
      → E
      → String
      → Option Text
      → ℕ
      → Result (EventAppendResult E × Store E)
  unfolding terminal_replay terminal_new
  terminal_found none s status expected event source_key error now = err key_error
  terminal_found (some run) s status expected event source_key error now =
      let existing = find (has_source run.run_id (some source_key)) s.events in
      if status_eq run.status status
      then terminal_replay existing s run event error
      else if not (status_eq run.status expected)
      then err value_error
      else terminal_new existing s run status expected event source_key error now

  unfoldable pub terminalize :
      Store E
      → String
      → Terminal
      → E
      → String
      → Expected
      → Option Text
      → ℕ
      → Result (EventAppendResult E × Store E)
  unfolding get_run terminal_found
  terminalize s run_id terminal event source_key expected error now =
      let status = terminal_status terminal in
      if not (is_source_key source_key)
      then err value_error
      else if not (names_run type run_id event)
      then err value_error
      else if status_eq status completed && has_error error
      then err value_error
      else terminal_found (get_run s run_id) s status (expected_status expected) event source_key
          (bounded_error error) now
