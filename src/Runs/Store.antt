-- ===== src/Runs/Store.antt =====
-- The runs of `SqliteRunEventStore` (harness/server/registry.py). The state has the rows of its two
-- tables in the order of insertion, and the calls of its two sinks so far. A method that raises leaves
-- it as it was. The digests of a run and of its input, SHA-256, are arguments, as is the time. A new
-- database has the column `input`; `initialize` says what becomes of the rows of an older one.
use adk_coding_agent.Prelude.{
  ℕ, String, Bool, true, false, not, ◌&&◌, ◌||◌, Option, none, some, List, [], ◌∷◌, ◌++◌, map, leb,
  eqb, ◌==◌, if◌then◌else◌, length, filter, find, any, option_eq,
}
use adk_coding_agent.Prelude.Keyed.{string_eq, find_by}
use adk_coding_agent.Prelude.Result.{
  Result, ok, err, value_error, key_error, integrity_error, assertion_error, validation_error,
}
use adk_coding_agent.Prelude.Sort.{sort}
use adk_coding_agent.Prelude.Table.{update_where}
use adk_coding_agent.Prelude.Text.{Text, codes, text_eq}
use adk_coding_agent.Runs.Models.{
  RunStatus, queued, failed, status_eq, is_allowed, is_active, bears_no_error, Metadata, get_item,
  metadata_eq, RunRecord, is_valid_run, bounded_error, has_error, error_eq, given_or,
  ServerEnvelope,
}

pub record EventRow (E : Type 0) : Type 0 where
  pub run_id : String
  pub sequence : ℕ
  pub source_key : Option String
  pub envelope : ServerEnvelope E
  pub created_at : ℕ

pub record Store (E : Type 0) : Type 0 where
  pub runs : List RunRecord
  pub events : List (EventRow E)
  pub run_sink : List RunRecord
  pub event_sink : List (ServerEnvelope E)

pub record Digests : Type 0 where
  pub run_id : String → String → String
  pub input_sha256 : Text → String

-- The arguments of `create_run`.
pub record Creation : Type 0 where
  pub request_id : String
  pub idempotency_key : String
  pub thread_id : String
  pub user_id : String
  pub input : Text
  pub metadata : Metadata
  pub session_id : Option String
  pub invocation_id : Option String

unfoldable pub candidate_of : Digests → Creation → ℕ → RunRecord
candidate_of digests c now = record {
  run_id = digests.run_id c.user_id c.idempotency_key;
  request_id = c.request_id;
  idempotency_key = c.idempotency_key;
  thread_id = c.thread_id;
  user_id = c.user_id;
  session_id = given_or c.session_id c.thread_id;
  invocation_id = given_or c.invocation_id (digests.run_id c.user_id c.idempotency_key);
  input = c.input;
  input_sha256 = digests.input_sha256 c.input;
  metadata = c.metadata;
  status = queued;
  error = none;
  created_at = now;
  updated_at = now;
}

abbrev pub same_key : RunRecord → RunRecord → Bool
same_key candidate r =
    r.user_id == candidate.user_id && r.idempotency_key == candidate.idempotency_key

abbrev pub same_parameters : RunRecord → RunRecord → Bool
same_parameters existing candidate =
    existing.thread_id == candidate.thread_id
    && existing.session_id == candidate.session_id
    && existing.invocation_id == candidate.invocation_id
    && text_eq existing.input candidate.input
    && existing.input_sha256 == candidate.input_sha256
    && metadata_eq existing.metadata candidate.metadata

abbrev pub same_session : RunRecord → RunRecord → Bool
same_session candidate r = r.user_id == candidate.user_id && r.session_id == candidate.session_id

-- `ORDER BY created_at DESC`
abbrev pub latest_first : RunRecord → RunRecord → Bool
latest_first a b = leb b.created_at a.created_at

abbrev pub head? : List RunRecord → Option RunRecord
head? [] = none
head? (r ∷ rows) = some r

-- `previous.get(binding) == candidate.metadata.get(binding)`
abbrev pub same_binding : String → RunRecord → RunRecord → Bool
same_binding binding previous candidate =
    option_eq (get_item binding previous.metadata) (get_item binding candidate.metadata)

unfoldable pub is_bound_elsewhere : Option RunRecord → RunRecord → Bool
is_bound_elsewhere none candidate = false
is_bound_elsewhere (some previous) candidate =
    not (same_binding "coding.workspace_identity" previous candidate)
    || not (same_binding "coding.harness_implementation" previous candidate)

abbrev pub set_status : RunStatus → Option Text → ℕ → RunRecord → RunRecord
set_status status error now r = record r { status = status; error = error; updated_at = now }

-- `expected_status is not None and previous != expected_status`
abbrev pub is_unexpected : Option RunStatus → RunStatus → Bool
is_unexpected none previous = false
is_unexpected (some expected) previous = not (status_eq previous expected)

-- `_LEGACY_INPUT` and `_LEGACY_INPUT_ERROR`
abbrev pub legacy_input : Text
legacy_input = codes "[legacy run input unavailable]"

abbrev pub legacy_input_error : Text
legacy_input_error = codes "run cannot resume because its input predates durable input storage"

module _ {E : Type 0} where
  -- `get_run`
  unfoldable pub get_run : Store E → String → Option RunRecord
  get_run s run_id = find_by (λ (r : RunRecord). r.run_id) run_id s.runs

  unfoldable pub active_run_ids : Store E → List String
  active_run_ids s =
      map (λ (r : RunRecord). r.run_id) (filter (λ (r : RunRecord). is_active r.status) s.runs)

  -- The `INSERT`, which the primary key may refuse, and the run that is read back.
  unfoldable pub insert_run : Store E → RunRecord → Result (RunRecord × Bool × Store E)
  insert_run s candidate =
      if any (λ (r : RunRecord). r.run_id == candidate.run_id) s.runs
      then err integrity_error
      else ok (
        candidate,
        true,
        record s { runs = s.runs ++ candidate ∷ []; run_sink = s.run_sink ++ candidate ∷ [] },
      )

  -- `create_run` once the row of the idempotency key is looked up.
  unfoldable pub create_found :
      Option RunRecord → Store E → RunRecord → Result (RunRecord × Bool × Store E)
  unfolding insert_run
  create_found (some existing) s candidate =
      if same_parameters existing candidate then ok (existing, false, s) else err value_error
  create_found none s candidate =
      if any (λ r. same_session candidate r && is_active r.status) s.runs
      then err value_error
      else if is_bound_elsewhere
          (head? (sort latest_first (filter (same_session candidate) s.runs))) candidate
      then err value_error
      else insert_run s candidate

  unfoldable pub create_run : Digests → Store E → Creation → ℕ → Result (RunRecord × Bool × Store E)
  unfolding candidate_of create_found
  create_run digests s c now =
      let candidate = candidate_of digests c now in
      if is_valid_run candidate
      then create_found (find (same_key candidate) s.runs) s candidate
      else err validation_error

  -- The run that is read back, which the code asserts to be there.
  abbrev pub read_back : Option RunRecord → Store E → Result (RunRecord × Store E)
  read_back none s = err assertion_error
  read_back (some r) s = ok (r, record s { run_sink = s.run_sink ++ r ∷ [] })

  -- The `UPDATE` of `update_status`, its count of rows and what follows.
  unfoldable pub advance :
      Store E → String → RunStatus → RunStatus → Option Text → ℕ → Result (RunRecord × Store E)
  unfolding get_run
  advance s run_id previous status error now =
      let is_row = λ (r : RunRecord). r.run_id == run_id && status_eq r.status previous in
      let updated = record s { runs = update_where is_row (set_status status error now) s.runs } in
      if eqb (length (filter is_row s.runs)) 1
      then read_back (get_run updated run_id) updated
      else err value_error

  -- `update_status` once the run is looked up.
  unfoldable pub update_found :
      Option RunRecord
      → Store E
      → RunStatus
      → Option Text
      → Option RunStatus
      → ℕ
      → Result (RunRecord × Store E)
  unfolding advance
  update_found none s status error expected now = err key_error
  update_found (some r) s status error expected now =
      if is_unexpected expected r.status
      then err value_error
      else if status_eq status r.status
      then (if error_eq error r.error then ok (r, s) else err value_error)
      else if is_allowed r.status status
      then advance s r.run_id r.status status error now
      else err value_error

  unfoldable pub update_status :
      Store E
      → String
      → RunStatus
      → Option Text
      → Option RunStatus
      → ℕ
      → Result (RunRecord × Store E)
  unfolding get_run update_found
  update_status s run_id status error expected now =
      if bears_no_error status && has_error error
      then err value_error
      else update_found (get_run s run_id) s status (bounded_error error) expected now

  -- The rows of a database, once it is opened: where the table of the runs had no column `input`, each
  -- run gets a text in its place, and those that were active have failed.
  unfoldable pub initialize : Bool → Store E → ℕ → Store E
  initialize has_input s now = if has_input then s else record s {
    runs =
        update_where (λ (r : RunRecord). is_active r.status)
          (set_status failed (some legacy_input_error) now)
          (map (λ (r : RunRecord). record r { input = legacy_input }) s.runs);
  }
