-- ===== src/Runs/Models.antt =====
-- `RunStatus`, `RunRecord` and their table of transitions (harness/server/registry.py), and
-- `ServerEnvelope` of harness/server/protocol.py. Ids and keys are strings; the input of a run and its
-- error, whose lengths are bounded, are texts; the metadata, a `dict[str, str]`, is the list of its
-- items in the order of the keys, as the column of the table holds it. Times are in microseconds.
use adk_coding_agent.Prelude.{
  ℕ, String, Bool, true, false, ◌&&◌, Option, none, some, List, [], ◌∷◌, leb, ◌==◌, if◌then◌else◌,
  length, take, ◌≡◌, ◌↔◌, arith,
}
use adk_coding_agent.Prelude.Text.{Text, codes, text_eq, text_eq_iff}

pub data RunStatus : Type 0 where
  queued running completed cancelled failed : RunStatus

abbrev pub status_eq : RunStatus → RunStatus → Bool
status_eq queued queued = true
status_eq running running = true
status_eq completed completed = true
status_eq cancelled cancelled = true
status_eq failed failed = true
status_eq _ _ = false

-- `_ALLOWED_STATUS_TRANSITIONS`, as a test.
abbrev pub is_allowed : RunStatus → RunStatus → Bool
is_allowed queued running = true
is_allowed queued cancelled = true
is_allowed queued failed = true
is_allowed running completed = true
is_allowed running cancelled = true
is_allowed running failed = true
is_allowed _ _ = false

-- `status IN ('queued', 'running')`
abbrev pub is_active : RunStatus → Bool
is_active queued = true
is_active running = true
is_active _ = false

-- `status in {"queued", "running", "completed"}`
abbrev pub bears_no_error : RunStatus → Bool
bears_no_error cancelled = false
bears_no_error failed = false
bears_no_error _ = true

abbrev pub Metadata : Type 0
Metadata = List (String × String)

-- `metadata.get(key)`
abbrev pub get_item : String → Metadata → Option String
get_item key [] = none
get_item key ((k, v) ∷ items) = if k == key then some v else get_item key items

abbrev pub metadata_eq : Metadata → Metadata → Bool
metadata_eq [] [] = true
metadata_eq ((k, v) ∷ m) ((l, w) ∷ n) = k == l && v == w && metadata_eq m n
metadata_eq _ _ = false

pub record RunRecord : Type 0 where
  pub run_id : String
  pub request_id : String
  pub idempotency_key : String
  pub thread_id : String
  pub user_id : String
  pub session_id : String
  pub invocation_id : String
  pub input : Text
  pub input_sha256 : String
  pub metadata : Metadata
  pub status : RunStatus
  pub error : Option Text
  pub created_at : ℕ
  pub updated_at : ℕ

-- `Field(min_length=1, max_length=bound)`
abbrev pub is_between : ℕ → Text → Bool
is_between bound text = leb 1 (length text) && leb (length text) bound

abbrev pub is_id : String → Bool
is_id s = is_between 256 (codes s)

-- What pydantic asks of a new run. The two digests have the lengths that are asked of them.
unfoldable pub is_valid_run : RunRecord → Bool
is_valid_run r =
    is_id r.request_id
    && is_id r.idempotency_key
    && is_id r.thread_id
    && is_id r.user_id
    && is_id r.session_id
    && is_id r.invocation_id
    && is_between 50000 r.input

-- `error[:4_096]`, when there is one.
abbrev pub bounded_error : Option Text → Option Text
bounded_error none = none
bounded_error (some error) = some (take 4096 error)

abbrev pub has_error : Option Text → Bool
has_error none = false
has_error (some error) = true

abbrev pub error_eq : Option Text → Option Text → Bool
error_eq none none = true
error_eq (some a) (some b) = text_eq a b
error_eq _ _ = false

pub error_eq_iff : (a b : Option Text) → (error_eq a b ≡ true) ↔ (a ≡ b)
error_eq_iff none none = ground arith
error_eq_iff none (some b) = ground arith
error_eq_iff (some a) none = ground arith
error_eq_iff (some a) (some b) = ground (arith, text_eq_iff a b)

-- `given or default`
abbrev pub given_or : Option String → String → String
given_or none default = default
given_or (some given) default = if given == "" then default else given

-- An event is of a type of which the code knows equality and the run it names, if any.
pub record EventType (E : Type 0) : Type 0 where
  pub beq : E → E → Bool
  pub beq_iff : (a b : E) → (beq a b ≡ true) ↔ (a ≡ b)
  pub run_id : E → Option String

-- The registry gives every envelope a session and an invocation.
pub record ServerEnvelope (E : Type 0) : Type 0 where
  pub sequence : ℕ
  pub run_id : String
  pub session_id : String
  pub invocation_id : String
  pub durable : Bool
  pub event : E

pub record EventAppendResult (E : Type 0) : Type 0 where
  pub envelope : ServerEnvelope E
  pub created : Bool
