-- ===== src/Approvals/Contracts.antt =====
-- harness/approvals/contracts.py: requests and decisions, and the validation of their fields.
use Prim.Native.String.{count}
use adk_coding_agent.Prelude.{ℕ, String, Bool, true, false, ◌&&◌, Option, none, some, leb}
use adk_coding_agent.Prelude.Result.{Result, ok, err, validation_error, ◌>>=◌, ◌>>◌, require}

-- What `datetime.fromisoformat` makes of a text, and what a clock may return: a UTC instant in
-- microseconds, or a time with no timezone.
pub data Timestamp : Type 0 where
  aware : ℕ → Timestamp
  naive : ℕ → Timestamp
  unparsable : Timestamp

pub data Status : Type 0 where
  pending approved denied expired : Status

abbrev pub status_eq : Status → Status → Bool
status_eq pending pending = true
status_eq approved approved = true
status_eq denied denied = true
status_eq expired expired = true
status_eq _ _ = false

-- `Literal["approved", "denied"]`
pub data Verdict : Type 0 where
  approve deny : Verdict

abbrev pub status_of : Verdict → Status
status_of approve = approved
status_of deny = denied

pub record Submission : Type 0 where
  pub task_id : String
  pub fingerprint : String
  pub operation : String
  pub risk : String
  pub reason : String
  pub expires_at : Option Timestamp

pub record Request : Type 0 where
  pub request_id : String
  pub task_id : String
  pub fingerprint : String
  pub operation : String
  pub risk : String
  pub reason : String
  pub expires_at : Option ℕ
  pub status : Status
  pub requested_at : ℕ
  pub decided_at : Option ℕ
  pub decided_by : Option String
  pub decision_note : Option String

pub record Decision : Type 0 where
  pub request_id : String
  pub decision : Verdict
  pub actor : String
  pub note : Option String

-- `_normalized_timestamp`
unfoldable pub normalized_timestamp : Option Timestamp → Result (Option ℕ)
normalized_timestamp none = ok none
normalized_timestamp (some (aware t)) = ok (some t)
normalized_timestamp (some (naive t)) = err validation_error
normalized_timestamp (some unparsable) = err validation_error

abbrev pub is_present : String → Bool
is_present s = leb 1 (count s)

-- The constructor `ApprovalRequest(...)` of a submission.
unfoldable pub new_request : String → Submission → ℕ → Result Request
unfolding normalized_timestamp
new_request request_id s requested_at = do
  require
      (is_present s.task_id
        && is_present s.fingerprint
        && is_present s.operation
        && is_present s.risk
        && is_present s.reason)
      validation_error
  expires_at ← normalized_timestamp s.expires_at
  ok (record {
    request_id = request_id;
    task_id = s.task_id;
    fingerprint = s.fingerprint;
    operation = s.operation;
    risk = s.risk;
    reason = s.reason;
    expires_at = expires_at;
    status = pending;
    requested_at = requested_at;
    decided_at = none;
    decided_by = none;
    decision_note = none;
  })

-- The constructor `ApprovalDecision(...)`.
unfoldable pub new_decision : String → Verdict → String → Option String → Result Decision
new_decision request_id decision actor note = do
  require (is_present request_id && is_present actor) validation_error
  ok (record { request_id = request_id; decision = decision; actor = actor; note = note })
