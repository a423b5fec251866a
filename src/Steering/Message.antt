-- ===== src/Steering/Message.antt =====
-- The message of harness/state/steering.py and its validation.
use Prim.Native.String.{count}
use adk_coding_agent.Prelude.{
  ℕ, String, Bool, true, false, ◌&&◌, Option, none, leb, ltb, if◌then◌else◌, length,
}
use adk_coding_agent.Prelude.Int.{ℤ, pos, negsuc, int_le}
use adk_coding_agent.Prelude.Result.{Result, ok, err, validation_error, ◌>>=◌, ◌>>◌, require}
use adk_coding_agent.Prelude.Text.{Text, strip, utf8_length}

abbrev pub max_steering_message_bytes : ℕ
max_steering_message_bytes = 4096

abbrev pub steering_batch_limit : ℕ
steering_batch_limit = 4

pub data Status : Type 0 where
  queued leased acked : Status

abbrev pub status_eq : Status → Status → Bool
status_eq queued queued = true
status_eq leased leased = true
status_eq acked acked = true
status_eq _ _ = false

pub record Message : Type 0 where
  pub message_id : String
  pub task_id : String
  pub content : Text
  pub priority : ℤ
  pub created_at : ℕ
  pub status : Status
  pub lease_owner : Option String
  pub lease_until : Option ℕ

-- `min_length=1` of the field, then the field validator: the stripped text, not blank, in bounds.
unfoldable pub validate_content : Text → Result Text
validate_content value =
    if ltb 0 (length value)
    then (let normalized = strip value in
        do
          require (ltb 0 (length normalized)) validation_error
          require (leb (utf8_length normalized) max_steering_message_bytes) validation_error
          ok normalized)
    else err validation_error

-- `Field(ge=-1_000, le=1_000)`
abbrev pub priority_in_range : ℤ → Bool
priority_in_range priority = int_le (negsuc 999) priority && int_le priority (pos 1000)

-- `Field(min_length=1, max_length=n)`, in characters.
abbrev pub id_in_range : ℕ → String → Bool
id_in_range n s = leb 1 (count s) && leb (count s) n

-- The constructor `SteeringMessage(...)` of a queued message.
unfoldable pub new_message : String → String → Text → ℤ → ℕ → Result Message
unfolding validate_content
new_message message_id task_id content priority created_at = do
  require (id_in_range 128 message_id && id_in_range 256 task_id) validation_error
  text ← validate_content content
  require (priority_in_range priority) validation_error
  ok (record {
    message_id = message_id;
    task_id = task_id;
    content = text;
    priority = priority;
    created_at = created_at;
    status = queued;
    lease_owner = none;
    lease_until = none;
  })
