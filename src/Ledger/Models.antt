-- ===== src/Ledger/Models.antt =====
-- `LedgerEvent` of harness/ledger/models.py, and the arguments of `JsonlLedgerStore.append`. The
-- payload, a `dict[str, Any]`, is of any type; the times are in microseconds.
use Prim.Native.String.{◌++◌}
use adk_coding_agent.Prelude.{ℕ, String, Bool, ◌&&◌, Option, leb, ◌==◌, if◌then◌else◌}

pub data EventStatus : Type 0 where
  observed requested started completed failed blocked timeout «open» : EventStatus

pub data EffectStatus : Type 0 where
  none intended applied not_applied unknown : EffectStatus

abbrev pub status_number : EventStatus → ℕ
status_number observed = 0
status_number requested = 1
status_number started = 2
status_number completed = 3
status_number failed = 4
status_number blocked = 5
status_number timeout = 6
status_number «open» = 7

abbrev pub effect_number : EffectStatus → ℕ
effect_number EffectStatus.none = 0
effect_number intended = 1
effect_number applied = 2
effect_number not_applied = 3
effect_number unknown = 4

abbrev pub same_number : ℕ → ℕ → Bool
same_number a b = leb a b && leb b a

pub record LedgerEvent (P : Type 0) : Type 0 where
  pub event_id : String
  pub task_id : String
  pub sequence : ℕ
  pub source : String
  pub source_id : String
  pub kind : String
  pub status : EventStatus
  pub effect : EffectStatus
  pub observed_at : ℕ
  pub recorded_at : ℕ
  pub correlation_id : Option String
  pub parent_event_id : Option String
  pub payload : P
  pub payload_hash : String
  pub idempotency_key : String

-- The arguments of `append`.
pub record Entry (P : Type 0) : Type 0 where
  pub task_id : String
  pub source : String
  pub source_id : String
  pub kind : String
  pub payload : P
  pub status : EventStatus
  pub effect : EffectStatus
  pub observed_at : Option ℕ
  pub correlation_id : Option String
  pub parent_event_id : Option String
  pub idempotency_key : Option String
  pub recorded_at : Option ℕ

-- `idempotency_key or f"{source}:{source_id}"`
abbrev pub key_or : Option String → String → String
key_or Option.none default = default
key_or (Option.some key) default = if key == "" then default else key

abbrev pub key_of : {P : Type 0} → Entry P → String
key_of entry = key_or entry.idempotency_key (entry.source ++ (":" ++ entry.source_id))
