-- ===== src/Ledger/Store.antt =====
-- `JsonlLedgerStore` of harness/ledger/jsonl.py. The file is the list of the events on its lines; that
-- a line reads back as the event it was written from is taken for granted, and holds of texts without
-- the Unicode line ends that `splitlines` cuts at and JSON does not escape. A payload is of a type of
-- which the code knows equality; the id of an event and the hash of a payload, SHA-256 digests, are
-- arguments, as are the times. A call that raises writes nothing.
use adk_coding_agent.Prelude.{
  ℕ, ◌+◌, ◌-◌, String, Bool, true, not, ◌&&◌, ◌||◌, Option, none, some, List, [], ◌∷◌, ◌++◌, ltb,
  leb, ◌==◌, if◌then◌else◌, last?, filter, take, length,
}
use adk_coding_agent.Prelude.Keyed.{Eq, string_eq, mem_key}
use adk_coding_agent.Prelude.Int.{ℤ, pos_part}
use adk_coding_agent.Prelude.Result.{Result, ok, err, value_error, ◌>>=◌}
use adk_coding_agent.Ledger.Models.{
  LedgerEvent, Entry, key_of, status_number, effect_number, same_number,
}

-- The digests that a new event carries, as functions: of the task and the key, and of the payload.
pub record Digests (P : Type 0) : Type 0 where
  pub event_id : String → String → String
  pub payload_hash : P → String

-- `time or datetime.now(UTC)`
abbrev pub time_or : Option ℕ → ℕ → ℕ
time_or none now = now
time_or (some t) now = t

module _ {P : Type 0} where
  abbrev pub of_task : String → LedgerEvent P → Bool
  of_task task event = event.task_id == task

  -- `task_events[-1].sequence + 1 if task_events else 1`
  abbrev pub next_sequence : List (LedgerEvent P) → ℕ
  next_sequence task_events = elim (last? task_events) [
    | none ↦ 1
    | some event ↦ event.sequence + 1
  ]

  unfoldable pub new_event : Digests P → List (LedgerEvent P) → Entry P → String → ℕ → LedgerEvent P
  new_event digests events entry key now = record {
    event_id = digests.event_id entry.task_id key;
    task_id = entry.task_id;
    sequence = next_sequence (filter (of_task entry.task_id) events);
    source = entry.source;
    source_id = entry.source_id;
    kind = entry.kind;
    status = entry.status;
    effect = entry.effect;
    observed_at = time_or entry.observed_at now;
    recorded_at = time_or entry.recorded_at now;
    correlation_id = entry.correlation_id;
    parent_event_id = entry.parent_event_id;
    payload = entry.payload;
    payload_hash = digests.payload_hash entry.payload;
    idempotency_key = key;
  }

  -- `read`, with the kinds as a list; no kinds select all.
  abbrev pub selected : String → ℤ → Option ℕ → List String → LedgerEvent P → Bool
  selected task_id after_sequence as_of kinds event =
      event.task_id == task_id
      && ltb (pos_part after_sequence) event.sequence
      && (elim as_of [ none ↦ true | some t ↦ leb event.observed_at t ])
      && (elim kinds [ [] ↦ true | k ∷ ks ↦ mem_key event.kind (k ∷ ks) ])

  unfoldable pub read :
      List (LedgerEvent P) → String → ℤ → Option ℕ → List String → ℤ → List (LedgerEvent P)
  read events task_id after_sequence as_of kinds limit =
      take (pos_part limit) (filter (selected task_id after_sequence as_of kinds) events)

  -- `erase_task`, with the number of the events that it removes.
  unfoldable pub erase_task : List (LedgerEvent P) → String → ℕ × List (LedgerEvent P)
  erase_task events task_id =
      let kept = filter (λ event. not (of_task task_id event)) events in
      (length events - length kept, kept)

  unfoldable pub write :
      Option (LedgerEvent P)
      → LedgerEvent P
      → List (LedgerEvent P)
      → LedgerEvent P × List (LedgerEvent P)
  write none event events = (event, events ++ event ∷ [])
  write (some previous) event events = (previous, events)

module _ {P : Type 0} ⦃e : Eq P⦄ where
  -- The source's event belongs to another task or key.
  abbrev pub reused : LedgerEvent P → Entry P → String → Bool
  reused previous entry key =
      previous.source == entry.source
      && previous.source_id == entry.source_id
      && (not (previous.task_id == entry.task_id) || not (previous.idempotency_key == key))

  abbrev pub same_key : LedgerEvent P → Entry P → String → Bool
  same_key previous entry key = previous.task_id == entry.task_id && previous.idempotency_key == key

  abbrev pub same_content : LedgerEvent P → Entry P → Bool
  same_content previous entry =
      previous.source == entry.source
      && previous.source_id == entry.source_id
      && previous.kind == entry.kind
      && same_number (status_number previous.status) (status_number entry.status)
      && same_number (effect_number previous.effect) (effect_number entry.effect)
      && e.beq previous.payload entry.payload

  -- The loop of `append` over the events: the event that it returns, none, or what it raises.
  unfoldable pub find_previous :
      List (LedgerEvent P) → Entry P → String → Result (Option (LedgerEvent P))
  find_previous [] entry key = ok none
  find_previous (previous ∷ events) entry key =
      if reused previous entry key
      then err value_error
      else if same_key previous entry key
      then (if same_content previous entry then ok (some previous) else err value_error)
      else find_previous events entry key

  unfoldable pub append :
      Digests P → List (LedgerEvent P) → Entry P → ℕ → Result (LedgerEvent P × List (LedgerEvent P))
  unfolding find_previous write new_event
  append digests events entry now =
      let key = key_of entry in
      find_previous events entry key >>= λ previous.
      ok (write previous (new_event digests events entry key now) events)
