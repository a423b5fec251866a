-- ===== src/Events/Store.antt =====
-- `JsonlEventStore` of harness/state/event_store.py. A file is the list of the events on its lines, a
-- directory gives each path its file, and a missing file is empty. The path of a task's stream is the
-- SHA-256 of its id: an argument, of which nothing is asked. The id and the time of a new event are
-- arguments. A call that raises writes nothing. That a line reads back as the event it was written
-- from is taken for granted: it holds of texts without the Unicode line ends that `splitlines` cuts
-- at and JSON does not escape. Sequences start at 1, so `after_sequence` below 0 is as 0.
use adk_coding_agent.Prelude.{
  ℕ, ◌+◌, String, Bool, false, ◌&&◌, Option, none, some, List, [], ◌∷◌, ◌++◌, ltb, ◌==◌,
  if◌then◌else◌, last?, find, option_eq,
}
use adk_coding_agent.Prelude.Keyed.{Eq, string_eq}
use adk_coding_agent.Prelude.Result.{Result, ok, err, value_error, ◌>>=◌}
use adk_coding_agent.Events.Model.{HarnessEvent}

-- The file at each path.
abbrev pub Files : Type 0 → Type 0
Files P = String → List (HarnessEvent P)

module _ {P : Type 0} where
  -- The loop of `read` over the lines of a file.
  unfoldable pub read_events : String → ℕ → List (HarnessEvent P) → Result (List (HarnessEvent P))
  read_events task_id after_sequence [] = ok []
  read_events task_id after_sequence (event ∷ lines) =
      if event.task_id == task_id
      then (read_events task_id after_sequence lines >>= λ events.
          ok (if ltb after_sequence event.sequence then event ∷ events else events))
      else err value_error

  unfoldable pub read : (String → String) → Files P → String → ℕ → Result (List (HarnessEvent P))
  unfolding read_events
  read path files task_id after_sequence = read_events task_id after_sequence (files (path task_id))

  abbrev pub has_key : Option String → HarnessEvent P → Bool
  has_key none event = false
  has_key (some key) event = option_eq event.idempotency_key (some key)

  -- `existing[-1].sequence + 1 if existing else 1`
  abbrev pub next_sequence : List (HarnessEvent P) → ℕ
  next_sequence existing = elim (last? existing) [ none ↦ 1 | some event ↦ event.sequence + 1 ]

  -- The file system after a line is written at the end of one file.
  abbrev pub write_line : Files P → String → HarnessEvent P → Files P
  write_line files path event p = if p == path then files p ++ event ∷ [] else files p

module _ {P : Type 0} ⦃e : Eq P⦄ where
  abbrev pub same_content : HarnessEvent P → String → P → Bool
  same_content event kind payload = event.kind == kind && e.beq event.payload payload

  -- What `append` does with the event that its key finds in the stream, if there is one.
  unfoldable pub append_found :
      Option (HarnessEvent P)
      → Files P
      → String
      → HarnessEvent P
      → Result (HarnessEvent P × Files P)
  append_found none files path event = ok (event, write_line files path event)
  append_found (some previous) files path event =
      if same_content previous event.kind event.payload
      then ok (previous, files)
      else err value_error

  -- What `append` does once it has read the stream.
  abbrev pub append_to :
      List (HarnessEvent P) → Files P → String → HarnessEvent P → Result (HarnessEvent P × Files P)
  append_to existing files path event =
      append_found (find (has_key event.idempotency_key) existing) files path event

  unfoldable pub append :
      (String → String)
      → Files P
      → String
      → String
      → P
      → Option String
      → String
      → ℕ
      → Result (HarnessEvent P × Files P)
  unfolding read append_found
  append path files task_id kind payload idempotency_key event_id now =
      read path files task_id 0 >>= λ existing. append_to existing files (path task_id) (record {
        event_id = event_id;
        task_id = task_id;
        sequence = next_sequence existing;
        kind = kind;
        payload = payload;
        timestamp = now;
        idempotency_key = idempotency_key;
      })
