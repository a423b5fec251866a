-- ===== src/Events/Tests.antt =====
-- Runs of the event store and of the replay, at which the theorems on them apply.
use adk_coding_agent.Prelude.{String, ◌≡◌, ◌↔◌, refl, Option, none, some, [], ◌∷◌}
use adk_coding_agent.Prelude.Keyed.{string_eq}
use adk_coding_agent.Prelude.Result.{ok, err, key_error}
use adk_coding_agent.Prelude.Sort.{insert, sort}
use adk_coding_agent.Task.Tests.{a_ledger}
use adk_coding_agent.Events.Model.{HarnessEvent}
use adk_coding_agent.Events.Store.{Files, read_events, read, append_found, append, write_line}
use adk_coding_agent.Events.Append.{IsStream, Numbered}
use adk_coding_agent.Events.Streams.{Reach, start, appended, Reach-AllStreams}
use adk_coding_agent.Events.Patch.{Confined, patched_fields-Confined}
use adk_coding_agent.Events.Reduce.{
  set_field, Value, items, scalar, Fields, LedgerPatch, Schema, Payload, reduce_event,
  patched_fields, apply_set_fields, apply_append_fields, apply_remove_values, rebuild_loop,
  rebuild_sorted, rebuild_ledger,
}
use adk_coding_agent.Events.Replay.{first_of_each, replay, rebuild_ledger-ok, rebuild_ledger-snoc}

abbrev to_path : String → String
to_path t = t

abbrev first_event : HarnessEvent String
first_event = record {
  event_id = "e1";
  task_id = "t1";
  sequence = 1;
  kind = "task.created";
  payload = "ledger";
  timestamp = 5;
  idempotency_key = some "create";
}

abbrev no_files : Files String
no_files p = []

abbrev one_file : Files String
one_file = write_line no_files "t1" first_event

first_append :
    append to_path no_files "t1" "task.created" "ledger" (some "create") "e1" 5
    ≡ ok (first_event, one_file)
unfolding append read read_events append_found
first_append = refl

abbrev one_append : Reach to_path one_file
one_append =
    appended no_files "t1" "task.created" "ledger" (some "create") "e1" 5 first_event one_file start
      first_append

Reach-AllStreams_example : IsStream (one_file "t1")
Reach-AllStreams_example = Reach-AllStreams to_path one_file one_append "t1"

-- A schema with one ledger, and payloads that are texts.
abbrev a_schema : Schema String
a_schema = record {
  model_fields = "blockers" ∷ "status" ∷ "phase" ∷ [];
  model_dump = λ l f. if_blockers f;
  model_validate = λ fields. ok a_ledger;
  text = λ s. s;
}
  where
    if_blockers : String → Option (Value String)
    if_blockers f = some (items [])

abbrev a_payload : Payload String String
a_payload = record { ledger = λ p. ok (λ f. none); reason = λ p. ok p; patch = λ p. err key_error }

abbrev second_event : HarnessEvent String
second_event = record {
  event_id = "e2";
  task_id = "t1";
  sequence = 2;
  kind = "task.blocked";
  payload = "no access";
  timestamp = 6;
  idempotency_key = none;
}

rebuilt : rebuild_ledger a_schema a_payload (first_event ∷ []) ≡ ok a_ledger
unfolding rebuild_ledger rebuild_sorted rebuild_loop reduce_event sort insert
rebuilt = refl

rebuild_ledger-ok_example :
    (rebuild_ledger a_schema a_payload (first_event ∷ first_event ∷ []) ≡ ok a_ledger) ↔ (
      Numbered 1 (first_event ∷ [])
      × (replay a_schema a_payload none (first_event ∷ []) ≡ ok (some a_ledger)))
unfolding first_of_each sort insert
rebuild_ledger-ok_example =
    rebuild_ledger-ok a_schema a_payload (first_event ∷ first_event ∷ []) a_ledger

rebuild_ledger-snoc_example :
    rebuild_ledger a_schema a_payload (first_event ∷ second_event ∷ [])
    ≡ reduce_event a_schema a_payload (some a_ledger) second_event
rebuild_ledger-snoc_example =
    rebuild_ledger-snoc a_schema a_payload (first_event ∷ []) second_event a_ledger (refl, tt)
      (refl, tt) refl refl rebuilt

abbrev a_patch : LedgerPatch String
a_patch = record {
  set_fields = ("status", scalar "active") ∷ [];
  append_fields = ("blockers", "x" ∷ "y" ∷ []) ∷ [];
  remove_values = ("blockers", "x" ∷ []) ∷ [];
}

abbrev patched : Fields String
patched =
    set_field
      (set_field (set_field (λ f. some (items [])) "status" (scalar "active")) "blockers"
        (items ("x" ∷ "y" ∷ [])))
      "blockers" (items ("y" ∷ []))

patched_fields-Confined_example :
    Confined
      ("blockers" ∷ "status" ∷ "phase" ∷ [])
      ("status" ∷ "blockers" ∷ "blockers" ∷ [])
      (λ f. some (items []))
      patched
unfolding patched_fields apply_set_fields apply_append_fields apply_remove_values
patched_fields-Confined_example =
    patched_fields-Confined ("blockers" ∷ "status" ∷ "phase" ∷ []) a_patch (λ f. some (items []))
      patched refl
