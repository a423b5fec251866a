-- ===== src/Ledger/Tests.antt =====
-- Runs of the ledger, at which the theorems on it apply.
use adk_coding_agent.Prelude.{ℕ, String, ◌≡◌, refl, none, some, List, [], ◌∷◌}
use adk_coding_agent.Prelude.Keyed.{string_eq}
use adk_coding_agent.Prelude.Result.{ok, err, value_error}
use adk_coding_agent.Ledger.Models.{EventStatus, EffectStatus, LedgerEvent, Entry}
use adk_coding_agent.Ledger.Store.{Digests, append, find_previous, write, new_event, erase_task}
use adk_coding_agent.Ledger.Numbering.{IsLedger, start, appended, erased, Reach-IsLedger}

abbrev digests : Digests String
digests = record { event_id = λ task key. key; payload_hash = λ p. p }

abbrev an_entry : String → String → Entry String
an_entry task id = record {
  task_id = task;
  source = "tool";
  source_id = id;
  kind = "action";
  payload = "run";
  status = EventStatus.completed;
  effect = EffectStatus.applied;
  observed_at = some 3;
  correlation_id = none;
  parent_event_id = none;
  idempotency_key = some id;
  recorded_at = none;
}

abbrev an_event : String → String → ℕ → ℕ → LedgerEvent String
an_event task id sequence now = record {
  event_id = id;
  task_id = task;
  sequence = sequence;
  source = "tool";
  source_id = id;
  kind = "action";
  status = EventStatus.completed;
  effect = EffectStatus.applied;
  observed_at = 3;
  recorded_at = now;
  correlation_id = none;
  parent_event_id = none;
  payload = "run";
  payload_hash = "run";
  idempotency_key = id;
}

abbrev two_events : List (LedgerEvent String)
two_events = an_event "t1" "c1" 1 7 ∷ an_event "t2" "c2" 1 8 ∷ []

append_first :
    append digests [] (an_entry "t1" "c1") 7
    ≡ ok (an_event "t1" "c1" 1 7, an_event "t1" "c1" 1 7 ∷ [])
unfolding append find_previous write new_event
append_first = refl

append_second :
    append digests (an_event "t1" "c1" 1 7 ∷ []) (an_entry "t2" "c2") 8
    ≡ ok (an_event "t2" "c2" 1 8, two_events)
unfolding append find_previous write new_event
append_second = refl

source_reused : append digests two_events (an_entry "t1" "c2") 9 ≡ err value_error
unfolding append find_previous write new_event
source_reused = refl

Reach-IsLedger_example : IsLedger (erase_task two_events "t2").1
Reach-IsLedger_example = Reach-IsLedger digests (erase_task two_events "t2").1 (
    erased two_events "t2" (
      appended (an_event "t1" "c1" 1 7 ∷ []) (an_entry "t2" "c2") 8 (an_event "t2" "c2" 1 8)
        two_events
        (appended [] (an_entry "t1" "c1") 7 (an_event "t1" "c1" 1 7) (an_event "t1" "c1" 1 7 ∷ [])
          start append_first)
        append_second))
