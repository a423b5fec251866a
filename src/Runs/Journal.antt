-- ===== src/Runs/Journal.antt =====
-- `DurableRunEventJournal` (harness/server/registry.py): an event is committed before it is published,
-- and only by the call that inserted it. The store and the broker are the state.
use adk_coding_agent.Prelude.{ℕ, String, Bool, Option, List, [], ◌∷◌, if◌then◌else◌}
use adk_coding_agent.Prelude.Result.{Result, ok, ◌>>=◌}
use adk_coding_agent.Prelude.Text.{Text}
use adk_coding_agent.Runs.Models.{EventType, ServerEnvelope, EventAppendResult}
use adk_coding_agent.Runs.Store.{Store}
use adk_coding_agent.Runs.Append.{append_event_with_outcome, append_events_with_outcomes, envelopes}
use adk_coding_agent.Runs.Terminal.{Terminal, Expected, terminalize}
use adk_coding_agent.Runs.Broker.{Broker, publish}

module _ {E : Type 0} where
  -- `if result.created: self.broker.publish(result.envelope)`
  abbrev pub publish_created : Broker E → EventAppendResult E → Broker E
  publish_created b result = if result.created then (publish b result.envelope).1 else b

  -- The loop over the results of a batch.
  unfoldable pub publish_results : Broker E → List (EventAppendResult E) → Broker E
  publish_results b [] = b
  publish_results b (result ∷ results) = publish_results (publish_created b result) results

  -- The envelopes of the events that a call inserted.
  abbrev pub created_envelopes : List (EventAppendResult E) → List (ServerEnvelope E)
  created_envelopes [] = []
  created_envelopes (result ∷ results) =
      let rest = created_envelopes results in
      if result.created then result.envelope ∷ rest else rest

module _ {E : Type 0} (type : EventType E) where
  unfoldable pub journal_append :
      Store E
      → Broker E
      → String
      → List E
      → Bool
      → Option String
      → Option String
      → Option (List (Option String))
      → ℕ
      → Result (List (ServerEnvelope E) × Store E × Broker E)
  unfolding publish_results
  journal_append s b run_id events durable session_id invocation_id keys now =
      append_events_with_outcomes type s run_id events durable session_id invocation_id keys now
      >>= λ (results, after). ok (envelopes results, after, publish_results b results)

  unfoldable pub journal_append_event :
      Store E
      → Broker E
      → String
      → E
      → Bool
      → Option String
      → Option String
      → Option String
      → ℕ
      → Result (ServerEnvelope E × Store E × Broker E)
  journal_append_event s b run_id event durable session_id invocation_id key now =
      append_event_with_outcome type s run_id event durable session_id invocation_id key now
      >>= λ (result, after). ok (result.envelope, after, publish_created b result)

  unfoldable pub journal_terminalize :
      Store E
      → Broker E
      → String
      → Terminal
      → E
      → String
      → Expected
      → Option Text
      → ℕ
      → Result (ServerEnvelope E × Store E × Broker E)
  journal_terminalize s b run_id terminal event source_key expected error now =
      terminalize type s run_id terminal event source_key expected error now >>= λ (result, after).
      ok (result.envelope, after, publish_created b result)
