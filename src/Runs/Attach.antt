-- ===== src/Runs/Attach.antt =====
-- `attach` and `acknowledge` of `RunCoordinator` (harness/server/runtime.py). A client that attaches
-- reads the events of a run page by page, others acting in between, and then those that its
-- subscription receives. The states of the store at the pages are a list, and so is what the
-- subscription gives; where a list is at its end the client waits. What is yielded before the end,
-- an exception included, is part of the result. Whether an event ends the stream is a test of its type.
use adk_coding_agent.Prelude.{
  ℕ, String, Bool, not, Option, none, some, List, [], ◌∷◌, ◌++◌, ◌==◌, if◌then◌else◌,
}
use adk_coding_agent.Prelude.Int.{ℤ, pos, int_le}
use adk_coding_agent.Prelude.Result.{Error, Result, ok, err, key_error, value_error, ◌>>=◌}
use adk_coding_agent.Runs.Models.{RunRecord, is_active, ServerEnvelope}
use adk_coding_agent.Runs.Store.{Store, get_run}
use adk_coding_agent.Runs.Replay.{ReplayPage, replay_page, replay}
use adk_coding_agent.Runs.Broker.{Received, received, stopped, backpressure, nothing}

-- How a part of the stream ends.
pub data End : Type 0 where
  caught_up : ℤ → End
  ended overflowed waits : End
  raises : Error → End

pub record Stored (E : Type 0) : Type 0 where
  pub at_pages : List (Store E)
  pub at_status : Store E
  pub at_tail : Store E

-- The record of a run that is the user's.
unfoldable pub owned : Option RunRecord → String → Result RunRecord
owned none user_id = err key_error
owned (some run) user_id = if run.user_id == user_id then ok run else err key_error

-- The high water of the first page stays.
abbrev pub kept_high : Option ℤ → ℕ → ℤ
kept_high none observed = pos observed
kept_high (some high) observed = high

module _ {E : Type 0} where
  unfoldable pub owned_run : Store E → String → String → Result RunRecord
  unfolding get_run owned
  owned_run s run_id user_id = owned (get_run s run_id) user_id

  -- `for envelope in page.events: cursor = envelope.sequence`
  abbrev pub last_sequence : ℤ → List (ServerEnvelope E) → ℤ
  last_sequence cursor [] = cursor
  last_sequence cursor (e ∷ events) = last_sequence (pos e.sequence) events

  -- One turn of the loop over the pages, with the turns after it.
  abbrev pub turn :
      ℤ
      → Result (ReplayPage E)
      → (ReplayPage E → List (ServerEnvelope E) × End)
      → List (ServerEnvelope E) × End
  turn cursor (err e) rest = ([], raises e)
  turn cursor (ok page) rest =
      if page.has_more
      then (page.events ++ (rest page).0, (rest page).1)
      else (page.events, caught_up (last_sequence cursor page.events))

  -- The loop over the pages.
  unfoldable pub catch_up : List (Store E) → String → ℤ → Option ℤ → List (ServerEnvelope E) × End
  unfolding replay_page
  catch_up [] run_id cursor high = ([], waits)
  catch_up (s ∷ stores) run_id cursor high =
      turn cursor (replay_page s run_id cursor (pos 1000) high) (λ page.
        catch_up stores run_id (last_sequence cursor page.events)
          (some (kept_high high page.high_water_sequence)))

  -- The loop over what the subscription gives.
  unfoldable pub live : (E → Bool) → ℤ → List (Received E) → List (ServerEnvelope E) × End
  live is_final cursor [] = ([], waits)
  live is_final cursor (stopped ∷ items) = ([], ended)
  live is_final cursor (backpressure ∷ items) = ([], overflowed)
  live is_final cursor (nothing ∷ items) = live is_final cursor items
  live is_final cursor (received e ∷ items) =
      let skipped = live is_final cursor items in
      let rest = live is_final (pos e.sequence) items in
      if int_le (pos e.sequence) cursor
      then skipped
      else if is_final e.event
      then (e ∷ [], ended)
      else (e ∷ rest.0, rest.1)

  abbrev pub tail_of : Result (List (ServerEnvelope E)) → List (ServerEnvelope E) × End
  tail_of (err e) = ([], raises e)
  tail_of (ok events) = (events, ended)

  -- What an exception leaves of the generator.
  abbrev pub or_raise :
      Result RunRecord → (RunRecord → List (ServerEnvelope E) × End) → List (ServerEnvelope E) × End
  or_raise (err e) rest = ([], raises e)
  or_raise (ok run) rest = rest run

  -- What follows once the pages are read.
  unfoldable pub follow :
      (E → Bool)
      → Stored E
      → String
      → String
      → ℤ
      → List (Received E)
      → List (ServerEnvelope E) × End
  unfolding owned_run live replay
  follow is_final stored run_id user_id cursor items =
      or_raise (owned_run stored.at_status run_id user_id) (λ current.
        if not (is_active current.status)
        then tail_of (replay stored.at_tail run_id cursor (pos 1000))
        else live is_final cursor items)

  -- The events of the pages, and what follows when they are all read.
  abbrev pub then_follow :
      List (ServerEnvelope E) × End
      → (ℤ → List (ServerEnvelope E) × End)
      → List (ServerEnvelope E) × End
  then_follow (events, caught_up cursor) k = (events ++ (k cursor).0, (k cursor).1)
  then_follow (events, end) k = (events, end)

  unfoldable pub attach :
      (E → Bool)
      → Store E
      → Stored E
      → String
      → String
      → ℤ
      → List (Received E)
      → List (ServerEnvelope E) × End
  unfolding owned_run catch_up follow
  attach is_final s stored run_id user_id after_sequence items =
      or_raise (owned_run s run_id user_id) (λ run.
        then_follow (catch_up stored.at_pages run_id after_sequence none)
          (λ cursor. follow is_final stored run_id user_id cursor items))

  -- `acknowledge`: whether the client may say that it has read through a number.
  unfoldable pub acknowledge : Store E → String → String → ℤ → Result (Unit {0})
  unfolding owned_run replay_page
  acknowledge s run_id user_id through_sequence = owned_run s run_id user_id >>= λ run.
      replay_page s run_id through_sequence (pos 1) none >>= λ page.
      if int_le through_sequence (pos page.high_water_sequence) then ok tt else err value_error
