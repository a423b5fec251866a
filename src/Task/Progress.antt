-- ===== src/Task/Progress.antt =====
-- harness/state/progress.py: the accounting of actions and the route for no progress. The fingerprint
-- of an action is an argument: `action_fingerprint` is SHA-256 over the JSON text of the action.
use adk_coding_agent.Prelude.{
  ℕ, suc, ◌+◌, ◌-◌, String, Bool, true, false, not, ◌&&◌, ◌||◌, some, List, [], ◌∷◌, ◌++◌, leb, eqb,
  if◌then◌else◌, length, drop, all, last?, option_eq,
}
use adk_coding_agent.Prelude.Int.{ℤ, pos, negsuc}
use adk_coding_agent.Prelude.Keyed.{string_eq, mem_key}
use adk_coding_agent.Prelude.Result.{Result}
use adk_coding_agent.Task.Models.{
  TaskLedger, TaskPhase, TaskStatus, verifying, is_empty, truthy, model_validate,
}

pub data ProgressRoute : Type 0 where
  continue replan needs_input verify : ProgressRoute

-- `history[-limit:]`; a limit of 0 takes the whole list, and a negative one leaves out the first items.
unfoldable pub last_items : ℤ → List String → List String
last_items (pos limit) history =
    if eqb limit 0 then history else drop (length history - limit) history
last_items (negsuc n) history = drop (suc n) history

-- `history and history[-1] == fingerprint`
abbrev pub is_last : String → List String → Bool
is_last fingerprint history = option_eq (last? history) (some fingerprint)

unfoldable pub register_action : TaskLedger → String → ℤ → Result TaskLedger
unfolding last_items model_validate
register_action ledger fingerprint history_limit =
    let history = ledger.recent_action_fingerprints in
    model_validate (record ledger {
      no_progress_count = (if is_last fingerprint history then ledger.no_progress_count + 1 else 0);
      recent_action_fingerprints = last_items history_limit (history ++ fingerprint ∷ []);
      iteration = ledger.iteration + 1;
    })

-- The ledger that `register_action_batch` validates.
unfoldable pub batch_ledger : TaskLedger → List String → ℤ → TaskLedger
unfolding last_items
batch_ledger ledger [] history_limit = record ledger {
  no_progress_count = ledger.no_progress_count + 1;
}
batch_ledger ledger (f ∷ fingerprints) history_limit =
    let history = ledger.recent_action_fingerprints in
    let repeated = all (λ x. mem_key x history) (f ∷ fingerprints) in
    record ledger {
      no_progress_count = (if repeated then ledger.no_progress_count + 1 else 0);
      recent_action_fingerprints = last_items history_limit (history ++ f ∷ fingerprints);
    }

unfoldable pub register_action_batch : TaskLedger → List String → ℤ → Result TaskLedger
unfolding batch_ledger model_validate
register_action_batch ledger fingerprints history_limit =
    model_validate (batch_ledger ledger fingerprints history_limit)

abbrev pub status_needs_input : TaskStatus → Bool
status_needs_input TaskStatus.needs_input = true
status_needs_input _ = false

abbrev pub is_verifying : TaskStatus → TaskPhase → Bool
is_verifying verifying phase = true
is_verifying status TaskPhase.verify = true
is_verifying status phase = false

-- The thresholds come from `ProgressConfig` of harness/config/models.py, which bounds them from below.
unfoldable pub route_for_progress : TaskLedger → ℕ → ℕ → ProgressRoute
route_for_progress ledger replan_threshold human_threshold =
    if status_needs_input ledger.status
      || (not (is_empty ledger.blockers) && not (truthy ledger.next_action))
    then needs_input
    else if is_verifying ledger.status ledger.phase
    then verify
    else if leb human_threshold ledger.no_progress_count
    then needs_input
    else if leb replan_threshold ledger.no_progress_count
    then replan
    else continue
