-- ===== src/Task/Tests.antt =====
-- Runs of the ledger's transitions and routes, at which the theorems on them apply.
use adk_coding_agent.Prelude.{String, ◌≡◌, ◌↔◌, refl, true, false, none, some, arith, [], ◌∷◌}
use adk_coding_agent.Prelude.Int.{pos}
use adk_coding_agent.Prelude.Keyed.{string_eq, mem_key}
use adk_coding_agent.Prelude.Result.{ok, err, validation_error}
use adk_coding_agent.Task.Models.{
  Mode, VerificationLevel, TaskRequest, TaskPhase, TaskLedger, StepStatus, AgentStep, ledger_of,
  model_validate,
}
use adk_coding_agent.Task.Reduce.{
  record_step, apply_status, blocking_reasons, reduce_agent_step, add_keys, new_decisions,
  set_phase,
}
use adk_coding_agent.Task.Records.{Recorded, reduce_agent_step-Recorded, reduce_agent_step-error}
use adk_coding_agent.Task.Repeats.{register_times, stagnation}
use adk_coding_agent.Task.Routes.{HarnessRoute, decide_route}

abbrev a_request : TaskRequest
a_request = record {
  goal = "Fix the parser";
  mode = Mode.coding;
  acceptance_criteria = "tests pass" ∷ [];
  constraints = "no new dependencies" ∷ [];
  non_goals = [];
  permitted_paths = none;
  forbidden_paths = [];
  verification_requirements = [];
  verification_level = VerificationLevel.auto;
  max_input_tokens = some 4000;
  max_iterations = 24;
}

abbrev pub a_ledger : TaskLedger
a_ledger = ledger_of a_request "t1" "abc" "w1" "main" TaskPhase.understand (some "look")

abbrev a_step : StepStatus → String → AgentStep
a_step status decision = record {
  status = status;
  message = "";
  progress = "read parser.py" ∷ "read parser.py" ∷ [];
  next_action = none;
  decisions = decision ∷ [];
  questions = "which grammar?" ∷ [];
  discovered_constraints = "no new dependencies" ∷ "keep the API" ∷ [];
  files_in_focus = [];
  completion_claims = [];
}

abbrev reduced : AgentStep → TaskLedger
unfolding apply_status record_step
reduced step = apply_status step.status (record_step a_ledger step) (blocking_reasons step)

reduced_progress : (reduced (a_step StepStatus.blocked "keep")).progress ≡ "read parser.py" ∷ []
unfolding add_keys apply_status set_phase record_step
reduced_progress = refl

reduced_constraints :
    (reduced (a_step StepStatus.done "keep")).constraints
    ≡ "no new dependencies" ∷ "keep the API" ∷ []
unfolding add_keys apply_status set_phase record_step
reduced_constraints = refl

reduce_agent_step-Recorded_example :
    Recorded a_ledger
      (a_step StepStatus.blocked "keep")
      (reduced (a_step StepStatus.blocked "keep"))
unfolding reduce_agent_step apply_status set_phase record_step new_decisions add_keys model_validate
reduce_agent_step-Recorded_example =
    reduce_agent_step-Recorded a_ledger (a_step StepStatus.blocked "keep")
      (reduced (a_step StepStatus.blocked "keep")) refl

reduce_agent_step-error_example :
    (reduce_agent_step a_ledger (a_step StepStatus.continue "") ≡ err validation_error)
    ↔ (mem_key "" (a_step StepStatus.continue "").decisions ≡ true)
unfolding model_validate
reduce_agent_step-error_example =
    reduce_agent_step-error a_ledger (a_step StepStatus.continue "") refl

stagnation_example :
    (m : TaskLedger) × (register_times 4 a_ledger ("f1" ∷ "f2" ∷ []) (pos 20) ≡ ok m)
    × (decide_route m (a_step StepStatus.continue "keep") false 2 4 ≡ HarnessRoute.replan)
unfolding model_validate
stagnation_example =
    stagnation 3 a_ledger ("f1" ∷ "f2" ∷ []) (pos 20) (a_step StepStatus.continue "keep") 2 4 refl
      (omega arith) refl refl refl refl refl refl
