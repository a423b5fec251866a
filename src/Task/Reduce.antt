-- ===== src/Task/Reduce.antt =====
-- harness/orchestration/core.py: the ledger's transitions, `create_initial_ledger`,
-- `reduce_agent_step`, `resume_for_steering` and `replan_ledger`.
use adk_coding_agent.Prelude.{
  ◌+◌, String, not, Option, none, some, List, [], ◌∷◌, ◌++◌, map, ◌==◌, if◌then◌else◌, filter,
}
use adk_coding_agent.Prelude.Keyed.{string_eq, mem_key}
use adk_coding_agent.Prelude.Result.{Result}
use adk_coding_agent.Task.Models.{
  Mode, TaskRequest, TaskLedger, TaskPhase, TaskStatus, StepStatus, AgentStep, Decision, ledger_of,
  model_validate, is_empty, truthy, understand,
}

-- The keys that `dict.fromkeys` adds to those that are there: each once, in the order of first use.
unfoldable pub add_keys : List String → List String → List String
add_keys keys [] = keys
add_keys keys (x ∷ xs) = add_keys (if mem_key x keys then keys else keys ++ x ∷ []) xs

-- `list(dict.fromkeys(xs))`
abbrev pub dict_fromkeys : List String → List String
dict_fromkeys xs = add_keys [] xs

abbrev pub initial_action : Mode → String
initial_action Mode.auto =
    "Respond directly to conversation or explanation requests. For requested code changes, inspect relevant code, implement and verify the change."
initial_action Mode.coding = "Inspect the repository and identify the smallest coherent change"

unfoldable pub create_initial_ledger :
    TaskRequest → String → String → String → String → Result TaskLedger
unfolding model_validate
create_initial_ledger request task_id base_revision workspace_id branch_id = model_validate (
    ledger_of request task_id base_revision workspace_id branch_id understand
      (some (initial_action request.mode)))

-- `step.next_action or default`
abbrev pub or_default : Option String → String → String
or_default none default = default
or_default (some s) default = if s == "" then default else s

-- `step.questions or [step.next_action or "Coding agent is blocked"]`
abbrev pub blocking_reasons : AgentStep → List String
blocking_reasons step =
    if is_empty step.questions
    then or_default step.next_action "Coding agent is blocked" ∷ []
    else step.questions

abbrev pub new_decision : String → Decision
new_decision s = record { summary = s; rationale = ""; affected_paths = [] }

-- The decisions of a step whose summary the ledger does not hold.
unfoldable pub new_decisions : List Decision → List String → List Decision
unfolding add_keys
new_decisions known decisions = map new_decision (
    filter (λ s. not (mem_key s (map (λ (d : Decision). d.summary) known)))
      (dict_fromkeys decisions))

-- The part of `reduce_agent_step` that no status changes.
unfoldable pub record_step : TaskLedger → AgentStep → TaskLedger
unfolding add_keys new_decisions
record_step ledger step = record ledger {
  iteration = ledger.iteration + 1;
  next_action = (if truthy step.next_action then step.next_action else ledger.next_action);
  progress = dict_fromkeys (ledger.progress ++ step.progress);
  decisions = ledger.decisions ++ new_decisions ledger.decisions step.decisions;
  constraints = dict_fromkeys (ledger.constraints ++ step.discovered_constraints);
  open_questions = dict_fromkeys (ledger.open_questions ++ step.questions);
}

unfoldable pub set_phase : TaskLedger → TaskPhase → TaskStatus → TaskLedger
set_phase ledger phase status = record ledger { phase = phase; status = status }

-- What the step's status does to the ledger.
unfoldable pub apply_status : StepStatus → TaskLedger → List String → TaskLedger
unfolding add_keys set_phase
apply_status StepStatus.blocked ledger reasons =
    record (set_phase ledger TaskPhase.blocked TaskStatus.needs_input) {
      blockers = dict_fromkeys (ledger.blockers ++ reasons);
    }
apply_status StepStatus.verify ledger reasons =
    set_phase ledger TaskPhase.verify TaskStatus.verifying
apply_status StepStatus.done ledger reasons = set_phase ledger TaskPhase.verify TaskStatus.verifying
apply_status StepStatus.answer ledger reasons =
    set_phase ledger TaskPhase.implement TaskStatus.active
apply_status StepStatus.continue ledger reasons =
    set_phase ledger TaskPhase.implement TaskStatus.active

unfoldable pub reduce_agent_step : TaskLedger → AgentStep → Result TaskLedger
unfolding record_step apply_status model_validate
reduce_agent_step ledger step =
    model_validate (apply_status step.status (record_step ledger step) (blocking_reasons step))

unfoldable pub resume_for_steering : TaskLedger → Result TaskLedger
unfolding set_phase model_validate
resume_for_steering ledger =
    model_validate (record (set_phase ledger TaskPhase.implement TaskStatus.active) {
      next_action = some "Apply the newest user steering before continuing";
    })

unfoldable pub replan_ledger : TaskLedger → Result TaskLedger
unfolding set_phase model_validate
replan_ledger ledger = model_validate (record (set_phase ledger TaskPhase.plan TaskStatus.active) {
  next_action = some "Reassess the current evidence and choose a materially different approach";
})
