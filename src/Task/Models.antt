-- ===== src/Task/Models.antt =====
-- harness/models/task.py and harness/models/agent_step.py. A number of the ledger that its field
-- bounds by 0 is a natural number. `created_at`, `updated_at` and the request's `max_cost_usd` are
-- left out: no function here reads or writes them.
use adk_coding_agent.Prelude.{
  ℕ, String, Bool, true, false, not, ◌&&◌, Option, none, some, List, [], ◌∷◌, leb, ◌==◌,
  if◌then◌else◌, all,
}
use adk_coding_agent.Prelude.Int.{ℤ}
use adk_coding_agent.Prelude.Result.{Result, ok, err, validation_error}

pub data Mode : Type 0 where
  auto coding : Mode

pub data VerificationLevel : Type 0 where
  auto syntax static behavioral : VerificationLevel

pub data TaskPhase : Type 0 where
  understand plan implement verify review blocked complete : TaskPhase

pub data TaskStatus : Type 0 where
  active needs_input verifying failed complete answered : TaskStatus

pub data PlanStepStatus : Type 0 where
  pending active complete blocked : PlanStepStatus

pub record TaskRequest : Type 0 where
  pub goal : String
  pub mode : Mode
  pub acceptance_criteria : List String
  pub constraints : List String
  pub non_goals : List String
  pub permitted_paths : Option (List String)
  pub forbidden_paths : List String
  pub verification_requirements : List String
  pub verification_level : VerificationLevel
  pub max_input_tokens : Option ℕ
  pub max_iterations : ℕ

-- The criteria that a request has after `ensure_acceptance_criteria`, the validator that runs last.
abbrev pub criteria_for : String → Mode → List String → List String
criteria_for goal coding [] = goal ∷ []
criteria_for goal mode criteria = criteria

unfoldable pub ensure_acceptance_criteria : TaskRequest → TaskRequest
ensure_acceptance_criteria r = record r {
  acceptance_criteria = criteria_for r.goal r.mode r.acceptance_criteria;
}

pub record PlanStep : Type 0 where
  pub step_id : String
  pub description : String
  pub status : PlanStepStatus
  pub evidence : List String

pub record Decision : Type 0 where
  pub summary : String
  pub rationale : String
  pub affected_paths : List String

pub record ValidationResult : Type 0 where
  pub command : String
  pub exit_code : Option ℤ
  pub passed : Bool
  pub summary : String
  pub duration_ms : ℕ
  pub artifact_uri : Option String

pub record TaskLedger : Type 0 where
  pub task_id : String
  pub goal : String
  pub mode : Mode
  pub acceptance_criteria : List String
  pub constraints : List String
  pub non_goals : List String
  pub permitted_paths : Option (List String)
  pub forbidden_paths : List String
  pub verification_requirements : List String
  pub verification_level : VerificationLevel
  pub max_input_tokens : Option ℕ
  pub base_revision : String
  pub workspace_id : String
  pub branch_id : String
  pub phase : TaskPhase
  pub plan : List PlanStep
  pub current_step_id : Option String
  pub completed_step_ids : List String
  pub progress : List String
  pub decisions : List Decision
  pub blockers : List String
  pub open_questions : List String
  pub files_read : List String
  pub files_modified : List String
  pub validations : List ValidationResult
  pub counterexample_review_completed : Bool
  pub next_action : Option String
  pub iteration : ℕ
  pub no_progress_count : ℕ
  pub recent_action_fingerprints : List String
  pub status : TaskStatus
  pub version : ℕ

abbrev pub is_empty {ℓ} : {A : Type ℓ} → List A → Bool
is_empty [] = true
is_empty (x ∷ xs) = false

-- Python's truth of `str | None`.
abbrev pub truthy : Option String → Bool
truthy none = false
truthy (some s) = not (s == "")

abbrev pub at_least_1000 : Option ℕ → Bool
at_least_1000 none = true
at_least_1000 (some n) = leb 1000 n

-- The bounds that the fields of the ledger and of its parts declare (`ge`, `min_length`).
unfoldable pub model_validate : TaskLedger → Result TaskLedger
model_validate l =
    if at_least_1000 l.max_input_tokens
      && all (λ (s : PlanStep). not (s.step_id == "") && not (s.description == "")) l.plan
      && all (λ (d : Decision). not (d.summary == "")) l.decisions
      && leb 1 l.version
    then ok l
    else err validation_error

pub data StepStatus : Type 0 where
  answer continue verify blocked done : StepStatus

pub record CompletionClaim : Type 0 where
  pub criterion : String
  pub evidence : List String

pub record AgentStep : Type 0 where
  pub status : StepStatus
  pub message : String
  pub progress : List String
  pub next_action : Option String
  pub decisions : List String
  pub questions : List String
  pub discovered_constraints : List String
  pub files_in_focus : List String
  pub completion_claims : List CompletionClaim

-- The ledger that `TaskLedger(...)` makes of a request's fields, with the defaults of the others.
abbrev pub ledger_of :
    TaskRequest → String → String → String → String → TaskPhase → Option String → TaskLedger
ledger_of request task_id base_revision workspace_id branch_id phase next_action = record {
  task_id = task_id;
  goal = request.goal;
  mode = request.mode;
  acceptance_criteria = request.acceptance_criteria;
  constraints = request.constraints;
  non_goals = request.non_goals;
  permitted_paths = request.permitted_paths;
  forbidden_paths = request.forbidden_paths;
  verification_requirements = request.verification_requirements;
  verification_level = request.verification_level;
  max_input_tokens = request.max_input_tokens;
  base_revision = base_revision;
  workspace_id = workspace_id;
  branch_id = branch_id;
  phase = phase;
  plan = [];
  current_step_id = none;
  completed_step_ids = [];
  progress = [];
  decisions = [];
  blockers = [];
  open_questions = [];
  files_read = [];
  files_modified = [];
  validations = [];
  counterexample_review_completed = false;
  next_action = next_action;
  iteration = 0;
  no_progress_count = 0;
  recent_action_fingerprints = [];
  status = active;
  version = 1;
}

-- `TaskLedger.from_request`
unfoldable pub from_request : TaskRequest → String → String → String → String → Result TaskLedger
unfolding model_validate
from_request request task_id workspace_id base_revision branch_id =
    model_validate (ledger_of request task_id base_revision workspace_id branch_id plan none)
