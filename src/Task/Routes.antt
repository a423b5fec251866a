-- ===== src/Task/Routes.antt =====
-- harness/orchestration/core.py `decide_route` and harness/orchestration/runtime.py
-- `can_answer_directly`.
use adk_coding_agent.Prelude.{ℕ, Bool, true, false, not, ◌&&◌, if◌then◌else◌}
use adk_coding_agent.Prelude.Text.{codes, strip}
use adk_coding_agent.Task.Models.{
  Mode, VerificationLevel, TaskRequest, TaskLedger, AgentStep, StepStatus, is_empty,
}
use adk_coding_agent.Task.Progress.{ProgressRoute, route_for_progress}

pub data HarnessRoute : Type 0 where
  continue replan blocked verify : HarnessRoute

abbrev pub is_blocked : StepStatus → Bool
is_blocked StepStatus.blocked = true
is_blocked _ = false

-- `step.status in {"verify", "done"}`
abbrev pub claims_done : StepStatus → Bool
claims_done StepStatus.verify = true
claims_done StepStatus.done = true
claims_done _ = false

abbrev pub is_answer : StepStatus → Bool
is_answer StepStatus.answer = true
is_answer _ = false

abbrev pub harness_route : ProgressRoute → HarnessRoute
harness_route ProgressRoute.needs_input = HarnessRoute.blocked
harness_route ProgressRoute.replan = HarnessRoute.replan
harness_route ProgressRoute.continue = HarnessRoute.continue
harness_route ProgressRoute.verify = HarnessRoute.continue

unfoldable pub decide_route : TaskLedger → AgentStep → Bool → ℕ → ℕ → HarnessRoute
unfolding route_for_progress
decide_route ledger step pending_steering replan_after_no_progress block_after_no_progress =
    if pending_steering
    then HarnessRoute.continue
    else if is_blocked step.status
    then HarnessRoute.blocked
    else if claims_done step.status
    then HarnessRoute.verify
    else harness_route (route_for_progress ledger replan_after_no_progress block_after_no_progress)

abbrev pub is_auto_mode : Mode → Bool
is_auto_mode Mode.auto = true
is_auto_mode Mode.coding = false

abbrev pub is_auto_level : VerificationLevel → Bool
is_auto_level VerificationLevel.auto = true
is_auto_level _ = false

unfoldable pub can_answer_directly : TaskRequest → AgentStep → Bool → Bool → Bool
unfolding strip
can_answer_directly request step verification_required workspace_unchanged =
    is_auto_mode request.mode
    && is_answer step.status
    && not (is_empty (strip (codes step.message)))
    && is_empty request.acceptance_criteria
    && is_empty request.verification_requirements
    && is_auto_level request.verification_level
    && is_empty step.completion_claims
    && not verification_required
    && workspace_unchanged
