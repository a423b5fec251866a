-- ===== src/Verification/Runner.antt =====
-- `run_validation_plan` of harness/verification/runner.py. The executor, which keeps a state of its own,
-- `str.lower`, the digest of a command and the value of a digit are arguments.
use adk_coding_agent.Prelude.{ℕ, Bool, not, ◌&&◌, Option, List, [], ◌∷◌, if◌then◌else◌}
use adk_coding_agent.Prelude.Text.{Text}
use adk_coding_agent.Verification.Contracts.{
  VerificationStrength, CommandResult, ValidationCommand, ValidationPlan, effective_strength,
  is_passed,
}
use adk_coding_agent.Verification.Scope.{check_scope}
use adk_coding_agent.Verification.Counts.{enforce_test_count}
use adk_coding_agent.Verification.Report.{VerificationReport, build_report}

module _ (lower : Text → Text) (digit : ℕ → Option ℕ) where
  -- What the loop makes of what the executor gave for a command.
  unfoldable pub result_of : ValidationCommand → CommandResult → CommandResult
  unfolding enforce_test_count effective_strength
  result_of c raw = record (enforce_test_count digit c raw) {
    required = c.required;
    strength = effective_strength lower c;
  }

  -- The loop over the commands, which a required one that fails may stop. The executor's own state is
  -- passed on from call to call.
  unfoldable pub run_commands :
      {S : Type 0}
      → (S → ValidationCommand → S × CommandResult)
      → Bool
      → S
      → List ValidationCommand
      → S × List CommandResult
  unfolding result_of is_passed
  run_commands executor stop s [] = (s, [])
  run_commands executor stop s (c ∷ commands) =
      let ran = executor s c in
      let r = result_of c ran.1 in
      let rest = run_commands executor stop ran.0 commands in
      if stop && c.required && not (is_passed r) then (ran.0, r ∷ []) else (rest.0, r ∷ rest.1)

module _ (lower sha256 : Text → Text) (digit : ℕ → Option ℕ) where
  unfoldable pub run_validation_plan :
      {S : Type 0}
      → (S → ValidationCommand → S × CommandResult)
      → S
      → ValidationPlan
      → List Text
      → List (Text × List Text)
      → Bool
      → Option VerificationStrength
      → S × (VerificationReport × List CommandResult)
  unfolding run_commands check_scope build_report
  run_validation_plan executor s plan criteria evidence stop requested =
      let (after, results) = run_commands lower digit executor stop s plan.commands in
      let violations = check_scope plan.changed_paths plan.allowed_paths plan.forbidden_paths in
      (
        after,
        (
          build_report lower sha256 digit criteria results violations evidence plan.changed_paths
              requested,
          results,
        ),
      )
