-- ===== src/Verification/Cleared.antt =====
-- What the managed executor (harness/verification/managed.py) lets into the sandbox.
use adk_coding_agent.Prelude.{false, ◌≡◌, some}
use adk_coding_agent.Prelude.Result.{Result}
use adk_coding_agent.Prelude.Text.{strip}
use adk_coding_agent.Approvals.Store.{Store}
use adk_coding_agent.Safety.Policy.{ApprovalAction, ApprovalPolicy, decide_command}
use adk_coding_agent.Safety.Highest.{AtMost}
use adk_coding_agent.Safety.Shell.{pipe_segments}
use adk_coding_agent.Safety.Pattern.{is_destructive}
use adk_coding_agent.Verification.Contracts.{ValidationCommand}
use adk_coding_agent.Verification.Services.{Services}
use adk_coding_agent.Verification.Managed.{ManagedValidationExecutor, fingerprint}

module _ {S : Type 0} (services : Services S) (executor : ManagedValidationExecutor) where
  -- The command is one that the policy runs without an approval: no destructive pattern is in it, and each
  -- of its segments has one of the three lowest risks.
  abbrev pub IsHarmless : ValidationCommand → Type 0
  IsHarmless c =
      (is_destructive services.is_word (strip c.command) ≡ false)
      × AtMost 2 (some services.workspace) (pipe_segments (strip c.command))

  -- The decision of a policy on a command of the executor's task.
  abbrev decided_by : ApprovalPolicy → ValidationCommand → ApprovalAction
  decided_by policy c =
      (decide_command policy services.is_word (some services.workspace) c.command
        (some (fingerprint services executor c))).action
