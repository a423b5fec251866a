-- ===== src/Safety/Policy.antt =====
-- `ApprovalPolicy` of harness/safety/approval.py.
use Prim.Native.String.{◌++◌}
use adk_coding_agent.Prelude.{
  ℕ, String, Bool, false, not, ◌&&◌, Option, none, some, List, ◌==◌, if◌then◌else◌,
}
use adk_coding_agent.Prelude.Keyed.{string_eq, mem_key}
use adk_coding_agent.Prelude.Text.{Text}
use adk_coding_agent.Safety.Risk.{
  CommandRisk, read_only, workspace_mutation, build_or_test, dependency_install, network_access,
  git_history_mutation, publish_or_deploy, destructive, unknown,
}
use adk_coding_agent.Safety.Classify.{classify_command}

pub data ApprovalAction : Type 0 where
  allow require_approval deny : ApprovalAction

pub record ApprovalDecision : Type 0 where
  pub action : ApprovalAction
  pub risk : CommandRisk
  pub reason : String

pub record ApprovalPolicy : Type 0 where
  pub allow_dependency_install : Bool
  pub allow_network : Bool
  pub allow_git_history_mutation : Bool
  pub allow_unknown : Bool
  pub approved_fingerprints : List String

-- `risk.value`
abbrev pub risk_value : CommandRisk → String
risk_value read_only = "read_only"
risk_value workspace_mutation = "workspace_mutation"
risk_value build_or_test = "build_or_test"
risk_value dependency_install = "dependency_install"
risk_value network_access = "network_access"
risk_value git_history_mutation = "git_history_mutation"
risk_value publish_or_deploy = "publish_or_deploy"
risk_value destructive = "destructive"
risk_value unknown = "unknown"

abbrev pub decision : ApprovalAction → CommandRisk → String → ApprovalDecision
decision action risk reason = record { action = action; risk = risk; reason = reason }

abbrev pub asks_approval : CommandRisk → ApprovalDecision
asks_approval risk =
    decision require_approval risk (risk_value risk ++ " operation requires explicit approval")

-- The last tests: a risk that its own switch allows, and else an approval.
abbrev pub opt_in : Bool → CommandRisk → String → ApprovalDecision
opt_in enabled risk reason = if enabled then decision allow risk reason else asks_approval risk

unfoldable pub decide_risk : ApprovalPolicy → CommandRisk → ApprovalDecision
decide_risk policy read_only = decision allow read_only "safe inside the confined workspace"
decide_risk policy build_or_test = decision allow build_or_test "safe inside the confined workspace"
decide_risk policy workspace_mutation =
    decision allow workspace_mutation "safe inside the confined workspace"
decide_risk policy destructive =
    decision deny destructive "destructive operations are never automatic"
decide_risk policy publish_or_deploy =
    decision require_approval publish_or_deploy
      "publishing and deployment require explicit human approval"
decide_risk policy dependency_install =
    opt_in policy.allow_dependency_install dependency_install
      "dependency installation enabled by policy"
decide_risk policy network_access =
    opt_in policy.allow_network network_access "network access enabled by policy"
decide_risk policy git_history_mutation =
    opt_in policy.allow_git_history_mutation git_history_mutation "Git mutation enabled by policy"
decide_risk policy unknown =
    opt_in policy.allow_unknown unknown "unknown commands enabled by policy"

-- `fingerprint and fingerprint in self.approved_fingerprints`
abbrev pub is_preapproved : ApprovalPolicy → Option String → Bool
is_preapproved policy none = false
is_preapproved policy (some f) = not (f == "") && mem_key f policy.approved_fingerprints

unfoldable pub decide_command :
    ApprovalPolicy → (ℕ → Bool) → Option (Text → Bool) → Text → Option String → ApprovalDecision
unfolding classify_command decide_risk
decide_command policy is_word workspace command fingerprint =
    let risk = classify_command is_word workspace command in
    if is_preapproved policy fingerprint
    then decision allow risk "operation approved by the outer control plane"
    else decide_risk policy risk
