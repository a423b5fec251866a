-- ===== src/Verification/Services.antt =====
-- What the executor of harness/verification/managed.py is given and what it writes: the sandbox's requests
-- and results (harness/sandbox/base.py), the samples (harness/telemetry/metrics.py), and its texts.
use Prim.Native.String.{◌++◌}
use adk_coding_agent.Prelude.{ℕ, String, Bool, Option, none, some, List, ◌==◌, if◌then◌else◌}
use adk_coding_agent.Prelude.Int.{ℤ}
use adk_coding_agent.Prelude.Text.{Text}
use adk_coding_agent.Approvals.Contracts.{Status, pending, approved, denied, expired, Request}
use adk_coding_agent.Approvals.Store.{Store}
use adk_coding_agent.Safety.Risk.{
  CommandRisk, read_only, workspace_mutation, build_or_test, dependency_install, network_access,
  git_history_mutation, publish_or_deploy, destructive, unknown,
}
use adk_coding_agent.Safety.Policy.{}
use adk_coding_agent.Verification.Contracts.{
  ValidationCategory, syntax_check, format, lint, typecheck, test, build, diff, custom,
  ValidationStatus, CommandResult,
}

pub record SandboxRequest : Type 0 where
  pub command : Text
  pub timeout_seconds : ℕ
  pub environment : List (String × String)

pub record SandboxResult : Type 0 where
  pub status : ValidationStatus
  pub exit_code : Option ℤ
  pub stdout : Text
  pub stderr : Text
  pub duration_ms : ℕ
  pub truncated : Bool
  pub omitted_bytes : ℕ
  pub artifact_uri : Option Text

pub record ToolUsageSample : Type 0 where
  pub task_id : String
  pub invocation_id : String
  pub tool_name : String
  pub status : ValidationStatus
  pub arguments_hash : String
  pub result_hash : Option String
  pub duration_ms : ℕ
  pub model_visible_bytes : ℕ
  pub omitted_bytes : ℕ

-- What the executor acts on.
pub record World (S : Type 0) : Type 0 where
  pub approvals : Store
  pub samples : List ToolUsageSample
  pub sandbox : S

-- `CommandRisk(value)`
abbrev pub risk_named : String → Option CommandRisk
risk_named value =
    if value == "read_only"
    then some read_only
    else if value == "workspace_mutation"
    then some workspace_mutation
    else if value == "build_or_test"
    then some build_or_test
    else if value == "dependency_install"
    then some dependency_install
    else if value == "network_access"
    then some network_access
    else if value == "git_history_mutation"
    then some git_history_mutation
    else if value == "publish_or_deploy"
    then some publish_or_deploy
    else if value == "destructive"
    then some destructive
    else if value == "unknown"
    then some unknown
    else none

abbrev pub status_text : Status → String
status_text pending = "pending"
status_text approved = "approved"
status_text denied = "denied"
status_text expired = "expired"

-- `value or default`
abbrev pub or_default : Option String → String → String
or_default none default = default
or_default (some value) default = if value == "" then default else value

abbrev pub note_text : Option String → String
note_text none = ""
note_text (some note) = if note == "" then "" else ": " ++ note

abbrev pub refusal : Request → String
refusal r =
    "approval "
    ++ status_text r.status
    ++ " by "
    ++ or_default r.decided_by "reviewer"
    ++ note_text r.decision_note

abbrev pub request_text : Option String → String
request_text none = ""
request_text (some id) =
    if id == "" then "" else " Approval request: " ++ id ++ ". Review in the TUI with /approvals."

-- `f"verify:{validation.category}"`
abbrev pub tool_name_of : ValidationCategory → String
tool_name_of syntax_check = "verify:syntax"
tool_name_of format = "verify:format"
tool_name_of lint = "verify:lint"
tool_name_of typecheck = "verify:typecheck"
tool_name_of test = "verify:test"
tool_name_of build = "verify:build"
tool_name_of diff = "verify:diff"
tool_name_of custom = "verify:custom"

-- What the executor takes from elsewhere: the digest of a command's category, text and source, that of a
-- result, the redactor, `str.lower`, the letters of `\w`, the paths of the workspace, and the sandbox.
pub record Services (S : Type 0) : Type 0 where
  pub fingerprint_of : ValidationCategory → Text → Text → String
  pub result_digest : CommandResult → String
  pub redact_text : Text → Text
  pub as_text : Text → String
  pub lower : Text → Text
  pub is_word : ℕ → Bool
  pub workspace : Text → Bool
  pub execute : S → SandboxRequest → S × SandboxResult
