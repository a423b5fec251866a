-- ===== src/Verification/Managed.antt =====
-- `ManagedValidationExecutor` of harness/verification/managed.py. The sandbox, which keeps a state of its
-- own, the redactor, the digests of a command and of a result, and the clocks are arguments, as is
-- `as_text`, a text in the form that the approvals hold theirs in. The samples are the log of the calls
-- of `record_tool_usage`, the latest first, without the ids and times that they are given there. A text
-- holds no lone surrogate.
use Prim.Native.String.{◌++◌}
use adk_coding_agent.Prelude.{
  ◌+◌, String, Bool, false, ◌||◌, Option, none, some, [], ◌∷◌, if◌then◌else◌,
}
use adk_coding_agent.Prelude.Int.{ℤ}
use adk_coding_agent.Prelude.Result.{Result, ok, err, value_error}
use adk_coding_agent.Prelude.Text.{codes, utf8_length}
use adk_coding_agent.Approvals.Contracts.{
  Timestamp, approved, denied, expired, status_eq, Submission, Request,
}
use adk_coding_agent.Approvals.Store.{Store, for_fingerprint, request}
use adk_coding_agent.Safety.Risk.{CommandRisk}
use adk_coding_agent.Safety.Policy.{
  ApprovalAction, allow, require_approval, deny, ApprovalDecision, ApprovalPolicy, risk_value,
  decide_command,
}
use adk_coding_agent.Verification.Contracts.{
  blocked, CommandResult, ValidationCommand, effective_strength,
}
use adk_coding_agent.Verification.Services.{
  ToolUsageSample, World, risk_named, refusal, request_text, tool_name_of, Services,
}

pub record ManagedValidationExecutor : Type 0 where
  pub task_id : String
  pub policy : ApprovalPolicy

-- The policy of the constructor forgets what was approved before.
unfoldable pub new_executor : String → ApprovalPolicy → ManagedValidationExecutor
new_executor task_id policy = record {
  task_id = task_id;
  policy = record policy { approved_fingerprints = [] };
}

-- The persisted request is closed against the command.
abbrev pub is_closed : Request → Bool
is_closed r = status_eq r.status denied || status_eq r.status expired

-- The policy, with the fingerprint where its request was approved.
abbrev pub policy_for : ApprovalPolicy → String → Option Request → ApprovalPolicy
policy_for policy fingerprint none = policy
policy_for policy fingerprint (some r) =
    if status_eq r.status approved
    then (record policy { approved_fingerprints = fingerprint ∷ policy.approved_fingerprints })
    else policy

module _ {S : Type 0} (services : Services S) (executor : ManagedValidationExecutor) where
  -- `_fingerprint`
  abbrev pub fingerprint : ValidationCommand → String
  fingerprint c = services.fingerprint_of c.category c.command c.source

  -- `_record`
  abbrev pub record_sample : ValidationCommand → CommandResult → World S → World S
  record_sample c r w =
      let sample : ToolUsageSample = record {
        task_id = executor.task_id;
        invocation_id = "verification";
        tool_name = tool_name_of c.category;
        status = r.status;
        arguments_hash = fingerprint c;
        result_hash = some (services.result_digest r);
        duration_ms = r.duration_ms;
        model_visible_bytes = utf8_length r.stdout + utf8_length r.stderr;
        omitted_bytes = r.omitted_bytes;
      } in
      record w { samples = sample ∷ w.samples }

  abbrev pub blocked_result :
      ValidationCommand → CommandRisk → String → Option String → CommandResult
  blocked_result c risk reason request_id = record {
    category = c.category;
    command = c.command;
    source = c.source;
    required = c.required;
    strength = effective_strength services.lower c;
    status = blocked;
    exit_code = some (ℤ.pos 126);
    stdout = [];
    stderr = codes (
        "Validation command not executed ("
        ++ risk_value risk
        ++ "): "
        ++ reason
        ++ "."
        ++ request_text request_id);
    duration_ms = 0;
    truncated = false;
    omitted_bytes = 0;
    artifact_uri = none;
    approval_request_id = request_id;
  }

  -- `_blocked`
  abbrev pub block :
      ValidationCommand
      → CommandRisk
      → String
      → Option String
      → World S
      → Result CommandResult × World S
  block c risk reason request_id w =
      let r = blocked_result c risk reason request_id in (ok r, record_sample c r w)

  abbrev pub refuse :
      Option CommandRisk → Request → ValidationCommand → World S → Result CommandResult × World S
  refuse none r c w = (err value_error, w)
  refuse (some risk) r c w = block c risk (refusal r) (some r.request_id) w

  -- The request of an approval, which may raise.
  abbrev pub asked :
      Result Request × Store
      → ApprovalDecision
      → ValidationCommand
      → World S
      → Result CommandResult × World S
  asked (err e, approvals) d c w = (err e, record w { approvals = approvals })
  asked (ok r, approvals) d c w =
      block c d.risk d.reason (some r.request_id) (record w { approvals = approvals })

  abbrev pub submission_of : ApprovalDecision → ValidationCommand → Submission
  submission_of d c = record {
    task_id = executor.task_id;
    fingerprint = fingerprint c;
    operation = services.as_text (services.redact_text c.command);
    risk = risk_value d.risk;
    reason = d.reason ++ "; required by " ++ services.as_text c.source;
    expires_at = none;
  }

  -- The command in the sandbox.
  unfoldable pub run : ValidationCommand → World S → Result CommandResult × World S
  unfolding effective_strength utf8_length
  run c w =
      let (sandbox, out) = services.execute w.sandbox (record {
        command = c.command;
        timeout_seconds = c.timeout_seconds;
        environment = ("UV_OFFLINE", "1") ∷ ("UV_NO_SYNC", "1") ∷ [];
      }) in
      let r : CommandResult = record {
        category = c.category;
        command = c.command;
        source = c.source;
        required = c.required;
        strength = effective_strength services.lower c;
        status = out.status;
        exit_code = out.exit_code;
        stdout = services.redact_text out.stdout;
        stderr = services.redact_text out.stderr;
        duration_ms = out.duration_ms;
        truncated = out.truncated;
        omitted_bytes = out.omitted_bytes;
        artifact_uri = out.artifact_uri;
        approval_request_id = none;
      } in
      (ok r, record_sample c r (record w { sandbox = sandbox }))

  -- What the decision of the policy leads to.
  unfoldable pub act :
      ApprovalAction
      → ApprovalDecision
      → ValidationCommand
      → Timestamp
      → String
      → World S
      → Result CommandResult × World S
  unfolding run request effective_strength utf8_length
  act allow d c clock request_id w = run c w
  act require_approval d c clock request_id w =
      asked (request w.approvals clock request_id (submission_of d c)) d c w
  act deny d c clock request_id w = block c d.risk d.reason none w

  unfoldable pub decide_and_act :
      Option Request
      → ValidationCommand
      → Timestamp
      → String
      → World S
      → Result CommandResult × World S
  unfolding act decide_command
  decide_and_act persisted c clock request_id w =
      let policy = policy_for executor.policy (fingerprint c) persisted in
      let d =
        decide_command policy services.is_word (some services.workspace) c.command
          (some (fingerprint c)) in
      act d.action d c clock request_id w

  -- A request that was denied or has expired comes first.
  unfoldable pub call_found :
      Option Request
      → ValidationCommand
      → Timestamp
      → String
      → World S
      → Result CommandResult × World S
  unfolding decide_and_act effective_strength utf8_length
  call_found none c clock request_id w = decide_and_act none c clock request_id w
  call_found (some r) c clock request_id w =
      if is_closed r
      then refuse (risk_named r.risk) r c w
      else decide_and_act (some r) c clock request_id w

  abbrev pub looked_up :
      Result (Option Request) × Store
      → ValidationCommand
      → Timestamp
      → String
      → World S
      → Result CommandResult × World S
  looked_up (err e, approvals) c clock request_id w = (err e, record w { approvals = approvals })
  looked_up (ok persisted, approvals) c clock request_id w =
      call_found persisted c clock request_id (record w { approvals = approvals })

  -- `__call__`: the store reads the clock twice, once to look up and once to request.
  unfoldable pub call :
      ValidationCommand → Timestamp → Timestamp → String → World S → Result CommandResult × World S
  unfolding for_fingerprint call_found
  call c clock later request_id w =
      looked_up (for_fingerprint w.approvals clock executor.task_id (fingerprint c)) c later
        request_id w
