-- ===== src/Verification/Tests.antt =====
-- Runs of the verification of harness/verification/.
use adk_coding_agent.Prelude.{
  ℕ, ◌+◌, ◌-◌, true, false, ◌&&◌, ◌≡◌, refl, ◌↔◌, Option, none, some, [], ◌∷◌, map, leb, any, All,
  if◌then◌else◌,
}
use adk_coding_agent.Prelude.Int.{ℤ}
use adk_coding_agent.Prelude.Text.{Text, codes, is_space}
use adk_coding_agent.Prelude.Sort.{sort}
use adk_coding_agent.Verification.Contracts.{
  VerificationStrength, ok_status, static, CommandResult, ValidationCommand, ValidationPlan,
  infer_verification_strength, is_passed,
}
use adk_coding_agent.Verification.Contracts.ValidationCategory.{test, lint}
use adk_coding_agent.Verification.Counts.{observed, decimal, enforce_test_count, test_counts}
use adk_coding_agent.Verification.Scope.{fnmatch, matches, check_scope}
use adk_coding_agent.Verification.Report.{suffix, required_for}
use adk_coding_agent.Verification.Runner.{run_validation_plan}
use adk_coding_agent.Verification.Verdict.{serves}
use adk_coding_agent.Verification.InScope.{IsInScope, check_scope_iff}
use adk_coding_agent.Safety.Policy.{ApprovalPolicy}
use adk_coding_agent.Verification.Services.{Services, World}
use adk_coding_agent.Verification.Plan.{
  Checked, enforce_test_count_passed, run_validation_plan_passed,
}

abbrev digit : ℕ → Option ℕ
digit c = if leb 48 c && leb c 57 then some (c - 48) else none

abbrev lower : Text → Text
lower = map (λ c. if leb 65 c && leb c 90 then c + 32 else c)

abbrev keep : Text → Text
keep text = text

abbrev tests_command : ValidationCommand
tests_command = record {
  category = test;
  command = codes "python -m unittest";
  source = codes "task";
  required = true;
  targeted = false;
  minimum_test_count = 2;
  strength = none;
  timeout_seconds = 300;
}

abbrev lint_command : ValidationCommand
lint_command = record tests_command {
  category = lint;
  command = codes "ruff check .";
  minimum_test_count = 0;
}

abbrev answer : ValidationCommand → Text → CommandResult
answer c text = record {
  category = c.category;
  command = c.command;
  source = c.source;
  required = true;
  strength = static;
  status = ok_status;
  exit_code = some (ℤ.pos 0);
  stdout = text;
  stderr = [];
  duration_ms = 5;
  truncated = false;
  omitted_bytes = 0;
  artifact_uri = none;
  approval_request_id = none;
}

-- An executor that counts its calls.
abbrev three_tests : ℕ → ValidationCommand → ℕ × CommandResult
three_tests n c = (n + 1, answer c (codes "Ran 3 tests in 0.1s"))

abbrev plan : ValidationPlan
plan = record {
  commands = lint_command ∷ tests_command ∷ [];
  changed_paths = codes "src/a.py" ∷ codes "docs/b.md" ∷ [];
  allowed_paths = some (codes "src/" ∷ codes "docs/*.md" ∷ []);
  forbidden_paths = codes "*.lock" ∷ [];
}

t_fnmatch : fnmatch (codes "tests/x1.py") (codes "*/x[0-9].py") ≡ true
unfolding fnmatch
t_fnmatch = refl

t_fnmatch2 : fnmatch (codes "a-c") (codes "?[!a-z]c") ≡ true
unfolding fnmatch
t_fnmatch2 = refl

t_matches : matches (codes "./src//a.py") (codes "src") ≡ true
unfolding matches
t_matches = refl

-- A leading dot is lost, so that a hidden folder is a plain one.
t_hidden : matches (codes "github/ci.yml") (codes ".github/") ≡ true
unfolding matches
t_hidden = refl

t_suffix : suffix (codes "a/.b/c.tar.gz") ≡ codes ".gz"
unfolding suffix
t_suffix = refl

t_no_suffix : suffix (codes "a/.bashrc") ≡ []
unfolding suffix
t_no_suffix = refl

t_decimal : decimal 1203 ≡ codes "1203"
unfolding decimal
t_decimal = refl

t_compiles :
    infer_verification_strength lower test (codes "Python  -m py_compile a.py")
    ≡ VerificationStrength.syntax
unfolding infer_verification_strength is_space
t_compiles = refl

t_observed : observed digit (answer tests_command (codes "Ran 3 tests; Ran 12  test")) ≡ 12
unfolding observed is_space
t_observed = refl

t_counts : test_counts digit (answer tests_command (codes "12 passed, 1 failed") ∷ []) ≡ (12, 1)
unfolding test_counts is_space
t_counts = refl

check_scope_iff_example :
    (check_scope (codes "src/a.py" ∷ []) none (codes "*.lock" ∷ []) ≡ [])
    ↔ All (IsInScope none (codes "*.lock" ∷ [])) (codes "src/a.py" ∷ [])
check_scope_iff_example = check_scope_iff (codes "src/a.py" ∷ []) none (codes "*.lock" ∷ [])

t_enforced :
    is_passed (enforce_test_count digit tests_command (answer tests_command (codes "Ran 1 test")))
    ≡ false
unfolding is_passed observed is_space
t_enforced =
    enforce_test_count_passed digit tests_command (answer tests_command (codes "Ran 1 test"))

run_validation_plan_passed_example :
    let after =
      run_validation_plan lower keep digit three_tests 0 plan (codes "works" ∷ []) [] true none in
    Checked lower digit three_tests 0 plan.commands after.1.1
    × All (IsInScope plan.allowed_paths plan.forbidden_paths) plan.changed_paths
    × (any (serves (required_for lower plan.changed_paths none)) after.1.1 ≡ true)
unfolding run_validation_plan is_space sort
run_validation_plan_passed_example =
    (run_validation_plan_passed lower keep digit three_tests 0 plan (codes "works" ∷ []) [] true
        none).0
      refl

-- The services of an executor that counts what it runs.
abbrev services : Services ℕ
services = record {
  fingerprint_of = λ category command source. "f";
  result_digest = λ r. "d";
  redact_text = keep;
  as_text = λ text. "text";
  lower = lower;
  is_word = λ c. leb 97 c && leb c 122;
  workspace = λ path. true;
  execute = λ n request. (
    n + 1,
    record {
      status = ok_status;
      exit_code = some (ℤ.pos 0);
      stdout = request.command;
      stderr = [];
      duration_ms = 1;
      truncated = false;
      omitted_bytes = 0;
      artifact_uri = none;
    },
  );
}

abbrev shut_policy : ApprovalPolicy
shut_policy = record {
  allow_dependency_install = false;
  allow_network = false;
  allow_git_history_mutation = false;
  allow_unknown = false;
  approved_fingerprints = "f" ∷ [];
}

abbrev world : World ℕ
world = record { approvals = record { rows = []; changes = [] }; samples = []; sandbox = 0 }

abbrev push_command : ValidationCommand
push_command = record tests_command { command = codes "git push" }
