-- ===== src/Verification/Report.antt =====
-- The report of harness/verification/runner.py: `build_report` and its helpers. The digest of a command
-- (`sha256(command.encode()).hexdigest()`), `str.lower` and the value of a digit are arguments. The
-- strength `none` and the requested strength `auto` are an absent one. A report's `validations`, which
-- no code here fills, is left out.
use adk_coding_agent.Prelude.{
  ℕ, suc, Bool, true, false, not, ◌&&◌, Option, none, some, List, [], ◌∷◌, ◌++◌, map, leb, ltb,
  if◌then◌else◌, any, all, filter, length, take,
}
use adk_coding_agent.Prelude.Text.{Text, codes, text_eq, strip}
use adk_coding_agent.Verification.Contracts.{
  ValidationCategory, syntax_check, format, lint, typecheck, test, build, diff, custom,
  VerificationStrength, syntax, static, behavioral, strength_order, CommandResult, is_passed,
}
use adk_coding_agent.Verification.Scope.{split_slashes, is_part}
use adk_coding_agent.Verification.Counts.{is_empty, decimal, test_counts}

pub data EvidenceKind : Type 0 where
  command_result artifact : EvidenceKind

pub record EvidenceReference : Type 0 where
  pub kind : EvidenceKind
  pub reference : Text
  pub command_sha256 : Text
  pub validation_index : ℕ
  pub category : ValidationCategory
  pub strength : VerificationStrength
  pub artifact_uri : Option Text

pub record CriterionEvidence : Type 0 where
  pub criterion : Text
  pub satisfied : Bool
  pub claimed_evidence : List Text
  pub evidence : List EvidenceReference
  pub notes : Option Text

pub record VerificationReport : Type 0 where
  pub passed : Bool
  pub criteria : List CriterionEvidence
  pub commands_run : List Text
  pub tests_passed : ℕ
  pub tests_failed : ℕ
  pub scope_violations : List Text
  pub unresolved_diagnostics : List Text
  pub changed_paths : List Text
  pub required_strength : VerificationStrength
  pub achieved_strength : Option VerificationStrength
  pub recommended_next_action : Option Text

abbrev pub category_text : ValidationCategory → Text
category_text syntax_check = codes "syntax"
category_text format = codes "format"
category_text lint = codes "lint"
category_text typecheck = codes "typecheck"
category_text test = codes "test"
category_text build = codes "build"
category_text diff = codes "diff"
category_text custom = codes "custom"

abbrev pub strength_text : VerificationStrength → Text
strength_text syntax = codes "syntax"
strength_text static = codes "static"
strength_text behavioral = codes "behavioral"

abbrev pub achieved_text : Option VerificationStrength → Text
achieved_text none = codes "none"
achieved_text (some s) = strength_text s

-- `body[:1_000]`, with a mark where that leaves something out.
abbrev pub cut_to : ℕ → Text → Text
cut_to limit body =
    if ltb limit (length body) then take limit body ++ 10 ∷ codes "[diagnostic truncated]" else body

-- `_diagnostic`
unfoldable pub diagnostic : CommandResult → Text
diagnostic r =
    let err = strip r.stderr in
    let body = if is_empty err then strip r.stdout else err in
    strip (category_text r.category ++ codes " failed: " ++ r.command ++ 10 ∷ cut_to 1000 body)

abbrev pub last_part : List Text → Text
last_part [] = []
last_part (part ∷ []) = part
last_part (part ∷ next ∷ parts) = last_part (next ∷ parts)

-- The text from its last dot on.
abbrev pub last_dot : Text → Option Text
last_dot [] = none
last_dot (c ∷ text) = elim (last_dot text) [
  | none ↦ if text_eq (c ∷ []) (codes ".") then some (c ∷ text) else none
  | some found ↦ some found
]

-- A dot with nothing behind it starts no suffix.
abbrev pub with_letters : Option Text → Text
with_letters none = []
with_letters (some []) = []
with_letters (some (dot ∷ [])) = []
with_letters (some (dot ∷ c ∷ text)) = dot ∷ c ∷ text

-- The suffix of a name: a dot at its start starts none.
abbrev pub name_suffix : Text → Text
name_suffix [] = []
name_suffix (c ∷ name) = with_letters (last_dot name)

-- `Path(path).suffix`
unfoldable pub suffix : Text → Text
unfolding split_slashes text_eq
suffix path = name_suffix (last_part (filter is_part (split_slashes [] path)))

abbrev pub executable_suffixes : List Text
executable_suffixes = map codes (
    ".c" ∷ ".cc" ∷ ".cpp" ∷ ".cs" ∷ ".go" ∷ ".java" ∷ ".js" ∷ ".jsx" ∷ ".kt" ∷ ".kts" ∷ ".php"
    ∷ ".py" ∷ ".pyi" ∷ ".rb" ∷ ".rs" ∷ ".scala" ∷ ".sh" ∷ ".swift" ∷ ".ts" ∷ ".tsx" ∷ [])

unfoldable pub is_executable : (Text → Text) → Text → Bool
unfolding suffix text_eq
is_executable lower path = any (text_eq (lower (suffix path))) executable_suffixes

-- `_required_strength`
unfoldable pub required_for :
    (Text → Text) → List Text → Option VerificationStrength → VerificationStrength
unfolding is_executable
required_for lower changed (some requested) = requested
required_for lower changed none = if any (is_executable lower) changed then behavioral else static

-- The order of a strength is at least that of another; `none` is below each.
abbrev pub reaches : VerificationStrength → Option VerificationStrength → Bool
reaches required none = false
reaches required (some s) = leb (strength_order required) (strength_order s)

abbrev pub is_stronger : VerificationStrength → Option VerificationStrength → Bool
is_stronger s none = true
is_stronger s (some best) = ltb (strength_order best) (strength_order s)

-- The loop over the results that passed.
unfoldable pub strongest :
    Option VerificationStrength → List CommandResult → Option VerificationStrength
unfolding is_passed
strongest best [] = best
strongest best (r ∷ results) =
    strongest (if is_passed r && is_stronger r.strength best then some r.strength else best) results

-- `all(result.passed for result in results if result.required)`
unfoldable pub required_passed : List CommandResult → Bool
unfolding is_passed
required_passed results = all is_passed (filter (λ (r : CommandResult). r.required) results)

abbrev pub evidence_kind : Option Text → EvidenceKind
evidence_kind none = command_result
evidence_kind (some []) = command_result
evidence_kind (some (c ∷ uri)) = artifact

module _ (sha256 : Text → Text) where
  abbrev pub reference_to : ℕ → CommandResult → EvidenceReference
  reference_to index r = record {
    kind = evidence_kind r.artifact_uri;
    reference = codes "validation:" ++ decimal index;
    command_sha256 = sha256 r.command;
    validation_index = index;
    category = r.category;
    strength = r.strength;
    artifact_uri = r.artifact_uri;
  }

  -- The references of `_verified_references`, over `enumerate(results)` from a number on.
  unfoldable pub references_from :
      VerificationStrength → ℕ → List CommandResult → List EvidenceReference
  unfolding is_passed
  references_from required index [] = []
  references_from required index (r ∷ results) =
      let rest = references_from required (suc index) results in
      if is_passed r && reaches required (some r.strength)
      then reference_to index r ∷ rest
      else rest

  -- `_verified_references`
  unfoldable pub verified_references :
      List CommandResult
      → VerificationStrength
      → List EvidenceReference × Option VerificationStrength
  unfolding references_from strongest
  verified_references results required =
      (references_from required 0 results, strongest none results)

-- `evidence_map.get(criterion, [])`
abbrev pub claims_of : List (Text × List Text) → Text → List Text
claims_of [] criterion = []
claims_of ((key, claims) ∷ evidence) criterion =
    if text_eq key criterion then claims else claims_of evidence criterion

abbrev pub notes_on : List Text → VerificationStrength → Bool → Option Text
notes_on [] required strong = some (
    codes "No model completion claim recorded; satisfaction is bound to environmental verification")
notes_on (claim ∷ claims) required true = none
notes_on (claim ∷ claims) required false =
    some (codes "No successful " ++ strength_text required ++ codes " verification was executed")

abbrev pub criterion_row :
    Bool
    → Bool
    → VerificationStrength
    → List EvidenceReference
    → List (Text × List Text)
    → Text
    → CriterionEvidence
criterion_row good strong required references evidence criterion = record {
  criterion = criterion;
  satisfied = good && strong;
  claimed_evidence = claims_of evidence criterion;
  evidence = references;
  notes = notes_on (claims_of evidence criterion) required strong;
}

-- The diagnostics of the failures, and of a strength that was not reached.
abbrev pub diagnostics_of :
    List CommandResult → VerificationStrength → Option VerificationStrength → List Text
diagnostics_of results required achieved =
    map diagnostic (filter (λ (r : CommandResult). not (is_passed r)) results)
    ++ (if reaches required achieved
        then []
        else (codes "completion requires "
            ++ strength_text required
            ++ codes " verification; strongest successful check was "
            ++ achieved_text achieved)
          ∷ [])

-- The chain that recommends what to do next.
abbrev pub next_action_for : Bool → Bool → VerificationStrength → Bool → Bool → Bool → Option Text
next_action_for in_scope strong required diagnosed done satisfied =
    if not in_scope
    then some (codes "Revert or justify changes outside the permitted scope")
    else if not strong
    then some
        (codes "Add and pass a trusted " ++ strength_text required ++ codes " verification command")
    else if diagnosed && not done
    then some (codes "Fix the first failing validation command and rerun verification")
    else if not satisfied
    then some (codes "Add environmental verification for each unsatisfied criterion")
    else none

module _ (lower sha256 : Text → Text) (digit : ℕ → Option ℕ) where
  unfoldable pub build_report :
      List Text
      → List CommandResult
      → List Text
      → List (Text × List Text)
      → List Text
      → Option VerificationStrength
      → VerificationReport
  unfolding required_for required_passed verified_references diagnostic is_passed text_eq
      test_counts
  build_report criteria results violations evidence changed requested =
      let required = required_for lower changed requested in
      let good = required_passed results in
      let (references, achieved) = verified_references sha256 results required in
      let strong = reaches required achieved in
      let rows = map (criterion_row good strong required references evidence) criteria in
      let satisfied = all (λ (row : CriterionEvidence). row.satisfied) rows in
      let diagnostics = diagnostics_of results required achieved in
      let counts = test_counts digit results in
      let done = good && is_empty violations && strong && satisfied in
      record {
        passed = done;
        criteria = rows;
        commands_run = map (λ (r : CommandResult). r.command) results;
        tests_passed = counts.0;
        tests_failed = counts.1;
        scope_violations = violations;
        unresolved_diagnostics = diagnostics;
        changed_paths = changed;
        required_strength = required;
        achieved_strength = achieved;
        recommended_next_action =
            next_action_for (is_empty violations) strong required (not (is_empty diagnostics)) done
              satisfied;
      }
