-- ===== src/Verification/Contracts.antt =====
-- The contracts of harness/verification/contracts.py. Texts are lists of code points. `str.lower`,
-- whose table is Unicode's, is an argument. An expression `(?:^|\s)` or `(?:\s|$)` is a blank in a text
-- that has a space put before and behind it, which no other part of these expressions can match.
use adk_coding_agent.Prelude.{
  String, ℕ, Bool, true, false, ◌&&◌, ◌||◌, Option, none, some, List, [], ◌∷◌, ◌++◌, leb, eqb,
  if◌then◌else◌,
}
use adk_coding_agent.Prelude.Int.{ℤ}
use adk_coding_agent.Prelude.Text.{Text, codes, is_space}
use adk_coding_agent.Safety.Pattern.{
  Pattern, empty, both, either, word, blank, blanks, between_spaces, search_in,
}

pub data ValidationCategory : Type 0 where
  syntax_check format lint typecheck test build diff custom : ValidationCategory

pub data ValidationStatus : Type 0 where
  ok_status error_status blocked timeout : ValidationStatus

pub data VerificationStrength : Type 0 where
  syntax static behavioral : VerificationStrength

-- The order of the strengths.
abbrev pub strength_order : VerificationStrength → ℕ
strength_order syntax = 0
strength_order static = 1
strength_order behavioral = 2

-- `command.split()`
unfoldable pub split_blanks : Text → Text → List Text
split_blanks part [] = elim part [ [] ↦ [] | c ∷ rest ↦ (c ∷ rest) ∷ [] ]
split_blanks part (c ∷ text) =
    let cut = split_blanks [] text in
    let grown = split_blanks (part ++ c ∷ []) text in
    if is_space c then (elim part [ [] ↦ cut | p ∷ rest ↦ (p ∷ rest) ∷ cut ]) else grown

-- `separator.join(parts)`
abbrev pub join_with : Text → List Text → Text
join_with separator [] = []
join_with separator (part ∷ []) = part
join_with separator (part ∷ next ∷ parts) =
    part ++ (separator ++ join_with separator (next ∷ parts))

-- `(?:^|\s)(?:python\s+-m\s+)?py_compile(?:\s|$)`
abbrev pub compiles : Pattern
compiles = both blank (
    both (either empty (both (word "python") (both blanks (both (word "-m") blanks))))
      (both (word "py_compile") blank))

-- `(?:^|\s)compileall(?:\s|$)`
abbrev pub compiles_all : Pattern
compiles_all = both blank (both (word "compileall") blank)

-- `(?:^|\s)python\s+-m\s+json\.tool(?:\s|$)`
abbrev pub reads_json : Pattern
reads_json = both blank (
    both (word "python")
      (both blanks (both (word "-m") (both blanks (both (word "json.tool") blank)))))

-- One of the three expressions is found.
unfoldable pub is_syntax_only : Text → Bool
unfolding search_in
is_syntax_only normalized =
    let text = between_spaces normalized in
    search_in compiles text || search_in compiles_all text || search_in reads_json text

abbrev pub label_strength : ValidationCategory → VerificationStrength
label_strength syntax_check = syntax
label_strength test = behavioral
label_strength custom = behavioral
label_strength _ = static

unfoldable pub infer_verification_strength :
    (Text → Text) → ValidationCategory → Text → VerificationStrength
unfolding split_blanks is_syntax_only
infer_verification_strength lower category command =
    if is_syntax_only (lower (join_with (codes " ") (split_blanks [] command)))
    then syntax
    else label_strength category

pub record ValidationCommand : Type 0 where
  pub category : ValidationCategory
  pub command : Text
  pub source : Text
  pub required : Bool
  pub targeted : Bool
  pub minimum_test_count : ℕ
  pub strength : Option VerificationStrength
  pub timeout_seconds : ℕ

-- `min((strength, inferred), key=order)`
abbrev pub weaker : VerificationStrength → VerificationStrength → VerificationStrength
weaker a b = if leb (strength_order a) (strength_order b) then a else b

unfoldable pub effective_strength : (Text → Text) → ValidationCommand → VerificationStrength
unfolding infer_verification_strength
effective_strength lower c =
    let inferred = infer_verification_strength lower c.category c.command in
    elim c.strength [ none ↦ inferred | some strength ↦ weaker strength inferred ]

pub record ValidationPlan : Type 0 where
  pub commands : List ValidationCommand
  pub changed_paths : List Text
  pub allowed_paths : Option (List Text)
  pub forbidden_paths : List Text

pub record CommandResult : Type 0 where
  pub category : ValidationCategory
  pub command : Text
  pub source : Text
  pub required : Bool
  pub strength : VerificationStrength
  pub status : ValidationStatus
  pub exit_code : Option ℤ
  pub stdout : Text
  pub stderr : Text
  pub duration_ms : ℕ
  pub truncated : Bool
  pub omitted_bytes : ℕ
  pub artifact_uri : Option Text
  pub approval_request_id : Option String

abbrev pub is_ok : ValidationStatus → Bool
is_ok ok_status = true
is_ok _ = false

-- `exit_code in {0, None}`
abbrev pub is_clean : Option ℤ → Bool
is_clean none = true
is_clean (some (ℤ.pos n)) = eqb n 0
is_clean (some (ℤ.negsuc n)) = false

unfoldable pub is_passed : CommandResult → Bool
is_passed r = is_ok r.status && is_clean r.exit_code
