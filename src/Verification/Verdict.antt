-- ===== src/Verification/Verdict.antt =====
-- What `build_report` (harness/verification/runner.py) lets pass.
use adk_coding_agent.Prelude.{
  ℕ, Bool, true, false, ◌&&◌, ◌||◌, ◌≡◌, refl, ◌↔◌, Option, none, some, List, [], ◌∷◌, map, leb,
  any, all, arith, if◌then◌else◌,
}
use adk_coding_agent.Prelude.Text.{Text}
use adk_coding_agent.Verification.Contracts.{
  VerificationStrength, strength_order, CommandResult, is_passed,
}
use adk_coding_agent.Verification.Report.{
  strongest, reaches, is_stronger, required_passed, required_for, build_report, CriterionEvidence,
  criterion_row, EvidenceReference, references_from,
}
use adk_coding_agent.Verification.Counts.{is_empty}

-- A result that passed reaches a strength.
abbrev pub serves : VerificationStrength → CommandResult → Bool
serves required r = is_passed r && leb (strength_order required) (strength_order r.strength)

-- A result that is required did pass.
abbrev pub is_done : CommandResult → Bool
is_done r = if r.required then is_passed r else true

keep_stronger :
    (required : VerificationStrength) (p : Bool) (s : VerificationStrength)
    (best : Option VerificationStrength)
    → reaches required (if p && is_stronger s best then some s else best)
      ≡ reaches required best || (p && leb (strength_order required) (strength_order s))
keep_stronger required false s best = ground arith
keep_stronger required true s none = ground arith
keep_stronger required true s (some best) = ground arith

pub reaches-strongest :
    (required : VerificationStrength) (best : Option VerificationStrength)
    (results : List CommandResult)
    → reaches required (strongest best results)
      ≡ reaches required best || any (serves required) results
unfolding strongest
reaches-strongest required best [] = ground arith
reaches-strongest required best (r ∷ results) = ground (
  arith,
  keep_stronger required (is_passed r) r.strength best,
  reaches-strongest required
      (if is_passed r && is_stronger r.strength best then some r.strength else best) results,
)

pub required_passed-all :
    (results : List CommandResult) → required_passed results ≡ all is_done results
unfolding required_passed
required_passed-all [] = refl
required_passed-all (r ∷ results) = ground (arith, required_passed-all results)

all_satisfied :
    (good strong : Bool) (required : VerificationStrength) (references : List EvidenceReference)
    (evidence : List (Text × List Text)) (criteria : List Text)
    → good ≡ true
    → strong ≡ true
    → all
        (λ (row : CriterionEvidence). row.satisfied)
        (map (criterion_row good strong required references evidence) criteria)
      ≡ true
all_satisfied good strong required references evidence [] g s = refl
all_satisfied good strong required references evidence (c ∷ criteria) g s =
    ground (arith, all_satisfied good strong required references evidence criteria g s)

is_empty_iff : {A : Type 0} (xs : List A) → (is_empty xs ≡ true) ↔ (xs ≡ [])
is_empty_iff [] = ground arith
is_empty_iff (x ∷ xs) = ground arith

-- The last of four tests follows from the first and the third.
four_tests :
    (good good₂ clear strong strong₂ satisfied : Bool)
    → good ≡ good₂
    → strong ≡ strong₂
    → (good ≡ true → strong ≡ true → satisfied ≡ true)
    → (good && clear && strong && satisfied ≡ true)
      ↔ (good₂ ≡ true) × (clear ≡ true) × (strong₂ ≡ true)
four_tests true good₂ true true strong₂ satisfied g s h = ground (arith, g, s, h refl refl)
four_tests true good₂ true false strong₂ satisfied g s h = ground (arith, g, s)
four_tests true good₂ false strong strong₂ satisfied g s h = ground (arith, g, s)
four_tests false good₂ clear strong strong₂ satisfied g s h = ground (arith, g, s)

module _ (lower sha256 : Text → Text) (digit : ℕ → Option ℕ) where
  -- A report passes exactly when every required result passed, no scope violation is given, and some result
  -- that passed reaches the required strength: whatever the criteria are and whatever the model has
  -- claimed for them.
  pub build_report_passed :
      (criteria : List Text) (results : List CommandResult) (violations : List Text)
      (evidence : List (Text × List Text)) (changed : List Text)
      (requested : Option VerificationStrength)
      → ((build_report lower sha256 digit criteria results violations evidence changed
            requested).passed
          ≡ true)
        ↔ (all is_done results ≡ true)
          × (violations ≡ [])
          × (any (serves (required_for lower changed requested)) results ≡ true)
  unfolding build_report
  build_report_passed criteria results violations evidence changed requested =
      let required = required_for lower changed requested in
      let good = required_passed results in
      let strong = reaches required (strongest none results) in
      let references = references_from sha256 required 0 results in
      let both =
        four_tests good (all is_done results) (is_empty violations) strong
          (any (serves required) results)
          (all (λ (row : CriterionEvidence). row.satisfied)
            (map (criterion_row good strong required references evidence) criteria))
          (required_passed-all results) (reaches-strongest required none results)
          (all_satisfied good strong required references evidence criteria) in
      let none_out = is_empty_iff violations in
      (
        λ h. let parts = both.0 h in (parts.0, none_out.0 parts.1, parts.2),
        λ parts. both.1 (parts.0, none_out.1 parts.1, parts.2),
      )
