-- ===== src/Verification/Plan.antt =====
-- What a validation plan that passes did (`run_validation_plan` of harness/verification/runner.py).
use adk_coding_agent.Prelude.{
  ℕ, Bool, true, false, not, ◌&&◌, ◌||◌, ◌≡◌, refl, sym, ap, ◌∙◌, ◌↔◌, Option, List, [], ◌∷◌, leb,
  eqb, any, all, arith, All, if◌then◌else◌,
}
use adk_coding_agent.Prelude.Text.{Text}
use adk_coding_agent.Verification.Contracts.{
  VerificationStrength, CommandResult, ValidationCommand, ValidationPlan, is_passed,
}
use adk_coding_agent.Verification.Counts.{observed, enforce_test_count, too_few}
use adk_coding_agent.Verification.Scope.{check_scope}
use adk_coding_agent.Verification.Report.{required_for}
use adk_coding_agent.Verification.Runner.{result_of, run_commands, run_validation_plan}
use adk_coding_agent.Verification.Verdict.{is_done, serves, build_report_passed}
use adk_coding_agent.Verification.InScope.{IsInScope, check_scope_iff}

-- The two gates of `enforce_test_count`.
count_gates :
    (r few : CommandResult) (good none_asked enough : Bool)
    → is_passed r ≡ good
    → is_passed few ≡ false
    → (none_asked ≡ true → enough ≡ true)
    → is_passed (if not good || none_asked then r else if enough then r else few) ≡ good && enough
count_gates r few true true enough g f h = g ∙ sym (h refl)
count_gates r few true false true g f h = g
count_gates r few true false false g f h = f
count_gates r few false none_asked enough g f h = g

none_asked_lem : (n k : ℕ) → eqb n 0 ≡ true → leb n k ≡ true
none_asked_lem n k h = ground arith

failed_too_few :
    (digit : ℕ → Option ℕ) (c : ValidationCommand) (r : CommandResult)
    → is_passed (too_few digit c r) ≡ false
unfolding is_passed
failed_too_few digit c r = refl

module _ (digit : ℕ → Option ℕ) where
  pub enforce_test_count_passed :
      (c : ValidationCommand) (r : CommandResult)
      → is_passed (enforce_test_count digit c r)
        ≡ is_passed r && leb c.minimum_test_count (observed digit r)
  unfolding enforce_test_count
  enforce_test_count_passed c r =
      count_gates r (too_few digit c r) (is_passed r) (eqb c.minimum_test_count 0)
        (leb c.minimum_test_count (observed digit r)) refl (failed_too_few digit c r)
        (none_asked_lem c.minimum_test_count (observed digit r))

  -- Where a command is required, its result passed and shows the tests that it asks for.
  abbrev pub is_met : ValidationCommand → CommandResult → Bool
  is_met c raw =
      if c.required then is_passed raw && leb c.minimum_test_count (observed digit raw) else true

-- A plan's commands were all executed, each from the state that the one before it left, and the required
-- ones passed and ran the tests that they were to run.
pub data Checked {S : Type 0} (lower : Text → Text) (digit : ℕ → Option ℕ)
    (executor : S → ValidationCommand → S × CommandResult)
    : S → List ValidationCommand → List CommandResult → Type 0 where
  nothing : (s : S) → Checked lower digit executor s [] []
  checked :
      (s : S) (c : ValidationCommand) (commands : List ValidationCommand)
      (results : List CommandResult)
      → is_met digit c (executor s c).1 ≡ true
      → Checked lower digit executor (executor s c).0 commands results
      → Checked lower digit executor s
          (c ∷ commands)
          (result_of lower digit c (executor s c).1 ∷ results)

module _ {S : Type 0} (lower : Text → Text) (digit : ℕ → Option ℕ)
    (executor : S → ValidationCommand → S × CommandResult) where
  is_done-result_of :
      (c : ValidationCommand) (raw : CommandResult)
      → is_done (result_of lower digit c raw) ≡ is_met digit c raw
  unfolding result_of is_passed
  is_done-result_of c raw =
      ap (λ b. if c.required then b else true) (enforce_test_count_passed digit c raw)

  result_of-required :
      (c : ValidationCommand) (raw : CommandResult)
      → (result_of lower digit c raw).required ≡ c.required
  unfolding result_of
  result_of-required c raw = refl

  Checked-done :
      (s : S) (commands : List ValidationCommand) (results : List CommandResult)
      → Checked lower digit executor s commands results
      → all is_done results ≡ true
  Checked-done _ _ _ (nothing s) = refl
  Checked-done _ _ _ (checked s c commands results good later) = ground (
    arith,
    is_done-result_of c (executor s c).1,
    Checked-done (executor s c).0 commands results later,
  )

  -- A list that ends at a required failure is not done.
  stopped :
      (r : CommandResult) (stop required : Bool)
      → r.required ≡ required
      → (stop && required && not (is_passed r)) ≡ true
      → is_done r ≡ false
  stopped r stop required q h = ground (arith, q)

  after_gate :
      (stops : Bool) (s : S) (c : ValidationCommand) (commands : List ValidationCommand)
      (rest : S × List CommandResult)
      → (stops ≡ true → is_done (result_of lower digit c (executor s c).1) ≡ false)
      → (all is_done rest.1 ≡ true → Checked lower digit executor (executor s c).0 commands rest.1)
      → let r = result_of lower digit c (executor s c).1 in
        let loop : S × List CommandResult =
          (if stops then ((executor s c).0, r ∷ []) else (rest.0, r ∷ rest.1)) in
        all is_done loop.1 ≡ true → Checked lower digit executor s (c ∷ commands) loop.1
  after_gate true s c commands rest failed later h = ground (arith, failed refl)
  after_gate false s c commands rest failed later h =
      checked s c commands rest.1 (ground (arith, is_done-result_of c (executor s c).1))
        (later (ground arith))

  run_commands-Checked :
      (stop : Bool) (s : S) (commands : List ValidationCommand)
      → all is_done (run_commands lower digit executor stop s commands).1 ≡ true
      → Checked lower digit executor s commands
          (run_commands lower digit executor stop s commands).1
  unfolding run_commands
  run_commands-Checked stop s [] h = nothing s
  run_commands-Checked stop s (c ∷ commands) h =
      let r = result_of lower digit c (executor s c).1 in
      let required_c : r.required ≡ c.required = result_of-required c (executor s c).1 in
      after_gate (stop && c.required && not (is_passed r)) s c commands
        (run_commands lower digit executor stop (executor s c).0 commands)
        (stopped r stop c.required required_c) (run_commands-Checked stop (executor s c).0 commands)
        h

module _ {S : Type 0} (lower sha256 : Text → Text) (digit : ℕ → Option ℕ)
    (executor : S → ValidationCommand → S × CommandResult) where
  -- A plan passes exactly when all its commands were executed in their order, the required ones passed
  -- and ran the number of tests that they ask for, every changed path is in scope, and some result that
  -- passed reaches the required strength: whether or not a failure stops the plan, whatever the criteria
  -- and the claims, and whatever the executor does.
  pub run_validation_plan_passed :
      (s : S) (plan : ValidationPlan) (criteria : List Text) (evidence : List (Text × List Text))
      (stop : Bool) (requested : Option VerificationStrength)
      → let after =
          run_validation_plan lower sha256 digit executor s plan criteria evidence stop requested in
        (after.1.0.passed ≡ true)
        ↔ Checked lower digit executor s plan.commands after.1.1
          × All (IsInScope plan.allowed_paths plan.forbidden_paths) plan.changed_paths
          × (any (serves (required_for lower plan.changed_paths requested)) after.1.1 ≡ true)
  unfolding run_validation_plan
  run_validation_plan_passed s plan criteria evidence stop requested =
      let results = (run_commands lower digit executor stop s plan.commands).1 in
      let verdict =
        build_report_passed lower sha256 digit criteria results
          (check_scope plan.changed_paths plan.allowed_paths plan.forbidden_paths) evidence
          plan.changed_paths requested in
      let scope = check_scope_iff plan.changed_paths plan.allowed_paths plan.forbidden_paths in
      (
        λ h.
            let parts = verdict.0 h in
            (
              run_commands-Checked lower digit executor stop s plan.commands parts.0,
              scope.0 parts.1,
              parts.2,
            ),
        λ h.
            verdict.1
              (Checked-done lower digit executor s plan.commands results h.0, scope.1 h.1, h.2),
      )
