-- ===== src/Verification/InScope.antt =====
-- The paths that `check_scope` (harness/verification/scope.py) has nothing to say on.
use adk_coding_agent.Prelude.{
  Bool, true, false, ◌≡◌, refl, ◌↔◌, inl, inr, Option, none, some, List, [], ◌∷◌, any, arith,
  Bool-cases, All, sym, subst, if◌then◌else◌,
}
use adk_coding_agent.Prelude.Sort.{sort, insert, All-sort}
use adk_coding_agent.Prelude.Text.{Text, text_eq, text_eq_iff}
use adk_coding_agent.Verification.Scope.{
  matches, violation, violations_of, check_scope, distinct, text_le, collect,
}

abbrev pub is_path_allowed : Option (List Text) → Text → Bool
is_path_allowed none path = true
is_path_allowed (some patterns) path = any (matches path) patterns

-- The path matches no forbidden pattern, and an allowed one where there is such a list.
abbrev pub IsInScope : Option (List Text) → List Text → Text → Type 0
IsInScope allowed forbidden path =
    (any (matches path) forbidden ≡ false) × (is_path_allowed allowed path ≡ true)

violation_iff :
    (allowed : Option (List Text)) (forbidden : List Text) (path : Text)
    → (violation allowed forbidden path ≡ none) ↔ IsInScope allowed forbidden path
unfolding violation
violation_iff none forbidden path = ground arith
violation_iff (some patterns) forbidden path = ground arith

collect_iff :
    (found : Option Text) (rest : List Text)
    → (collect found rest ≡ []) ↔ (found ≡ none) × (rest ≡ [])
collect_iff none rest = ground arith
collect_iff (some message) rest = ground arith

violations_of_iff :
    (allowed : Option (List Text)) (forbidden paths : List Text)
    → (violations_of allowed forbidden paths ≡ []) ↔ All (IsInScope allowed forbidden) paths
unfolding violations_of
violations_of_iff allowed forbidden [] = (λ h. tt, λ h. refl)
violations_of_iff allowed forbidden (path ∷ paths) =
    let here = violation_iff allowed forbidden path in
    let later = violations_of_iff allowed forbidden paths in
    let both =
      collect_iff (violation allowed forbidden path) (violations_of allowed forbidden paths) in
    (
      λ h. let parts = both.0 h in (here.0 parts.0, later.0 parts.1),
      λ h. both.1 (here.1 h.0, later.1 h.1),
    )

module _ {κ} (P : Text → Type κ) where
  All-any :
      (path : Text) (paths : List Text) → any (text_eq path) paths ≡ true → All P paths → P path
  All-any path [] h p = ground arith
  All-any path (q ∷ paths) h p = elim (Bool-cases (text_eq path q)) [
    | inl e ↦ subst P (sym ((text_eq_iff path q).0 e)) p.0
    | inr e ↦ All-any path paths (ground arith) p.1
  ]

  All-distinct : (paths : List Text) → All P paths → All P (distinct paths)
  unfolding distinct
  All-distinct [] h = tt
  All-distinct (p ∷ paths) h =
      elim (any (text_eq p) paths)
        as (λ b. All P (if b then distinct paths else p ∷ distinct paths)) [
          | true ↦ All-distinct paths h.1
          | false ↦ (h.0, All-distinct paths h.1)
        ]

  distinct-All : (paths : List Text) → All P (distinct paths) → All P paths
  unfolding distinct
  distinct-All [] h = tt
  distinct-All (p ∷ paths) h = elim (Bool-cases (any (text_eq p) paths)) [
    | inl e ↦
        let later =
          distinct-All paths
            (subst (λ b. All P (if b then distinct paths else p ∷ distinct paths)) e h) in
        (All-any p paths e later, later)
    | inr e ↦
        let parts : All P (p ∷ distinct paths) =
          subst (λ b. All P (if b then distinct paths else p ∷ distinct paths)) e h in
        (parts.0, distinct-All paths parts.1)
  ]

  insert-All :
      (le : Text → Text → Bool) (x : Text) (xs : List Text)
      → All P (insert le x xs)
      → P x × All P xs
  unfolding insert
  insert-All le x [] h = h
  insert-All le x (y ∷ ys) h = elim (Bool-cases (le x y)) [
    | inl e ↦ subst (λ b. All P (if b then x ∷ y ∷ ys else y ∷ insert le x ys)) e h
    | inr e ↦
        let parts : All P (y ∷ insert le x ys) =
          subst (λ b. All P (if b then x ∷ y ∷ ys else y ∷ insert le x ys)) e h in
        let rest = insert-All le x ys parts.1 in (rest.0, (parts.0, rest.1))
  ]

  sort-All : (le : Text → Text → Bool) (xs : List Text) → All P (sort le xs) → All P xs
  unfolding sort
  sort-All le [] h = tt
  sort-All le (x ∷ xs) h =
      let parts = insert-All le x (sort le xs) h in (parts.0, sort-All le xs parts.1)

-- `check_scope` reports nothing exactly when every changed path matches no forbidden pattern and, where
-- there is a list of allowed patterns, one of these.
pub check_scope_iff :
    (changed : List Text) (allowed : Option (List Text)) (forbidden : List Text)
    → (check_scope changed allowed forbidden ≡ []) ↔ All (IsInScope allowed forbidden) changed
unfolding check_scope
check_scope_iff changed allowed forbidden =
    let P = IsInScope allowed forbidden in
    let once = distinct changed in
    let said = violations_of_iff allowed forbidden (sort text_le once) in
    (
      λ h. distinct-All P changed (sort-All P text_le once (said.0 h)),
      λ h. said.1 (All-sort text_le P once (All-distinct P changed h)),
    )
