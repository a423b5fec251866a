-- ===== src/Task/Repeats.antt =====
-- What repeating a batch of actions leads to
-- (harness/orchestration/core.py `decide_route`, harness/state/progress.py).
use adk_coding_agent.Prelude.{
  ℕ, zero, suc, ◌+◌, ◌≤◌, String, ◌≡◌, ◌≢◌, ◌↔◌, refl, ap, ◌∙◌, Bool, true, false, List, [], ◌∷◌,
  leb, if◌then◌else◌, length, arith, all,
}
use adk_coding_agent.Prelude.Int.{ℤ, pos_part}
use adk_coding_agent.Prelude.Keyed.{string_eq, mem_key}
use adk_coding_agent.Prelude.Result.{Result, ok, ◌>>=◌}
use adk_coding_agent.Task.Models.{TaskLedger, AgentStep, model_validate}
use adk_coding_agent.Task.Progress.{
  ProgressRoute, register_action_batch, batch_ledger, route_for_progress, status_needs_input,
  is_verifying,
}
use adk_coding_agent.Task.Stagnation.{batch_again}
use adk_coding_agent.Task.Routes.{
  HarnessRoute, decide_route, harness_route, is_blocked, claims_done,
}

-- One batch of actions, registered over and over.
unfoldable pub register_times : ℕ → TaskLedger → List String → ℤ → Result TaskLedger
unfolding register_action_batch
register_times zero l fingerprints limit = ok l
register_times (suc n) l fingerprints limit = do
  m ← register_times n l fingerprints limit
  register_action_batch m fingerprints limit

batch-model_validate :
    (l : TaskLedger) (fs : List String) (limit : ℤ)
    → model_validate l ≡ ok l
    → register_action_batch l fs limit ≡ ok (batch_ledger l fs limit)
unfolding register_action_batch batch_ledger model_validate
batch-model_validate l [] limit h = ground arith
batch-model_validate l (f ∷ fs) limit h = ground arith

batch-valid :
    (l : TaskLedger) (fs : List String) (limit : ℤ)
    → model_validate l ≡ ok l
    → model_validate (batch_ledger l fs limit) ≡ ok (batch_ledger l fs limit)
unfolding register_action_batch
batch-valid l fs limit h = batch-model_validate l fs limit h

abbrev times : ℕ → TaskLedger → List String → ℤ → TaskLedger
times zero l fs limit = l
times (suc n) l fs limit = batch_ledger (times n l fs limit) fs limit

times-valid :
    (n : ℕ) (l : TaskLedger) (fs : List String) (limit : ℤ)
    → model_validate l ≡ ok l
    → model_validate (times n l fs limit) ≡ ok (times n l fs limit)
times-valid zero l fs limit h = h
times-valid (suc n) l fs limit h =
    batch-valid (times n l fs limit) fs limit (times-valid n l fs limit h)

register_times-ok :
    (n : ℕ) (l : TaskLedger) (fs : List String) (limit : ℤ)
    → model_validate l ≡ ok l
    → register_times n l fs limit ≡ ok (times n l fs limit)
unfolding register_times
register_times-ok zero l fs limit h = refl
register_times-ok (suc n) l fs limit h =
    rw (register_times-ok n l fs limit h)
      (batch-model_validate (times n l fs limit) fs limit (times-valid n l fs limit h))

times-count :
    (n : ℕ) (l : TaskLedger) (fs : List String) (limit : ℤ)
    → length fs ≤ pos_part limit
    → (times (suc n) l fs limit).no_progress_count ≡ (times 1 l fs limit).no_progress_count + n
times-count zero l fs limit fits = ground arith
times-count (suc n) l fs limit fits =
    ground (arith, batch_again (times n l fs limit) fs limit fits, times-count n l fs limit fits)

-- Two ledgers of which a route reads the same, but for the count.
abbrev Alike : TaskLedger → TaskLedger → Type 0
Alike l m =
    (m.status ≡ l.status)
    × (m.phase ≡ l.phase)
    × (m.blockers ≡ l.blockers)
    × (m.next_action ≡ l.next_action)

batch_ledger-Alike :
    (l m : TaskLedger) (fs : List String) (limit : ℤ)
    → Alike l m
    → Alike l (batch_ledger m fs limit)
unfolding batch_ledger
batch_ledger-Alike l m [] limit a = a
batch_ledger-Alike l m (f ∷ fs) limit a = a

times-Alike : (n : ℕ) (l : TaskLedger) (fs : List String) (limit : ℤ) → Alike l (times n l fs limit)
times-Alike zero l fs limit = (refl, refl, refl, refl)
times-Alike (suc n) l fs limit =
    batch_ledger-Alike l (times n l fs limit) fs limit (times-Alike n l fs limit)

fresh-count :
    (l : TaskLedger) (fs : List String) (limit : ℤ)
    → all (λ f. mem_key f l.recent_action_fingerprints) fs ≡ false
    → (batch_ledger l fs limit).no_progress_count ≡ 0
unfolding batch_ledger
fresh-count l [] limit h = ground arith
fresh-count l (f ∷ fs) limit h = rw h refl

route_by_count :
    (l : TaskLedger) (step : AgentStep) (r b : ℕ)
    → is_blocked step.status ≡ false
    → claims_done step.status ≡ false
    → status_needs_input l.status ≡ false
    → is_verifying l.status l.phase ≡ false
    → l.blockers ≡ []
    → decide_route l step false r b ≡ (
        if leb b l.no_progress_count
        then HarnessRoute.blocked
        else if leb r l.no_progress_count
        then HarnessRoute.replan
        else HarnessRoute.continue)
unfolding decide_route route_for_progress
route_by_count l step r b h1 h2 h3 h4 h5 = ground arith

-- A batch of actions that is not all in the history, and fits it, is registered again and again: every
-- registration succeeds, and after n repetitions the ledger, when it has no blockers and awaits
-- neither input nor verification, is routed by n alone, for a step that neither blocks nor claims to
-- be done: to the user from the second threshold on, else to a new plan from the first on, and until
-- then on with the work.
pub stagnation :
    (n : ℕ) (l : TaskLedger) (fs : List String) (limit : ℤ) (step : AgentStep) (r b : ℕ)
    → model_validate l ≡ ok l
    → length fs ≤ pos_part limit
    → all (λ f. mem_key f l.recent_action_fingerprints) fs ≡ false
    → is_blocked step.status ≡ false
    → claims_done step.status ≡ false
    → status_needs_input l.status ≡ false
    → is_verifying l.status l.phase ≡ false
    → l.blockers ≡ []
    → (m : TaskLedger) × (register_times (suc n) l fs limit ≡ ok m)
      × (decide_route m step false r b ≡ (
          if leb b n
          then HarnessRoute.blocked
          else if leb r n
          then HarnessRoute.replan
          else HarnessRoute.continue))
stagnation n l fs limit step r b valid fits fresh nb nc ni nv none_blocked =
    let (s, p, bl, na) = times-Alike (suc n) l fs limit in
    let m = times (suc n) l fs limit in
    let count : (times (suc n) l fs limit).no_progress_count ≡ n =
      ground (arith, times-count n l fs limit fits, fresh-count l fs limit fresh) in
    (
      times (suc n) l fs limit,
      register_times-ok (suc n) l fs limit valid,
      route_by_count (times (suc n) l fs limit) step r b nb nc (ap status_needs_input s ∙ ni)
            (ap (λ t. is_verifying t (times (suc n) l fs limit).phase) s
              ∙ ap (is_verifying l.status) p
              ∙ nv)
            (bl ∙ none_blocked)
          ∙ ap
              (λ c.
                if leb b c
                then HarnessRoute.blocked
                else if leb r c
                then HarnessRoute.replan
                else HarnessRoute.continue)
              count,
    )

never_verify : (p : ProgressRoute) → harness_route p ≢ HarnessRoute.verify
never_verify ProgressRoute.continue h = ground arith
never_verify ProgressRoute.replan h = ground arith
never_verify ProgressRoute.needs_input h = ground arith
never_verify ProgressRoute.verify h = ground arith

-- The run goes on to verification exactly when the step claims that the work is done or asks for
-- verification, and no steering is pending: neither the ledger nor the thresholds bring it about.
pub decide_route-verify :
    (l : TaskLedger) (step : AgentStep) (pending : Bool) (r b : ℕ)
    → (decide_route l step pending r b ≡ HarnessRoute.verify)
      ↔ ((pending ≡ false) × (claims_done step.status ≡ true))
unfolding decide_route
decide_route-verify l step pending r b = ground (arith, never_verify (route_for_progress l r b))
