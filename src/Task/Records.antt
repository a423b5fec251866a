-- ===== src/Task/Records.antt =====
-- What one step of the agent leaves in the ledger (harness/orchestration/core.py).
use adk_coding_agent.Prelude.{
  ◌+◌, String, ◌≡◌, ◌↔◌, refl, Bool, true, not, ◌||◌, List, [], ◌∷◌, ◌++◌, map, ◌==◌, eq_iff,
  filter, arith, ap, ◌∙◌, sym, all,
}
use adk_coding_agent.Prelude.Keyed.{string_eq, mem_key, mem_key-append, DistinctKeys}
use adk_coding_agent.Prelude.Result.{ok, err, validation_error}
use adk_coding_agent.Task.Models.{TaskLedger, AgentStep, StepStatus, Decision, model_validate}
use adk_coding_agent.Task.Reduce.{
  dict_fromkeys, new_decision, new_decisions, record_step, set_phase, apply_status,
  blocking_reasons, reduce_agent_step,
}
use adk_coding_agent.Task.Keys.{mem-add_keys, add_keys-DistinctKeys}

-- The summaries of a ledger's decisions.
abbrev pub summaries : List Decision → List String
summaries = map (λ (d : Decision). d.summary)

abbrev pub named : Decision → Bool
named d = not (d.summary == "")

-- What is known to one list or to the other, once.
abbrev pub Merged : List String → List String → List String → Type 0
Merged old new merged =
    DistinctKeys merged × ((k : String) → mem_key k merged ≡ (mem_key k old || mem_key k new))

-- What a step adds to the ledger.
abbrev pub Recorded : TaskLedger → AgentStep → TaskLedger → Type 0
Recorded l step m =
    (m.iteration ≡ l.iteration + 1)
    × Merged l.progress step.progress m.progress
    × Merged l.constraints step.discovered_constraints m.constraints
    × Merged l.open_questions step.questions m.open_questions
    × ((k : String)
        → mem_key k (summaries m.decisions)
          ≡ (mem_key k (summaries l.decisions) || mem_key k step.decisions))

merged : (old new : List String) → Merged old new (dict_fromkeys (old ++ new))
merged old new = (
  add_keys-DistinctKeys [] (old ++ new) tt,
  λ k. ground (arith, mem-add_keys k [] (old ++ new), mem_key-append k old new),
)

summaries-new :
    (known xs : List String)
    → map (λ (d : Decision). d.summary) (map new_decision (filter (λ s. not (mem_key s known)) xs))
      ≡ filter (λ s. not (mem_key s known)) xs
summaries-new known [] = refl
summaries-new known (x ∷ xs) = ground (arith, summaries-new known xs)

mem-filter :
    (k : String) (known xs : List String)
    → (mem_key k known || mem_key k (filter (λ s. not (mem_key s known)) xs))
      ≡ (mem_key k known || mem_key k xs)
mem-filter k known [] = refl
mem-filter k known (x ∷ xs) = ground (arith, mem-filter k known xs, eq_iff x k)

summaries-append : (xs ys : List Decision) → summaries (xs ++ ys) ≡ summaries xs ++ summaries ys
summaries-append [] ys = refl
summaries-append (x ∷ xs) ys = ap (λ t. x.summary ∷ t) (summaries-append xs ys)

mem-decisions :
    (known : List Decision) (new : List String) (k : String)
    → mem_key k (summaries (known ++ new_decisions known new))
      ≡ (mem_key k (summaries known) || mem_key k new)
unfolding new_decisions
mem-decisions known new k =
    ap (mem_key k) (summaries-append known (new_decisions known new))
    ∙ mem_key-append k (summaries known) (summaries (new_decisions known new))
    ∙ ap (λ t. mem_key k (summaries known) || mem_key k t)
        (summaries-new (summaries known) (dict_fromkeys new))
    ∙ mem-filter k (summaries known) (dict_fromkeys new)
    ∙ ap (λ t. mem_key k (summaries known) || t) (mem-add_keys k [] new)

record_step-Recorded : (l : TaskLedger) (step : AgentStep) → Recorded l step (record_step l step)
unfolding record_step
record_step-Recorded l step = (
  refl,
  merged l.progress step.progress,
  merged l.constraints step.discovered_constraints,
  merged l.open_questions step.questions,
  mem-decisions l.decisions step.decisions,
)

apply_status-Recorded :
    (l : TaskLedger) (step : AgentStep) (s : StepStatus) (m : TaskLedger) (reasons : List String)
    → Recorded l step m
    → Recorded l step (apply_status s m reasons)
unfolding apply_status set_phase
apply_status-Recorded l step StepStatus.answer m reasons r = r
apply_status-Recorded l step StepStatus.continue m reasons r = r
apply_status-Recorded l step StepStatus.verify m reasons r = r
apply_status-Recorded l step StepStatus.blocked m reasons r = r
apply_status-Recorded l step StepStatus.done m reasons r = r

pub model_validate-ok : (l m : TaskLedger) → model_validate l ≡ ok m → l ≡ m
unfolding model_validate
model_validate-ok l m h = ground arith

-- When a step is reduced, nothing the ledger knew is lost: its progress, constraints, open questions
-- and decision summaries afterwards are those it had and those the step reports, the first three
-- without repetition, and the iteration has gone up by one.
pub reduce_agent_step-Recorded :
    (l : TaskLedger) (step : AgentStep) (m : TaskLedger)
    → reduce_agent_step l step ≡ ok m
    → Recorded l step m
unfolding reduce_agent_step
reduce_agent_step-Recorded l step m h =
    let validated = apply_status step.status (record_step l step) (blocking_reasons step) in
    rw (sym (model_validate-ok validated m h)) (
      apply_status-Recorded l step step.status (record_step l step) (blocking_reasons step)
        (record_step-Recorded l step))

all-named : (ds : List Decision) → all named ds ≡ not (mem_key "" (summaries ds))
all-named [] = refl
all-named (d ∷ ds) = ground (arith, all-named ds)

named-recorded :
    (l : TaskLedger) (step : AgentStep)
    → all named l.decisions ≡ true
    → all named (record_step l step).decisions ≡ not (mem_key "" step.decisions)
unfolding record_step
named-recorded l step h = ground (
  arith,
  all-named (l.decisions ++ new_decisions l.decisions step.decisions),
  mem-decisions l.decisions step.decisions "",
  all-named l.decisions,
)

-- A valid ledger takes a step exactly when the step names each of its decisions: an empty decision,
-- which the step's own type allows, is a validation error, and nothing else is.
pub reduce_agent_step-error :
    (l : TaskLedger) (step : AgentStep)
    → model_validate l ≡ ok l
    → (reduce_agent_step l step ≡ err validation_error) ↔ (mem_key "" step.decisions ≡ true)
unfolding reduce_agent_step apply_status set_phase record_step model_validate
reduce_agent_step-error l step h =
    elim (step.status)
      as (λ s.
        (model_validate (apply_status s (record_step l step) (blocking_reasons step))
          ≡ err validation_error)
        ↔ (mem_key "" step.decisions ≡ true)) [
          | StepStatus.answer ↦ ground (arith, named-recorded l step)
          | StepStatus.continue ↦ ground (arith, named-recorded l step)
          | StepStatus.verify ↦ ground (arith, named-recorded l step)
          | StepStatus.blocked ↦ ground (arith, named-recorded l step)
          | StepStatus.done ↦ ground (arith, named-recorded l step)
        ]
