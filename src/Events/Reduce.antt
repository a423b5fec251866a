-- ===== src/Events/Reduce.antt =====
-- harness/state/events.py: patches of the ledger, the reduction of one event, and the replay of a
-- stream. What pydantic makes of the ledger's model is a parameter, `Schema`. A value of a field is a
-- list of items or something else; what a payload holds for a kind is read by `Payload`.
use adk_coding_agent.Prelude.{
  ℕ, suc, String, Bool, not, Option, none, some, List, [], ◌∷◌, ◌++◌, leb, eqb, ◌==◌, if◌then◌else◌,
  filter,
}
use adk_coding_agent.Prelude.Keyed.{Eq, string_eq, mem_key}
use adk_coding_agent.Prelude.Result.{
  Result, ok, err, value_error, type_error, assertion_error, ◌>>=◌, ◌>>◌, require,
}
use adk_coding_agent.Prelude.Sort.{sort}
use adk_coding_agent.Task.Models.{TaskLedger}
use adk_coding_agent.Events.Model.{HarnessEvent}

pub data Value (A : Type 0) : Type 0 where
  items : List A → Value A
  scalar : A → Value A

-- The dict of a model's fields.
abbrev pub Fields : Type 0 → Type 0
Fields A = String → Option (Value A)

pub record LedgerPatch (A : Type 0) : Type 0 where
  pub set_fields : List (String × Value A)
  pub append_fields : List (String × List A)
  pub remove_values : List (String × List A)

-- `TaskLedger.model_fields`, `model_dump` and `model_validate` of `TaskLedger`, and the strings that
-- the reducer writes, as items.
pub record Schema (A : Type 0) : Type 0 where
  pub model_fields : List String
  pub model_dump : TaskLedger → Fields A
  pub model_validate : Fields A → Result TaskLedger
  pub text : String → A

-- `event.payload["ledger"]` and `event.payload["reason"]`, a missing key being an error, and
-- `LedgerPatch.model_validate(event.payload)`.
pub record Payload (A P : Type 0) : Type 0 where
  pub ledger : P → Result (Fields A)
  pub reason : P → Result A
  pub patch : P → Result (LedgerPatch A)

module _ {A : Type 0} where
  abbrev pub set_field : Fields A → String → Value A → Fields A
  set_field fields name value f = if f == name then some value else fields f

  -- `isinstance(current, list)`
  abbrev pub list_of : Option (Value A) → Result (List A)
  list_of (some (items xs)) = ok xs
  list_of (some (scalar x)) = err type_error
  list_of none = err type_error

  unfoldable pub apply_set_fields :
      List String → List (String × Value A) → Fields A → Result (Fields A)
  apply_set_fields known [] fields = ok fields
  apply_set_fields known ((name, value) ∷ sets) fields =
      require (mem_key name known) value_error
      >> apply_set_fields known sets (set_field fields name value)

  unfoldable pub apply_append_fields :
      List String → List (String × List A) → Fields A → Result (Fields A)
  apply_append_fields known [] fields = ok fields
  apply_append_fields known ((name, values) ∷ appends) fields =
      require (mem_key name known) value_error
      >> (list_of (fields name) >>= λ current.
          apply_append_fields known appends (set_field fields name (items (current ++ values))))

module _ {A : Type 0} ⦃e : Eq A⦄ where
  unfoldable pub apply_remove_values :
      List String → List (String × List A) → Fields A → Result (Fields A)
  apply_remove_values known [] fields = ok fields
  apply_remove_values known ((name, values) ∷ removes) fields =
      require (mem_key name known) value_error
      >> (list_of (fields name) >>= λ current.
          apply_remove_values known removes
            (set_field fields name (items (filter (λ item. not (mem_key item values)) current))))

  unfoldable pub patched_fields : List String → LedgerPatch A → Fields A → Result (Fields A)
  unfolding apply_set_fields apply_append_fields apply_remove_values
  patched_fields known patch fields = apply_set_fields known patch.set_fields fields >>= λ set.
      apply_append_fields known patch.append_fields set >>= λ appended.
      apply_remove_values known patch.remove_values appended

  unfoldable pub apply_patch : Schema A → TaskLedger → LedgerPatch A → Result TaskLedger
  unfolding patched_fields
  apply_patch schema ledger patch =
      patched_fields schema.model_fields patch (schema.model_dump ledger) >>= λ fields.
      schema.model_validate fields

module _ {A P : Type 0} ⦃e : Eq A⦄ (schema : Schema A) (payload : Payload A P) where
  abbrev pub owned_by : String → TaskLedger → Result TaskLedger
  owned_by task_id ledger = if ledger.task_id == task_id then ok ledger else err value_error

  abbrev pub blocked_patch : A → LedgerPatch A
  blocked_patch reason = record {
    set_fields =
        ("status", scalar (schema.text "needs_input"))
        ∷ ("phase", scalar (schema.text "blocked"))
        ∷ [];
    append_fields = ("blockers", reason ∷ []) ∷ [];
    remove_values = [];
  }

  abbrev pub finished_patch : LedgerPatch A
  finished_patch = record {
    set_fields =
        ("status", scalar (schema.text "complete"))
        ∷ ("phase", scalar (schema.text "complete"))
        ∷ [];
    append_fields = [];
    remove_values = [];
  }

  -- What an event does to the ledger of its own task.
  unfoldable pub reduce_own : TaskLedger → HarnessEvent P → Result TaskLedger
  unfolding apply_patch
  reduce_own ledger event =
      if event.kind == "ledger.patched"
      then (payload.patch event.payload >>= λ patch. apply_patch schema ledger patch)
      else if event.kind == "task.blocked"
      then (payload.reason event.payload >>= λ reason.
          apply_patch schema ledger (blocked_patch reason))
      else if event.kind == "task.finished"
      then apply_patch schema ledger finished_patch
      else ok ledger

  unfoldable pub reduce_event : Option TaskLedger → HarnessEvent P → Result TaskLedger
  unfolding reduce_own
  reduce_event none event =
      if event.kind == "task.created"
      then (payload.ledger event.payload >>= λ fields.
          schema.model_validate fields >>= owned_by event.task_id)
      else err value_error
  reduce_event (some ledger) event =
      if event.kind == "task.created"
      then err value_error
      else (owned_by event.task_id ledger >>= λ own. reduce_own own event)

  -- The loop of `rebuild_ledger`: the ids that are seen, the sequence that is expected, the ledger.
  unfoldable pub rebuild_loop :
      List String → ℕ → Option TaskLedger → List (HarnessEvent P) → Result (Option TaskLedger)
  unfolding reduce_event
  rebuild_loop seen expected ledger [] = ok ledger
  rebuild_loop seen expected ledger (event ∷ events) =
      if mem_key event.event_id seen
      then rebuild_loop seen expected ledger events
      else if eqb event.sequence expected
      then (reduce_event ledger event >>= λ reduced.
          rebuild_loop (event.event_id ∷ seen) (suc expected) (some reduced) events)
      else err value_error

  abbrev pub assert_some : Option TaskLedger → Result TaskLedger
  assert_some none = err assertion_error
  assert_some (some ledger) = ok ledger

  abbrev pub by_sequence : HarnessEvent P → HarnessEvent P → Bool
  by_sequence a b = leb a.sequence b.sequence

  unfoldable pub rebuild_sorted : List (HarnessEvent P) → Result TaskLedger
  unfolding rebuild_loop
  rebuild_sorted [] = err value_error
  rebuild_sorted (event ∷ events) = rebuild_loop [] 1 none (event ∷ events) >>= assert_some

  unfoldable pub rebuild_ledger : List (HarnessEvent P) → Result TaskLedger
  unfolding rebuild_sorted sort
  rebuild_ledger events = rebuild_sorted (sort by_sequence events)
