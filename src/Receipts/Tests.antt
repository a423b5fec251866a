-- ===== src/Receipts/Tests.antt =====
-- Runs of the model of harness/state/receipts.py, and its theorems at concrete inputs.
use adk_coding_agent.Prelude.{◌≡◌, refl, none, some, [], ◌∷◌}
use adk_coding_agent.Prelude.Result.{ok, err, value_error, key_error}
use adk_coding_agent.Prelude.Table.{update_where}
use adk_coding_agent.Receipts.Store.{
  Receipt, Store, success, Completion, begin, begun, finish, get, set_finished,
}
use adk_coding_agent.Receipts.Once.{IsValid}
use adk_coding_agent.Receipts.Retry.{
  begin-finish, begins, finishes, Reach, here, next, receipts-IsValid, SameCall, receipt_kept,
}

program : Unit {0}
unfolding begin finish get update_where
program = tt

abbrev empty : Store
empty = record { rows = []; saves = [] }

abbrev r1 : Receipt
r1 = begun "t" "i" "c1" "bash" "h" (some "push") 5

abbrev one : Store
one = record { rows = r1 ∷ []; saves = r1 ∷ [] }

abbrev outcome : Completion
outcome = record { outcome = success; result_hash = some "rh"; artifact_uri = none; error = none }

abbrev done_r1 : Receipt
done_r1 = set_finished 9 outcome r1

abbrev two : Store
two = record { rows = done_r1 ∷ []; saves = r1 ∷ done_r1 ∷ [] }

begin_runs : begin empty 5 "t" "i" "c1" "bash" "h" (some "push") ≡ ok (r1, one)
unfolding program
begin_runs = refl

begin_effect_runs : begin one 6 "t" "i" "c2" "bash" "h" (some "push") ≡ ok (r1, one)
unfolding program
begin_effect_runs = refl

begin_other_runs : begin one 6 "t" "i" "c1" "bash" "other" none ≡ err value_error
unfolding program
begin_other_runs = refl

finish_runs : finish one 9 "t" "c1" outcome ≡ ok (done_r1, two)
unfolding program
finish_runs = refl

finish_unknown : finish one 9 "t" "c9" outcome ≡ err key_error
unfolding program
finish_unknown = refl

abbrev reach : Reach empty two
reach =
    next (next here (begins 5 "t" "i" "c1" "bash" "h" (some "push") r1 begin_runs))
      (finishes 9 "t" "c1" outcome done_r1 finish_runs)

empty-IsValid : IsValid empty.rows
empty-IsValid = record { keys = tt; slots = tt }

one-IsValid : IsValid one.rows
one-IsValid =
    receipts-IsValid (next here (begins 5 "t" "i" "c1" "bash" "h" (some "push") r1 begin_runs))
      empty-IsValid

-- A later outcome of the call is written over the first.
abbrev redone_r1 : Receipt
redone_r1 = set_finished 15 outcome done_r1

abbrev three : Store
three = record { rows = redone_r1 ∷ []; saves = r1 ∷ done_r1 ∷ redone_r1 ∷ [] }

refinish_runs : finish two 15 "t" "c1" outcome ≡ ok (redone_r1, three)
unfolding program
refinish_runs = refl

begin-finish_example :
    (y : Receipt) × (get three "t" "c1" ≡ some y)
    × SameCall done_r1 y
    × (begin three 20 "t" "again" "c1" "bash" "h" none ≡ ok (y, three))
begin-finish_example =
    begin-finish one two 9 "t" "c1" outcome done_r1 one-IsValid finish_runs
      (next here (finishes 15 "t" "c1" outcome redone_r1 refinish_runs)) 20 "again" none

one_row : get one "t" "c1" ≡ some r1
unfolding program
one_row = refl

receipt_kept_example : (r' : Receipt) × (get two "t" "c1" ≡ some r') × SameCall r1 r'
receipt_kept_example =
    receipt_kept "t" "c1" r1 (next here (finishes 9 "t" "c1" outcome done_r1 finish_runs)) one_row
