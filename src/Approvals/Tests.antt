-- ===== src/Approvals/Tests.antt =====
-- Runs of the model of harness/approvals/store.py, and its theorems at concrete inputs.
use adk_coding_agent.Prelude.{List, ◌≡◌, ◌≢◌, refl, true, false, none, some, [], ◌∷◌, ◌⊎◌}
use adk_coding_agent.Prelude.Keyed.{string_eq}
use adk_coding_agent.Prelude.Result.{ok, err, value_error, key_error}
use adk_coding_agent.Prelude.Sort.{sort}
use adk_coding_agent.Prelude.Table.{update_where}
use adk_coding_agent.Approvals.Contracts.{
  status_eq, aware, naive, pending, approved, denied, expired, approve, deny, Submission, Request,
  Decision, new_request, new_decision,
}
use adk_coding_agent.Approvals.Store.{
  Store, find_row, find_slot, request, submit_decision, decide, is_approved, get, expire,
  expire_due, expire_due_at, list, decide_row, persist,
}
use adk_coding_agent.Approvals.Invariant.{SameRequest}
use adk_coding_agent.Approvals.Replies.{AsksTheSame, decision_is_final, fingerprint_binds}
use adk_coding_agent.Approvals.Waiting.{
  Poll, Ending, seen, wait_loop, on_timeout, clean_up, wait_admitted,
}
use adk_coding_agent.Approvals.Ended.{Answers, wait_admitted-settles}
use adk_coding_agent.Approvals.Life.{
  requests, decides_on, asks, Calls, no_calls, then_call, sweeps, request_is_final, Authorised,
  is_approved_sound,
}

program : Unit {0}
unfolding request submit_decision decide is_approved get expire expire_due expire_due_at list
    decide_row new_request new_decision update_where sort persist
program = tt

abbrev empty : Store
empty = record { rows = []; changes = [] }

abbrev push : Submission
push = record {
  task_id = "t";
  fingerprint = "f";
  operation = "git push";
  risk = "publish_or_deploy";
  reason = "publishing";
  expires_at = some (aware 100);
}

abbrev waiting : Request
waiting = record {
  request_id = "r";
  task_id = "t";
  fingerprint = "f";
  operation = "git push";
  risk = "publish_or_deploy";
  reason = "publishing";
  expires_at = some 100;
  status = pending;
  requested_at = 1;
  decided_at = none;
  decided_by = none;
  decision_note = none;
}

abbrev yes_decision : Decision
yes_decision = record { request_id = "r"; decision = approve; actor = "ann"; note = none }

abbrev no_decision : Decision
no_decision = record { request_id = "r"; decision = deny; actor = "bob"; note = none }

abbrev asked : Store
asked = record { rows = waiting ∷ []; changes = waiting ∷ [] }

request_runs : request empty (aware 1) "r" push ≡ (ok waiting, asked)
unfolding program
request_runs = refl

request_naive : request empty (naive 1) "r" push ≡ (err value_error, empty)
unfolding program
request_naive = refl

request_reused :
    request asked (aware 2) "q" (record push { operation = "git push -f" })
    ≡ (err value_error, asked)
unfolding program
request_reused = refl

abbrev granted : Request
granted = record waiting { status = approved; decided_at = some 3; decided_by = some "ann" }

abbrev after_yes : Store
after_yes = record { rows = granted ∷ []; changes = waiting ∷ granted ∷ [] }

decision_runs : submit_decision asked (aware 2) (aware 3) yes_decision ≡ (ok granted, after_yes)
unfolding program
decision_runs = refl

decision_unknown : (decide asked (aware 2) (aware 3) "zz" approve "ann" none).0 ≡ err key_error
unfolding program
decision_unknown = refl

approved_now : (is_approved after_yes (aware 50) "t" "f").0 ≡ ok true
unfolding program
approved_now = refl

approved_late : (is_approved after_yes (aware 100) "t" "f").0 ≡ ok false
unfolding program
approved_late = refl

abandoned_first :
    (submit_decision
      (expire asked (aware 2) (aware 2) "r" "t").1
      (aware 3)
      (aware 3)
      yes_decision).0
    ≡ err value_error
unfolding program
abandoned_first = refl

abbrev calls :
    Calls empty
      (yes_decision ∷ [])
      (submit_decision (request empty (aware 1) "r" push).1 (aware 2) (aware 3) yes_decision).1
calls =
    then_call (then_call no_calls (requests (aware 1) "r" push))
      (decides_on (aware 2) (aware 3) yes_decision)

abbrev final : Store
final = (submit_decision (request empty (aware 1) "r" push).1 (aware 2) (aware 3) yes_decision).1

final_approved : (is_approved final (aware 50) "t" "f").0 ≡ ok true
unfolding program
final_approved = refl

request_is_final_example :
    (r' : Request) × (find_row "r" (is_approved asked (aware 200) "t" "f").1.rows ≡ some r')
    × SameRequest waiting r'
    × (pending ≡ denied → waiting ≡ r')
    × (pending ≡ expired → waiting ≡ r')
    × (pending ≡ approved → (waiting ≡ r') ⊎ (r'.status ≡ expired))
request_is_final_example =
    request_is_final (then_call no_calls (asks {s = asked} (aware 200) "t" "f")) "r" waiting refl

granted_row : find_row "r" final.rows ≡ some granted
unfolding program
granted_row = refl

is_approved_sound_example :
    (r : Request) × (find_slot "t" "f" (expire_due_at 50 final).1.rows ≡ some r)
    × Authorised "t" "f" 50 (yes_decision ∷ []) r
is_approved_sound_example = is_approved_sound 50 "t" "f" calls refl final_approved

submitted_yes : submit_decision asked (aware 2) (aware 3) yes_decision ≡ (ok granted, after_yes)
unfolding program
submitted_yes = refl

-- Bob denies at 50 what Ann approved, before the request expires.
abbrev after_sweep : Store
after_sweep = (expire_due after_yes (aware 40)).1

decision_is_final_example :
    let swept = (expire_due_at 50 after_sweep).1 in
    let answer = submit_decision after_sweep (aware 50) (aware 51) no_decision in
    ((find_row "r" swept.rows ≡ some granted)
      × (((deny ≡ approve) × (answer ≡ (ok granted, swept)))
          ⊎ ((deny ≢ approve) × (answer ≡ (err value_error, swept)))))
    ⊎ ((approved ≡ approved)
        × (x : Request) × (find_row "r" swept.rows ≡ some x)
        × (x.status ≡ expired)
        × (answer ≡ (err value_error, swept)))
decision_is_final_example =
    decision_is_final asked (aware 2) (aware 3) yes_decision granted submitted_yes
      (then_call no_calls (sweeps (aware 40))) 50 51 no_decision refl

fingerprint_binds_example :
    ((persist waiting after_yes).1.rows ≡ after_yes.rows)
    × ((AsksTheSame granted waiting × ((persist waiting after_yes).0 ≡ ok granted))
        ⊎ ((¬ AsksTheSame granted waiting)
            × (persist waiting after_yes ≡ (err value_error, after_yes))))
fingerprint_binds_example = fingerprint_binds after_yes waiting granted refl

-- Ann approves before the second poll.
abbrev two_polls : List Poll
two_polls =
    record { others = λ s. s; now = 5 }
    ∷ record { others = λ s. (submit_decision s (aware 6) (aware 6) yes_decision).1; now = 7 }
    ∷ []

abbrev no_events : Ending
no_events = record {
  before_timeout = λ s. s;
  timeout_at = 8;
  timeout_later = 8;
  read_at = 8;
  before_cleanup = λ s. s;
  cleanup_at = 9;
  cleanup_later = 9;
}

approved_wait :
    (wait_admitted none asked two_polls no_events "r" "t").0
    ≡ ok (record granted { decided_at = some 6 })
unfolding program wait_admitted wait_loop on_timeout clean_up seen
approved_wait = refl

-- Without the second poll the timeout comes first.
expired_wait :
    (elim (wait_admitted none asked
      (record { others = λ s. s; now = 5 } ∷ [])
      no_events
      "r"
      "t").0 [ ok r ↦ some r.status | err e ↦ none ])
    ≡ some expired
unfolding program wait_admitted wait_loop on_timeout clean_up seen
expired_wait = refl

wait_admitted-settles_example :
    ((r : Request) × (find_row "r" (wait_admitted none asked two_polls no_events "r" "t").1.rows
        ≡ some r)
      × (status_eq r.status pending ≡ false))
    × Answers (wait_admitted none asked two_polls no_events "r" "t").0
wait_admitted-settles_example =
    wait_admitted-settles "r" "t" asked two_polls no_events (waiting, refl, refl)
      (
        λ s. ([], no_calls),
        (
          λ s.
              (yes_decision ∷ [], then_call no_calls (decides_on (aware 6) (aware 6) yes_decision)),
          tt,
        ),
      )
      (λ s. ([], no_calls)) (λ s. ([], no_calls))
