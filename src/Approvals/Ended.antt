-- ===== src/Approvals/Ended.antt =====
-- A wait leaves no request pending (harness/approvals/waiting.py).
use adk_coding_agent.Prelude.{
  ℕ, String, ◌≡◌, refl, ap, sym, ◌∙◌, false, Option, none, some, List, [], ◌∷◌, eq_iff,
  if◌then◌else◌, arith, All,
}
use adk_coding_agent.Prelude.Keyed.{string_eq, find_by-update_where, find_by-key, updated}
use adk_coding_agent.Prelude.Result.{Result, ok, err}
use adk_coding_agent.Prelude.Table.{update_where}
use adk_coding_agent.Approvals.Contracts.{aware, status_eq, pending, Request, Decision}
use adk_coding_agent.Approvals.Store.{
  Store, row_id, find_row, get, expire, expire_due_at, utc_now, is_due, set_expired, is_waiting,
  set_abandoned, notify_found,
}
use adk_coding_agent.Approvals.Life.{
  Calls, no_calls, then_call, gets, abandons_wait, request_is_final,
}
use adk_coding_agent.Approvals.Waiting.{
  Poll, Ending, seen, answer_or, wait_loop, expired_copy, on_timeout, clean_up, wait_admitted,
}

-- The request is in the store, and of the task.
abbrev pub Kept : String → String → Store → Type 0
Kept id task s = (r : Request) × (find_row id s.rows ≡ some r) × (r.task_id ≡ task)

-- What others do is calls of the store.
abbrev pub ByCalls : (Store → Store) → Type 0
ByCalls f = (s : Store) → (ds : List Decision) × Calls s ds (f s)

Kept-Calls :
    (id task : String) {s t : Store} {ds : List Decision}
    → Calls s ds t
    → Kept id task s
    → Kept id task t
Kept-Calls id task calls (r, found, own) =
    let (r', found', same, denied_same, expired_same, approved_same) =
      request_is_final calls id r found in
    (r', found', sym same.task_id ∙ own)

Kept-get :
    (id task : String) (s : Store) (now : ℕ)
    → Kept id task s
    → Kept id task (get s (aware now) id).1
Kept-get id task s now = Kept-Calls id task (then_call no_calls (gets (aware now) id))

Kept-expire :
    (id task : String) (s : Store) (a b : ℕ)
    → Kept id task s
    → Kept id task (expire s (aware a) (aware b) id task).1
Kept-expire id task s a b =
    Kept-Calls id task (then_call no_calls (abandons_wait (aware a) (aware b) id task))

Kept-others :
    (id task : String) (f : Store → Store) (s : Store)
    → ByCalls f
    → Kept id task s
    → Kept id task (f s)
Kept-others id task f s by = Kept-Calls id task (by s).1

notify_found-rows : (o : Option Request) (s : Store) → (notify_found o s).rows ≡ s.rows
notify_found-rows none s = refl
notify_found-rows (some r) s = refl

-- The row after the two updates of `expire`.
abbrev after_expire : ℕ → ℕ → String → String → Request → Request
after_expire a b id task r =
    let ended = if is_waiting id task r then set_abandoned a r else r in
    if is_due b ended then set_expired b ended else ended

after_expire-settled :
    (a b : ℕ) (id task : String) (r : Request)
    → r.request_id ≡ id
    → r.task_id ≡ task
    → status_eq (after_expire a b id task r).status pending ≡ false
after_expire-settled a b id task r i t =
    ground (arith, eq_iff r.request_id id, eq_iff r.task_id task)

set_abandoned-id : (a : ℕ) (r : Request) → row_id (set_abandoned a r) ≡ row_id r
set_abandoned-id a r = refl

expire-settles :
    (id task : String) (s : Store) (a b : ℕ)
    → Kept id task s
    → (r : Request) × (find_row id (expire s (aware a) (aware b) id task).1.rows ≡ some r)
      × (status_eq r.status pending ≡ false)
unfolding expire utc_now expire_due_at
expire-settles id task s a b (r, found, own) =
    let first = update_where (is_waiting id task) (set_abandoned a) s.rows in
    let second = update_where (is_due b) (set_expired b) first in
    (
      after_expire a b id task r,
      ap (find_row id)
            (notify_found-rows (find_row id second) (expire_due_at b (record s { rows = first })).1)
          ∙ find_by-update_where row_id id (is_due b) (set_expired b) (λ x. refl) first
          ∙ ap (updated row_id (is_due b) (set_expired b)) (
              find_by-update_where row_id id (is_waiting id task) (set_abandoned a) (λ x. refl)
                s.rows
              ∙ ap (updated row_id (is_waiting id task) (set_abandoned a)) found),
      after_expire-settled a b id task r (find_by-key row_id id s.rows r found) own,
    )

-- The answer, when it is a request, is not pending.
abbrev pub Answers : Result Request → Type 0
Answers answer = (r : Request) → answer ≡ ok r → status_eq r.status pending ≡ false

seen-Answers :
    (found : Result (Option Request)) (answer : Result Request)
    → seen found ≡ some answer
    → Answers answer
unfolding seen
seen-Answers (err e) answer h r g = ground arith
seen-Answers (ok none) answer h r g = ground arith
seen-Answers (ok (some x)) answer h r g = ground arith

-- The loop keeps the request, and answers with none that is pending.
abbrev LoopEnds : String → String → Option (Result Request) × Store → Type 0
LoopEnds id task end =
    ((answer : Result Request) → end.0 ≡ some answer → Answers answer) × Kept id task end.1

answer_or-LoopEnds :
    (id task : String) (answer : Option (Result Request)) (s : Store)
    (rest : Option (Result Request) × Store)
    → ((a : Result Request) → answer ≡ some a → Answers a)
    → Kept id task s
    → LoopEnds id task rest
    → LoopEnds id task (answer_or answer s rest)
answer_or-LoopEnds id task none s rest settled kept ends = ends
answer_or-LoopEnds id task (some a) s rest settled kept ends = (settled, kept)

wait_loop-LoopEnds :
    (id task : String) (polls : List Poll) (s : Store)
    → All (λ (p : Poll). ByCalls p.others) polls
    → Kept id task s
    → LoopEnds id task (wait_loop id polls s)
unfolding wait_loop
wait_loop-LoopEnds id task [] s by kept = (λ answer h. absurd (ground arith), kept)
wait_loop-LoopEnds id task (p ∷ polls) s by kept =
    let s' = (get (p.others s) (aware p.now) id).1 in
    let found = (get (p.others s) (aware p.now) id).0 in
    let kept' = Kept-get id task (p.others s) p.now (Kept-others id task p.others s by.0 kept) in
    answer_or-LoopEnds id task (seen found) s' (wait_loop id polls s')
      (λ a h. seen-Answers found a h) kept' (wait_loop-LoopEnds id task polls s' by.1 kept')

expired_copy-Answers : (found : Result (Option Request)) → Answers (expired_copy found)
expired_copy-Answers (err e) r h = ground arith
expired_copy-Answers (ok none) r h = ground arith
expired_copy-Answers (ok (some x)) r h = ground arith

on_timeout-ends :
    (e : Ending) (id task : String) (end : Option (Result Request) × Store)
    → ByCalls e.before_timeout
    → LoopEnds id task end
    → Answers (on_timeout e id task end).0 × Kept id task (on_timeout e id task end).1
unfolding on_timeout
on_timeout-ends e id task (some answer, s) by (settled, kept) = (settled answer refl, kept)
on_timeout-ends e id task (none, s) by (settled, kept) =
    let s' = (expire (e.before_timeout s) (aware e.timeout_at) (aware e.timeout_later) id task).1 in
    (
      expired_copy-Answers (get s' (aware e.read_at) id).0,
      Kept-get id task s' e.read_at (
          Kept-expire id task (e.before_timeout s) e.timeout_at e.timeout_later
            (Kept-others id task e.before_timeout s by kept)),
    )

-- Once a wait for a stored request of the task has begun, whatever calls others make and whenever the
-- polls, the timeout and the clean-up come: when it has ended the request is in the store and not
-- pending any more, and the answer, if it is a request, is not pending either.
pub wait_admitted-settles :
    (id task : String) (s : Store) (polls : List Poll) (e : Ending)
    → Kept id task s
    → All (λ (p : Poll). ByCalls p.others) polls
    → ByCalls e.before_timeout
    → ByCalls e.before_cleanup
    → ((r : Request) × (find_row id (wait_admitted none s polls e id task).1.rows ≡ some r)
        × (status_eq r.status pending ≡ false))
      × Answers (wait_admitted none s polls e id task).0
unfolding wait_admitted clean_up
wait_admitted-settles id task s polls e kept by before_timeout before_cleanup =
    let end = wait_loop id polls s in
    let timed = on_timeout e id task end in
    let (answers, kept') =
      on_timeout-ends e id task end before_timeout (wait_loop-LoopEnds id task polls s by kept) in
    (
      expire-settles id task (e.before_cleanup timed.1) e.cleanup_at e.cleanup_later
          (Kept-others id task e.before_cleanup timed.1 before_cleanup kept'),
      answers,
    )
