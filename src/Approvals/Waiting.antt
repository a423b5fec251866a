-- ===== src/Approvals/Waiting.antt =====
-- `ApprovalWaiter` of harness/approvals/waiting.py. A wait polls the store under a timeout: its polls
-- are a list, each with what others do to the store before it and the time it reads, and the timeout
-- comes when the list ends. The clocks read are the store's, with a timezone. The cancellation of the
-- waiting task, after which the clean-up runs too and no request is returned, is left out.
use adk_coding_agent.Prelude.{
  ℕ, String, Bool, true, not, ◌&&◌, ◌||◌, Option, none, some, List, [], ◌∷◌, ◌++◌, leb, ◌==◌,
  if◌then◌else◌, length, filter,
}
use adk_coding_agent.Prelude.Keyed.{string_eq, mem_key}
use adk_coding_agent.Prelude.Result.{Result, ok, err, value_error, assertion_error}
use adk_coding_agent.Approvals.Contracts.{aware, status_eq, pending, expired, Request, Verdict}
use adk_coding_agent.Approvals.Store.{Store, get, expire, decide}

pub record Waiter : Type 0 where
  pub task_id : String
  pub waiting_ids : List String

pub record Poll : Type 0 where
  pub others : Store → Store
  pub now : ℕ

-- What others do before the timeout is handled and before the wait is cleaned up, and the times read.
pub record Ending : Type 0 where
  pub before_timeout : Store → Store
  pub timeout_at : ℕ
  pub timeout_later : ℕ
  pub read_at : ℕ
  pub before_cleanup : Store → Store
  pub cleanup_at : ℕ
  pub cleanup_later : ℕ

-- What a poll ends the wait with, if it does.
unfoldable pub seen : Result (Option Request) → Option (Result Request)
seen (err e) = some (err e)
seen (ok none) = some (err value_error)
seen (ok (some r)) = if status_eq r.status pending then none else some (ok r)

abbrev pub answer_or :
    Option (Result Request)
    → Store
    → Option (Result Request) × Store
    → Option (Result Request) × Store
answer_or none s rest = rest
answer_or (some answer) s rest = (some answer, s)

-- The loop of `wait`: no answer when the timeout comes first.
unfoldable pub wait_loop : String → List Poll → Store → Option (Result Request) × Store
unfolding seen get
wait_loop request_id [] s = (none, s)
wait_loop request_id (p ∷ polls) s =
    let (found, s') = get (p.others s) (aware p.now) request_id in
    answer_or (seen found) s' (wait_loop request_id polls s')

abbrev pub expired_copy : Result (Option Request) → Result Request
expired_copy (err e) = err e
expired_copy (ok none) = err assertion_error
expired_copy (ok (some r)) = ok (record r { status = expired })

-- `except TimeoutError`
unfoldable pub on_timeout :
    Ending → String → String → Option (Result Request) × Store → Result Request × Store
unfolding get expire
on_timeout e request_id task_id (some answer, s) = (answer, s)
on_timeout e request_id task_id (none, s) =
    let s' =
      (expire (e.before_timeout s) (aware e.timeout_at) (aware e.timeout_later) request_id
        task_id).1 in
    let (found, s'') = get s' (aware e.read_at) request_id in (expired_copy found, s'')

-- `finally`
unfoldable pub clean_up : Ending → String → String → Result Request × Store → Result Request × Store
unfolding expire
clean_up e request_id task_id (answer, s) = (
  answer,
  (expire (e.before_cleanup s) (aware e.cleanup_at) (aware e.cleanup_later) request_id task_id).1,
)

-- What `wait` answers at once; none when it starts to wait.
unfoldable pub admit : Waiter → String → String → Result (Option Request) → Option (Result Request)
admit w request_id task_id (err e) = some (err e)
admit w request_id task_id (ok none) = some (err value_error)
admit w request_id task_id (ok (some r)) =
    if not (r.task_id == task_id)
    then some (err value_error)
    else if not (status_eq r.status pending)
    then some (ok r)
    else if mem_key request_id w.waiting_ids || leb 32 (length w.waiting_ids)
    then some (err value_error)
    else none

unfoldable pub wait_admitted :
    Option (Result Request) → Store → List Poll → Ending → String → String → Result Request × Store
unfolding wait_loop on_timeout clean_up
wait_admitted (some answer) s polls e request_id task_id = (answer, s)
wait_admitted none s polls e request_id task_id =
    clean_up e request_id task_id (on_timeout e request_id task_id (wait_loop request_id polls s))

unfoldable pub wait :
    Waiter → Store → ℕ → List Poll → Ending → String → String → Result Request × Store
unfolding get admit wait_admitted
wait w s now polls e request_id task_id =
    if not (task_id == w.task_id)
    then (err value_error, s)
    else (let (found, s') = get s (aware now) request_id in
        wait_admitted (admit w request_id task_id found) s' polls e request_id task_id)

-- The waiter while a wait goes on, and after it.
abbrev pub started : Waiter → String → Waiter
started w request_id = record w { waiting_ids = w.waiting_ids ++ request_id ∷ [] }

abbrev pub ended : Waiter → String → Waiter
ended w request_id = record w { waiting_ids = filter (λ id. not (id == request_id)) w.waiting_ids }

-- Whether `decide` refuses.
unfoldable pub refuses : Waiter → String → String → Option Request → Bool
refuses w request_id fingerprint none = true
refuses w request_id fingerprint (some r) =
    not (r.task_id == w.task_id)
    || not (r.fingerprint == fingerprint)
    || (status_eq r.status pending && not (mem_key request_id w.waiting_ids))

unfoldable pub decide_found :
    Result (Option Request)
    → Store
    → Waiter
    → ℕ
    → ℕ
    → String
    → String
    → Verdict
    → String
    → Result Request × Store
unfolding refuses decide
decide_found (err e) s w now later request_id fingerprint verdict actor = (err e, s)
decide_found (ok found) s w now later request_id fingerprint verdict actor =
    if refuses w request_id fingerprint found
    then (err value_error, s)
    else decide s (aware now) (aware later) request_id verdict actor none

unfoldable pub decide_waiting :
    Waiter → Store → ℕ → ℕ → ℕ → String → String → Verdict → String → Result Request × Store
unfolding get decide_found
decide_waiting w s read_at now later request_id fingerprint verdict actor =
    let (found, s') = get s (aware read_at) request_id in
    decide_found found s' w now later request_id fingerprint verdict actor
