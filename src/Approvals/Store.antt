-- ===== src/Approvals/Store.antt =====
-- `ApprovalStore` of harness/approvals/store.py. Each reading of the clock and the fresh `uuid4` are
-- arguments. `changes` is the log of the calls of `on_change`. A method returns the new store beside
-- its result, since what an earlier transaction wrote stays when a later line raises.
use adk_coding_agent.Prelude.{
  ℕ, String, Bool, true, false, not, ◌&&◌, ◌||◌, Option, none, some, List, [], ◌∷◌, ◌++◌, map, leb,
  eqb, ◌==◌, if◌then◌else◌, length, filter, find,
}
use adk_coding_agent.Prelude.Int.{ℤ}
use adk_coding_agent.Prelude.Limit.{limited}
use adk_coding_agent.Prelude.Keyed.{string_eq, mem_key, find_by}
use adk_coding_agent.Prelude.Result.{
  Result, ok, err, value_error, key_error, assertion_error, ◌>>=◌,
}
use adk_coding_agent.Prelude.Sort.{sort}
use adk_coding_agent.Prelude.Table.{update_where}
use adk_coding_agent.Prelude.Unique.{Slot, slot_eq, clashes}
use adk_coding_agent.Approvals.Contracts.{
  Timestamp, aware, naive, unparsable, Status, pending, approved, denied, expired, status_eq,
  Verdict, status_of, Submission, Request, Decision, new_request, new_decision,
}

pub record Store : Type 0 where
  pub rows : List Request
  pub changes : List Request

abbrev pub row_id : Request → String
row_id r = r.request_id

-- `UNIQUE(task_id, fingerprint)`
abbrev pub row_slot : Request → Slot
row_slot r = some (r.task_id, r.fingerprint)

-- `SELECT * FROM approval_requests WHERE request_id=?`
abbrev pub find_row : String → List Request → Option Request
find_row = find_by row_id

-- `SELECT * FROM approval_requests WHERE task_id=? AND fingerprint=?`
abbrev pub find_slot : String → String → List Request → Option Request
find_slot task_id fingerprint = find (λ r. slot_eq (some (task_id, fingerprint)) (row_slot r))

abbrev pub notify : List Request → Store → Store
notify requests s = record s { changes = s.changes ++ requests }

-- `_now`: a clock without a timezone is refused.
unfoldable pub utc_now : Timestamp → Result ℕ
utc_now (aware t) = ok t
utc_now (naive t) = err value_error
utc_now unparsable = err value_error

-- A reading of the clock, and what follows it.
abbrev pub with_now {ℓ} :
    {A : Type ℓ} → Result ℕ → Store → (ℕ → Result A × Store) → Result A × Store
with_now (ok now) s next = next now
with_now (err e) s next = (err e, s)

abbrev pub option_ℕ_eq : Option ℕ → Option ℕ → Bool
option_ℕ_eq none none = true
option_ℕ_eq (some a) (some b) = eqb a b
option_ℕ_eq _ _ = false

-- `(operation, risk, reason, expires_at)` of two requests.
abbrev pub same_content : Request → Request → Bool
same_content a b =
    a.operation == b.operation
    && a.risk == b.risk
    && a.reason == b.reason
    && option_ℕ_eq a.expires_at b.expires_at

-- `INSERT OR IGNORE`
unfoldable pub insert_or_ignore : Request → List Request → List Request
insert_or_ignore r rows =
    if mem_key r.request_id (map row_id rows) || clashes (row_slot r) (map row_slot rows)
    then rows
    else rows ++ r ∷ []

unfoldable pub check_persisted : Option Request → Request → Store → Result Request × Store
check_persisted none candidate s = (err assertion_error, s)
check_persisted (some r) candidate s =
    if same_content r candidate then (ok r, notify (r ∷ []) s) else (err value_error, s)

unfoldable pub persist : Request → Store → Result Request × Store
unfolding insert_or_ignore check_persisted
persist candidate s =
    let rows = insert_or_ignore candidate s.rows in
    check_persisted (find_slot candidate.task_id candidate.fingerprint rows) candidate
      (record s { rows = rows })

abbrev pub with_candidate :
    Result Request → Store → (Request → Result Request × Store) → Result Request × Store
with_candidate (ok r) s next = next r
with_candidate (err e) s next = (err e, s)

unfoldable pub request : Store → Timestamp → String → Submission → Result Request × Store
unfolding utc_now persist
request s clock request_id submission =
    with_now (utc_now clock) s λ now.
      with_candidate (new_request request_id submission now) s λ candidate. persist candidate s

unfoldable pub submit : Store → Timestamp → String → Submission → Result Request × Store
unfolding request
submit = request

-- `expires_at IS NOT NULL AND expires_at<=now`
abbrev pub has_passed : Option ℕ → ℕ → Bool
has_passed none now = false
has_passed (some t) now = leb t now

abbrev pub is_open : Status → Bool
is_open s = status_eq s pending || status_eq s approved

abbrev pub is_due : ℕ → Request → Bool
is_due now r = is_open r.status && has_passed r.expires_at now

abbrev pub coalesce {ℓ} : {A : Type ℓ} → Option A → A → Option A
coalesce none a = some a
coalesce (some b) a = some b

abbrev pub set_expired : ℕ → Request → Request
set_expired now r = record r {
  status = expired;
  decided_at = coalesce r.decided_at now;
  decided_by = coalesce r.decided_by "system";
  decision_note = coalesce r.decision_note "approval request expired";
}

-- The rows of some ids, those that are not there left out.
abbrev pub select_ids : List String → List Request → List Request
select_ids [] rows = []
select_ids (id ∷ ids) rows =
    let rest = select_ids ids rows in elim (find_row id rows) [ none ↦ rest | some r ↦ r ∷ rest ]

-- `expire_due` at the time that the clock gave.
unfoldable pub expire_due_at : ℕ → Store → ℕ × Store
expire_due_at now s =
    let due = filter (is_due now) s.rows in
    let rows = update_where (is_due now) (set_expired now) s.rows in
    (length due, notify (select_ids (map row_id due) rows) (record s { rows = rows }))

unfoldable pub expire_due : Store → Timestamp → Result ℕ × Store
unfolding utc_now expire_due_at
expire_due s clock =
    with_now (utc_now clock) s λ now. let (n, s') = expire_due_at now s in (ok n, s')

unfoldable pub get : Store → Timestamp → String → Result (Option Request) × Store
unfolding utc_now expire_due_at
get s clock request_id =
    with_now (utc_now clock) s
      λ now. let s' = (expire_due_at now s).1 in (ok (find_row request_id s'.rows), s')

abbrev pub is_waiting : String → String → Request → Bool
is_waiting request_id task_id r =
    r.request_id == request_id && r.task_id == task_id && status_eq r.status pending

abbrev pub set_abandoned : ℕ → Request → Request
set_abandoned now r = record r {
  status = expired;
  decided_at = some now;
  decided_by = some "system";
  decision_note = some "approval wait ended";
}

abbrev pub notify_found : Option Request → Store → Store
notify_found none s = s
notify_found (some r) s = notify (r ∷ []) s

-- `expire`: two readings of the clock, the second by `get`.
unfoldable pub expire : Store → Timestamp → Timestamp → String → String → Result (Unit {0}) × Store
unfolding utc_now expire_due_at
expire s clock later request_id task_id = with_now (utc_now clock) s λ now.
    let s' = record s {
      rows = update_where (is_waiting request_id task_id) (set_abandoned now) s.rows;
    } in
    with_now (utc_now later) s' λ at.
      let s'' = (expire_due_at at s').1 in (ok tt, notify_found (find_row request_id s''.rows) s'')

unfoldable pub for_fingerprint :
    Store → Timestamp → String → String → Result (Option Request) × Store
unfolding utc_now expire_due_at
for_fingerprint s clock task_id fingerprint =
    with_now (utc_now clock) s
      λ now. let s' = (expire_due_at now s).1 in (ok (find_slot task_id fingerprint s'.rows), s')

abbrev pub matches_task : Option String → Request → Bool
matches_task none r = true
matches_task (some t) r = r.task_id == t

abbrev pub matches_status : Option Status → Request → Bool
matches_status none r = true
matches_status (some t) r = status_eq r.status t

-- `ORDER BY requested_at DESC LIMIT ?`
unfoldable pub list :
    Store → Timestamp → Option String → Option Status → ℤ → Result (List Request) × Store
unfolding utc_now expire_due_at
list s clock task_id status limit = with_now (utc_now clock) s λ now.
    let s' = (expire_due_at now s).1 in
    (
      ok (
          limited limit (
            sort (λ a b. leb b.requested_at a.requested_at)
              (filter (λ r. matches_task task_id r && matches_status status r) s'.rows))),
      s',
    )

abbrev pub set_decided : ℕ → Decision → Request → Request
set_decided now d r = record r {
  status = status_of d.decision;
  decided_at = some now;
  decided_by = some d.actor;
  decision_note = d.note;
}

-- The row as it was written.
abbrev pub decided : Option Request → Store → Result Request × Store
decided none s = (err assertion_error, s)
decided (some r) s = (ok r, notify (r ∷ []) s)

-- The transaction of `submit_decision`, on the row that it selected.
unfoldable pub decide_row : Option Request → Store → ℕ → Decision → Result Request × Store
decide_row none s now d = (err key_error, s)
decide_row (some r) s now d =
    if status_eq r.status approved || status_eq r.status denied
    then (if not (status_eq r.status (status_of d.decision))
        then (err value_error, s)
        else (ok r, s))
    else if not (status_eq r.status pending)
    then (err value_error, s)
    else (let rows = update_where (λ x. x.request_id == d.request_id) (set_decided now d) s.rows in
        decided (find_row d.request_id rows) (record s { rows = rows }))

unfoldable pub submit_decision : Store → Timestamp → Timestamp → Decision → Result Request × Store
unfolding utc_now expire_due_at decide_row
submit_decision s clock later d = with_now (utc_now clock) s λ now.
    let s' = (expire_due_at now s).1 in
    with_now (utc_now later) s' λ at. decide_row (find_row d.request_id s'.rows) s' at d

abbrev pub with_decision :
    Result Decision → Store → (Decision → Result Request × Store) → Result Request × Store
with_decision (ok d) s next = next d
with_decision (err e) s next = (err e, s)

unfoldable pub decide :
    Store
    → Timestamp
    → Timestamp
    → String
    → Verdict
    → String
    → Option String
    → Result Request × Store
unfolding submit_decision
decide s clock later request_id decision actor note =
    with_decision (new_decision request_id decision actor note) s
      λ d. submit_decision s clock later d

abbrev pub approved_in : Option Request → Bool
approved_in none = false
approved_in (some r) = status_eq r.status approved

unfoldable pub is_approved : Store → Timestamp → String → String → Result Bool × Store
unfolding for_fingerprint
is_approved s clock task_id fingerprint =
    let (found, s') = for_fingerprint s clock task_id fingerprint in
    (found >>= (λ r. ok (approved_in r)), s')
