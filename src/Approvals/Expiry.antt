-- ===== src/Approvals/Expiry.antt =====
-- Each method of `ApprovalStore` as the transactions that it writes.
use adk_coding_agent.Prelude.{
  ℕ, String, ◌≡◌, refl, false, ◌||◌, Option, none, some, List, [], ◌∷◌, map, arith, Bool-cases, All,
  inl, inr, ◌⊎◌,
}
use adk_coding_agent.Prelude.Int.{ℤ}
use adk_coding_agent.Prelude.Keyed.{string_eq, mem_key}
use adk_coding_agent.Prelude.Result.{Result, ok, err}
use adk_coding_agent.Prelude.Table.{update_where}
use adk_coding_agent.Prelude.Unique.{clashes}
use adk_coding_agent.Approvals.Contracts.{
  Timestamp, Status, pending, approved, denied, expired, Submission, Request, Decision, new_request,
}
use adk_coding_agent.Approvals.Store.{
  Store, row_id, row_slot, find_row, insert_or_ignore, check_persisted, persist, request,
  expire_due_at, expire_due, get, expire, for_fingerprint, list, decide_row, decided,
  submit_decision, is_approved, utc_now, with_now, with_candidate, is_due, set_expired,
  notify_found,
}
use adk_coding_agent.Approvals.Invariant.{
  inserts, expires, abandons, decides, Writes, done, then_write,
}

-- A method that has written `ds` when it ends, whether it returns or raises.
abbrev pub Wrote {ℓ} : {A : Type ℓ} → Store → List Decision → Result A × Store → Type 0
Wrote s ds (r, s') = Writes s.rows ds s'.rows

new_request-pending :
    (id : String) (submission : Submission) (now : ℕ) (r : Request)
    → new_request id submission now ≡ ok r
    → r.status ≡ pending
unfolding new_request
new_request-pending id submission now r h = ground arith

insert-Writes :
    (r : Request) (rows : List Request)
    → r.status ≡ pending
    → Writes rows [] (insert_or_ignore r rows)
unfolding insert_or_ignore
insert-Writes r rows st =
    elim (Bool-cases
      (mem_key r.request_id (map row_id rows) || clashes (row_slot r) (map row_slot rows))) [
        | inl c ↦ rw c done
        | inr c ↦ rw c (then_write done (inserts r (ground arith) (ground arith) st))
      ]

checked-rows :
    (o : Option Request) (c : Request) (s : Store) → (check_persisted o c s).1.rows ≡ s.rows
unfolding check_persisted
checked-rows none c s = refl
checked-rows (some r) c s = ground arith

persist-Writes :
    (c : Request) (s : Store) → c.status ≡ pending → Writes s.rows [] (persist c s).1.rows
unfolding persist
persist-Writes c s st = rw checked-rows (insert-Writes c s.rows st)

pub request-Writes :
    (s : Store) (clock : Timestamp) (id : String) (submission : Submission)
    → Writes s.rows [] (request s clock id submission).1.rows
unfolding request
request-Writes s clock id submission = at_time (utc_now clock)
  where
    with_row :
        (c : Result Request)
        → ((r : Request) → c ≡ ok r → r.status ≡ pending)
        → Writes s.rows [] (with_candidate c s (λ candidate. persist candidate s)).1.rows
    with_row (ok r) st = persist-Writes r s (st r refl)
    with_row (err e) st = done

    at_time :
        (now : Result ℕ)
        → Writes s.rows []
            (with_now now s λ n.
              with_candidate
                (new_request id submission n)
                s
                λ candidate. persist candidate s).1.rows
    at_time (ok now) =
        with_row (new_request id submission now) (λ r. new_request-pending id submission now r)
    at_time (err e) = done

expire_at-Writes : (now : ℕ) (s : Store) → Writes s.rows [] (expire_due_at now s).1.rows
unfolding expire_due_at
expire_at-Writes now s = then_write done (expires now)

after_now :
    {A : Type 0} (s : Store) (rows : List Request) (now : Result ℕ) (next : ℕ → Result A × Store)
    → Writes rows [] s.rows
    → ((n : ℕ) → Writes rows [] (next n).1.rows)
    → Writes rows [] (with_now now s next).1.rows
after_now s rows (ok n) next ws h = h n
after_now s rows (err e) next ws h = ws

module _ (s : Store) (clock : Timestamp) where
  pub expire_due-Writes : Writes s.rows [] (expire_due s clock).1.rows
  unfolding expire_due
  expire_due-Writes = after_now s s.rows (utc_now clock) _ done (λ n. expire_at-Writes n s)

  pub get-Writes : (id : String) → Writes s.rows [] (get s clock id).1.rows
  unfolding get
  get-Writes id = after_now s s.rows (utc_now clock) _ done (λ n. expire_at-Writes n s)

  pub for_fingerprint-Writes :
      (task_id fingerprint : String)
      → Writes s.rows [] (for_fingerprint s clock task_id fingerprint).1.rows
  unfolding for_fingerprint
  for_fingerprint-Writes task_id fingerprint =
      after_now s s.rows (utc_now clock) _ done (λ n. expire_at-Writes n s)

  pub is_approved-Writes :
      (task_id fingerprint : String)
      → Writes s.rows [] (is_approved s clock task_id fingerprint).1.rows
  unfolding is_approved
  is_approved-Writes = for_fingerprint-Writes

  pub list-Writes :
      (task_id : Option String) (status : Option Status) (limit : ℤ)
      → Writes s.rows [] (list s clock task_id status limit).1.rows
  unfolding list
  list-Writes task_id status limit =
      after_now s s.rows (utc_now clock) _ done (λ n. expire_at-Writes n s)

found-rows : (o : Option Request) (s : Store) → (notify_found o s).rows ≡ s.rows
found-rows none s = refl
found-rows (some r) s = refl

pub expire-Writes :
    (s : Store) (clock later : Timestamp) (id task_id : String)
    → Writes s.rows [] (expire s clock later id task_id).1.rows
unfolding expire expire_due_at
expire-Writes s clock later id task_id = after_now s s.rows (utc_now clock) _ done λ now.
    after_now _ s.rows (utc_now later) _ (then_write done (abandons now id task_id))
      λ at. rw found-rows (then_write (then_write done (abandons now id task_id)) (expires at))

decided-rows : (o : Option Request) (s : Store) → (decided o s).1.rows ≡ s.rows
decided-rows none s = refl
decided-rows (some r) s = refl

-- What a submitted decision has written: nothing, or itself.
abbrev pub WroteDecision : List Request → Decision → List Request → Type 0
WroteDecision rows d last = Writes rows [] last ⊎ Writes rows (d ∷ []) last

decide_row-Writes :
    (rows : List Request) (o : Option Request) (s : Store) (now : ℕ) (d : Decision)
    → find_row d.request_id s.rows ≡ o
    → Writes rows [] s.rows
    → WroteDecision rows d (decide_row o s now d).1.rows
unfolding decide_row
decide_row-Writes rows none s now d found ws = inl ws
decide_row-Writes rows (some r) s now d found ws = by_status r.status refl
  where
    by_status :
        (st : Status) → r.status ≡ st → WroteDecision rows d (decide_row (some r) s now d).1.rows
    by_status pending e = inr (rw e (rw decided-rows (then_write ws (decides now d r found e))))
    by_status approved e =
        inl (let same : (decide_row (some r) s now d).1.rows ≡ s.rows = ground arith in rw same ws)
    by_status denied e =
        inl (let same : (decide_row (some r) s now d).1.rows ≡ s.rows = ground arith in rw same ws)
    by_status expired e =
        inl (let same : (decide_row (some r) s now d).1.rows ≡ s.rows = ground arith in rw same ws)

pub submit_decision-Writes :
    (s : Store) (clock later : Timestamp) (d : Decision)
    → WroteDecision s.rows d (submit_decision s clock later d).1.rows
unfolding submit_decision
submit_decision-Writes s clock later d = at_first (utc_now clock)
  where
    at_second :
        (s' : Store) (at : Result ℕ)
        → Writes s.rows [] s'.rows
        → WroteDecision s.rows d
            (with_now at s' λ n. decide_row (find_row d.request_id s'.rows) s' n d).1.rows
    at_second s' (ok n) ws = decide_row-Writes s.rows (find_row d.request_id s'.rows) s' n d refl ws
    at_second s' (err e) ws = inl ws

    at_first :
        (now : Result ℕ)
        → WroteDecision s.rows d
            (with_now now s λ n. with_now (utc_now later) (expire_due_at n s).1 λ at.
              decide_row
                (find_row d.request_id (expire_due_at n s).1.rows)
                (expire_due_at n s).1
                at
                d).1.rows
    at_first (ok n) = at_second (expire_due_at n s).1 (utc_now later) (expire_at-Writes n s)
    at_first (err e) = inl done

update_settles :
    (now : ℕ) (rows : List Request)
    → All (λ r. is_due now r ≡ false) (update_where (is_due now) (set_expired now) rows)
unfolding update_where
update_settles now [] = tt
update_settles now (r ∷ rows) = (ground arith, update_settles now rows)

-- After the sweep no open request is past its expiry.
pub none_due : (now : ℕ) (s : Store) → All (λ r. is_due now r ≡ false) (expire_due_at now s).1.rows
unfolding expire_due_at
none_due now s = update_settles now s.rows
