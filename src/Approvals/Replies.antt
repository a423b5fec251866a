-- ===== src/Approvals/Replies.antt =====
-- What `request` and `submit_decision` of `ApprovalStore` answer when they are called again.
use adk_coding_agent.Prelude.{
  ◌⊎◌, ◌↔◌, inl, inr, Bool-cases, eqb_iff, ℕ, ◌≡◌, ◌≢◌, refl, ap, ◌∙◌, sym, true, Option, none,
  some, List, [], ◌∷◌, map, arith, ◌==◌, eq_iff, find,
}
use adk_coding_agent.Prelude.Keyed.{string_eq, find_by-update_where, find_by-key}
use adk_coding_agent.Prelude.Result.{Result, ok, err, value_error}
use adk_coding_agent.Prelude.Table.{update_where}
use adk_coding_agent.Prelude.Unique.{Slot, slot_eq, clashes}
use adk_coding_agent.Approvals.Contracts.{
  Timestamp, aware, Verdict, approve, deny, Status, pending, approved, denied, expired, status_of,
  Request, Decision,
}
use adk_coding_agent.Approvals.Store.{
  submit_decision, expire_due, expire_due_at, utc_now, with_now, option_ℕ_eq, Store, row_id,
  row_slot, find_row, find_slot, decide_row, decided, set_decided, persist, insert_or_ignore,
  same_content,
}
use adk_coding_agent.Approvals.Life.{Calls, then_call, sweeps, request_is_final}

-- The row after a decision that was accepted.
pub record Accepted (r : Request) (s' : Store) (d : Decision) : Type 0 where
  pub found : find_row d.request_id s'.rows ≡ some r
  pub status : r.status ≡ status_of d.decision

decided_again :
    (r : Request) (s : Store) (now : ℕ) (d : Decision)
    → r.status ≡ status_of d.decision
    → decide_row (some r) s now d ≡ (ok r, s)
unfolding decide_row
decided_again r s now d h = ground arith

decided_otherwise :
    (r : Request) (s : Store) (now : ℕ) (d e : Decision)
    → r.status ≡ status_of d.decision
    → e.decision ≢ d.decision
    → decide_row (some r) s now e ≡ (err value_error, s)
unfolding decide_row
decided_otherwise r s now d e h ne = ground arith

decided_store :
    (o : Option Request) (s s' : Store) (r : Request)
    → decided o s ≡ (ok r, s')
    → (o ≡ some r) × (s'.rows ≡ s.rows)
decided_store none s s' r h = absurd (ground arith)
decided_store (some x) s s' r h = ground arith

decide_row-Accepted :
    (o : Option Request) (s s' : Store) (now : ℕ) (d : Decision) (r : Request)
    → find_row d.request_id s.rows ≡ o
    → decide_row o s now d ≡ (ok r, s')
    → Accepted r s' d
unfolding decide_row
decide_row-Accepted none s s' now d r f h = absurd (ground arith)
decide_row-Accepted (some x) s s' now d r f h = by_status x.status refl
  where
    rows : List Request
    rows = update_where (λ y. y.request_id == d.request_id) (set_decided now d) s.rows

    written :
        decided (find_row d.request_id rows) (record s { rows = rows }) ≡ (ok r, s')
        → Accepted r s' d
    written e =
        let (at, same) =
          decided_store (find_row d.request_id rows) (record s { rows = rows }) s' r e in
        let look =
          find_by-update_where row_id d.request_id (λ y. y.request_id == d.request_id)
            (set_decided now d) (λ y. refl) s.rows in
        record {
          found = rw same at;
          status = ground (
            arith,
            f,
            look,
            at,
            eq_iff x.request_id d.request_id,
            find_by-key row_id d.request_id s.rows x f,
          );
        }

    by_status : (st : Status) → x.status ≡ st → Accepted r s' d
    by_status pending e = written (ground arith)
    by_status approved e = ground arith
    by_status denied e = ground arith
    by_status expired e = absurd (ground arith)

-- What a reading of the clock went on to.
with_now-ok :
    {A : Type 0} (m : Result ℕ) (s s' : Store) (next : ℕ → Result A × Store) (a : A)
    → with_now m s next ≡ (ok a, s')
    → (now : ℕ) × (next now ≡ (ok a, s'))
with_now-ok (ok now) s s' next a h = (now, h)
with_now-ok (err e) s s' next a h = absurd (ground arith)

submit_decision-Accepted :
    (s s' : Store) (clock later : Timestamp) (d : Decision) (r : Request)
    → submit_decision s clock later d ≡ (ok r, s')
    → Accepted r s' d
unfolding submit_decision
submit_decision-Accepted s s' clock later d r h =
    let (now, rest) = with_now-ok (utc_now clock) s s' _ r h in
    let swept = (expire_due_at now s).1 in
    let (at, did) = with_now-ok (utc_now later) swept s' _ r rest in
    decide_row-Accepted (find_row d.request_id swept.rows) swept s' at d r refl did

decided_expired :
    (x : Request) (s : Store) (now : ℕ) (d : Decision)
    → x.status ≡ expired
    → decide_row (some x) s now d ≡ (err value_error, s)
unfolding decide_row
decided_expired x s now d h = ground arith

verdict_cases : (a b : Verdict) → (a ≡ b) ⊎ (a ≢ b)
verdict_cases approve approve = inl refl
verdict_cases approve deny = inr (λ h. ground arith)
verdict_cases deny approve = inr (λ h. ground arith)
verdict_cases deny deny = inl refl

decided_status :
    (d : Decision) (r : Request)
    → r.status ≡ status_of d.decision
    → (r.status ≡ approved) ⊎ (r.status ≡ denied)
decided_status d r h = ground arith

-- The row of a decided request, by the time of another submission.
row_by_then :
    {s' t : Store} {ds : List Decision} (now : ℕ) (d : Decision) (r : Request)
    → Accepted r s' d
    → Calls s' ds t
    → (find_row d.request_id (expire_due_at now t).1.rows ≡ some r)
      ⊎ ((r.status ≡ approved)
          × (x : Request) × (find_row d.request_id (expire_due_at now t).1.rows ≡ some x)
          × (x.status ≡ expired))
unfolding expire_due
row_by_then now d r a calls =
    let (x, found, same, if_denied, if_expired, if_approved) =
      request_is_final (then_call calls (sweeps (aware now))) d.request_id r a.found in
    elim (decided_status d r a.status) [
      | inl yes_status ↦ elim (if_approved yes_status) [
        | inl kept ↦ inl (found ∙ ap (λ (y : Request). some y) (sym kept))
        | inr gone ↦ inr (yes_status, x, found, gone)
      ]
      | inr no_status ↦ inl (found ∙ ap (λ (y : Request). some y) (sym (if_denied no_status)))
    ]

-- What a second decision is answered. After a submission that returned the request `r`, and whatever
-- calls come later, a submission for that request at an aware clock leaves the store as the sweep of
-- the expired requests leaves it. Where the row is then still `r`, the same verdict is answered with
-- `r` and another one is refused; else the request was approved and has expired since, and either
-- verdict is refused.
pub decision_is_final :
    {s' t : Store} {ds : List Decision} (s : Store) (clock later : Timestamp) (d : Decision)
    (r : Request)
    → submit_decision s clock later d ≡ (ok r, s')
    → Calls s' ds t
    → (now at : ℕ) (e : Decision) → e.request_id ≡ d.request_id
    → let swept = (expire_due_at now t).1 in
      let answer = submit_decision t (aware now) (aware at) e in
      ((find_row d.request_id swept.rows ≡ some r)
        × (((e.decision ≡ d.decision) × (answer ≡ (ok r, swept)))
            ⊎ ((e.decision ≢ d.decision) × (answer ≡ (err value_error, swept)))))
      ⊎ ((r.status ≡ approved)
          × (x : Request) × (find_row d.request_id swept.rows ≡ some x)
          × (x.status ≡ expired)
          × (answer ≡ (err value_error, swept)))
unfolding submit_decision
decision_is_final {s'} {t} s clock later d r h calls now at e same_id =
    let swept = (expire_due_at now t).1 in
    let a = submit_decision-Accepted s s' clock later d r h in
    let looked = ap (λ i. decide_row (find_row i swept.rows) swept at e) same_id in
    elim (row_by_then now d r a calls) [
      | inl found ↦
          let at_row = looked ∙ ap (λ o. decide_row o swept at e) found in
          inl (
            found,
            elim (verdict_cases e.decision d.decision) [
              | inl same ↦
                  inl
                    (same, at_row ∙ decided_again r swept at e (a.status ∙ ap status_of (sym same)))
              | inr other ↦ inr (other, at_row ∙ decided_otherwise r swept at d e a.status other)
            ],
          )
      | inr (yes_status, x, found, gone) ↦ inr (
        yes_status,
        x,
        found,
        gone,
        looked ∙ ap (λ o. decide_row o swept at e) found ∙ decided_expired x swept at e gone,
      )
    ]

slot-clashes :
    (k : Slot) (rows : List Request) (r : Request)
    → find (λ x. slot_eq k (row_slot x)) rows ≡ some r
    → clashes k (map row_slot rows) ≡ true
slot-clashes k [] r h = absurd (ground arith)
slot-clashes k (x ∷ rows) r h = ground (arith, slot-clashes k rows r)

-- The operation, the risk, the reason and the expiry are the same.
abbrev pub AsksTheSame : Request → Request → Type 0
AsksTheSame a b =
    (a.operation ≡ b.operation)
    × (a.risk ≡ b.risk)
    × (a.reason ≡ b.reason)
    × (a.expires_at ≡ b.expires_at)

same_expiry : (a b : Option ℕ) → (option_ℕ_eq a b ≡ true) ↔ (a ≡ b)
same_expiry none none = ground arith
same_expiry none (some n) = ground arith
same_expiry (some m) none = ground arith
same_expiry (some m) (some n) = ground (arith, eqb_iff m n)

same_content-AsksTheSame : (a b : Request) → (same_content a b ≡ true) ↔ AsksTheSame a b
same_content-AsksTheSame a b = ground (
  arith,
  eq_iff a.operation b.operation,
  eq_iff a.risk b.risk,
  eq_iff a.reason b.reason,
  same_expiry a.expires_at b.expires_at,
)

-- A fingerprint is bound to what it was first used for. Where a task has a request under a
-- fingerprint, another one under it adds no row: with the same operation, risk, reason and expiry it
-- is answered with the stored request, in whatever state that is; with any other it is refused.
pub fingerprint_binds :
    (s : Store) (c r : Request)
    → find_slot c.task_id c.fingerprint s.rows ≡ some r
    → ((persist c s).1.rows ≡ s.rows)
      × ((AsksTheSame r c × ((persist c s).0 ≡ ok r))
          ⊎ ((¬ AsksTheSame r c) × (persist c s ≡ (err value_error, s))))
unfolding persist
fingerprint_binds s c r h =
    let kept : insert_or_ignore c s.rows ≡ s.rows =
      (unfold insert_or_ignore in ground (arith, slot-clashes (row_slot c) s.rows r h)) in
    (
      rw kept (rw h (ground arith)),
      elim (Bool-cases (same_content r c)) [
        | inl same ↦ inl ((same_content-AsksTheSame r c).0 same, rw kept (rw h (ground arith)))
        | inr other ↦ inr (
          λ asks. ground (arith, (same_content-AsksTheSame r c).1 asks),
          rw kept (rw h (ground arith)),
        )
      ],
    )
