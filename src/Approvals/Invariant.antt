-- ===== src/Approvals/Invariant.antt =====
-- The transactions of `ApprovalStore` on its table, and what every sequence of them keeps.
use mathlib.Core.List.{map-append}
use adk_coding_agent.Prelude.{
  ℕ, String, ◌≡◌, refl, ap, ◌∙◌, sym, Bool, true, false, Option, some, List, [], ◌∷◌, ◌++◌, map,
  arith, ◌==◌, eq_iff, if◌then◌else◌, Bool-cases, inl, inr, ◌⊎◌,
}
use adk_coding_agent.Prelude.Keyed.{
  string_eq, mem_key, DistinctKeys, DistinctKeys-snoc, find_by-append, find_by-update_where,
  find_by-key, updated,
}
use adk_coding_agent.Prelude.Table.{update_where, map-update_where}
use adk_coding_agent.Prelude.Unique.{Unique, Unique-snoc, clashes}
use adk_coding_agent.Approvals.Contracts.{
  Status, pending, approved, denied, expired, Request, Decision,
}
use adk_coding_agent.Approvals.Store.{
  row_id, row_slot, find_row, is_due, set_expired, is_waiting, set_abandoned, set_decided,
}

-- One transaction that writes.
pub data Write : List Decision → List Request → List Request → Type 0 where
  inserts :
      {rows : List Request} (r : Request)
      → mem_key r.request_id (map row_id rows) ≡ false
      → clashes (row_slot r) (map row_slot rows) ≡ false
      → r.status ≡ pending
      → Write [] rows (rows ++ r ∷ [])
  expires :
      {rows : List Request} (now : ℕ)
      → Write [] rows (update_where (is_due now) (set_expired now) rows)
  abandons :
      {rows : List Request} (now : ℕ) (id task_id : String)
      → Write [] rows (update_where (is_waiting id task_id) (set_abandoned now) rows)
  decides :
      {rows : List Request} (now : ℕ) (d : Decision) (r : Request)
      → find_row d.request_id rows ≡ some r
      → r.status ≡ pending
      → Write
          (d ∷ [])
          rows
          (update_where (λ x. x.request_id == d.request_id) (set_decided now d) rows)

-- A sequence of them, with the decisions that were written.
pub data Writes (rows : List Request) : List Decision → List Request → Type 0 where
  done : Writes rows [] rows
  then_write :
      {ds es : List Decision} {mid last : List Request}
      → Writes rows ds mid
      → Write es mid last
      → Writes rows (es ++ ds) last

pub record IsValid (rows : List Request) : Type 0 where
  pub ids : DistinctKeys (map row_id rows)
  pub slots : Unique (map row_slot rows)

update-IsValid :
    (p : Request → Bool) (f : Request → Request)
    → ((r : Request) → row_id (f r) ≡ row_id r)
    → ((r : Request) → row_slot (f r) ≡ row_slot r)
    → (rows : List Request) → IsValid rows
    → IsValid (update_where p f rows)
update-IsValid p f same_id same_slot rows v = record {
  ids = rw (map-update_where row_id p f same_id rows) v.ids;
  slots = rw (map-update_where row_slot p f same_slot rows) v.slots;
}

pub Write-IsValid :
    {ds : List Decision} {rows last : List Request}
    → Write ds rows last
    → IsValid rows
    → IsValid last
Write-IsValid {rows = rows} (inserts r fresh free st) v = record {
  ids =
      rw (map-append row_id rows (r ∷ []))
        (DistinctKeys-snoc r.request_id (map row_id rows) v.ids fresh);
  slots =
      rw (map-append row_slot rows (r ∷ []))
        (Unique-snoc (row_slot r) (map row_slot rows) v.slots free);
}
Write-IsValid {rows = rows} (expires now) v =
    update-IsValid (is_due now) (set_expired now) (λ r. refl) (λ r. refl) rows v
Write-IsValid {rows = rows} (abandons now id t) v =
    update-IsValid (is_waiting id t) (set_abandoned now) (λ r. refl) (λ r. refl) rows v
Write-IsValid {rows = rows} (decides now d r found st) v =
    update-IsValid (λ x. x.request_id == d.request_id) (set_decided now d) (λ r. refl) (λ r. refl)
      rows v

pub Writes-IsValid :
    {rows : List Request} {ds : List Decision} {last : List Request}
    → Writes rows ds last
    → IsValid rows
    → IsValid last
Writes-IsValid done v = v
Writes-IsValid (then_write ws w) v = Write-IsValid w (Writes-IsValid ws v)

-- What was asked for: all of a request but its state.
pub record SameRequest (a b : Request) : Type 0 where
  pub request_id : a.request_id ≡ b.request_id
  pub task_id : a.task_id ≡ b.task_id
  pub fingerprint : a.fingerprint ≡ b.fingerprint
  pub operation : a.operation ≡ b.operation
  pub risk : a.risk ≡ b.risk
  pub reason : a.reason ≡ b.reason
  pub expires_at : a.expires_at ≡ b.expires_at
  pub requested_at : a.requested_at ≡ b.requested_at

-- A denied or an expired request does not change; an approved one can only expire.
abbrev pub Settled : Request → Request → Type 0
Settled a b =
    (a.status ≡ denied → a ≡ b)
    × (a.status ≡ expired → a ≡ b)
    × (a.status ≡ approved → (a ≡ b) ⊎ (b.status ≡ expired))

pub record Later (a b : Request) : Type 0 where
  pub same : SameRequest a b
  pub settled : Settled a b

same_refl : (a : Request) → SameRequest a a
same_refl a = record {
  request_id = refl;
  task_id = refl;
  fingerprint = refl;
  operation = refl;
  risk = refl;
  reason = refl;
  expires_at = refl;
  requested_at = refl;
}

-- A new state leaves the request what it was.
same_update :
    (a : Request) (status : Status) (at : Option ℕ) (by note : Option String)
    → SameRequest a
        (record a { status = status; decided_at = at; decided_by = by; decision_note = note })
same_update a status at actor text = record {
  request_id = refl;
  task_id = refl;
  fingerprint = refl;
  operation = refl;
  risk = refl;
  reason = refl;
  expires_at = refl;
  requested_at = refl;
}

Later-refl : (a : Request) → Later a a
Later-refl a = record { same = same_refl a; settled = (λ h. refl, λ h. refl, λ h. inl refl) }

Later-trans : (a b c : Request) → Later a b → Later b c → Later a c
Later-trans a b c x y = record {
  same = record {
    request_id = x.same.request_id ∙ y.same.request_id;
    task_id = x.same.task_id ∙ y.same.task_id;
    fingerprint = x.same.fingerprint ∙ y.same.fingerprint;
    operation = x.same.operation ∙ y.same.operation;
    risk = x.same.risk ∙ y.same.risk;
    reason = x.same.reason ∙ y.same.reason;
    expires_at = x.same.expires_at ∙ y.same.expires_at;
    requested_at = x.same.requested_at ∙ y.same.requested_at;
  };
  settled = (
    λ h. x.settled.0 h ∙ y.settled.0 (ground (arith, x.settled.0 h)),
    λ h. x.settled.1 h ∙ y.settled.1 (ground (arith, x.settled.1 h)),
    λ h. expires_once (x.settled.2 h) h,
  );
}
  where
    expires_once :
        (a ≡ b) ⊎ (b.status ≡ expired) → a.status ≡ approved → (a ≡ c) ⊎ (c.status ≡ expired)
    expires_once (inl e) h = rw e (y.settled.2 (rw (← e) h))
    expires_once (inr e) h = inr (ap (λ (r : Request). r.status) (sym (y.settled.1 e)) ∙ e)

-- An `UPDATE` of a row, unless it is settled.
Later-update :
    (p : Request → Bool) (f : Request → Request) (r : Request)
    → (p r ≡ true → Later r (f r))
    → Later r (if p r then f r else r)
Later-update p f r h = elim (Bool-cases (p r)) [ inl e ↦ rw e (h e) | inr e ↦ rw e (Later-refl r) ]

pub Write-Later :
    {ds : List Decision} {rows last : List Request} (id : String) (r : Request)
    → Write ds rows last
    → find_row id rows ≡ some r
    → (r' : Request) × (find_row id last ≡ some r') × Later r r'
Write-Later {rows = rows} id r (inserts x fresh free st) h =
    (r, find_by-append row_id id rows (x ∷ []) r h, Later-refl r)
Write-Later {rows = rows} id r (expires now) h = (
  (if is_due now r then set_expired now r else r),
  find_by-update_where row_id id (is_due now) (set_expired now) (λ x. refl) rows
      ∙ ap (updated row_id (is_due now) (set_expired now)) h,
  Later-update (is_due now) (set_expired now) r
      (λ due. record { same = same_update r _ _ _ _; settled = ground arith }),
)
Write-Later {rows = rows} id r (abandons now i t) h = (
  (if is_waiting i t r then set_abandoned now r else r),
  find_by-update_where row_id id (is_waiting i t) (set_abandoned now) (λ x. refl) rows
      ∙ ap (updated row_id (is_waiting i t) (set_abandoned now)) h,
  Later-update (is_waiting i t) (set_abandoned now) r
      (λ due. record { same = same_update r _ _ _ _; settled = ground arith }),
)
Write-Later {rows = rows} id r (decides now d x found st) h = (
  (if r.request_id == d.request_id then set_decided now d r else r),
  find_by-update_where row_id id (λ y. y.request_id == d.request_id) (set_decided now d) (λ x. refl)
        rows
      ∙ ap (updated row_id (λ y. y.request_id == d.request_id) (set_decided now d)) h,
  Later-update (λ y. y.request_id == d.request_id) (set_decided now d) r
      (λ hit. record {
        same = same_update r _ _ _ _;
        settled = ground (
          arith,
          found,
          h,
          eq_iff r.request_id d.request_id,
          find_by-key row_id id rows r h,
          (rw (← (eq_iff r.request_id d.request_id).0 hit ∙ refl) at found),
        );
      }),
)

pub Writes-Later :
    {rows : List Request} {ds : List Decision} {last : List Request} (id : String) (r : Request)
    → Writes rows ds last
    → find_row id rows ≡ some r
    → (r' : Request) × (find_row id last ≡ some r') × Later r r'
Writes-Later id r done h = (r, h, Later-refl r)
Writes-Later id r (then_write ws w) h =
    let (m, hm, later_m) = Writes-Later id r ws h in
    let (z, hz, later_z) = Write-Later id m w hm in (z, hz, Later-trans r m z later_m later_z)
