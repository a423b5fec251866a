-- ===== src/Approvals/Decision.antt =====
-- Where an approval comes from.
use adk_coding_agent.Prelude.{
  ℕ, String, ◌≡◌, refl, ◌∙◌, sym, true, false, Option, none, some, List, [], ◌∷◌, ◌++◌, arith, ◌==◌,
  eq_iff, if◌then◌else◌, Bool-cases, inl, inr, ◌⊎◌,
}
use adk_coding_agent.Prelude.Keyed.{
  string_eq, find_by-snoc_cases, find_by-update_where, find_by-key, updated,
}
use adk_coding_agent.Approvals.Contracts.{approved, expired, approve, Request, Decision}
use adk_coding_agent.Approvals.Store.{
  row_id, find_row, is_due, set_expired, is_waiting, set_abandoned, set_decided, approved_in,
}
use adk_coding_agent.Approvals.Invariant.{
  Write, inserts, expires, abandons, decides, Writes, done, then_write, Write-Later,
}

abbrev pub Among : Decision → List Decision → Type 0
Among d [] = ⊥
Among d (x ∷ xs) = (d ≡ x) ⊎ Among d xs

-- A decision that approves the row.
pub record Approves (id : String) (r : Request) (d : Decision) : Type 0 where
  pub of_request : d.request_id ≡ id
  pub verdict : d.decision ≡ approve
  pub by_actor : r.decided_by ≡ some d.actor

abbrev pub ApprovedBy : String → Request → List Decision → Type 0
ApprovedBy id r ds = (d : Decision) × Among d ds × Approves id r d

decided_row :
    (id : String) (y r : Request) (now : ℕ) (d : Decision)
    → y.request_id ≡ id
    → approved_in (some y) ≡ false
    → (if y.request_id == d.request_id then set_decided now d y else y) ≡ r
    → r.status ≡ approved
    → Approves id r d
decided_row id y r now d key before e a = ground (arith, eq_iff y.request_id d.request_id)

decided_lookup :
    (id : String) (o : Option Request) (r : Request) (now : ℕ) (d : Decision)
    → ((y : Request) → o ≡ some y → y.request_id ≡ id)
    → approved_in o ≡ false
    → updated row_id (λ y. y.request_id == d.request_id) (set_decided now d) o ≡ some r
    → r.status ≡ approved
    → Approves id r d
decided_lookup id none r now d key before e a = absurd (ground arith)
decided_lookup id (some y) r now d key before e a =
    decided_row id y r now d (key y refl) before (ground arith) a

Write-approved :
    {ds : List Decision} {rows last : List Request} (id : String) (r : Request)
    → Write ds rows last
    → approved_in (find_row id rows) ≡ false
    → find_row id last ≡ some r
    → r.status ≡ approved
    → ApprovedBy id r ds
Write-approved {rows = rows} id r (inserts x fresh free st) before h a =
    absurd (ground (arith, find_by-snoc_cases row_id id rows x r h))
Write-approved {rows = rows} id r (expires now) before h a =
    absurd (
      ground
        (arith, find_by-update_where row_id id (is_due now) (set_expired now) (λ x. refl) rows))
Write-approved {rows = rows} id r (abandons now i t) before h a = absurd (
    ground
      (arith, find_by-update_where row_id id (is_waiting i t) (set_abandoned now) (λ x. refl) rows))
Write-approved {rows = rows} id r (decides now d x found st) before h a =
    let p = λ (y : Request). y.request_id == d.request_id in
    let e = find_by-update_where row_id id p (set_decided now d) (λ x. refl) rows in
    (
      d,
      inl refl,
      decided_lookup id (find_row id rows) r now d (λ y. find_by-key row_id id rows y) before
          (sym e ∙ h) a,
    )

pub Among-append :
    (d : Decision) (xs ys : List Decision) → Among d xs ⊎ Among d ys → Among d (xs ++ ys)
Among-append d [] ys (inl m) = absurd m
Among-append d [] ys (inr m) = m
Among-append d (x ∷ xs) ys (inl (inl e)) = inl e
Among-append d (x ∷ xs) ys (inl (inr m)) = inr (Among-append d xs ys (inl m))
Among-append d (x ∷ xs) ys (inr m) = inr (Among-append d xs ys (inr m))

approved_row :
    (o : Option Request)
    → approved_in o ≡ true
    → (m : Request) × (o ≡ some m) × (m.status ≡ approved)
approved_row none h = ground arith
approved_row (some m) h = (m, refl, ground arith)

-- An approved row that is approved after a transaction was not touched.
still_approved :
    {ds : List Decision} {rows last : List Request} (id : String) (m r : Request)
    → Write ds rows last
    → find_row id rows ≡ some m
    → m.status ≡ approved
    → find_row id last ≡ some r
    → r.status ≡ approved
    → m ≡ r
still_approved {last = last} id m r w hm am hr ar =
    let (z, hz, later) = Write-Later id m w hm in go z hz (later.settled.2 am)
  where
    go : (z : Request) → find_row id last ≡ some z → (m ≡ z) ⊎ (z.status ≡ expired) → m ≡ r
    go z hz (inl e) = ground arith
    go z hz (inr e) = absurd (ground arith)

pub Writes-approved :
    {rows : List Request} {ds : List Decision} {last : List Request} (id : String) (r : Request)
    → Writes rows ds last
    → approved_in (find_row id rows) ≡ false
    → find_row id last ≡ some r
    → r.status ≡ approved
    → ApprovedBy id r ds
Writes-approved id r done before h a = absurd (ground arith)
Writes-approved id r (then_write {ds = ds} {es = es} {mid = mid} ws w) before h a =
    elim (Bool-cases (approved_in (find_row id mid))) [
      | inl was ↦
          let (m, hm, am) = approved_row (find_row id mid) was in
          let (d, among, approves) = Writes-approved id m ws before hm am in
          (d, Among-append d es ds (inr among), rw (← still_approved id m r w hm am h a) approves)
      | inr not_yet ↦
          let (d, among, approves) = Write-approved id r w not_yet h a in
          (d, Among-append d es ds (inl among), approves)
    ]
