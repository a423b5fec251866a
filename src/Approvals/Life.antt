-- ===== src/Approvals/Life.antt =====
-- Any sequence of calls on an `ApprovalStore`: what an approval means.
use adk_coding_agent.Prelude.{
  ℕ, String, ◌≡◌, refl, Bool, true, false, Option, none, some, List, [], ◌∷◌, ◌++◌, arith, eq_iff,
  inl, inr, ◌⊎◌,
}
use adk_coding_agent.Prelude.Int.{ℤ}
use adk_coding_agent.Prelude.Keyed.{string_eq, find-Stored, find-All}
use adk_coding_agent.Prelude.Result.{Result, ok}
use adk_coding_agent.Prelude.Unique.{slot_eq}
use adk_coding_agent.Approvals.Contracts.{
  Timestamp, aware, Status, approved, denied, expired, Submission, Request, Decision,
}
use adk_coding_agent.Approvals.Store.{
  Store, row_id, row_slot, find_row, find_slot, request, expire_due_at, expire_due, get, expire,
  for_fingerprint, list, submit_decision, is_approved, approved_in, is_due, has_passed,
}
use adk_coding_agent.Approvals.Invariant.{
  Writes, done, then_write, IsValid, Writes-IsValid, SameRequest, Writes-Later,
}
use adk_coding_agent.Approvals.Decision.{Among, ApprovedBy, Writes-approved, Among-append}
use adk_coding_agent.Approvals.Expiry.{
  request-Writes, expire_due-Writes, get-Writes, for_fingerprint-Writes, is_approved-Writes,
  list-Writes, expire-Writes, submit_decision-Writes, none_due, WroteDecision,
}

-- One call, whether it returns or raises, with the decision that it submits. `submit` and `decide` end
-- in `request` and `submit_decision`.
pub data Call : List Decision → Store → Store → Type 0 where
  requests :
      {s : Store} (clock : Timestamp) (id : String) (submission : Submission)
      → Call [] s (request s clock id submission).1
  sweeps : {s : Store} (clock : Timestamp) → Call [] s (expire_due s clock).1
  gets : {s : Store} (clock : Timestamp) (id : String) → Call [] s (get s clock id).1
  abandons_wait :
      {s : Store} (clock later : Timestamp) (id task_id : String)
      → Call [] s (expire s clock later id task_id).1
  finds :
      {s : Store} (clock : Timestamp) (task_id fingerprint : String)
      → Call [] s (for_fingerprint s clock task_id fingerprint).1
  asks :
      {s : Store} (clock : Timestamp) (task_id fingerprint : String)
      → Call [] s (is_approved s clock task_id fingerprint).1
  lists :
      {s : Store} (clock : Timestamp) (task_id : Option String) (status : Option Status) (limit : ℤ)
      → Call [] s (list s clock task_id status limit).1
  decides_on :
      {s : Store} (clock later : Timestamp) (d : Decision)
      → Call (d ∷ []) s (submit_decision s clock later d).1

-- Calls in sequence, with every decision that was submitted.
pub data Calls (s : Store) : List Decision → Store → Type 0 where
  no_calls : Calls s [] s
  then_call :
      {ds es : List Decision} {t u : Store} → Calls s ds t → Call es t u → Calls s (es ++ ds) u

-- What the calls have written, by decisions among those submitted.
abbrev Wrote : List Decision → List Request → List Request → Type 0
Wrote ds rows last =
    (es : List Decision) × Writes rows es last × ((d : Decision) → Among d es → Among d ds)

of_decision :
    (d : Decision) (rows last : List Request) → WroteDecision rows d last → Wrote (d ∷ []) rows last
of_decision d rows last (inl ws) = ([], ws, λ x m. absurd m)
of_decision d rows last (inr ws) = (d ∷ [], ws, λ x m. m)

Call-Wrote : {ds : List Decision} {s t : Store} → Call ds s t → Wrote ds s.rows t.rows
Call-Wrote {s = s} (requests c i x) = ([], request-Writes s c i x, λ d m. m)
Call-Wrote {s = s} (sweeps c) = ([], expire_due-Writes s c, λ d m. m)
Call-Wrote {s = s} (gets c i) = ([], get-Writes s c i, λ d m. m)
Call-Wrote {s = s} (abandons_wait c l i t) = ([], expire-Writes s c l i t, λ d m. m)
Call-Wrote {s = s} (finds c t f) = ([], for_fingerprint-Writes s c t f, λ d m. m)
Call-Wrote {s = s} (asks c t f) = ([], is_approved-Writes s c t f, λ d m. m)
Call-Wrote {s = s} (lists c t st l) = ([], list-Writes s c t st l, λ d m. m)
Call-Wrote {s = s} (decides_on c l d) = of_decision d s.rows _ (submit_decision-Writes s c l d)

Among-split : (d : Decision) (xs ys : List Decision) → Among d (xs ++ ys) → Among d xs ⊎ Among d ys
Among-split d [] ys m = inr m
Among-split d (x ∷ xs) ys (inl e) = inl (inl e)
Among-split d (x ∷ xs) ys (inr m) = widen (Among-split d xs ys m)
  where
    widen : Among d xs ⊎ Among d ys → Among d (x ∷ xs) ⊎ Among d ys
    widen (inl n) = inl (inr n)
    widen (inr n) = inr n

Writes-append :
    {rows mid : List Request} {ds : List Decision} {es : List Decision} {last : List Request}
    → Writes rows ds mid
    → Writes mid es last
    → (fs : List Decision) × Writes rows fs last
      × ((d : Decision) → Among d fs → Among d es ⊎ Among d ds)
Writes-append {ds = ds} before done = (ds, before, λ d m. inr m)
Writes-append {ds = ds} before (then_write {ds = cs} {es = es} ws w) =
    let (fs, joined, within) = Writes-append before ws in
    (es ++ fs, then_write joined w, λ d m. place d fs (Among-split d es fs m) (within d))
  where
    later : (d : Decision) → Among d cs ⊎ Among d ds → Among d (es ++ cs) ⊎ Among d ds
    later d (inl n) = inl (Among-append d es cs (inr n))
    later d (inr n) = inr n

    place :
        (d : Decision) (fs : List Decision)
        → Among d es ⊎ Among d fs
        → (Among d fs → Among d cs ⊎ Among d ds)
        → Among d (es ++ cs) ⊎ Among d ds
    place d fs (inl m) within = inl (Among-append d es cs (inl m))
    place d fs (inr m) within = later d (within m)

pub Calls-Wrote :
    {s : Store} {ds : List Decision} {t : Store} → Calls s ds t → Wrote ds s.rows t.rows
Calls-Wrote no_calls = ([], done, λ d m. m)
Calls-Wrote (then_call {ds = ds} {es = es} calls call) =
    let (fs, ws, within) = Calls-Wrote calls in
    let (gs, vs, last_within) = Call-Wrote call in
    let (all, joined, split) = Writes-append ws vs in
    (all, joined, λ d m. place d fs gs (split d m) (within d) (last_within d))
  where
    place :
        (d : Decision) (fs gs : List Decision)
        → Among d gs ⊎ Among d fs
        → (Among d fs → Among d ds)
        → (Among d gs → Among d es)
        → Among d (es ++ ds)
    place d fs gs (inl m) within last_within = Among-append d es ds (inl (last_within m))
    place d fs gs (inr m) within last_within = Among-append d es ds (inr (within m))

module _ {s : Store} {ds : List Decision} {t : Store} (calls : Calls s ds t) where
  -- Ids, and fingerprints within a task, stay unique.
  pub Calls-IsValid : IsValid s.rows → IsValid t.rows
  Calls-IsValid v = Writes-IsValid (Calls-Wrote calls).1 v

  -- A stored request stays, and what it asks for never changes: the task, the fingerprint, the
  -- operation, the risk, the reason, the expiry. Once it is denied or has expired, nothing of it
  -- changes, so no later decision approves it; an approved one stays as it is or expires.
  pub request_is_final :
      (id : String) (r : Request)
      → find_row id s.rows ≡ some r
      → (r' : Request) × (find_row id t.rows ≡ some r')
        × SameRequest r r'
        × (r.status ≡ denied → r ≡ r')
        × (r.status ≡ expired → r ≡ r')
        × (r.status ≡ approved → (r ≡ r') ⊎ (r'.status ≡ expired))
  request_is_final id r h =
      let (r', found, later) = Writes-Later id r (Calls-Wrote calls).1 h in
      (r', found, later.same, later.settled.0, later.settled.1, later.settled.2)

  -- A row that was not approved and is now, is approved by a decision that was submitted for its id
  -- and says so, and names the actor of that decision.
  pub approval_needs_decision :
      (id : String) (r : Request)
      → approved_in (find_row id s.rows) ≡ false
      → find_row id t.rows ≡ some r
      → r.status ≡ approved
      → ApprovedBy id r ds
  approval_needs_decision id r before h a =
      let (es, ws, within) = Calls-Wrote calls in
      let (d, among, approves) = Writes-approved id r ws before h a in (d, within d among, approves)

approved_found :
    (o : Option Request)
    → ◌≡◌ {A = Result Bool} (ok (approved_in o)) (ok true)
    → (r : Request) × (o ≡ some r) × (r.status ≡ approved)
approved_found none h = absurd (ground arith)
approved_found (some r) h = (r, refl, ground arith)

is_approved-row :
    (t : Store) (now : ℕ) (task_id fingerprint : String)
    → (is_approved t (aware now) task_id fingerprint).0 ≡ ok true
    → (r : Request) × (find_slot task_id fingerprint (expire_due_at now t).1.rows ≡ some r)
      × (r.status ≡ approved)
unfolding is_approved
is_approved-row t now task_id fingerprint h =
    approved_found (find_slot task_id fingerprint (expire_due_at now t).1.rows) h

is_approved-rows :
    (t : Store) (now : ℕ) (task_id fingerprint : String)
    → (is_approved t (aware now) task_id fingerprint).1.rows ≡ (expire_due_at now t).1.rows
unfolding is_approved
is_approved-rows t now task_id fingerprint = refl

-- What `is_approved` vouches for, of a row and the decisions that were submitted.
pub record Authorised (task_id fingerprint : String) (now : ℕ) (ds : List Decision) (r : Request)
    : Type 0 where
  pub of_task : r.task_id ≡ task_id
  pub of_fingerprint : r.fingerprint ≡ fingerprint
  pub is_open : r.status ≡ approved
  pub in_time : has_passed r.expires_at now ≡ false
  pub by_decision : ApprovedBy r.request_id r ds

-- From an empty store, whatever was called: if `is_approved` answers yes for a task and a
-- fingerprint, there is a request of exactly that task and fingerprint, not past its expiry, that a
-- submitted decision approved under its id.
pub is_approved_sound :
    {s : Store} {ds : List Decision} {t : Store} (now : ℕ) (task_id fingerprint : String)
    → Calls s ds t
    → s.rows ≡ []
    → (is_approved t (aware now) task_id fingerprint).0 ≡ ok true
    → (r : Request) × (find_slot task_id fingerprint (expire_due_at now t).1.rows ≡ some r)
      × Authorised task_id fingerprint now ds r
is_approved_sound {s} {ds} {t} now task_id fingerprint calls fresh yes_approved =
    let (r, found, status) = is_approved-row t now task_id fingerprint yes_approved in
    let more = then_call calls (asks (aware now) task_id fingerprint) in
    let rows_eq = is_approved-rows t now task_id fingerprint in
    let valid : IsValid (expire_due_at now t).1.rows =
      rw (← rows_eq) (Calls-IsValid more (rw fresh (record { ids = tt; slots = tt }))) in
    let (by_key, hit) =
      find-Stored row_id (λ x. slot_eq (some (task_id, fingerprint)) (row_slot x))
        (expire_due_at now t).1.rows r valid.ids found in
    let not_due =
      find-All (λ x. is_due now x ≡ false) _ (expire_due_at now t).1.rows r (none_due now t)
        found in
    (
      r,
      found,
      record {
        of_task = ground (arith, eq_iff task_id r.task_id, eq_iff fingerprint r.fingerprint);
        of_fingerprint = ground (arith, eq_iff task_id r.task_id, eq_iff fingerprint r.fingerprint);
        is_open = status;
        in_time = ground arith;
        by_decision =
            approval_needs_decision more r.request_id r (rw fresh refl) (rw rows_eq by_key) status;
      },
    )
