-- ===== src/Runs/Repeats.antt =====
-- Calls that create and end runs, repeated later (harness/server/registry.py).
use mathlib.Core.List.{append-nil}
use adk_coding_agent.Prelude.{
  subst, map, String, ℕ, ◌≡◌, refl, ap, sym, ◌∙◌, Bool, true, false, Option, none, some, List, [],
  ◌∷◌, ◌++◌, eq_refl, if◌then◌else◌, find, arith,
}
use adk_coding_agent.Prelude.Result.{Result, ok, err, value_error, validation_error}
use adk_coding_agent.Prelude.Text.{text_eq_iff}
use adk_coding_agent.Runs.Models.{
  EventAppendResult, Metadata, metadata_eq, RunRecord, is_valid_run, EventType,
}
use adk_coding_agent.Runs.Store.{
  Store, Digests, Creation, candidate_of, same_key, same_parameters, insert_run, create_found,
  create_run, get_run,
}
use adk_coding_agent.Prelude.Keyed.{find_by, string_eq, find-Stored}
use adk_coding_agent.Runs.Registry.{id_of}
use adk_coding_agent.Runs.Append.{
  stream_for, append_transaction, append_events_with_outcomes, zip, resolved_keys, envelopes,
}
use adk_coding_agent.Runs.Retry.{
  repeated, IsKeyed, AreRecorded, AreRecorded-kept, transaction-loop, transaction-records,
  transaction-finds, transaction-missing, append-transaction,
}
use adk_coding_agent.Runs.Advance.{RunLater, RunsLater-search}
use adk_coding_agent.Runs.Life.{
  ◌⟶*◌, here, after, creates, appends, run_advances, leads-find, later-IsRegistry, Reach,
  Reach-after, leads-RunsLater,
}

metadata_eq_refl : (m : Metadata) → metadata_eq m m ≡ true
metadata_eq_refl [] = refl
metadata_eq_refl ((k, v) ∷ m) = ground (arith, eq_refl k, eq_refl v, metadata_eq_refl m)

same_parameters_refl : (r : RunRecord) → same_parameters r r ≡ true
same_parameters_refl r = ground (
  arith,
  eq_refl r.thread_id,
  eq_refl r.session_id,
  eq_refl r.invocation_id,
  text_eq_iff r.input r.input,
  eq_refl r.input_sha256,
  metadata_eq_refl r.metadata,
)

same_key_refl : (r : RunRecord) → same_key r r ≡ true
same_key_refl r = ground (arith, eq_refl r.user_id, eq_refl r.idempotency_key)

same_key-RunLater : (c x y : RunRecord) → RunLater x y → same_key c y ≡ same_key c x
same_key-RunLater c x y l = ap (same_key c) l.same_run

same_parameters-RunLater :
    (c x y : RunRecord) → RunLater x y → same_parameters y c ≡ same_parameters x c
same_parameters-RunLater c x y l = ap (λ r. same_parameters r c) l.same_run

find-snoc :
    (p : RunRecord → Bool) (runs : List RunRecord) (r : RunRecord)
    → find p runs ≡ none
    → p r ≡ true
    → find p (runs ++ r ∷ []) ≡ some r
find-snoc p [] r h g = ground arith
find-snoc p (x ∷ runs) r h g = ground (arith, find-snoc p runs r)

passed :
    {A : Type 0} (b : Bool) (m : Result A) (r : A)
    → (if b then m else err validation_error) ≡ ok r
    → (b ≡ true) × (m ≡ ok r)
passed true m r h = (refl, h)
passed false m r h = absurd (ground arith)

module _ {E : Type 0} where
  -- A creation that returned has left a run under its key, with its parameters.
  create_found-stored :
      (found : Option RunRecord) (s t : Store E) (candidate r : RunRecord) (created : Bool)
      → find (same_key candidate) s.runs ≡ found
      → create_found found s candidate ≡ ok (r, created, t)
      → (find (same_key candidate) t.runs ≡ some r) × (same_parameters r candidate ≡ true)
  unfolding create_found insert_run
  create_found-stored (some existing) s t candidate r created looked ret =
      let runs : s.runs ≡ t.runs = ground arith in
      let same : existing ≡ r = ground arith in
      (ap (find (same_key candidate)) (sym runs) ∙ looked ∙ ap (λ x. some x) same, ground arith)
  create_found-stored none s t candidate r created looked ret =
      let runs : s.runs ++ candidate ∷ [] ≡ t.runs = ground arith in
      let same : candidate ≡ r = ground arith in
      (
        ap (find (same_key candidate)) (sym runs)
            ∙ find-snoc (same_key candidate) s.runs candidate looked (same_key_refl candidate)
            ∙ ap (λ x. some x) same,
        ap (λ x. same_parameters x candidate) (sym same) ∙ same_parameters_refl candidate,
      )

module _ {E : Type 0} (type : EventType E) (digests : Digests) where
  -- A creation, repeated with the same arguments after any calls that returned since, returns what the
  -- table has by then under the run's id, as one that was there, and changes nothing. That record is a
  -- later one of the run: the same but for its status, error and time of change, and the same in all
  -- where the run had ended.
  pub create_run-again :
      (s t u : Store E) (c : Creation) (now later : ℕ) (r : RunRecord) (created : Bool)
      → Reach type digests s
      → create_run digests s c now ≡ ok (r, created, t)
      → ◌⟶*◌ type digests t u
      → (known : RunRecord) × (get_run u r.run_id ≡ some known)
        × RunLater r known
        × (create_run digests u c later ≡ ok (known, false, u))
  unfolding create_run create_found candidate_of is_valid_run get_run
  create_run-again s t u c now later r created reached ret moved =
      let candidate = candidate_of digests c now in
      let again = candidate_of digests c later in
      let (valid, did) =
        passed (is_valid_run candidate)
          (create_found (find (same_key candidate) s.runs) s candidate) (r, created, t) ret in
      let (stored, parameters) =
        create_found-stored (find (same_key candidate) s.runs) s t candidate r created refl did in
      let reached_t =
        Reach-after type digests s t reached
          (after s t t (creates s t c now r created ret) (here t)) in
      let (known, found, advanced) =
        RunsLater-search (same_key candidate) t.runs u.runs r (same_key-RunLater candidate)
          (leads-RunsLater type digests t u reached_t moved) stored in
      let (by_id, same) =
        find-Stored id_of (same_key candidate) u.runs known
          (later-IsRegistry type digests t u reached_t moved).are_runs.ids found in
      (
        known,
        ap (λ i. find_by id_of i u.runs) (sym (ap id_of advanced.same_run)) ∙ by_id,
        advanced,
        ap
              (λ b.
                if b
                then create_found (find (same_key again) u.runs) u again
                else err validation_error)
              valid
            ∙ ap (λ f. create_found f u again) found
            ∙ ap (λ b. if b then ok (known, false, u) else err value_error)
                (same_parameters-RunLater candidate r known advanced ∙ parameters),
      )

  stream_for-RunLater :
      (run known : RunRecord) (durable : Bool) (session_id invocation_id : Option String)
      → RunLater run known
      → stream_for known durable session_id invocation_id
        ≡ stream_for run durable session_id invocation_id
  stream_for-RunLater run known durable session_id invocation_id l =
      ap (λ r. stream_for r durable session_id invocation_id) l.same_run

  -- The second append, on the run as it is looked up at both times.
  transaction_later :
      (s t u : Store E) (run_id : String) (found : Option RunRecord) (durable : Bool)
      (session_id invocation_id : Option String) (items : List (E × Option String)) (now later : ℕ)
      (outcomes : List (EventAppendResult E))
      → Reach type digests t
      → ◌⟶*◌ type digests t u
      → get_run s run_id ≡ found
      → IsKeyed items
      → append_transaction type found s durable session_id invocation_id items now
        ≡ ok (outcomes, t)
      → append_transaction type (get_run u run_id) u durable session_id invocation_id items later
        ≡ ok (map repeated outcomes, record u { event_sink = u.event_sink ++ envelopes outcomes })
  unfolding get_run
  transaction_later s t u run_id none durable session_id invocation_id items now later outcomes
        reached moved looked k h =
      absurd (transaction-missing type s durable session_id invocation_id items now (outcomes, t) h)
  transaction_later s t u run_id (some run) durable session_id invocation_id items now later
        outcomes reached moved looked k h =
      let (rows, looped, did) =
        transaction-loop type run s durable session_id invocation_id items now outcomes t h in
      let stays =
        ap (λ (x : Store E). find_by (λ (r : RunRecord). r.run_id) run_id x.runs) did ∙ looked in
      let (known, found, advanced) = run_advances type digests t u run_id run reached moved stays in
      let recorded =
        AreRecorded-kept type (stream_for run durable session_id invocation_id) t.events u.events
          items outcomes (λ p row. leads-find type digests t u p row reached moved)
          (transaction-records type run s durable session_id invocation_id items now outcomes t k
            h) in
      ap (λ o. append_transaction type o u durable session_id invocation_id items later) found
      ∙ transaction-finds type known u durable session_id invocation_id items later outcomes (
          subst (λ c. AreRecorded type c u.events items outcomes)
            (sym (stream_for-RunLater run known durable session_id invocation_id advanced))
            recorded)

  -- A batch whose events all have source keys, appended again with the same arguments after any calls
  -- that returned since: the same envelopes come back, none as created, and both tables stay as they
  -- are; only the event sink hears of the envelopes again.
  pub append_events-again :
      (s t u : Store E) (run_id : String) (events : List E) (durable : Bool)
      (session_id invocation_id : Option String) (keys : Option (List (Option String)))
      (now later : ℕ) (outcomes : List (EventAppendResult E))
      → Reach type digests s
      → IsKeyed (zip events (resolved_keys keys events))
      → append_events_with_outcomes type s run_id events durable session_id invocation_id keys now
        ≡ ok (outcomes, t)
      → ◌⟶*◌ type digests t u
      → append_events_with_outcomes type u run_id events durable session_id invocation_id keys later
        ≡ ok (map repeated outcomes, record u { event_sink = u.event_sink ++ envelopes outcomes })
  append_events-again s t u run_id [] durable session_id invocation_id keys now later outcomes
        reached k h moved =
      append-transaction type s u run_id [] durable session_id invocation_id keys now later
        (outcomes, t) h
      ∙ (let first =
            sym (
              append-transaction type s s run_id [] durable session_id invocation_id keys now now
                (outcomes, t) h)
            ∙ h in
          let none_left : [] ≡ outcomes = ground arith in
          subst
            (λ os.
              ◌≡◌ {A = Result (List (EventAppendResult E) × Store E)} (ok ([], u))
                (ok (map repeated os, record u { event_sink = u.event_sink ++ envelopes os })))
            none_left
            (ap (λ l. ok ([], record u { event_sink = l })) (sym (append-nil u.event_sink))))
  append_events-again s t u run_id (event ∷ events) durable session_id invocation_id keys now later
        outcomes reached k h moved =
      let reached_t = Reach-after type digests s t reached (
        after s t t
          (appends s t run_id (event ∷ events) durable session_id invocation_id keys now outcomes h)
          (here t)) in
      append-transaction type s u run_id (event ∷ events) durable session_id invocation_id keys now
        later (outcomes, t) h
      ∙ transaction_later s t u run_id (get_run s run_id) durable session_id invocation_id
          (zip (event ∷ events) (resolved_keys keys (event ∷ events))) now later outcomes reached_t
          moved refl k
          (sym (
              append-transaction type s s run_id (event ∷ events) durable session_id invocation_id
                keys now now (outcomes, t) h)
            ∙ h)
