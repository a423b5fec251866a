-- ===== src/Runs/Moves.antt =====
-- The invariant of the registry, what a call leaves standing, and the calls on the runs
-- (harness/server/registry.py).
use mathlib.Core.List.{append-nil, append_assoc}
use adk_coding_agent.Prelude.{
  ℕ, String, ◌≡◌, ◌⊎◌, refl, ap, sym, subst, ◌∙◌, Bool, true, false, ◌&&◌, Option, none, some, List,
  [], ◌∷◌, ◌++◌, map, ◌==◌, eq_iff, if◌then◌else◌, any, find, All, All-append, All-map, arith,
  Bool-cases, inl, inr,
}
use adk_coding_agent.Prelude.Result.{Result, ok, err, value_error}
use adk_coding_agent.Prelude.Keyed.{find_by-key, find_by-none, string_eq, mem_key}
use adk_coding_agent.Prelude.Table.{update_where, map-update_where}
use adk_coding_agent.Prelude.Text.{Text}
use adk_coding_agent.Runs.Models.{
  RunStatus, queued, status_eq, error_eq, bounded_error, is_allowed, is_active, RunRecord,
  ServerEnvelope,
}
use adk_coding_agent.Runs.Store.{
  EventRow, Store, Digests, Creation, candidate_of, get_run, set_status, same_key, same_session,
  insert_run, create_found, create_run, advance, read_back, is_unexpected, update_found,
  update_status,
}
use adk_coding_agent.Runs.Append.{of_run}
use adk_coding_agent.Runs.Terminal.{}
use adk_coding_agent.Runs.Rows.{IsTable}
use adk_coding_agent.Runs.Batch.{Added}
use adk_coding_agent.Runs.Advance.{RunsLater, RunsLater-append, RunsLater-trans, update-RunsLater}
use adk_coding_agent.Runs.Registry.{AreRuns, id_of, is_row, insert-AreRuns, update-AreRuns}

-- The run of a row is in the table of the runs, as the foreign key demands.
abbrev pub IsKnown : {E : Type 0} → List RunRecord → EventRow E → Type 0
IsKnown runs row = mem_key row.run_id (map id_of runs) ≡ true

pub record IsRegistry {E : Type 0} (s : Store E) : Type 0 where
  pub are_runs : AreRuns s.runs
  pub table : IsTable s.events
  pub known : All (IsKnown s.runs) s.events

-- Each run is there as its later self, and the events that were there stand in front.
pub record Evolves {E : Type 0} (s t : Store E) : Type 0 where
  pub later : RunsLater s.runs t.runs
  pub added : List (EventRow E)
  pub tail : t.events ≡ s.events ++ added

allowed_moves :
    (a b : RunStatus) → is_allowed a b ≡ true → (is_active a ≡ true) × (status_eq b queued ≡ false)
allowed_moves a b h = ground arith

module _ {E : Type 0} where
  pub Evolves-same : (s t : Store E) → t.runs ≡ s.runs → t.events ≡ s.events → Evolves s t
  Evolves-same s t r e = record {
    later = subst (RunsLater s.runs) (append-nil s.runs ∙ sym r) (RunsLater-append s.runs []);
    added = [];
    tail = e ∙ sym (append-nil s.events);
  }

  pub Evolves-trans : (s t u : Store E) → Evolves s t → Evolves t u → Evolves s u
  Evolves-trans s t u a b = record {
    later = RunsLater-trans s.runs t.runs u.runs a.later b.later;
    added = a.added ++ b.added;
    tail = b.tail ∙ ap (λ rows. rows ++ b.added) a.tail ∙ append_assoc s.events a.added b.added;
  }

  -- The tables are what the invariant is about.
  pub IsRegistry-same :
      (s t : Store E) → t.runs ≡ s.runs → t.events ≡ s.events → IsRegistry s → IsRegistry t
  IsRegistry-same s t r e h = record {
    are_runs = subst AreRuns (sym r) h.are_runs;
    table = subst IsTable (sym e) h.table;
    known =
        subst (λ runs. All (IsKnown runs) t.events) (sym r)
          (subst (All (IsKnown s.runs)) (sym e) h.known);
  }

  IsKnown-append :
      (runs new : List RunRecord) (rows : List (EventRow E))
      → All (IsKnown runs) rows
      → All (IsKnown (runs ++ new)) rows
  IsKnown-append runs new rows =
      All-map (IsKnown runs) (IsKnown (runs ++ new)) (λ row h. grown runs row h) rows
    where
      grown :
          (runs : List RunRecord) (row : EventRow E) → IsKnown runs row → IsKnown (runs ++ new) row
      grown [] row h = absurd (ground arith)
      grown (r ∷ runs) row h = ground (arith, grown runs row)

  -- Two stores of one registry, the second later.
  abbrev pub Moves : Store E → Store E → Type 0
  Moves s t = IsRegistry t × Evolves s t

  insert_run-Moves :
      (s t : Store E) (candidate r : RunRecord) (created : Bool)
      → IsRegistry s
      → find (same_key candidate) s.runs ≡ none
      → any (λ r. same_session candidate r && is_active r.status) s.runs ≡ false
      → insert_run s candidate ≡ ok (r, created, t)
      → Moves s t
  unfolding insert_run
  insert_run-Moves s t candidate r created h fresh idle ret =
      elim (Bool-cases (any (λ (r : RunRecord). r.run_id == candidate.run_id) s.runs)) [
        | inl taken ↦ absurd (ground arith)
        | inr free ↦
            let runs : t.runs ≡ s.runs ++ candidate ∷ [] = ground arith in
            let events : t.events ≡ s.events = ground arith in
            (
              record {
                are_runs =
                    subst AreRuns (sym runs)
                      (insert-AreRuns candidate s.runs h.are_runs fresh idle free);
                table = subst IsTable (sym events) h.table;
                known =
                    subst (λ runs. All (IsKnown runs) t.events) (sym runs)
                      (subst (All (IsKnown (s.runs ++ candidate ∷ []))) (sym events)
                        (IsKnown-append s.runs (candidate ∷ []) s.events h.known));
              },
              record {
                later =
                    subst (RunsLater s.runs) (sym runs) (RunsLater-append s.runs (candidate ∷ []));
                added = [];
                tail = events ∙ sym (append-nil s.events);
              },
            )
      ]

  create_found-Moves :
      (found : Option RunRecord) (s t : Store E) (candidate r : RunRecord) (created : Bool)
      → IsRegistry s
      → find (same_key candidate) s.runs ≡ found
      → create_found found s candidate ≡ ok (r, created, t)
      → Moves s t
  unfolding create_found
  create_found-Moves (some existing) s t candidate r created h looked ret =
      let runs : t.runs ≡ s.runs = ground arith in
      let events : t.events ≡ s.events = ground arith in
      (IsRegistry-same s t runs events h, Evolves-same s t runs events)
  create_found-Moves none s t candidate r created h looked ret =
      insert_run-Moves s t candidate r created h looked (ground arith) (ground arith)

  pub create_run-Moves :
      (digests : Digests) (s t : Store E) (c : Creation) (now : ℕ) (r : RunRecord) (created : Bool)
      → IsRegistry s
      → create_run digests s c now ≡ ok (r, created, t)
      → Moves s t
  unfolding create_run
  create_run-Moves digests s t c now r created h ret =
      let candidate = candidate_of digests c now in
      create_found-Moves (find (same_key candidate) s.runs) s t candidate r created h refl
        (ground arith)

  -- The update of an active run to a status that is not queued.
  pub update-Moves :
      (s t : Store E) (run_id : String) (previous status : RunStatus) (error : Option Text)
      (now : ℕ)
      → IsRegistry s
      → is_active previous ≡ true
      → status_eq status queued ≡ false
      → t.runs ≡ update_where (is_row run_id previous) (set_status status error now) s.runs
      → t.events ≡ s.events
      → Moves s t
  update-Moves s t run_id previous status error now h a q runs events = (
    record {
      are_runs =
          subst AreRuns (sym runs)
            (update-AreRuns run_id previous status error now s.runs h.are_runs a);
      table = subst IsTable (sym events) h.table;
      known = subst (All (IsKnown t.runs)) (sym events) (
          All-map (IsKnown s.runs) (IsKnown t.runs)
            (λ row k. ap (mem_key row.run_id) (ap (map id_of) runs ∙ same_ids) ∙ k) s.events
            h.known);
    },
    record {
      later =
          subst (RunsLater s.runs) (sym runs)
            (update-RunsLater run_id previous status error now s.runs a q);
      added = [];
      tail = events ∙ sym (append-nil s.events);
    },
  )
    where
      same_ids :
          map id_of (update_where (is_row run_id previous) (set_status status error now) s.runs)
          ≡ map id_of s.runs
      same_ids =
          map-update_where id_of (is_row run_id previous) (set_status status error now) (λ r. refl)
            s.runs

  read_back-ok :
      (found : Option RunRecord) (s t : Store E) (r : RunRecord)
      → read_back found s ≡ ok (r, t)
      → (t.runs ≡ s.runs) × (t.events ≡ s.events)
  read_back-ok none s t r h = absurd (ground arith)
  read_back-ok (some x) s t r h = (ground arith, ground arith)

  advance-Moves :
      (s t : Store E) (run_id : String) (previous status : RunStatus) (error : Option Text)
      (now : ℕ) (r : RunRecord)
      → IsRegistry s
      → is_active previous ≡ true
      → status_eq status queued ≡ false
      → advance s run_id previous status error now ≡ ok (r, t)
      → Moves s t
  unfolding advance
  advance-Moves s t run_id previous status error now r h a q ret =
      let updated = record s {
        runs = update_where (is_row run_id previous) (set_status status error now) s.runs;
      } in
      let (runs, events) = read_back-ok (get_run updated run_id) updated t r (ground arith) in
      update-Moves s t run_id previous status error now h a q runs events

  -- The two ways in which an update returns.
  update_ways :
      (unexpected same unchanged allowed : Bool) (kept : RunRecord × Store E)
      (moved : Result (RunRecord × Store E)) (r : RunRecord × Store E)
      → (if unexpected
          then err value_error
          else if same
          then (if unchanged then ok kept else err value_error)
          else if allowed
          then moved
          else err value_error)
        ≡ ok r
      → (kept ≡ r) ⊎ ((allowed ≡ true) × (moved ≡ ok r))
  update_ways true same unchanged allowed kept moved r h = absurd (ground arith)
  update_ways false true true allowed kept moved r h = inl (ground arith)
  update_ways false true false allowed kept moved r h = absurd (ground arith)
  update_ways false false unchanged true kept moved r h = inr (refl, h)
  update_ways false false unchanged false kept moved r h = absurd (ground arith)

  update_found-Moves :
      (found : Option RunRecord) (s t : Store E) (status : RunStatus) (error : Option Text)
      (expected : Option RunStatus) (now : ℕ) (r : RunRecord)
      → IsRegistry s
      → update_found found s status error expected now ≡ ok (r, t)
      → Moves s t
  unfolding update_found
  update_found-Moves none s t status error expected now r h ret = absurd (ground arith)
  update_found-Moves (some x) s t status error expected now r h ret =
      elim (update_ways (is_unexpected expected x.status) (status_eq status x.status)
        (error_eq error x.error) (is_allowed x.status status) (x, s)
        (advance s x.run_id x.status status error now) (r, t) ret) [
          | inl kept ↦
              let runs : t.runs ≡ s.runs = ap (λ (p : RunRecord × Store E). p.1.runs) (sym kept) in
              let events : t.events ≡ s.events =
                ap (λ (p : RunRecord × Store E). p.1.events) (sym kept) in
              (IsRegistry-same s t runs events h, Evolves-same s t runs events)
          | inr (allowed, moved) ↦
              let (active, started) = allowed_moves x.status status allowed in
              advance-Moves s t x.run_id x.status status error now r h active started moved
        ]

  pub update_status-Moves :
      (s t : Store E) (run_id : String) (status : RunStatus) (error : Option Text)
      (expected : Option RunStatus) (now : ℕ) (r : RunRecord)
      → IsRegistry s
      → update_status s run_id status error expected now ≡ ok (r, t)
      → Moves s t
  unfolding update_status
  update_status-Moves s t run_id status error expected now r h ret =
      update_found-Moves (get_run s run_id) s t status (bounded_error error) expected now r h
        (ground arith)

  pub get_run-id :
      (s : Store E) (run_id : String) (run : RunRecord)
      → get_run s run_id ≡ some run
      → run.run_id ≡ run_id
  unfolding get_run
  get_run-id s run_id run h = find_by-key (λ (r : RunRecord). r.run_id) run_id s.runs run h

  pub get_run-known :
      (s : Store E) (run_id : String) (run : RunRecord)
      → get_run s run_id ≡ some run
      → mem_key run.run_id (map id_of s.runs) ≡ true
  unfolding get_run
  get_run-known s run_id run h = elim (Bool-cases (mem_key run.run_id (map id_of s.runs))) [
    | inl e ↦ e
    | inr e ↦
        let same = find_by-key (λ (r : RunRecord). r.run_id) run_id s.runs run h in
        absurd (ground (arith, find_by-none (λ (r : RunRecord). r.run_id) run_id s.runs))
  ]

  -- Rows of a known run, after the rows that were there.
  pub rows-Moves :
      (s t : Store E) (run : RunRecord) (run_id : String) (created : List (ServerEnvelope E))
      → IsRegistry s
      → get_run s run_id ≡ some run
      → t.runs ≡ s.runs
      → IsTable t.events
      → Added run.run_id s.events t.events created
      → Moves s t
  rows-Moves s t run run_id created h found runs table a = (
    record {
      are_runs = subst AreRuns (sym runs) h.are_runs;
      table = table;
      known =
          subst (λ runs. All (IsKnown runs) t.events) (sym runs)
            (subst (All (IsKnown s.runs)) (sym a.tail) (
              All-append (IsKnown s.runs) s.events a.added h.known (
                All-map (λ row. of_run run.run_id row ≡ true) (IsKnown s.runs)
                  (λ row own.
                    ap (λ i. mem_key i (map id_of s.runs)) ((eq_iff row.run_id run.run_id).0 own)
                    ∙ get_run-known s run_id run found)
                  a.added a.of_the_run)));
    },
    record {
      later = subst (RunsLater s.runs) (append-nil s.runs ∙ sym runs) (RunsLater-append s.runs []);
      added = a.added;
      tail = a.tail;
    },
  )
