-- ===== src/Runs/Endings.antt =====
-- `terminalize`, repeated later (harness/server/registry.py).
use adk_coding_agent.Prelude.{
  ℕ, suc, String, ◌≡◌, refl, ap, sym, ◌∙◌, Bool, true, false, not, ◌&&◌, Option, none, some, [],
  ◌∷◌, ◌++◌, eq_refl, if◌then◌else◌, find, arith, inl, inr,
}
use adk_coding_agent.Prelude.Keyed.{find_by, find_by-update_where, updated, string_eq}
use adk_coding_agent.Prelude.Table.{update_where}
use adk_coding_agent.Prelude.Result.{Result, ok, err, value_error}
use adk_coding_agent.Prelude.Text.{Text}
use adk_coding_agent.Runs.Models.{
  RunStatus, is_active, status_eq, completed, has_error, error_eq, error_eq_iff, bounded_error,
  RunRecord, EventType, EventAppendResult, ServerEnvelope,
}
use adk_coding_agent.Runs.Store.{EventRow, Store, Digests, get_run, set_status}
use adk_coding_agent.Runs.Append.{has_source, max_sequence, new_row, is_source_key, names_run}
use adk_coding_agent.Runs.Terminal.{
  Terminal, Expected, terminal_status, expected_status, stream_of, freeze, terminal_replay,
  terminal_new, terminal_found, terminalize,
}
use adk_coding_agent.Runs.Registry.{is_row, id_of}
use adk_coding_agent.Runs.Advance.{status_eq_iff}
use adk_coding_agent.Runs.Retry.{find-snoc}
use adk_coding_agent.Runs.Streams.{terminal_ways, terminal_new-ok, announce-ok}
use adk_coding_agent.Runs.Life.{
  ◌⟶*◌, here, after, ends, Reach, Reach-after, run_advances, leads-find,
}

-- What has passed three checks passes them again.
three_gates :
    {A : Type 0} (a b c : Bool) (m n : Result A) (r : A)
    → (if a
        then err value_error
        else if b
        then err value_error
        else if c
        then err value_error
        else m)
      ≡ ok r
    → (if a
        then err value_error
        else if b
        then err value_error
        else if c
        then err value_error
        else n)
      ≡ n
three_gates true b c m n r h = absurd (ground arith)
three_gates false true c m n r h = absurd (ground arith)
three_gates false false true m n r h = absurd (ground arith)
three_gates false false false m n r h = refl

module _ {E : Type 0} (type : EventType E) where
  -- A run at its end, with the event that ended it.
  record Ended (s : Store E) (run_id : String) (status : RunStatus) (event : E)
      (source_key : String) (error : Option Text) (envelope : ServerEnvelope E) : Type 0 where
    run : RunRecord
    found : get_run s run_id ≡ some run
    status_is : run.status ≡ status
    error_is : run.error ≡ error
    row : EventRow E
    row_found : find (has_source run.run_id (some source_key)) s.events ≡ some row
    row_is : row.envelope ≡ envelope
    event_is : type.beq row.envelope.event event ≡ true

  status_eq_refl : (x : RunStatus) → status_eq x x ≡ true
  status_eq_refl x = ground arith

  replay-Ended :
      (existing : Option (EventRow E)) (s t : Store E) (run : RunRecord) (run_id : String)
      (status : RunStatus) (event : E) (source_key : String) (error : Option Text)
      (result : EventAppendResult E)
      → get_run s run_id ≡ some run
      → run.status ≡ status
      → find (has_source run.run_id (some source_key)) s.events ≡ existing
      → terminal_replay type existing s run event error ≡ ok (result, t)
      → Ended t run_id status event source_key error result.envelope
  unfolding terminal_replay get_run
  replay-Ended none s t run run_id status event source_key error result found same looked ret =
      absurd (ground arith)
  replay-Ended (some row) s t run run_id status event source_key error result found same looked
        ret =
      let runs : t.runs ≡ s.runs = ground arith in
      let events : t.events ≡ s.events = ground arith in
      record {
        run = run;
        found = ap (find_by id_of run_id) runs ∙ found;
        status_is = same;
        error_is = (error_eq_iff run.error error).0 (ground arith);
        row = row;
        row_found = ap (find (has_source run.run_id (some source_key))) events ∙ looked;
        row_is = ground arith;
        event_is = ground arith;
      }

  freeze-Ended :
      (s t : Store E) (run : RunRecord) (run_id : String) (status expected : RunStatus) (event : E)
      (source_key : String) (error : Option Text) (now : ℕ) (result : EventAppendResult E)
      → get_run s run_id ≡ some run
      → status_eq run.status expected ≡ true
      → find (has_source run.run_id (some source_key)) s.events ≡ none
      → freeze s run status expected event source_key error now ≡ ok (result, t)
      → Ended t run_id status event source_key error result.envelope
  unfolding freeze get_run
  freeze-Ended s t run run_id status expected event source_key error now result found expects fresh
        ret =
      let row =
        new_row (stream_of run) (suc (max_sequence run.run_id s.events)) (some source_key) event
          now in
      let frozen = record s {
        runs = update_where (is_row run.run_id expected) (set_status status error now) s.runs;
        events = s.events ++ row ∷ [];
      } in
      let (runs, events, made) =
        announce-ok type (get_run frozen run.run_id) row.envelope frozen t result (ground arith) in
      let own : is_row run.run_id expected run ≡ true = ground (arith, eq_refl run.run_id) in
      record {
        run = set_status status error now run;
        found =
            ap (find_by id_of run_id) runs
            ∙ find_by-update_where id_of run_id (is_row run.run_id expected)
                (set_status status error now) (λ r. refl) s.runs
            ∙ ap (updated id_of (is_row run.run_id expected) (set_status status error now)) found
            ∙ ap (λ b. some (if b then set_status status error now run else run)) own;
        status_is = refl;
        error_is = refl;
        row = row;
        row_found =
            ap (find (has_source run.run_id (some source_key))) events
            ∙ find-snoc (has_source run.run_id (some source_key)) s.events row fresh
                (ground (arith, eq_refl run.run_id, eq_refl source_key));
        row_is = ap (λ (r : EventAppendResult E). r.envelope) (sym made);
        event_is = (type.beq_iff event event).1 refl;
      }

  found-Ended :
      (looked : Option RunRecord) (s t : Store E) (run_id : String) (terminal : Terminal)
      (expected : Expected) (event : E) (source_key : String) (error : Option Text) (now : ℕ)
      (result : EventAppendResult E)
      → get_run s run_id ≡ looked
      → terminal_found type looked s
          (terminal_status terminal)
          (expected_status expected)
          event
          source_key
          error
          now
        ≡ ok (result, t)
      → Ended t run_id (terminal_status terminal) event source_key error result.envelope
  unfolding terminal_found
  found-Ended none s t run_id terminal expected event source_key error now result found ret =
      absurd (ground arith)
  found-Ended (some run) s t run_id terminal expected event source_key error now result found ret =
      let existing = find (has_source run.run_id (some source_key)) s.events in
      let status = terminal_status terminal in
      elim (terminal_ways type (status_eq run.status status)
        (not (status_eq run.status (expected_status expected)))
        (terminal_replay type existing s run event error)
        (terminal_new type existing s run status (expected_status expected) event source_key error
          now)
        (result, t) ret) [
          | inl (same, replayed) ↦
              replay-Ended existing s t run run_id status event source_key error result found
                (status_eq_iff run.status status same) refl replayed
          | inr (expects, moved) ↦
              let (fresh, frozen) =
                terminal_new-ok type existing s run status (expected_status expected) event
                  source_key error now (result, t) moved in
              freeze-Ended s t run run_id status (expected_status expected) event source_key error
                now result found (ground arith) fresh frozen
        ]

  ended_passed :
      (s u : Store E) (run_id : String) (terminal : Terminal) (event : E) (source_key : String)
      (expected : Expected) (error : Option Text) (now later : ℕ)
      (r : EventAppendResult E × Store E)
      → terminalize type s run_id terminal event source_key expected error now ≡ ok r
      → terminalize type u run_id terminal event source_key expected error later
        ≡ terminal_found type
            (get_run u run_id)
            u
            (terminal_status terminal)
            (expected_status expected)
            event
            source_key
            (bounded_error error)
            later
  unfolding terminalize
  ended_passed s u run_id terminal event source_key expected error now later r h =
      three_gates (not (is_source_key source_key)) (not (names_run type run_id event))
        (status_eq (terminal_status terminal) completed && has_error error)
        (terminal_found type (get_run s run_id) s (terminal_status terminal)
          (expected_status expected) event source_key (bounded_error error) now)
        (terminal_found type (get_run u run_id) u (terminal_status terminal)
          (expected_status expected) event source_key (bounded_error error) later)
        r h

  Ended-again :
      (s : Store E) (run_id : String) (terminal : Terminal) (expected : Expected) (event : E)
      (source_key : String) (error : Option Text) (now : ℕ) (envelope : ServerEnvelope E)
      → Ended s run_id (terminal_status terminal) event source_key error envelope
      → terminal_found type
          (get_run s run_id)
          s
          (terminal_status terminal)
          (expected_status expected)
          event
          source_key
          error
          now
        ≡ ok (
          record { envelope = envelope; created = false },
          record s { event_sink = s.event_sink ++ envelope ∷ [] },
        )
  unfolding terminal_found terminal_replay
  Ended-again s run_id terminal expected event source_key error now envelope h =
      let status = terminal_status terminal in
      let existing = find (has_source h.run.run_id (some source_key)) s.events in
      let ended : status_eq h.run.status status ≡ true =
        ap (λ x. status_eq x status) h.status_is ∙ status_eq_refl status in
      let agrees : (error_eq h.run.error error && type.beq h.row.envelope.event event) ≡ true =
        ap (λ b. b && type.beq h.row.envelope.event event)
          ((error_eq_iff h.run.error error).1 h.error_is)
        ∙ h.event_is in
      ap (λ f. terminal_found type f s status (expected_status expected) event source_key error now)
        h.found
      ∙ ap
          (λ b.
            if b
            then terminal_replay type existing s h.run event error
            else if not (status_eq h.run.status (expected_status expected))
            then err value_error
            else terminal_new type existing s h.run status (expected_status expected) event
                source_key error now)
          ended
      ∙ ap (λ f. terminal_replay type f s h.run event error) h.row_found
      ∙ ap
          (λ b.
            if b
            then ok (
              record { envelope = h.row.envelope; created = false },
              record s { event_sink = s.event_sink ++ h.row.envelope ∷ [] },
            )
            else err value_error)
          agrees
      ∙ ap
          (λ e. ok (
            record { envelope = e; created = false },
            record s { event_sink = s.event_sink ++ e ∷ [] },
          ))
          h.row_is

module _ {E : Type 0} (type : EventType E) (digests : Digests) where
  -- An ending of a run, repeated with the same arguments after any calls that returned since, returns
  -- the envelope of the first as one that was there, and leaves both tables as they are: a run ends
  -- once, with one event.
  pub terminalize-again :
      (s t u : Store E) (run_id : String) (terminal : Terminal) (event : E) (source_key : String)
      (expected : Expected) (error : Option Text) (now later : ℕ) (result : EventAppendResult E)
      → Reach type digests s
      → terminalize type s run_id terminal event source_key expected error now ≡ ok (result, t)
      → ◌⟶*◌ type digests t u
      → terminalize type u run_id terminal event source_key expected error later
        ≡ ok (
          record { envelope = result.envelope; created = false },
          record u { event_sink = u.event_sink ++ result.envelope ∷ [] },
        )
  terminalize-again s t u run_id terminal event source_key expected error now later result reached
        ret moved =
      let again =
        found-Ended type (get_run s run_id) s t run_id terminal expected event source_key
          (bounded_error error) now result refl
          (sym (
              ended_passed type s s run_id terminal event source_key expected error now now
                (result, t) ret)
            ∙ ret) in
      let reached_t = Reach-after type digests s t reached (
        after s t t (ends s t run_id terminal event source_key expected error now result ret)
          (here t)) in
      let (known, found, advanced) =
        run_advances type digests t u run_id again.run reached_t moved again.found in
      let frozen : is_active again.run.status ≡ false =
        ap is_active again.status_is ∙ ended_terminal terminal in
      let same : known ≡ again.run = advanced.ended_stays frozen in
      ended_passed type s u run_id terminal event source_key expected error now later (result, t)
        ret
      ∙ Ended-again type u run_id terminal expected event source_key (bounded_error error) later
          result.envelope
          (record {
            run = again.run;
            found = found ∙ ap (λ r. some r) same;
            status_is = again.status_is;
            error_is = again.error_is;
            row = again.row;
            row_found =
                leads-find type digests t u (has_source again.run.run_id (some source_key))
                  again.row reached_t moved again.row_found;
            row_is = again.row_is;
            event_is = again.event_is;
          })
    where
      ended_terminal : (x : Terminal) → is_active (terminal_status x) ≡ false
      ended_terminal x = ground arith
