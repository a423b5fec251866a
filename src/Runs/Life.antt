-- ===== src/Runs/Life.antt =====
-- The registry over the whole of its life: every sequence of calls from an empty database
-- (harness/server/registry.py).
use adk_coding_agent.Prelude.{
  ℕ, String, ◌≡◌, refl, ap, ◌∙◌, Bool, Option, some, List, [], ◌∷◌, ◌++◌, find, arith,
}
use adk_coding_agent.Prelude.Result.{ok}
use adk_coding_agent.Prelude.Text.{Text}
use adk_coding_agent.Runs.Models.{RunStatus, RunRecord, EventType, EventAppendResult}
use adk_coding_agent.Runs.Store.{
  EventRow, Store, Digests, Creation, get_run, create_run, update_status,
}
use adk_coding_agent.Runs.Append.{append_events_with_outcomes}
use adk_coding_agent.Runs.Terminal.{Terminal, Expected, terminalize}
use adk_coding_agent.Runs.Rows.{rows_of}
use adk_coding_agent.Runs.Advance.{RunLater, RunsLater, RunsLater-find}
use adk_coding_agent.Runs.Moves.{
  IsRegistry, Moves, Evolves-same, Evolves-trans, create_run-Moves, update_status-Moves,
}
use adk_coding_agent.Runs.Retry.{find-append}
use adk_coding_agent.Runs.Streams.{append-Streams, terminalize-Streams}

module _ {E : Type 0} (type : EventType E) (digests : Digests) where
  infix 40 ◌⟶◌ ◌⟶*◌
  -- A call that returns.
  pub data ◌⟶◌ : Store E → Store E → Type 0 where
    creates :
        (s t : Store E) (c : Creation) (now : ℕ) (r : RunRecord) (created : Bool)
        → create_run digests s c now ≡ ok (r, created, t)
        → s ⟶ t
    updates :
        (s t : Store E) (run_id : String) (status : RunStatus) (error : Option Text)
        (expected : Option RunStatus) (now : ℕ) (r : RunRecord)
        → update_status s run_id status error expected now ≡ ok (r, t)
        → s ⟶ t
    appends :
        (s t : Store E) (run_id : String) (events : List E) (durable : Bool)
        (session_id invocation_id : Option String) (keys : Option (List (Option String))) (now : ℕ)
        (outcomes : List (EventAppendResult E))
        → append_events_with_outcomes type s run_id events durable session_id invocation_id keys now
          ≡ ok (outcomes, t)
        → s ⟶ t
    ends :
        (s t : Store E) (run_id : String) (terminal : Terminal) (event : E) (source_key : String)
        (expected : Expected) (error : Option Text) (now : ℕ) (result : EventAppendResult E)
        → terminalize type s run_id terminal event source_key expected error now ≡ ok (result, t)
        → s ⟶ t

  pub data ◌⟶*◌ : Store E → Store E → Type 0 where
    here : (s : Store E) → s ⟶* s
    after : (s t u : Store E) → s ⟶ t → t ⟶* u → s ⟶* u

  pub ⟶-Moves : (s t : Store E) → s ⟶ t → IsRegistry s → Moves s t
  ⟶-Moves x y (creates s t c now r created ret) h =
      create_run-Moves digests s t c now r created h ret
  ⟶-Moves x y (updates s t run_id status error expected now r ret) h =
      update_status-Moves s t run_id status error expected now r h ret
  ⟶-Moves x y (appends s t run_id events durable session_id invocation_id keys now outcomes ret) h =
      (append-Streams type s t run_id events durable session_id invocation_id keys now outcomes h
        ret).moves
  ⟶-Moves x y (ends s t run_id terminal event source_key expected error now result ret) h =
      (terminalize-Streams type s t run_id terminal event source_key expected error now result h
        ret).moves

  ⟶*-Moves : (s t : Store E) → s ⟶* t → IsRegistry s → Moves s t
  ⟶*-Moves x y (here s) h = (h, Evolves-same s s refl refl)
  ⟶*-Moves x y (after s t u first rest) h =
      let (valid, moved) = ⟶-Moves s t first h in
      let (last, evolved) = ⟶*-Moves t u rest valid in (last, Evolves-trans s t u moved evolved)

  abbrev pub empty_store : Store E
  empty_store = record { runs = []; events = []; run_sink = []; event_sink = [] }

  abbrev pub Reach : Store E → Type 0
  Reach s = empty_store ⟶* s

  -- Whatever calls have returned since the database was made: the ids of the runs are distinct, so are
  -- a user's idempotency keys, a session has one active run at most; the events of each run are
  -- numbered 1, 2, 3 ... in the order of their writing, no source key stands twice in a run, each
  -- envelope carries the run and the number of its row, and its run is in the table.
  pub Reach-IsRegistry : (s : Store E) → Reach s → IsRegistry s
  Reach-IsRegistry s r =
      (⟶*-Moves empty_store s r (record {
        are_runs = record { ids = tt; keys = tt; one_active = λ u v. omega arith };
        table = record { numbered = λ i. tt; unique = tt; envelopes_true = tt };
        known = tt;
      })).0

  pub later-IsRegistry : (s t : Store E) → Reach s → s ⟶* t → IsRegistry t
  later-IsRegistry s t reached moved = (⟶*-Moves s t moved (Reach-IsRegistry s reached)).0

  pub leads-RunsLater : (s t : Store E) → Reach s → s ⟶* t → RunsLater s.runs t.runs
  leads-RunsLater s t reached moved = (⟶*-Moves s t moved (Reach-IsRegistry s reached)).1.later

  pub Reach-after : (s t : Store E) → Reach s → s ⟶* t → Reach t
  Reach-after s t reached moved = joined empty_store s t reached moved
    where
      joined : (a b c : Store E) → a ⟶* b → b ⟶* c → a ⟶* c
      joined x y c (here a) m = m
      joined x y c (after a b d first rest) m = after a b c first (joined b d c rest m)

  pub leads-find :
      (s t : Store E) (p : EventRow E → Bool) (row : EventRow E)
      → Reach s
      → s ⟶* t
      → find p s.events ≡ some row
      → find p t.events ≡ some row
  leads-find s t p row reached moved found =
      let evolved = (⟶*-Moves s t moved (Reach-IsRegistry s reached)).1 in
      ap (find p) evolved.tail ∙ find-append p s.events evolved.added row found

  -- A run that was found is found after any later calls, with the same ids, keys, input, metadata and
  -- time of creation; its status has not gone back, and where it was at its end the whole record is as
  -- it was.
  pub run_advances :
      (s t : Store E) (run_id : String) (r : RunRecord)
      → Reach s
      → s ⟶* t
      → get_run s run_id ≡ some r
      → (later : RunRecord) × (get_run t run_id ≡ some later) × RunLater r later
  unfolding get_run
  run_advances s t run_id r reached moved found =
      RunsLater-find s.runs t.runs run_id r
        (⟶*-Moves s t moved (Reach-IsRegistry s reached)).1.later found

  rows_of-append :
      (run_id : String) (xs ys : List (EventRow E))
      → rows_of run_id (xs ++ ys) ≡ rows_of run_id xs ++ rows_of run_id ys
  rows_of-append run_id [] ys = refl
  rows_of-append run_id (x ∷ xs) ys = ground (arith, rows_of-append run_id xs ys)

  -- The stream of a run only grows at its end, whatever calls return later.
  pub stream_grows :
      (s t : Store E) (run_id : String)
      → Reach s
      → s ⟶* t
      → (more : List (EventRow E)) × (rows_of run_id t.events ≡ rows_of run_id s.events ++ more)
  stream_grows s t run_id reached moved =
      let evolved = (⟶*-Moves s t moved (Reach-IsRegistry s reached)).1 in
      (
        rows_of run_id evolved.added,
        ap (rows_of run_id) evolved.tail ∙ rows_of-append run_id s.events evolved.added,
      )
