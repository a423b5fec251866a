-- ===== src/Runs/Tests.antt =====
-- A run of the registry and its client, at which the theorems on them apply.
mod Live
use adk_coding_agent.Prelude.{
  ℕ, zero, suc, ◌+◌, ◌<◌, ◌≤◌, String, ◌≡◌, ◌⊎◌, refl, Bool, true, false, Option, none, some, List,
  [], ◌∷◌, ◌++◌, map, ◌==◌, eq_iff, filter, find, length, drop, take, arith,
}
use adk_coding_agent.Prelude.Int.{ℤ, pos, negsuc}
use adk_coding_agent.Prelude.Keyed.{string_eq}
use adk_coding_agent.Prelude.Result.{ok, err, value_error}
use adk_coding_agent.Prelude.Sort.{insert, sort}
use adk_coding_agent.Prelude.Table.{update_where}
use adk_coding_agent.Prelude.Text.{codes, text_eq}
use adk_coding_agent.Runs.Models.{
  queued, running, completed, RunRecord, is_valid_run, EventType, ServerEnvelope, EventAppendResult,
}
use adk_coding_agent.Runs.Store.{
  EventRow, Store, Digests, Creation, candidate_of, is_bound_elsewhere, get_run, insert_run,
  create_found, create_run, set_status, advance, update_found, update_status,
}
use adk_coding_agent.Runs.Append.{
  append_one, append_loop, append_transaction, checked_append, append_events_with_outcomes,
}
use adk_coding_agent.Runs.Terminal.{
  completes, from_running, freeze, terminal_replay, terminal_new, terminal_found, terminalize,
}
use adk_coding_agent.Runs.Replay.{envelopes_of, page_of, page_found, replay_page}
use adk_coding_agent.Runs.Life.{
  ◌⟶*◌, here, after, creates, updates, appends, ends, Reach, Reach-after, Reach-IsRegistry,
  run_advances, stream_grows,
}
use adk_coding_agent.Runs.Append.{envelopes}
use adk_coding_agent.Runs.Advance.{RunLater}
use adk_coding_agent.Runs.Rows.{rows_of}
use adk_coding_agent.Runs.Moves.{IsRegistry}
use adk_coding_agent.Runs.Retry.{repeated}
use adk_coding_agent.Runs.Repeats.{create_run-again, append_events-again}
use adk_coding_agent.Runs.Endings.{terminalize-again}
use adk_coding_agent.Runs.Paging.{promised_page, replay_page-promised}
use adk_coding_agent.Runs.Broker.{received}
use adk_coding_agent.Runs.Attach.{Stored, catch_up, caught_up, ended, attach}
use adk_coding_agent.Runs.Follow.{catch_up-whole, attach_without_gap}

abbrev text_events : EventType String
text_events = record { beq = ◌==◌; beq_iff = eq_iff; run_id = λ e. none }

abbrev the_digests : Digests
the_digests = record { run_id = λ user key. key; input_sha256 = λ input. "digest" }

abbrev a_creation : Creation
a_creation = record {
  request_id = "q1";
  idempotency_key = "r1";
  thread_id = "t1";
  user_id = "u1";
  input = codes "fix it";
  metadata = ("coding.workspace_identity", "w1") ∷ [];
  session_id = none;
  invocation_id = some "";
}

abbrev a_run : RunRecord
a_run = record {
  run_id = "r1";
  request_id = "q1";
  idempotency_key = "r1";
  thread_id = "t1";
  user_id = "u1";
  session_id = "t1";
  invocation_id = "r1";
  input = codes "fix it";
  input_sha256 = "digest";
  metadata = ("coding.workspace_identity", "w1") ∷ [];
  status = queued;
  error = none;
  created_at = 5;
  updated_at = 5;
}

abbrev an_envelope : ℕ → String → ServerEnvelope String
an_envelope sequence event = record {
  sequence = sequence;
  run_id = "r1";
  session_id = "t1";
  invocation_id = "r1";
  durable = true;
  event = event;
}

abbrev a_row : ℕ → String → String → ℕ → EventRow String
a_row sequence key event now = record {
  run_id = "r1";
  sequence = sequence;
  source_key = some key;
  envelope = an_envelope sequence event;
  created_at = now;
}

abbrev nothing_yet : Store String
nothing_yet = record { runs = []; events = []; run_sink = []; event_sink = [] }

abbrev created_store : Store String
created_store = record { runs = a_run ∷ []; events = []; run_sink = a_run ∷ []; event_sink = [] }

abbrev started_run : RunRecord
started_run = set_status running none 6 a_run

abbrev started_store : Store String
started_store = record created_store {
  runs = started_run ∷ [];
  run_sink = a_run ∷ started_run ∷ [];
}

abbrev written_store : Store String
written_store = record started_store {
  events = a_row 1 "k1" "one" 7 ∷ a_row 2 "k2" "two" 7 ∷ [];
  event_sink = an_envelope 1 "one" ∷ an_envelope 2 "two" ∷ [];
}

abbrev ended_run : RunRecord
ended_run = set_status completed none 8 started_run

abbrev ended_store : Store String
ended_store = record {
  runs = ended_run ∷ [];
  events = a_row 1 "k1" "one" 7 ∷ a_row 2 "k2" "two" 7 ∷ a_row 3 "k3" "end" 8 ∷ [];
  run_sink = a_run ∷ started_run ∷ ended_run ∷ [];
  event_sink = an_envelope 1 "one" ∷ an_envelope 2 "two" ∷ an_envelope 3 "end" ∷ [];
}

created_ok : create_run the_digests nothing_yet a_creation 5 ≡ ok (a_run, true, created_store)
unfolding create_run candidate_of create_found insert_run is_valid_run is_bound_elsewhere sort
created_ok = refl

started_ok :
    update_status created_store "r1" running none (some queued) 6 ≡ ok (started_run, started_store)
unfolding update_status get_run update_found advance update_where
started_ok = refl

abbrev two_outcomes : List (EventAppendResult String)
two_outcomes =
    record { envelope = an_envelope 1 "one"; created = true }
    ∷ record { envelope = an_envelope 2 "two"; created = true }
    ∷ []

abbrev two_keys : Option (List (Option String))
two_keys = some (some "k1" ∷ some "k2" ∷ [])

written_ok :
    append_events_with_outcomes text_events started_store "r1"
      ("one" ∷ "two" ∷ [])
      true
      none
      none
      two_keys
      7
    ≡ ok (two_outcomes, written_store)
unfolding append_events_with_outcomes checked_append append_transaction append_loop append_one
    get_run
written_ok = refl

ended_ok :
    terminalize text_events written_store "r1" completes "end" "k3" from_running none 8
    ≡ ok (record { envelope = an_envelope 3 "end"; created = true }, ended_store)
unfolding terminalize get_run terminal_found terminal_new terminal_replay freeze update_where
ended_ok = refl

-- A second run of the session is refused while one is active, and a second append under a used key with
-- another event.
second_run :
    create_run the_digests started_store (record a_creation { idempotency_key = "r2" }) 9
    ≡ err value_error
unfolding create_run candidate_of create_found insert_run is_valid_run is_bound_elsewhere sort
second_run = refl

reused_key :
    append_events_with_outcomes text_events written_store "r1"
      ("new" ∷ "one" ∷ [])
      true
      none
      none
      (some (none ∷ some "k2" ∷ []))
      9
    ≡ err value_error
unfolding append_events_with_outcomes checked_append append_transaction append_loop append_one
    get_run
reused_key = refl

first_page :
    replay_page ended_store "r1" (pos 1) (pos 1) none
    ≡ ok (record { events = an_envelope 2 "two" ∷ []; high_water_sequence = 3; has_more = true })
unfolding replay_page get_run page_found page_of sort insert
first_page = refl

abbrev to_created : ◌⟶*◌ text_events the_digests nothing_yet created_store
to_created =
    after nothing_yet created_store created_store
      (creates nothing_yet created_store a_creation 5 a_run true created_ok) (here created_store)

abbrev from_started : ◌⟶*◌ text_events the_digests started_store written_store
from_started =
    after started_store written_store written_store
      (appends started_store written_store "r1" ("one" ∷ "two" ∷ []) true none none two_keys 7
        two_outcomes written_ok)
      (here written_store)

abbrev from_written : ◌⟶*◌ text_events the_digests written_store ended_store
from_written =
    after written_store ended_store ended_store
      (ends written_store ended_store "r1" completes "end" "k3" from_running none 8
        (record { envelope = an_envelope 3 "end"; created = true }) ended_ok)
      (here ended_store)

abbrev from_created : ◌⟶*◌ text_events the_digests created_store written_store
from_created =
    after created_store started_store written_store
      (updates created_store started_store "r1" running none (some queued) 6 started_run started_ok)
      from_started

reach_created : Reach text_events the_digests created_store
reach_created = to_created

reach_started : Reach text_events the_digests started_store
reach_started =
    after nothing_yet created_store started_store
      (creates nothing_yet created_store a_creation 5 a_run true created_ok)
      (after created_store started_store started_store
        (updates created_store started_store "r1" running none (some queued) 6 started_run
          started_ok)
        (here started_store))

reach_written : Reach text_events the_digests written_store
reach_written =
    after nothing_yet created_store written_store
      (creates nothing_yet created_store a_creation 5 a_run true created_ok) from_created

reach_ended : Reach text_events the_digests ended_store
reach_ended =
    Reach-after text_events the_digests written_store ended_store reach_written from_written

Reach-IsRegistry_example : IsRegistry ended_store
Reach-IsRegistry_example = Reach-IsRegistry text_events the_digests ended_store reach_ended

run_advances_example :
    (later : RunRecord) × (get_run written_store "r1" ≡ some later) × RunLater a_run later
unfolding get_run
run_advances_example =
    run_advances text_events the_digests created_store written_store "r1" a_run reach_created
      from_created refl

stream_grows_example :
    (more : List (EventRow String)) × (rows_of "r1" ended_store.events
      ≡ rows_of "r1" written_store.events ++ more)
stream_grows_example =
    stream_grows text_events the_digests written_store ended_store "r1" reach_written from_written

append_events-again_example :
    append_events_with_outcomes text_events ended_store "r1"
      ("one" ∷ "two" ∷ [])
      true
      none
      none
      two_keys
      9
    ≡ ok (
      map repeated two_outcomes,
      record ended_store { event_sink = ended_store.event_sink ++ envelopes two_outcomes },
    )
append_events-again_example =
    append_events-again text_events the_digests started_store written_store ended_store "r1"
      ("one" ∷ "two" ∷ []) true none none two_keys 7 9 two_outcomes reach_started tt written_ok
      from_written

create_run-again_example :
    (known : RunRecord) × (get_run written_store "r1" ≡ some known)
    × RunLater a_run known
    × (create_run the_digests written_store a_creation 9 ≡ ok (known, false, written_store))
create_run-again_example =
    create_run-again text_events the_digests nothing_yet created_store written_store a_creation 5 9
      a_run true (here nothing_yet) created_ok from_created

terminalize-again_example :
    terminalize text_events ended_store "r1" completes "end" "k3" from_running none 9
    ≡ ok (
      record { envelope = an_envelope 3 "end"; created = false },
      record ended_store { event_sink = ended_store.event_sink ++ an_envelope 3 "end" ∷ [] },
    )
terminalize-again_example =
    terminalize-again text_events the_digests written_store ended_store ended_store "r1" completes
      "end" "k3" from_running none 8 9 (record { envelope = an_envelope 3 "end"; created = true })
      reach_written ended_ok (here ended_store)

replay_page-promised_example :
    replay_page ended_store "r1" (pos 1) (pos 1) none
    ≡ ok (promised_page ended_store.events "r1" 1 1 3)
unfolding get_run
replay_page-promised_example =
    replay_page-promised ended_store "r1" ended_run 1 (pos 1) none
      (Reach-IsRegistry text_events the_digests ended_store reach_ended) refl refl

catch_up-whole_example :
    catch_up (written_store ∷ ended_store ∷ []) "r1" (pos 1) none
    ≡ (an_envelope 2 "two" ∷ [], caught_up (pos 2))
unfolding get_run
catch_up-whole_example =
    catch_up-whole text_events the_digests written_store (ended_store ∷ []) "r1" started_run 1
      reach_written refl (from_written, tt) (omega arith)

abbrev a_client : Stored String
a_client = record {
  at_pages = written_store ∷ [];
  at_status = written_store;
  at_tail = ended_store;
}

attach_without_gap_example :
    attach
      (λ e. e == "end")
      written_store
      a_client
      "r1"
      "u1"
      (pos 1)
      (map received (an_envelope 2 "two" ∷ an_envelope 3 "end" ∷ []))
    ≡ (an_envelope 2 "two" ∷ an_envelope 3 "end" ∷ [], ended)
unfolding get_run
attach_without_gap_example =
    attach_without_gap text_events the_digests (λ e. e == "end") written_store ended_store a_client
      [] "r1" "u1" started_run started_run 1 1 reach_written refl tt (here written_store)
      from_written refl refl refl refl (omega arith) (omega arith) (omega arith)
