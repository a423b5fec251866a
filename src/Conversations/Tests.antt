-- ===== src/Conversations/Tests.antt =====
-- Runs of the conversations' store of harness/server/sessions.py.
use Prim.Native.String.{◌++◌}
use adk_coding_agent.Prelude.{◌≤◌, String, ◌≡◌, refl, none, some, List, [], ◌∷◌}
use adk_coding_agent.Prelude.Keyed.{string_eq}
use adk_coding_agent.Prelude.Result.{ok, err, value_error, key_error}
use adk_coding_agent.Prelude.Sort.{sort}
use adk_coding_agent.Prelude.Table.{update_where}
use adk_coding_agent.Prelude.Text.{codes, text_eq}
use adk_coding_agent.Runs.Models.{RunRecord, RunStatus}
use adk_coding_agent.Conversations.Store.{
  Conversations, queue_size, enqueue, remove, continuation_target, mark_dispatched, pending_items,
}
use adk_coding_agent.Conversations.Life.{
  empty, Later, now, after, enqueues, dispatches, Later-IsBounded,
}
use adk_coding_agent.Conversations.Retry.{enqueue-again}
use adk_coding_agent.Conversations.Continue.{continuation_target-again}

program : Unit {0}
unfolding enqueue remove continuation_target mark_dispatched pending_items update_where sort text_eq
program = tt

abbrev digest : String → String → String
digest user request = user ++ request

abbrev parent : RunRecord
parent = record {
  run_id = "r1";
  request_id = "q";
  idempotency_key = "k";
  thread_id = "t";
  user_id = "u";
  session_id = "t";
  invocation_id = "r1";
  input = codes "hi";
  input_sha256 = "d";
  metadata = [];
  status = RunStatus.running;
  error = none;
  created_at = 1;
  updated_at = 1;
}

abbrev runs : List RunRecord
runs = parent ∷ []

abbrev asked : Conversations
asked = (enqueue digest runs empty parent "a" (codes "more")).1

abbrev two : Conversations
two = (enqueue digest runs asked parent "b" (codes "again")).1

abbrev begun_first : Conversations
begun_first = (mark_dispatched runs two "ua" "r1").1

t_asked : (enqueue digest runs empty parent "a" (codes "more")).0 ≡ ok "ua"
unfolding program
t_asked = refl

t_reused : (enqueue digest runs asked parent "a" (codes "less")).0 ≡ err value_error
unfolding program
t_reused = refl

t_started : (remove begun_first "u" "t" "ua").0 ≡ err value_error
unfolding program
t_started = refl

t_missing : (remove begun_first "v" "t" "ub").0 ≡ err key_error
unfolding program
t_missing = refl

t_target : (continuation_target two "u" "t" "c").0 ≡ ok (some "ua")
unfolding program
t_target = refl

t_size : queue_size "u" "t" begun_first.followups ≡ 1
unfolding program
t_size = refl

two_calls : Later digest empty two
two_calls =
    after (after now (enqueues empty runs parent "a" (codes "more")))
      (enqueues asked runs parent "b" (codes "again"))

Later-IsBounded_example : queue_size "u" "t" two.followups ≤ 20
Later-IsBounded_example = Later-IsBounded two_calls "u" "t"

enqueue-again_example :
    enqueue digest runs begun_first parent "a" (codes "more") ≡ (ok "ua", begun_first)
enqueue-again_example =
    enqueue-again runs runs empty parent parent "a" (codes "more") "ua" t_asked
      (after (after now (enqueues asked runs parent "b" (codes "again")))
        (dispatches two runs "ua" "r1"))
      refl refl

abbrev targeted : Conversations
targeted = (continuation_target two "u" "t" "c").1

abbrev moved : Conversations
moved = (mark_dispatched runs targeted "ua" "r1").1

continuation_target-again_example : continuation_target moved "u" "t" "c" ≡ (ok (some "ua"), moved)
continuation_target-again_example =
    continuation_target-again {digest = digest} two "u" "t" "c" (some "ua") t_target
      (after now (dispatches targeted runs "ua" "r1"))
