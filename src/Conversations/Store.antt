-- ===== src/Conversations/Store.antt =====
-- `ConversationStore` of harness/server/sessions.py. The state has the rows of its two tables in the order
-- of insertion; the rows of the runs, which another store writes, are an argument. The digest of a
-- follow-up's id is an argument. The text order of two ids is that of their code points, and a time is
-- a number, as in the runs.
use adk_coding_agent.Prelude.{
  ℕ, suc, max, String, Bool, true, false, not, ◌&&◌, Option, none, some, List, [], ◌∷◌, ◌++◌, leb,
  ◌==◌, if◌then◌else◌, length, take, filter, find, any,
}
use adk_coding_agent.Prelude.Keyed.{string_eq, find_by}
use adk_coding_agent.Prelude.Result.{Result, ok, err, value_error, key_error, integrity_error}
use adk_coding_agent.Prelude.Sort.{sort}
use adk_coding_agent.Prelude.Table.{update_where}
use adk_coding_agent.Prelude.Text.{Text, text_eq}
use adk_coding_agent.Runs.Models.{RunRecord}

pub data FollowUpStatus : Type 0 where
  pending dispatched cancelled : FollowUpStatus

pub record FollowUp : Type 0 where
  pub position : ℕ
  pub item_id : String
  pub user_id : String
  pub thread_id : String
  pub parent_run_id : String
  pub content : Text
  pub status : FollowUpStatus
  pub run_id : Option String

pub record Continuation : Type 0 where
  pub user_id : String
  pub request_id : String
  pub thread_id : String
  pub item_id : Option String

pub record Conversations : Type 0 where
  pub followups : List FollowUp
  pub continuations : List Continuation

abbrev pub is_pending : FollowUpStatus → Bool
is_pending pending = true
is_pending _ = false

abbrev pub is_dispatched : FollowUpStatus → Bool
is_dispatched dispatched = true
is_dispatched _ = false

abbrev pub followup_id : FollowUp → String
followup_id r = r.item_id

-- `user_id=? AND thread_id=?`
abbrev pub of_thread : String → String → FollowUp → Bool
of_thread user_id thread_id r = r.user_id == user_id && r.thread_id == thread_id

abbrev pub is_queued : String → String → FollowUp → Bool
is_queued user_id thread_id r = of_thread user_id thread_id r && is_pending r.status

-- The number that `AUTOINCREMENT` gives a row; none is ever deleted.
abbrev pub last_position : List FollowUp → ℕ
last_position [] = 0
last_position (r ∷ rows) = max r.position (last_position rows)

-- `REFERENCES agent_runs(run_id)`
abbrev pub is_run : String → List RunRecord → Bool
is_run run_id = any (λ (r : RunRecord). r.run_id == run_id)

abbrev pub same_followup : RunRecord → Text → FollowUp → Bool
same_followup parent content prior =
    prior.thread_id == parent.thread_id && text_eq prior.content content

abbrev pub new_followup : List FollowUp → String → RunRecord → Text → FollowUp
new_followup rows item_id parent content = record {
  position = suc (last_position rows);
  item_id = item_id;
  user_id = parent.user_id;
  thread_id = parent.thread_id;
  parent_run_id = parent.run_id;
  content = content;
  status = pending;
  run_id = none;
}

-- `SELECT COUNT(*) ... status='pending'`
abbrev pub queue_size : String → String → List FollowUp → ℕ
queue_size user_id thread_id rows = length (filter (is_queued user_id thread_id) rows)

-- The transaction of `enqueue`, on the row that has the id already.
unfoldable pub enqueue_found :
    Option FollowUp
    → List RunRecord
    → Conversations
    → String
    → RunRecord
    → Text
    → Result String × Conversations
enqueue_found (some prior) runs s item_id parent content =
    if same_followup parent content prior then (ok item_id, s) else (err value_error, s)
enqueue_found none runs s item_id parent content =
    if leb 20 (queue_size parent.user_id parent.thread_id s.followups)
    then (err value_error, s)
    else if is_run parent.run_id runs
    then (
      ok item_id,
      record s { followups = s.followups ++ new_followup s.followups item_id parent content ∷ [] },
    )
    else (err integrity_error, s)

-- `enqueue`; the digest is that of the user and the request.
unfoldable pub enqueue :
    (String → String → String)
    → List RunRecord
    → Conversations
    → RunRecord
    → String
    → Text
    → Result String × Conversations
unfolding enqueue_found
enqueue digest runs s parent request_id content =
    let item_id = digest parent.user_id request_id in
    enqueue_found (find_by followup_id item_id s.followups) runs s item_id parent content

abbrev pub by_position : FollowUp → FollowUp → Bool
by_position a b = leb a.position b.position

-- `pending`, without the names of the columns.
unfoldable pub pending_items : Conversations → String → String → List FollowUp
pending_items s user_id thread_id =
    take 20 (sort by_position (filter (is_queued user_id thread_id) s.followups))

abbrev pub has_id : String → FollowUp → Bool
has_id item_id r = r.item_id == item_id

abbrev pub set_cancelled : FollowUp → FollowUp
set_cancelled r = record r { status = cancelled }

unfoldable pub remove_found :
    Option FollowUp → Conversations → String → Result (Unit {0}) × Conversations
remove_found none s item_id = (err key_error, s)
remove_found (some r) s item_id =
    if is_dispatched r.status
    then (err value_error, s)
    else (ok tt, record s { followups = update_where (has_id item_id) set_cancelled s.followups })

unfoldable pub remove : Conversations → String → String → String → Result (Unit {0}) × Conversations
unfolding remove_found
remove s user_id thread_id item_id =
    remove_found (find (λ r. has_id item_id r && of_thread user_id thread_id r) s.followups) s
      item_id

abbrev pub has_request : String → String → Continuation → Bool
has_request user_id request_id c = c.user_id == user_id && c.request_id == request_id

abbrev pub first_item : List FollowUp → Option String
first_item [] = none
first_item (r ∷ rows) = some r.item_id

-- The first pending item of a conversation.
unfoldable pub first_pending : Conversations → String → String → Option String
first_pending s user_id thread_id =
    first_item (sort by_position (filter (is_queued user_id thread_id) s.followups))

unfoldable pub continuation_found :
    Option Continuation
    → Conversations
    → String
    → String
    → String
    → Result (Option String) × Conversations
unfolding first_pending
continuation_found (some prior) s user_id thread_id request_id =
    if prior.thread_id == thread_id then (ok prior.item_id, s) else (err value_error, s)
continuation_found none s user_id thread_id request_id =
    let target = first_pending s user_id thread_id in
    let row : Continuation = record {
      user_id = user_id;
      request_id = request_id;
      thread_id = thread_id;
      item_id = target;
    } in
    (ok target, record s { continuations = s.continuations ++ row ∷ [] })

unfoldable pub continuation_target :
    Conversations → String → String → String → Result (Option String) × Conversations
unfolding continuation_found
continuation_target s user_id thread_id request_id =
    continuation_found (find (has_request user_id request_id) s.continuations) s user_id thread_id
      request_id

abbrev pub is_starting : String → FollowUp → Bool
is_starting item_id r = has_id item_id r && is_pending r.status

abbrev pub set_dispatched : String → FollowUp → FollowUp
set_dispatched run_id r = record r { status = dispatched; run_id = some run_id }

-- `dispatched`: the run that a row is given must be there.
unfoldable pub mark_dispatched :
    List RunRecord → Conversations → String → String → Result (Unit {0}) × Conversations
mark_dispatched runs s item_id run_id =
    if any (is_starting item_id) s.followups && not (is_run run_id runs)
    then (err integrity_error, s)
    else (
      ok tt,
      record s {
        followups = update_where (is_starting item_id) (set_dispatched run_id) s.followups;
      },
    )
