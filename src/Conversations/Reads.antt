-- ===== src/Conversations/Reads.antt =====
-- What `ConversationStore` of harness/server/sessions.py reads of the runs. SQLite orders texts by their
-- code points.
use adk_coding_agent.Prelude.{
  String, Bool, not, ◌&&◌, ◌||◌, Option, none, some, List, [], ◌∷◌, ltb, eqb, ◌==◌, if◌then◌else◌,
  take, filter, find,
}
use adk_coding_agent.Prelude.Result.{Result, ok, err, key_error}
use adk_coding_agent.Prelude.Sort.{sort}
use adk_coding_agent.Prelude.Text.{codes}
use adk_coding_agent.Runs.Models.{RunRecord}
use adk_coding_agent.Verification.Scope.{text_le}

abbrev pub in_thread : String → String → RunRecord → Bool
in_thread user_id thread_id r = r.user_id == user_id && r.thread_id == thread_id

-- `(a.created_at, a.run_id) <= (b.created_at, b.run_id)`
abbrev pub not_after : RunRecord → RunRecord → Bool
not_after a b =
    ltb a.created_at b.created_at
    || (eqb a.created_at b.created_at && text_le (codes a.run_id) (codes b.run_id))

-- `ORDER BY created_at DESC, run_id DESC`
abbrev pub newest_first : RunRecord → RunRecord → Bool
newest_first a b = not_after b a

abbrev pub first_run : List RunRecord → Option RunRecord
first_run [] = none
first_run (r ∷ rows) = some r

abbrev pub run_or_error : Option RunRecord → Result RunRecord
run_or_error none = err key_error
run_or_error (some r) = ok r

unfoldable pub latest : List RunRecord → String → String → Result RunRecord
latest runs user_id thread_id =
    run_or_error (first_run (sort newest_first (filter (in_thread user_id thread_id) runs)))

-- `get_run`
abbrev pub run_of : String → List RunRecord → Option RunRecord
run_of run_id = find (λ (r : RunRecord). r.run_id == run_id)

-- The runs of a conversation that are older than a cursor.
abbrev pub older : String → String → RunRecord → RunRecord → Bool
older user_id thread_id cursor r = in_thread user_id thread_id r && not (not_after cursor r)

abbrev pub history_before :
    Option RunRecord → List RunRecord → String → String → Result (List RunRecord)
history_before none runs user_id thread_id = err key_error
history_before (some cursor) runs user_id thread_id =
    if in_thread user_id thread_id cursor
    then ok (take 20 (sort newest_first (filter (older user_id thread_id cursor) runs)))
    else err key_error

unfoldable pub history : List RunRecord → String → String → Option String → Result (List RunRecord)
history runs user_id thread_id none =
    ok (take 20 (sort newest_first (filter (in_thread user_id thread_id) runs)))
history runs user_id thread_id (some before) =
    history_before (run_of before runs) runs user_id thread_id

abbrev pub newer : String → String → RunRecord → RunRecord → Bool
newer user_id thread_id cursor r = in_thread user_id thread_id r && not (not_after r cursor)

abbrev pub successor_of :
    Option RunRecord → List RunRecord → String → String → Result (Option RunRecord)
successor_of none runs user_id thread_id = err key_error
successor_of (some cursor) runs user_id thread_id =
    if in_thread user_id thread_id cursor
    then ok (first_run (sort not_after (filter (newer user_id thread_id cursor) runs)))
    else err key_error

unfoldable pub successor : List RunRecord → String → String → String → Result (Option RunRecord)
successor runs user_id thread_id run_id = successor_of (run_of run_id runs) runs user_id thread_id

unfoldable pub run_for_key : List RunRecord → String → String → Option RunRecord
run_for_key runs user_id key =
    find (λ (r : RunRecord). r.user_id == user_id && r.idempotency_key == key) runs
