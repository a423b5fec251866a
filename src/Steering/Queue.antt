-- ===== src/Steering/Queue.antt =====
-- `SteeringQueue` of harness/state/steering.py.
-- A timestamp is a number of microseconds: the source compares the ISO texts of UTC times, which
-- order alike. `now` and the fresh `uuid4` are arguments. `changes` is the log of the calls of
-- `on_change`. A call is one transaction of SQLite, so a call that raises changes nothing.
use Prim.Native.String.{compare}
use Prim.Native.Nat.{Ordering}
use adk_coding_agent.Prelude.{
  ℕ, suc, ◌+◌, ◌-◌, ◌*◌, String, Bool, true, false, not, ◌&&◌, ◌||◌, Option, none, some, List, [],
  ◌∷◌, ◌++◌, map, ltb, leb, eqb, ◌==◌, if◌then◌else◌, option_eq, length, take, filter, any, find,
  min, max,
}
use adk_coding_agent.Prelude.Int.{ℤ, pos, negsuc, pos_part, int_le, int_eq}
use adk_coding_agent.Prelude.Limit.{limited}
use adk_coding_agent.Prelude.Keyed.{string_eq, mem_key, find_by}
use adk_coding_agent.Prelude.Result.{Result, ok, err, value_error, assertion_error, ◌>>=◌}
use adk_coding_agent.Prelude.Sort.{sort}
use adk_coding_agent.Prelude.Table.{update_where}
use adk_coding_agent.Prelude.Text.{Text, text_eq}
use adk_coding_agent.Prelude.Unique.{Slot, slot, slot_eq, clashes}
use adk_coding_agent.Steering.Message.{
  Message, Status, queued, leased, acked, status_eq, new_message,
}

-- A row of `steering_messages`. `_from_row` drops the idempotency key.
pub record Row : Type 0 where
  pub message : Message
  pub open message use *
  pub idempotency_key : Option String

pub record Queue : Type 0 where
  pub rows : List Row
  pub changes : List Message

abbrev pub row_id : Row → String
row_id r = r.message_id

-- `UNIQUE(task_id, idempotency_key)`
abbrev pub row_slot : Row → Slot
row_slot r = slot r.task_id r.idempotency_key

abbrev pub message_of : Row → Message
message_of r = r.message

-- `SELECT * FROM steering_messages WHERE message_id=?`
abbrev pub find_row : String → List Row → Option Row
find_row = find_by row_id

-- `on_change` for each message, in order.
abbrev pub notify : List Message → Queue → Queue
notify messages q = record q { changes = q.changes ++ messages }

-- The handler of `IntegrityError`.
unfoldable pub existing_message : Option Row → Text → ℤ → Result Message
existing_message none content priority = err assertion_error
existing_message (some r) content priority =
    if not (text_eq r.content content) || not (int_eq r.priority priority)
    then err value_error
    else ok r.message

abbrev pub conflicts : String → Slot → List Row → Bool
conflicts message_id s rows = mem_key message_id (map row_id rows) || clashes s (map row_slot rows)

-- The `INSERT`, and the handler of its `IntegrityError`.
unfoldable pub insert_message : Queue → Message → Option String → Result (Message × Queue)
unfolding existing_message
insert_message q message key =
    let s = slot message.task_id key in
    let existing = find (λ r. slot_eq s (row_slot r)) q.rows in
    let row : Row = record { message = message; idempotency_key = key } in
    if conflicts message.message_id s q.rows
    then existing_message existing message.content message.priority >>= (λ m. ok (m, q))
    else ok (message, notify (message ∷ []) (record q { rows = q.rows ++ row ∷ [] }))

unfoldable pub enqueue :
    Queue → ℕ → String → String → Text → ℤ → Option String → Result (Message × Queue)
unfolding insert_message
enqueue q now message_id task_id content priority key = do
  validated ← new_message "pending" task_id content priority now
  insert_message q (record validated { message_id = message_id }) key

-- `lease_until < now`; NULL compares with nothing.
abbrev pub until_before : Option ℕ → ℕ → Bool
until_before none now = false
until_before (some t) now = ltb t now

abbrev pub is_expired : ℕ → Row → Bool
is_expired now r = status_eq r.status leased && until_before r.lease_until now

abbrev pub set_queued : Row → Row
set_queued r = record r {
  message = record r.message { status = queued; lease_owner = none; lease_until = none };
}

abbrev pub set_leased_message : String → ℕ → Message → Message
set_leased_message owner until m = record m {
  status = leased;
  lease_owner = some owner;
  lease_until = some until;
}

abbrev pub set_leased : String → ℕ → Row → Row
set_leased owner until r = record r { message = set_leased_message owner until r.message }

abbrev pub set_acked : Row → Row
set_acked r = record r {
  message = record r.message { status = acked; lease_owner = none; lease_until = none };
}

abbrev pub requeue_expired : ℕ → String → List Row → List Row
requeue_expired now task_id =
    update_where (λ r. r.task_id == task_id && is_expired now r) set_queued

-- `ORDER BY priority DESC, created_at ASC`
unfoldable pub delivery_le : Row → Row → Bool
delivery_le a b =
    if int_eq a.priority b.priority
    then leb a.created_at b.created_at
    else int_le b.priority a.priority

abbrev pub is_candidate : String → Row → Bool
is_candidate task_id r = r.task_id == task_id && status_eq r.status queued

unfoldable pub selected : String → ℤ → List Row → List Row
selected task_id limit rows = limited limit (sort delivery_le (filter (is_candidate task_id) rows))

-- The second `UPDATE`. The source leaves it out where no row was selected; then it has no effect.
unfoldable pub lease_rows : ℕ → String → String → ℤ → ℕ → List Row → List Row
lease_rows now task_id owner limit until rows =
    let queued_rows = requeue_expired now task_id rows in
    let ids = map row_id (selected task_id limit queued_rows) in
    update_where (λ r. mem_key r.message_id ids) (set_leased owner until) queued_rows

unfoldable pub leased_messages : ℕ → String → String → ℤ → ℕ → List Row → List Message
leased_messages now task_id owner limit until rows =
    map (λ r. set_leased_message owner until r.message)
      (selected task_id limit (requeue_expired now task_id rows))

-- `now + timedelta(seconds=lease_seconds)`; a time before the first one is the first one here.
abbrev pub lease_end : ℕ → ℤ → ℕ
lease_end now (pos n) = now + n * 1_000_000
lease_end now (negsuc n) = now - suc n * 1_000_000

unfoldable pub lease : Queue → ℕ → String → String → ℤ → ℤ → List Message × Queue
unfolding lease_rows leased_messages selected
lease q now task_id owner limit lease_seconds =
    let until = lease_end now lease_seconds in
    let messages = leased_messages now task_id owner limit until q.rows in
    (
      messages,
      notify messages (record q { rows = lease_rows now task_id owner limit until q.rows }),
    )

-- `a <= b` of texts: the byte order of UTF-8 is that of code points.
abbrev pub string_le : String → String → Bool
string_le a b = elim (compare a b) [ Ordering.gt ↦ false | _ ↦ true ]

-- `ORDER BY created_at ASC, message_id ASC`
unfoldable pub created_le : Row → Row → Bool
created_le a b =
    if eqb a.created_at b.created_at
    then string_le a.message_id b.message_id
    else leb a.created_at b.created_at

-- `ORDER BY priority DESC, created_at ASC, message_id ASC`
unfoldable pub leased_le : Row → Row → Bool
unfolding created_le
leased_le a b =
    if int_eq a.priority b.priority then created_le a b else int_le b.priority a.priority

abbrev pub owned_by : String → Row → Bool
owned_by owner r = status_eq r.status leased && option_eq r.lease_owner (some owner)

-- `lease_until >= now`
abbrev pub until_from : Option ℕ → ℕ → Bool
until_from none now = false
until_from (some t) now = leb now t

unfoldable pub leased_by : Queue → ℕ → String → String → List Message
unfolding leased_le
leased_by q now task_id owner = map message_of (
    sort leased_le (
      filter (λ r. r.task_id == task_id && owned_by owner r && until_from r.lease_until now)
        q.rows))

-- The `WHERE` of `has_pending`.
abbrev pub is_pending : ℕ → String → Row → Bool
is_pending now task_id r = r.task_id == task_id && (status_eq r.status queued || is_expired now r)

unfoldable pub has_pending : Queue → ℕ → String → Bool
has_pending q now task_id = any (is_pending now task_id) q.rows

unfoldable pub list_messages : Queue → String → List Status → ℤ → List Message
unfolding created_le
list_messages q task_id [] limit = []
list_messages q task_id (s ∷ statuses) limit = map message_of (
    take (max 1 (min (pos_part limit) 1000)) (
      sort created_le (
        filter (λ r. r.task_id == task_id && any (λ t. status_eq r.status t) (s ∷ statuses))
          q.rows)))

-- `WHERE message_id IN (...) AND status='leased' AND lease_owner=?`
abbrev pub is_held : List String → String → Row → Bool
is_held ids owner r = mem_key r.message_id ids && owned_by owner r

-- An `UPDATE` of the owner's leases among `ids`: the row count, and every row of `ids` notified.
unfoldable pub finish_lease : (Row → Row) → List String → String → Queue → ℕ × Queue
finish_lease f [] owner q = (0, q)
finish_lease f (i ∷ ids) owner q =
    let rows = update_where (is_held (i ∷ ids) owner) f q.rows in
    (
      length (filter (is_held (i ∷ ids) owner) q.rows),
      notify (map message_of (filter (λ r. mem_key r.message_id (i ∷ ids)) rows))
          (record q { rows = rows }),
    )

unfoldable pub ack : Queue → List String → String → ℕ × Queue
unfolding finish_lease
ack q ids owner = finish_lease set_acked ids owner q

unfoldable pub release : Queue → List String → String → ℕ × Queue
unfolding finish_lease
release q ids owner = finish_lease set_queued ids owner q
