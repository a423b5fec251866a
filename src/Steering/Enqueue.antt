-- ===== src/Steering/Enqueue.antt =====
-- What `enqueue` of harness/state/steering.py does, by its cases.
use mathlib.Core.List.{map-append}
use adk_coding_agent.Prelude.{
  ℕ, String, ◌≡◌, refl, true, false, Option, none, some, List, [], ◌∷◌, ◌++◌, map, arith,
  Bool-cases, Option-cases, All-append, find, inl, inr,
}
use adk_coding_agent.Prelude.Int.{ℤ}
use adk_coding_agent.Prelude.Keyed.{string_eq, DistinctKeys-snoc}
use adk_coding_agent.Prelude.Result.{ok, >>=-eq-ok}
use adk_coding_agent.Prelude.Text.{Text}
use adk_coding_agent.Prelude.Unique.{Slot, slot, slot_eq, Unique-snoc, clashes}
use adk_coding_agent.Steering.Message.{
  Message, queued, new_message, validate_content, priority_in_range,
}
use adk_coding_agent.Steering.Queue.{
  Row, Queue, row_id, row_slot, enqueue, insert_message, existing_message, conflicts, notify,
}
use adk_coding_agent.Steering.Invariant.{IsValid, RowIsValid}

-- What the constructor of a message that returned has checked and kept.
pub record Accepted (message_id task_id : String) (content : Text) (priority : ℤ) (m : Message)
    : Type 0 where
  pub id : m.message_id ≡ message_id
  pub task : m.task_id ≡ task_id
  pub text : validate_content content ≡ ok m.content
  pub kept_priority : m.priority ≡ priority
  pub in_range : priority_in_range priority ≡ true
  pub fresh : m.status ≡ queued
  pub no_owner : m.lease_owner ≡ none
  pub no_until : m.lease_until ≡ none

new_message-Accepted :
    (message_id task_id : String) (content : Text) (priority : ℤ) (now : ℕ) (m : Message)
    → new_message message_id task_id content priority now ≡ ok m
    → Accepted message_id task_id content priority m
unfolding new_message
new_message-Accepted message_id task_id content priority now m h = ground arith

abbrev pub matching : String → Option String → List Row → Option Row
matching task_id key = find (λ r. slot_eq (slot task_id key) (row_slot r))

abbrev pub row_of : Message → Option String → Row
row_of m key = record { message = m; idempotency_key = key }

-- The two ways in which the insertion of `v` returns.
pub data Inserted (q : Queue) (v : Message) (key : Option String) (m : Message) (q' : Queue)
    : Type 0 where
  retried :
      conflicts v.message_id (slot v.task_id key) q.rows ≡ true
      → existing_message (matching v.task_id key q.rows) v.content v.priority ≡ ok m
      → q' ≡ q
      → Inserted q v key m q'
  stored :
      conflicts v.message_id (slot v.task_id key) q.rows ≡ false
      → m ≡ v
      → q' ≡ notify (v ∷ []) (record q { rows = q.rows ++ row_of v key ∷ [] })
      → Inserted q v key m q'

pub insert_message-cases :
    (q : Queue) (v : Message) (key : Option String) (m : Message) (q' : Queue)
    → insert_message q v key ≡ ok (m, q')
    → Inserted q v key m q'
unfolding insert_message
insert_message-cases q v key m q' h =
    elim (Bool-cases (conflicts v.message_id (slot v.task_id key) q.rows)) [
      | inl c ↦ retried c (ground arith) (ground arith)
      | inr c ↦ stored c (ground arith) (ground arith)
    ]

pub enqueue-cases :
    (q : Queue) (now : ℕ) (message_id task_id : String) (content : Text) (priority : ℤ)
    (key : Option String) (m : Message) (q' : Queue)
    → enqueue q now message_id task_id content priority key ≡ ok (m, q')
    → (v : Message) × Accepted message_id task_id content priority v × Inserted q v key m q'
unfolding enqueue
enqueue-cases q now message_id task_id content priority key m q' h =
    let (v, made, rest) = >>=-eq-ok (new_message "pending" task_id content priority now) _ h in
    let a = new_message-Accepted "pending" task_id content priority now v made in
    (
      record v { message_id = message_id },
      record {
        id = refl;
        task = a.task;
        text = a.text;
        kept_priority = a.kept_priority;
        in_range = a.in_range;
        fresh = a.fresh;
        no_owner = a.no_owner;
        no_until = a.no_until;
      },
      insert_message-cases q _ key m q' rest,
    )

-- A key that has a row clashes with the table.
matching-clashes :
    (s : Slot) (rows : List Row) (r : Row)
    → find (λ x. slot_eq s (row_slot x)) rows ≡ some r
    → clashes s (map row_slot rows) ≡ true
matching-clashes s [] r h = ground arith
matching-clashes s (x ∷ rows) r h = ground (arith, matching-clashes s rows r)

pub matching-snoc :
    (s : Slot) (rows : List Row) (r : Row)
    → clashes s (map row_slot rows) ≡ false
    → slot_eq s (row_slot r) ≡ true
    → find (λ x. slot_eq s (row_slot x)) (rows ++ r ∷ []) ≡ some r
matching-snoc s [] r h e = rw e
matching-snoc s (x ∷ rows) r h e = ground (arith, matching-snoc s rows r)

pub insert_message_known :
    (q : Queue) (v : Message) (key : Option String) (m : Message)
    → existing_message (matching v.task_id key q.rows) v.content v.priority ≡ ok m
    → insert_message q v key ≡ ok (m, q)
unfolding insert_message
insert_message_known q v key m h = elim (Option-cases (matching v.task_id key q.rows)) [
  | inl e ↦ ground arith
  | inr (r, e) ↦ ground (arith, matching-clashes (slot v.task_id key) q.rows r e)
]

pub new_message_later :
    (message_id task_id : String) (content : Text) (priority : ℤ) (now later : ℕ) (v : Message)
    → new_message message_id task_id content priority now ≡ ok v
    → new_message message_id task_id content priority later ≡ ok (record v { created_at = later })
unfolding new_message
new_message_later message_id task_id content priority now later v h = ground arith

pub enqueue-IsValid :
    (q : Queue) (now : ℕ) (message_id task_id : String) (content : Text) (priority : ℤ)
    (key : Option String) (m : Message) (q' : Queue)
    → enqueue q now message_id task_id content priority key ≡ ok (m, q')
    → IsValid q.rows
    → IsValid q'.rows
enqueue-IsValid q now message_id task_id content priority key m q' h valid =
    let (v, a, i) = enqueue-cases q now message_id task_id content priority key m q' h in go v a i
  where
    go :
        (v : Message)
        → Accepted message_id task_id content priority v
        → Inserted q v key m q'
        → IsValid q'.rows
    go v a (retried c e eq) = rw eq valid
    go v a (stored c em eq) =
        rw (eq, notify)
          (record {
            ids =
                rw (map-append row_id q.rows (row_of v key ∷ []))
                  (DistinctKeys-snoc v.message_id (map row_id q.rows) valid.ids (ground arith));
            slots =
                rw (map-append row_slot q.rows (row_of v key ∷ [])) (
                  Unique-snoc (slot v.task_id key) (map row_slot q.rows) valid.slots
                    (ground arith));
            each = All-append RowIsValid q.rows (row_of v key ∷ []) valid.each (
              record {
                fields = rw (a.fresh, a.no_owner, a.no_until) tt;
                priority = rw a.kept_priority a.in_range;
              },
              tt,
            );
          })
