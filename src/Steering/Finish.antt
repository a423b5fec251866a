-- ===== src/Steering/Finish.antt =====
-- What `ack` and `release` of harness/state/steering.py do to each row.
use adk_coding_agent.Prelude.{
  ℕ, String, ◌≡◌, refl, true, false, Option, none, some, List, [], ◌∷◌, map, arith, All, All-map,
  All-zip, eq_refl, length, filter,
}
use adk_coding_agent.Prelude.Int.{ℤ}
use adk_coding_agent.Prelude.Keyed.{
  string_eq, mem_key, find_by-update_where, mem_key-map_self, updated,
}
use adk_coding_agent.Prelude.Table.{update_where}
use adk_coding_agent.Steering.Message.{Message, leased, acked}
use adk_coding_agent.Steering.Queue.{
  Row, Queue, row_id, find_row, ack, release, is_held, set_acked, set_queued, lease, is_pending,
  lease_end,
}
use adk_coding_agent.Steering.Invariant.{IsValid}
use adk_coding_agent.Steering.Lease.{lease_holds}

none_held :
    (owner : String) (f : Row → Row) (o : Option Row) → updated row_id (is_held [] owner) f o ≡ o
none_held owner f none = refl
none_held owner f (some r) = refl

pub find_row-ack :
    (q : Queue) (ids : List String) (owner id : String)
    → find_row id (ack q ids owner).1.rows
      ≡ updated row_id (is_held ids owner) set_acked (find_row id q.rows)
unfolding ack
find_row-ack q [] owner id = ground (arith, none_held owner set_acked (find_row id q.rows))
find_row-ack q (i ∷ ids) owner id =
    find_by-update_where row_id id (is_held (i ∷ ids) owner) set_acked (λ x. refl) q.rows

pub find_row-release :
    (q : Queue) (ids : List String) (owner id : String)
    → find_row id (release q ids owner).1.rows
      ≡ updated row_id (is_held ids owner) set_queued (find_row id q.rows)
unfolding release
find_row-release q [] owner id = ground (arith, none_held owner set_queued (find_row id q.rows))
find_row-release q (i ∷ ids) owner id =
    find_by-update_where row_id id (is_held (i ∷ ids) owner) set_queued (λ x. refl) q.rows

-- `release` makes exactly the owner's leases among `ids` deliverable again, at once and to anyone;
-- every other row keeps its state.
pub release_lem :
    (q : Queue) (ids : List String) (owner id : String) (r : Row)
    → find_row id q.rows ≡ some r
    → (is_held ids owner r ≡ false → find_row id (release q ids owner).1.rows ≡ some r)
      × (is_held ids owner r ≡ true
          → (find_row id (release q ids owner).1.rows ≡ some (set_queued r))
            × ((now : ℕ) → is_pending now r.task_id (set_queued r) ≡ true))
release_lem q ids owner id r h = (
  λ other. ground (arith, find_row-release q ids owner id),
  λ held.
      (ground (arith, find_row-release q ids owner id), λ now. ground (arith, eq_refl r.task_id)),
)

none_left :
    (ids : List String) (owner : String) (rows : List Row)
    → length (filter (is_held ids owner) (update_where (is_held ids owner) set_acked rows)) ≡ 0
unfolding update_where
none_left ids owner [] = refl
none_left ids owner (r ∷ rows) = ground (arith, none_left ids owner rows)

-- A second acknowledgement of the same messages counts none.
pub ack_again :
    (q : Queue) (ids : List String) (owner : String) → (ack (ack q ids owner).1 ids owner).0 ≡ 0
unfolding ack
ack_again q [] owner = refl
ack_again q (i ∷ ids) owner = none_left (i ∷ ids) owner q.rows

module _ (q : Queue) (now : ℕ) (task_id owner : String) (limit seconds : ℤ)
    (valid : IsValid q.rows) where
  -- When an owner acknowledges all that a `lease` handed to it, each of these messages is
  -- acknowledged in the table.
  pub lease-ack :
      let (messages, leased_queue) = lease q now task_id owner limit seconds in
      All
        (λ m.
          (r : Row) × (find_row m.message_id
              (ack leased_queue (map (λ (x : Message). x.message_id) messages) owner).1.rows
            ≡ some r)
          × (r.status ≡ acked))
        messages
  lease-ack =
      let messages = (lease q now task_id owner limit seconds).0 in
      let q' = (lease q now task_id owner limit seconds).1 in
      let ids = map (λ (x : Message). x.message_id) messages in
      All-map
        (λ m.
          ((r : Row) × (find_row m.message_id q'.rows ≡ some r)
            × (r.message ≡ m)
            × (m.status ≡ leased)
            × (m.lease_owner ≡ some owner)
            × (m.lease_until ≡ some (lease_end now seconds)))
          × (mem_key m.message_id ids ≡ true))
        (λ m.
          (r : Row) × (find_row m.message_id (ack q' ids owner).1.rows ≡ some r)
          × (r.status ≡ acked))
        (λ m h. (
          set_acked h.0.0,
          ground (arith, find_row-ack q' ids owner m.message_id, eq_refl owner),
          refl,
        ))
        messages
        (All-zip _ _ messages (lease_holds q now task_id owner limit seconds valid)
          (mem_key-map_self (λ (x : Message). x.message_id) messages))
