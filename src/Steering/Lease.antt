-- ===== src/Steering/Lease.antt =====
-- What `lease` of harness/state/steering.py hands out, and what it leaves alone.
use adk_coding_agent.Prelude.{
  ℕ, ◌<◌, ◌≢◌, String, ◌≡◌, refl, ap, ◌∙◌, Bool, true, false, ◌&&◌, none, some, List, [], ◌∷◌, ◌++◌,
  map, arith, if◌then◌else◌, ◌==◌, map-map, length-map, All-of-map, All-zip, Bool-cases, All,
  All-map, inl, inr, length, filter, any,
}
use adk_coding_agent.Prelude.Keyed.{
  string_eq, mem_key, DistinctKeys, find_by-update_where, Stored, Stored-filter, Stored-mem,
  mem_key-map_self, updated, find_by-key,
}
use adk_coding_agent.Prelude.Int.{ℤ, pos}
use adk_coding_agent.Prelude.Limit.{
  allowed, length-limited, All-limited, IsSorted-limited, allowed_some,
}
use adk_coding_agent.Prelude.Sort.{IsSorted, sort-IsSorted, All-sort, length-sort}
use adk_coding_agent.Prelude.Table.{update_where, map-update_where}
use adk_coding_agent.Steering.Message.{Message, leased}
use adk_coding_agent.Steering.Queue.{
  Row, Queue, row_id, find_row, lease, lease_rows, leased_messages, selected, requeue_expired,
  is_candidate, is_expired, is_pending, has_pending, set_leased, set_leased_message, set_queued,
  delivery_le, lease_end,
}
use adk_coding_agent.Steering.Invariant.{IsValid}

-- The row after the first `UPDATE` of `lease`.
abbrev pub requeued : ℕ → String → Row → Row
requeued now task_id r = if r.task_id == task_id && is_expired now r then set_queued r else r

find_row-requeue :
    (id : String) (now : ℕ) (task_id : String) (rows : List Row) (r : Row)
    → find_row id rows ≡ some r
    → find_row id (requeue_expired now task_id rows) ≡ some (requeued now task_id r)
find_row-requeue id now task_id rows r h =
    find_by-update_where row_id id (λ x. x.task_id == task_id && is_expired now x) set_queued
      (λ x. refl) rows
    ∙ ap (updated row_id (λ x. x.task_id == task_id && is_expired now x) set_queued) h

idle-not_candidate :
    (now : ℕ) (task_id : String) (r : Row)
    → is_pending now task_id r ≡ false
    → (requeued now task_id r ≡ r) × (is_candidate task_id (requeued now task_id r) ≡ false)
idle-not_candidate now task_id r h = ground arith

candidate-pending :
    (now : ℕ) (task_id : String) (r : Row)
    → is_candidate task_id (requeued now task_id r) ≡ is_pending now task_id r
candidate-pending now task_id r = ground arith

pending_count :
    (now : ℕ) (task_id : String) (rows : List Row)
    → length (filter (is_candidate task_id) (requeue_expired now task_id rows))
      ≡ length (filter (is_pending now task_id) rows)
unfolding update_where
pending_count now task_id [] = refl
pending_count now task_id (r ∷ rows) =
    ground (arith, candidate-pending now task_id r, pending_count now task_id rows)

module _ (rows : List Row) (distinct : DistinctKeys (map row_id rows)) (now : ℕ) (task_id : String)
    (limit : ℤ) where
  selected-Stored :
      All
        (Stored row_id (is_candidate task_id) (requeue_expired now task_id rows))
        (selected task_id limit (requeue_expired now task_id rows))
  unfolding selected
  selected-Stored =
      let table = requeue_expired now task_id rows in
      let ids : DistinctKeys (map row_id table) =
        rw
          (map-update_where row_id (λ x. x.task_id == task_id && is_expired now x) set_queued
            (λ x. refl) rows)
          distinct in
      All-limited (Stored row_id (is_candidate task_id) table) limit _ (
        All-sort delivery_le (Stored row_id (is_candidate task_id) table) _
          (Stored-filter row_id (is_candidate task_id) table ids))

  -- Only pending rows are picked.
  picked-pending :
      (id : String) (r : Row)
      → find_row id rows ≡ some r
      → is_pending now task_id r ≡ false
      → mem_key id (map row_id (selected task_id limit (requeue_expired now task_id rows))) ≡ false
  picked-pending id r h idle =
      elim (Bool-cases
        (mem_key id (map row_id (selected task_id limit (requeue_expired now task_id rows))))) [
          | inl m ↦
              let (x, found, candidate) =
                Stored-mem row_id (is_candidate task_id) _ _ id selected-Stored m in
              ground
                (arith, idle-not_candidate now task_id r, find_row-requeue id now task_id rows r h)
          | inr m ↦ m
        ]

  module _ (owner : String) (until : ℕ) where
    find_row-lease :
        (id : String) (s : Row)
        → find_row id (requeue_expired now task_id rows) ≡ some s
        → find_row id (lease_rows now task_id owner limit until rows)
          ≡ some (
              if mem_key s.message_id
                (map row_id (selected task_id limit (requeue_expired now task_id rows)))
              then set_leased owner until s
              else s)
    unfolding lease_rows
    find_row-lease id s h =
        let p = λ (x : Row).
          mem_key x.message_id
            (map row_id (selected task_id limit (requeue_expired now task_id rows))) in
        find_by-update_where row_id id p (set_leased owner until) (λ x. refl)
          (requeue_expired now task_id rows)
        ∙ ap (updated row_id p (set_leased owner until)) h

    idle_row :
        (id : String) (r : Row)
        → find_row id rows ≡ some r
        → is_pending now task_id r ≡ false
        → find_row id (lease_rows now task_id owner limit until rows) ≡ some r
    idle_row id r h idle =
        let (same, _) = idle-not_candidate now task_id r idle in
        let e = find_row-lease id r (ground (arith, find_row-requeue id now task_id rows r h)) in
        ground (arith, e, picked-pending id r h idle, find_by-key row_id id rows r h)

    leased_ids :
        map (λ (m : Message). m.message_id) (leased_messages now task_id owner limit until rows)
        ≡ map row_id (selected task_id limit (requeue_expired now task_id rows))
    unfolding leased_messages
    leased_ids =
        map-map (λ (m : Message). m.message_id)
          (λ (r : Row). set_leased_message owner until r.message) _

    -- The message is in the table, held by the owner until the end of the lease.
    abbrev pub Held : Message → Type 0
    Held m =
        (r : Row) × (find_row m.message_id (lease_rows now task_id owner limit until rows) ≡ some r)
        × (r.message ≡ m)
        × (m.status ≡ leased)
        × (m.lease_owner ≡ some owner)
        × (m.lease_until ≡ some until)

    leased_messages-Held : All Held (leased_messages now task_id owner limit until rows)
    unfolding leased_messages
    leased_messages-Held =
        let picked = selected task_id limit (requeue_expired now task_id rows) in
        let table = requeue_expired now task_id rows in
        All-of-map Held (λ (r : Row). set_leased_message owner until r.message) picked
          (All-map
            (λ r.
              Stored row_id (is_candidate task_id) table r
              × (mem_key (row_id r) (map row_id picked) ≡ true))
            (λ r. Held (set_leased_message owner until r.message))
            (λ r h. (
              set_leased owner until r,
              find_row-lease r.message_id r h.0.0 ∙ (rw h.1),
              refl,
              refl,
              refl,
              refl,
            ))
            picked
            (All-zip (Stored row_id (is_candidate task_id) table)
              (λ r. mem_key (row_id r) (map row_id picked) ≡ true) picked selected-Stored
              (mem_key-map_self row_id picked)))

module _ (q : Queue) (now : ℕ) (task_id owner : String) (limit seconds : ℤ)
    (valid : IsValid q.rows) where
  -- `lease` leaves every row that is not pending as it was, and does not hand it out: not a message
  -- of another task, not an acknowledged one, and not one under a lease that has not ended, whoever
  -- owns it.
  pub lease_exclusive :
      (id : String) (r : Row)
      → find_row id q.rows ≡ some r
      → is_pending now task_id r ≡ false
      → (find_row id (lease q now task_id owner limit seconds).1.rows ≡ some r)
        × (mem_key id
              (map (λ (m : Message). m.message_id) (lease q now task_id owner limit seconds).0)
            ≡ false)
  unfolding lease
  lease_exclusive id r h idle = (
    idle_row q.rows valid.ids now task_id limit owner (lease_end now seconds) id r h idle,
    rw (leased_ids q.rows valid.ids now task_id limit owner (lease_end now seconds))
        (picked-pending q.rows valid.ids now task_id limit id r h idle),
  )

  -- Every message that `lease` hands out is in the table as it was handed out: leased, by the owner,
  -- until the lease's end.
  pub lease_holds :
      All
        (λ m.
          (r : Row) × (find_row m.message_id (lease q now task_id owner limit seconds).1.rows
            ≡ some r)
          × (r.message ≡ m)
          × (m.status ≡ leased)
          × (m.lease_owner ≡ some owner)
          × (m.lease_until ≡ some (lease_end now seconds)))
        (lease q now task_id owner limit seconds).0
  unfolding lease
  lease_holds =
      leased_messages-Held q.rows valid.ids now task_id limit owner (lease_end now seconds)

-- `lease` hands out as many of the pending messages of the task as the limit allows, no fewer, and
-- logs exactly these for `on_change`.
pub lease_count :
    (q : Queue) (now : ℕ) (task_id owner : String) (limit seconds : ℤ)
    → (length (lease q now task_id owner limit seconds).0
        ≡ allowed limit (length (filter (is_pending now task_id) q.rows)))
      × ((lease q now task_id owner limit seconds).1.changes
          ≡ q.changes ++ (lease q now task_id owner limit seconds).0)
unfolding lease
lease_count q now task_id owner limit seconds = (
  length-map _ _
      ∙ length-limited limit _
      ∙ ap (allowed limit) (length-sort delivery_le _ ∙ pending_count now task_id q.rows),
  refl,
)

any-filter : (p : Row → Bool) (rows : List Row) → any p rows ≡ true → 0 < length (filter p rows)
any-filter p [] h = ground arith
any-filter p (r ∷ rows) h = ground (arith, any-filter p rows)

-- Steering is delivered: while `has_pending` holds, a `lease` whose limit is not 0 is not empty: a
-- negative limit takes every message.
pub lease_progress :
    (q : Queue) (now : ℕ) (task_id owner : String) (limit seconds : ℤ)
    → has_pending q now task_id ≡ true
    → limit ≢ pos 0
    → 0 < length (lease q now task_id owner limit seconds).0
unfolding has_pending
lease_progress q now task_id owner limit seconds h some_limit = omega (
  arith,
  (lease_count q now task_id owner limit seconds).0,
  allowed_some limit (length (filter (is_pending now task_id) q.rows)) some_limit
      (any-filter (is_pending now task_id) q.rows h),
)

delivery_total : (a b : Row) → delivery_le a b ≡ false → delivery_le b a ≡ true
unfolding delivery_le
delivery_total a b h = ground arith

delivery_trans :
    (a b c : Row) → delivery_le a b ≡ true → delivery_le b c ≡ true → delivery_le a c ≡ true
unfolding delivery_le
delivery_trans a b c h k = ground arith

-- The order of two messages in a delivery.
abbrev pub message_le : Message → Message → Bool
message_le a b =
    delivery_le (record { message = a; idempotency_key = none })
      (record { message = b; idempotency_key = none })

delivered_in_order :
    (owner : String) (until : ℕ) (rows : List Row)
    → IsSorted delivery_le rows
    → IsSorted message_le (map (λ (r : Row). set_leased_message owner until r.message) rows)
unfolding delivery_le
delivered_in_order owner until [] s = tt
delivered_in_order owner until (r ∷ rows) s = (
  All-of-map (λ b. message_le (set_leased_message owner until r.message) b ≡ true)
      (λ (x : Row). set_leased_message owner until x.message) rows s.0,
  delivered_in_order owner until rows s.1,
)

-- The messages come out highest priority first, and within a priority oldest first.
pub lease_order :
    (q : Queue) (now : ℕ) (task_id owner : String) (limit seconds : ℤ)
    → IsSorted message_le (lease q now task_id owner limit seconds).0
unfolding lease
lease_order q now task_id owner limit seconds = delivered_in_order owner (lease_end now seconds) _ (
    IsSorted-limited delivery_le limit _
      (sort-IsSorted delivery_le delivery_total delivery_trans _))
