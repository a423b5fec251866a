-- ===== src/Steering/Invariant.antt =====
-- The well-formedness of the table of `SteeringQueue`, kept by every operation.
use adk_coding_agent.Prelude.{
  ℕ, String, ◌≡◌, refl, Bool, true, Option, none, some, List, [], ◌∷◌, map, All,
}
use adk_coding_agent.Prelude.Int.{ℤ}
use adk_coding_agent.Prelude.Keyed.{string_eq, DistinctKeys}
use adk_coding_agent.Prelude.Table.{update_where, map-update_where, All-update_where}
use adk_coding_agent.Prelude.Unique.{Unique}
use adk_coding_agent.Steering.Message.{Status, queued, leased, acked, priority_in_range}
use adk_coding_agent.Steering.Queue.{
  Row, Queue, row_id, row_slot, lease, ack, release, set_queued, set_leased, set_acked,
}

-- A lease has an owner and an end exactly while the message is leased.
abbrev pub LeaseFields : Status → Option String → Option ℕ → Type 0
LeaseFields queued none none = Unit
LeaseFields leased (some o) (some t) = Unit
LeaseFields acked none none = Unit
LeaseFields _ _ _ = ⊥

pub record RowIsValid (r : Row) : Type 0 where
  pub fields : LeaseFields r.status r.lease_owner r.lease_until
  pub priority : priority_in_range r.priority ≡ true

pub record IsValid (rows : List Row) : Type 0 where
  pub ids : DistinctKeys (map row_id rows)
  pub slots : Unique (map row_slot rows)
  pub each : All RowIsValid rows

update-IsValid :
    (p : Row → Bool) (f : Row → Row)
    → ((r : Row) → row_id (f r) ≡ row_id r)
    → ((r : Row) → row_slot (f r) ≡ row_slot r)
    → ((r : Row) → p r ≡ true → RowIsValid r → RowIsValid (f r))
    → (rows : List Row) → IsValid rows
    → IsValid (update_where p f rows)
update-IsValid p f same_id same_slot keep rows v = record {
  ids = rw (map-update_where row_id p f same_id rows) v.ids;
  slots = rw (map-update_where row_slot p f same_slot rows) v.slots;
  each = All-update_where p f keep rows v.each;
}

pub requeue-IsValid :
    (p : Row → Bool) (rows : List Row) → IsValid rows → IsValid (update_where p set_queued rows)
requeue-IsValid p =
    update-IsValid p set_queued (λ r. refl) (λ r. refl)
      (λ r _ v. record { fields = tt; priority = v.priority })

acked-IsValid :
    (p : Row → Bool) (rows : List Row) → IsValid rows → IsValid (update_where p set_acked rows)
acked-IsValid p =
    update-IsValid p set_acked (λ r. refl) (λ r. refl)
      (λ r _ v. record { fields = tt; priority = v.priority })

leased-IsValid :
    (owner : String) (until : ℕ) (p : Row → Bool) (rows : List Row)
    → IsValid rows
    → IsValid (update_where p (set_leased owner until) rows)
leased-IsValid owner until p =
    update-IsValid p (set_leased owner until) (λ r. refl) (λ r. refl)
      (λ r _ v. record { fields = tt; priority = v.priority })

pub lease-IsValid :
    (q : Queue) (now : ℕ) (task_id owner : String) (limit seconds : ℤ)
    → IsValid q.rows
    → IsValid (lease q now task_id owner limit seconds).1.rows
unfolding lease
lease-IsValid q now task_id owner limit seconds v =
    leased-IsValid owner _ _ _ (requeue-IsValid _ _ v)

pub ack-IsValid :
    (q : Queue) (ids : List String) (owner : String)
    → IsValid q.rows
    → IsValid (ack q ids owner).1.rows
unfolding ack
ack-IsValid q [] owner v = v
ack-IsValid q (i ∷ ids) owner v = acked-IsValid _ _ v

pub release-IsValid :
    (q : Queue) (ids : List String) (owner : String)
    → IsValid q.rows
    → IsValid (release q ids owner).1.rows
unfolding release
release-IsValid q [] owner v = v
release-IsValid q (i ∷ ids) owner v = requeue-IsValid _ _ v
