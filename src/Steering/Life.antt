-- ===== src/Steering/Life.antt =====
-- The life of a message: any sequence of calls on a `SteeringQueue`, by any callers, in any order.
use adk_coding_agent.Prelude.{ℕ, String, ◌≡◌, ap, ◌∙◌, Option, some, List, [], ◌∷◌, arith}
use adk_coding_agent.Prelude.Int.{ℤ}
use adk_coding_agent.Prelude.Keyed.{string_eq, find_by-append}
use adk_coding_agent.Prelude.Result.{ok}
use adk_coding_agent.Prelude.Text.{Text}
use adk_coding_agent.Steering.Message.{Message, acked}
use adk_coding_agent.Steering.Queue.{Row, Queue, row_id, find_row, enqueue, lease, ack, release}
use adk_coding_agent.Steering.Invariant.{IsValid, lease-IsValid, ack-IsValid, release-IsValid}
use adk_coding_agent.Steering.Enqueue.{
  Inserted, retried, stored, enqueue-cases, enqueue-IsValid, row_of,
}
use adk_coding_agent.Steering.Lease.{lease_exclusive}
use adk_coding_agent.Steering.Finish.{find_row-ack, find_row-release}

pub data Step : Queue → Queue → Type 0 where
  enqueued :
      {q q' : Queue} (now : ℕ) (message_id task_id : String) (content : Text) (priority : ℤ)
      (key : Option String) (m : Message)
      → enqueue q now message_id task_id content priority key ≡ ok (m, q')
      → Step q q'
  leases :
      {q : Queue} (now : ℕ) (task_id owner : String) (limit seconds : ℤ)
      → Step q (lease q now task_id owner limit seconds).1
  acks : {q : Queue} (ids : List String) (owner : String) → Step q (ack q ids owner).1
  releases : {q : Queue} (ids : List String) (owner : String) → Step q (release q ids owner).1

pub data Reach (q : Queue) : Queue → Type 0 where
  here : Reach q q
  next : {s t : Queue} → Reach q s → Step s t → Reach q t

pub Step-IsValid : {q q' : Queue} → Step q q' → IsValid q.rows → IsValid q'.rows
Step-IsValid {q} {q'} (enqueued now i t c p k m h) v = enqueue-IsValid q now i t c p k m q' h v
Step-IsValid {q} (leases now t o l s) v = lease-IsValid q now t o l s v
Step-IsValid {q} (acks ids o) v = ack-IsValid q ids o v
Step-IsValid {q} (releases ids o) v = release-IsValid q ids o v

-- Whatever the calls, ids and idempotency keys stay unique, priorities in range, and a message has an
-- owner and an end of its lease exactly while it is leased.
pub Reach-IsValid : {q q' : Queue} → Reach q q' → IsValid q.rows → IsValid q'.rows
Reach-IsValid here v = v
Reach-IsValid (next r st) v = Step-IsValid st (Reach-IsValid r v)

Inserted-keeps :
    (q : Queue) (v : Message) (key : Option String) (m : Message) (q' : Queue) (id : String)
    (r : Row)
    → Inserted q v key m q'
    → find_row id q.rows ≡ some r
    → find_row id q'.rows ≡ some r
Inserted-keeps q v key m q' id r (retried c e eq) h = ap (λ (x : Queue). find_row id x.rows) eq ∙ h
Inserted-keeps q v key m q' id r (stored c em eq) h =
    ap (λ (x : Queue). find_row id x.rows) eq
    ∙ find_by-append row_id id q.rows (row_of v key ∷ []) r h

Step-acked :
    {q q' : Queue} (id : String) (r : Row)
    → Step q q'
    → IsValid q.rows
    → find_row id q.rows ≡ some r
    → r.status ≡ acked
    → find_row id q'.rows ≡ some r
Step-acked {q} {q'} id r (enqueued now i t c p k m e) v h a =
    let (w, accepted, inserted) = enqueue-cases q now i t c p k m q' e in
    Inserted-keeps q w k m q' id r inserted h
Step-acked {q} id r (leases now t o l s) v h a =
    (lease_exclusive q now t o l s v id r h (ground arith)).0
Step-acked {q} id r (acks ids o) v h a = ground (arith, find_row-ack q ids o id)
Step-acked {q} id r (releases ids o) v h a = ground (arith, find_row-release q ids o id)

-- An acknowledged message stays in the table unchanged for ever: no sequence of calls delivers it
-- again, releases it or drops it.
pub acked_forever :
    {q q' : Queue} (id : String) (r : Row)
    → Reach q q'
    → IsValid q.rows
    → find_row id q.rows ≡ some r
    → r.status ≡ acked
    → find_row id q'.rows ≡ some r
acked_forever id r here v h a = h
acked_forever id r (next reach step) v h a =
    Step-acked id r step (Reach-IsValid reach v) (acked_forever id r reach v h a) a
