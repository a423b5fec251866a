-- ===== src/Steering/Retry.antt =====
-- A retry of `enqueue` of harness/state/steering.py under its key, after whatever calls.
use adk_coding_agent.Prelude.{
  ℕ, String, ◌≡◌, refl, ap, sym, subst, ◌∙◌, Bool, true, false, ◌&&◌, Option, none, some, List, [],
  ◌∷◌, ◌++◌, if◌then◌else◌, find, arith, eq_refl, ◌==◌,
}
use adk_coding_agent.Prelude.Int.{ℤ, int_eq_iff}
use adk_coding_agent.Prelude.Keyed.{string_eq, find-Stored}
use adk_coding_agent.Prelude.Result.{ok, >>=-eq-ok}
use adk_coding_agent.Prelude.Table.{update_where}
use adk_coding_agent.Prelude.Text.{Text, text_eq_iff}
use adk_coding_agent.Prelude.Unique.{slot, slot_eq}
use adk_coding_agent.Steering.Message.{Message, new_message}
use adk_coding_agent.Steering.Queue.{
  Row, Queue, row_id, row_slot, find_row, enqueue, existing_message, lease, ack, release,
  finish_lease, set_queued, set_leased, set_acked, is_expired, is_held, lease_end, lease_rows,
  requeue_expired,
}
use adk_coding_agent.Steering.Invariant.{IsValid}
use adk_coding_agent.Steering.Enqueue.{
  Inserted, retried, stored, matching, row_of, matching-snoc, insert_message-cases,
  insert_message_known, new_message_later, enqueue-cases, enqueue-IsValid,
}
use adk_coding_agent.Steering.Life.{
  Step, enqueued, leases, acks, releases, Reach, here, next, Reach-IsValid,
}

-- A message that is the same but for its status and its lease.
abbrev pub SameMessage : Message → Message → Type 0
SameMessage a b =
    b ≡ record a { status = b.status; lease_owner = b.lease_owner; lease_until = b.lease_until }

SameMessage-trans : (a b c : Message) → SameMessage a b → SameMessage b c → SameMessage a c
SameMessage-trans a b c x y =
    y
    ∙ ap
        (λ (m : Message). record m {
          status = c.status;
          lease_owner = c.lease_owner;
          lease_until = c.lease_until;
        })
        x

-- The row of a task's key holds the message, by now.
abbrev Holds : String → String → Message → List Row → Type 0
Holds task_id k m rows =
    (r : Row) × (matching task_id (some k) rows ≡ some r) × SameMessage m r.message

find-update :
    (p g : Row → Bool) (f : Row → Row)
    → ((r : Row) → p (f r) ≡ p r)
    → (rows : List Row) (r : Row) → find p rows ≡ some r
    → find p (update_where g f rows) ≡ some (if g r then f r else r)
unfolding update_where
find-update p g f same [] r h = absurd (ground arith)
find-update p g f same (x ∷ rows) r h = ground (arith, same x, find-update p g f same rows r)

find-append :
    (p : Row → Bool) (xs ys : List Row) (r : Row) → find p xs ≡ some r → find p (xs ++ ys) ≡ some r
find-append p [] ys r h = absurd (ground arith)
find-append p (x ∷ xs) ys r h = ground (arith, find-append p xs ys r)

either_row :
    (m : Message) (b : Bool) (f : Row → Row) (r : Row)
    → ((x : Row) → SameMessage x.message (f x).message)
    → SameMessage m r.message
    → SameMessage m (if b then f r else r).message
either_row m true f r same h = SameMessage-trans m r.message (f r).message h (same r)
either_row m false f r same h = h

update_where-Holds :
    (task_id k : String) (m : Message) (g : Row → Bool) (f : Row → Row)
    → ((r : Row) → row_slot (f r) ≡ row_slot r)
    → ((r : Row) → SameMessage r.message (f r).message)
    → (rows : List Row) → Holds task_id k m rows
    → Holds task_id k m (update_where g f rows)
update_where-Holds task_id k m g f slots same rows (r, found, h) = (
  (if g r then f r else r),
  find-update (λ x. slot_eq (slot task_id (some k)) (row_slot x)) g f
      (λ x. ap (slot_eq (slot task_id (some k))) (slots x)) rows r found,
  either_row m (g r) f r same h,
)

Inserted-Holds :
    (task_id k : String) (x : Message) (q : Queue) (v : Message) (key : Option String) (m : Message)
    (q' : Queue)
    → Inserted q v key m q'
    → Holds task_id k x q.rows
    → Holds task_id k x q'.rows
Inserted-Holds task_id k x q v key m q' (retried c e eq) (r, found, h) =
    (r, ap (λ (y : Queue). matching task_id (some k) y.rows) eq ∙ found, h)
Inserted-Holds task_id k x q v key m q' (stored c em eq) (r, found, h) = (
  r,
  ap (λ (y : Queue). matching task_id (some k) y.rows) eq
      ∙ find-append (λ y. slot_eq (slot task_id (some k)) (row_slot y)) q.rows (row_of v key ∷ []) r
          found,
  h,
)

finish_lease-Holds :
    (task_id k : String) (m : Message) (f : Row → Row)
    → ((r : Row) → row_slot (f r) ≡ row_slot r)
    → ((r : Row) → SameMessage r.message (f r).message)
    → (ids : List String) (owner : String) (q : Queue) → Holds task_id k m q.rows
    → Holds task_id k m (finish_lease f ids owner q).1.rows
unfolding finish_lease
finish_lease-Holds task_id k m f slots same [] owner q h = h
finish_lease-Holds task_id k m f slots same (i ∷ ids) owner q h =
    update_where-Holds task_id k m (is_held (i ∷ ids) owner) f slots same q.rows h

Step-Holds :
    {q q' : Queue} (task_id k : String) (m : Message)
    → Step q q'
    → Holds task_id k m q.rows
    → Holds task_id k m q'.rows
unfolding lease lease_rows ack release
Step-Holds {q} {q'} task_id k m (enqueued now i t c p key n e) h =
    let (v, accepted, inserted) = enqueue-cases q now i t c p key n q' e in
    Inserted-Holds task_id k m q v key n q' inserted h
Step-Holds {q} task_id k m (leases now t o limit seconds) h =
    update_where-Holds task_id k m _ (set_leased o (lease_end now seconds)) (λ r. refl) (λ r. refl)
      (requeue_expired now t q.rows)
      (update_where-Holds task_id k m (λ r. r.task_id == t && is_expired now r) set_queued
        (λ r. refl) (λ r. refl) q.rows h)
Step-Holds {q} task_id k m (acks ids o) h =
    finish_lease-Holds task_id k m set_acked (λ r. refl) (λ r. refl) ids o q h
Step-Holds {q} task_id k m (releases ids o) h =
    finish_lease-Holds task_id k m set_queued (λ r. refl) (λ r. refl) ids o q h

Reach-Holds :
    {q q' : Queue} (task_id k : String) (m : Message)
    → Reach q q'
    → Holds task_id k m q.rows
    → Holds task_id k m q'.rows
Reach-Holds task_id k m here h = h
Reach-Holds task_id k m (next reach step) h =
    Step-Holds task_id k m step (Reach-Holds task_id k m reach h)

same_message : (a b : Message) → b ≡ a → SameMessage a b
same_message a b e = subst (λ x. SameMessage x b) e refl

-- What a keyed insertion that returned has left under its key.
known_message :
    (found : Option Row) (content : Text) (priority : ℤ) (m : Message)
    → existing_message found content priority ≡ ok m
    → (r : Row) × (found ≡ some r)
      × (r.message ≡ m)
      × (m.content ≡ content)
      × (m.priority ≡ priority)
unfolding existing_message
known_message none content priority m h = absurd (ground arith)
known_message (some r) content priority m h =
    let same : r.message ≡ m = ground arith in
    (
      r,
      refl,
      same,
      ground (arith, text_eq_iff r.content content),
      ground (arith, int_eq_iff r.priority priority),
    )

Inserted-known :
    (q : Queue) (v : Message) (k : String) (m : Message) (q' : Queue)
    → Inserted q v (some k) m q'
    → Holds v.task_id k m q'.rows × (m.content ≡ v.content) × (m.priority ≡ v.priority)
Inserted-known q v k m q' (retried c e eq) =
    let (r, found, same, text, rank) =
      known_message (matching v.task_id (some k) q.rows) v.content v.priority m e in
    (
      (
        r,
        ap (λ (y : Queue). matching v.task_id (some k) y.rows) eq ∙ found,
        same_message m r.message same,
      ),
      text,
      rank,
    )
Inserted-known q v k m q' (stored c em eq) = (
  (
    row_of v (some k),
    ap (λ (y : Queue). matching v.task_id (some k) y.rows) eq
        ∙ matching-snoc (slot v.task_id (some k)) q.rows (row_of v (some k)) (ground arith)
            (ground (arith, eq_refl v.task_id, eq_refl k)),
    same_message m v (sym em),
  ),
  ap (λ (x : Message). x.content) em,
  ap (λ (x : Message). x.priority) em,
)

known_answer :
    (found : Option Row) (r : Row) (content : Text) (priority : ℤ)
    → found ≡ some r
    → r.content ≡ content
    → r.priority ≡ priority
    → existing_message found content priority ≡ ok r.message
unfolding existing_message
known_answer none r content priority h text rank = absurd (ground arith)
known_answer (some x) r content priority h text rank =
    let same : x ≡ r = ground arith in
    let texts = (text_eq_iff x.content content).1 (ap (λ (y : Row). y.content) same ∙ text) in
    let ranks = (int_eq_iff x.priority priority).1 (ap (λ (y : Row). y.priority) same ∙ rank) in
    rw (texts, ranks) (ap (λ (y : Row). ok y.message) same)

-- Enqueueing is idempotent under a key: after a call that returned `m`, and whatever calls on the queue
-- come later, a retry with the same key, content and priority, under any fresh id, changes nothing and
-- returns the row of `m` as it is by then: it differs from `m` in its status and its lease at most.
pub enqueue_retry :
    {t : Queue} (q : Queue) (now : ℕ) (message_id task_id : String) (content : Text) (priority : ℤ)
    (k : String) (m : Message) (q' : Queue) (later : ℕ) (other_id : String)
    → IsValid q.rows
    → enqueue q now message_id task_id content priority (some k) ≡ ok (m, q')
    → Reach q' t
    → (r : Row) × (find_row m.message_id t.rows ≡ some r)
      × SameMessage m r.message
      × (enqueue t later other_id task_id content priority (some k) ≡ ok (r.message, t))
unfolding enqueue
enqueue_retry {t} q now message_id task_id content priority k m q' later other_id valid h reach =
    let (v, made, rest) = >>=-eq-ok (new_message "pending" task_id content priority now) _ h in
    let (holds, text, rank) =
      Inserted-known q (record v { message_id = message_id }) k m q'
        (insert_message-cases q _ (some k) m q' rest) in
    let (r, found, same) = Reach-Holds v.task_id k m reach holds in
    let stays =
      Reach-IsValid reach
        (enqueue-IsValid q now message_id task_id content priority (some k) m q' h valid) in
    (
      r,
      ap (λ (i : String). find_row i t.rows) (sym (ap (λ (x : Message). x.message_id) same))
          ∙ (find-Stored row_id (λ x. slot_eq (slot v.task_id (some k)) (row_slot x)) t.rows r
              stays.ids found).0,
      same,
      rw (new_message_later "pending" task_id content priority now later v made) (
          insert_message_known t (record v { message_id = other_id; created_at = later }) (some k)
            r.message
            (known_answer (matching v.task_id (some k) t.rows) r v.content v.priority found
              (ap (λ (x : Message). x.content) same ∙ text)
              (ap (λ (x : Message). x.priority) same ∙ rank))),
    )
