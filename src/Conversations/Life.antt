-- ===== src/Conversations/Life.antt =====
-- What the store of the conversations keeps, whatever is called: the queues stay bounded, and a retry
-- means what the first call meant (harness/server/sessions.py).
use adk_coding_agent.Prelude.{
  ℕ, ◌+◌, ◌≤◌, String, Bool, true, false, not, ◌&&◌, ◌≡◌, refl, sym, subst, inl, inr, Option, none,
  some, List, [], ◌∷◌, ◌++◌, leb, if◌then◌else◌, find, any, arith, Bool-cases, eq_iff,
}
use adk_coding_agent.Prelude.Keyed.{string_eq, find_by}
use adk_coding_agent.Prelude.Result.{Result}
use adk_coding_agent.Prelude.Table.{update_where}
use adk_coding_agent.Prelude.Text.{Text}
use adk_coding_agent.Runs.Models.{RunRecord}
use adk_coding_agent.Conversations.Store.{
  FollowUp, Continuation, Conversations, followup_id, is_queued, is_pending, is_run, queue_size,
  same_followup, new_followup, enqueue_found, enqueue, has_id, set_cancelled, remove_found, remove,
  has_request, continuation_found, continuation_target, is_starting, set_dispatched,
  mark_dispatched, is_dispatched, of_thread,
}

-- A call of the store: its state before and after.
pub data Call (digest : String → String → String) : Conversations → Conversations → Type 0 where
  enqueues :
      (s : Conversations) (runs : List RunRecord) (parent : RunRecord) (request_id : String)
      (content : Text)
      → Call digest s (enqueue digest runs s parent request_id content).1
  removes :
      (s : Conversations) (user_id thread_id item_id : String)
      → Call digest s (remove s user_id thread_id item_id).1
  continues :
      (s : Conversations) (user_id thread_id request_id : String)
      → Call digest s (continuation_target s user_id thread_id request_id).1
  dispatches :
      (s : Conversations) (runs : List RunRecord) (item_id run_id : String)
      → Call digest s (mark_dispatched runs s item_id run_id).1

pub data Later (digest : String → String → String) (s : Conversations)
    : Conversations → Type 0 where
  now : Later digest s s
  after : {t u : Conversations} → Later digest s t → Call digest t u → Later digest s u

abbrev pub empty : Conversations
empty = record { followups = []; continuations = [] }

-- No conversation has more than 20 pending follow-ups.
abbrev pub IsBounded : Conversations → Type 0
IsBounded s = (user_id thread_id : String) → queue_size user_id thread_id s.followups ≤ 20

-- What holds of the states of both branches.
pub if_state {ℓ κ} :
    {A : Type ℓ} (P : Conversations → Type κ) (b : Bool) (x y : Result A × Conversations)
    → P x.1
    → P y.1
    → P (if b then x else y).1
if_state P true x y hx hy = hx
if_state P false x y hx hy = hy

queue_size-snoc :
    (user_id thread_id : String) (rows : List FollowUp) (r : FollowUp)
    → queue_size user_id thread_id (rows ++ r ∷ [])
      ≡ queue_size user_id thread_id rows + (if is_queued user_id thread_id r then 1 else 0)
queue_size-snoc user_id thread_id [] r = ground arith
queue_size-snoc user_id thread_id (x ∷ rows) r =
    ground (arith, queue_size-snoc user_id thread_id rows r)

queue_size-update_where :
    (user_id thread_id : String) (p : FollowUp → Bool) (f : FollowUp → FollowUp)
    → ((r : FollowUp) → is_queued user_id thread_id (f r) ≡ false)
    → (rows : List FollowUp)
    → queue_size user_id thread_id (update_where p f rows) ≤ queue_size user_id thread_id rows
unfolding update_where
queue_size-update_where user_id thread_id p f gone [] = ground arith
queue_size-update_where user_id thread_id p f gone (r ∷ rows) =
    ground (arith, gone r, queue_size-update_where user_id thread_id p f gone rows)

not_queued :
    (user_id thread_id : String) (r : FollowUp)
    → is_pending r.status ≡ false
    → is_queued user_id thread_id r ≡ false
not_queued user_id thread_id r h = ground arith

le_trans : {a b c : ℕ} → a ≤ b → b ≤ c → a ≤ c
le_trans h k = ground arith

fits : (n m : ℕ) (b : Bool) → leb 20 n ≡ false → m ≡ n + (if b then 1 else 0) → m ≤ 20
fits n m b few e = ground arith

same_size : (n m : ℕ) (b : Bool) → b ≡ false → n ≤ 20 → m ≡ n + (if b then 1 else 0) → m ≤ 20
same_size n m b h few e = ground arith

-- A row that is queued for a conversation is of its thread.
one_more :
    (user_id thread_id : String) (rows : List FollowUp) (item_id : String) (parent : RunRecord)
    (content : Text)
    → leb 20 (queue_size parent.user_id parent.thread_id rows) ≡ false
    → queue_size user_id thread_id rows ≤ 20
    → queue_size user_id thread_id (rows ++ new_followup rows item_id parent content ∷ []) ≤ 20
one_more user_id thread_id rows item_id parent content room h =
    elim (Bool-cases (of_thread user_id thread_id (new_followup rows item_id parent content))) [
      | inl e ↦
          (let same_user : parent.user_id ≡ user_id =
              (eq_iff parent.user_id user_id).0 (ground arith) in
            let same_thread : parent.thread_id ≡ thread_id =
              (eq_iff parent.thread_id thread_id).0 (ground arith) in
            let few : leb 20 (queue_size user_id thread_id rows) ≡ false =
              subst (λ u. leb 20 (queue_size u thread_id rows) ≡ false) same_user
                (subst (λ t. leb 20 (queue_size parent.user_id t rows) ≡ false) same_thread room) in
            fits (queue_size user_id thread_id rows) _
              (is_queued user_id thread_id (new_followup rows item_id parent content)) few
              (queue_size-snoc user_id thread_id rows (new_followup rows item_id parent content)))
      | inr e ↦
          same_size (queue_size user_id thread_id rows) _
            (is_queued user_id thread_id (new_followup rows item_id parent content)) (ground arith)
            h (queue_size-snoc user_id thread_id rows (new_followup rows item_id parent content))
    ]

enqueue_found-IsBounded :
    (found : Option FollowUp) (runs : List RunRecord) (s : Conversations) (item_id : String)
    (parent : RunRecord) (content : Text)
    → IsBounded s
    → IsBounded (enqueue_found found runs s item_id parent content).1
unfolding enqueue_found
enqueue_found-IsBounded (some prior) runs s item_id parent content b =
    if_state IsBounded (same_followup parent content prior) _ _ b b
enqueue_found-IsBounded none runs s item_id parent content b =
    elim (Bool-cases (leb 20 (queue_size parent.user_id parent.thread_id s.followups))) [
      | inl e ↦ rw e b
      | inr e ↦ rw e (
          if_state IsBounded (is_run parent.run_id runs) _ _
            (λ user_id thread_id.
              one_more user_id thread_id s.followups item_id parent content e (b user_id thread_id))
            b)
    ]

remove_found-IsBounded :
    (found : Option FollowUp) (s : Conversations) (item_id : String)
    → IsBounded s
    → IsBounded (remove_found found s item_id).1
unfolding remove_found
remove_found-IsBounded none s item_id b = b
remove_found-IsBounded (some r) s item_id b =
    if_state IsBounded (is_dispatched r.status) _ _ b (λ user_id thread_id.
      le_trans
        (queue_size-update_where user_id thread_id (has_id item_id) set_cancelled
          (λ x. not_queued user_id thread_id (set_cancelled x) refl) s.followups)
        (b user_id thread_id))

pub continuation_found-followups :
    (found : Option Continuation) (s : Conversations) (user_id thread_id request_id : String)
    → (continuation_found found s user_id thread_id request_id).1.followups ≡ s.followups
unfolding continuation_found
continuation_found-followups none s user_id thread_id request_id = refl
continuation_found-followups (some prior) s user_id thread_id request_id = ground arith

Call-IsBounded :
    {digest : String → String → String} {s t : Conversations}
    → Call digest s t
    → IsBounded s
    → IsBounded t
unfolding enqueue remove continuation_target mark_dispatched
Call-IsBounded {digest = digest} (enqueues s runs parent request_id content) b =
    enqueue_found-IsBounded (find_by followup_id (digest parent.user_id request_id) s.followups)
      runs s (digest parent.user_id request_id) parent content b
Call-IsBounded (removes s user_id thread_id item_id) b =
    remove_found-IsBounded
      (find (λ r. has_id item_id r && of_thread user_id thread_id r) s.followups) s item_id b
Call-IsBounded (continues s user_id thread_id request_id) b = λ u t.
    subst (λ rows. queue_size u t rows ≤ 20)
      (sym (
        continuation_found-followups (find (has_request user_id request_id) s.continuations) s
          user_id thread_id request_id))
      (b u t)
Call-IsBounded (dispatches s runs item_id run_id) b =
    if_state IsBounded (any (is_starting item_id) s.followups && not (is_run run_id runs)) _ _ b
      (λ user_id thread_id.
        le_trans
          (queue_size-update_where user_id thread_id (is_starting item_id) (set_dispatched run_id)
            (λ x. not_queued user_id thread_id (set_dispatched run_id x) refl) s.followups)
          (b user_id thread_id))

-- From empty tables, whatever calls are made on the store: no conversation of a user has more than 20
-- pending follow-ups.
pub Later-IsBounded :
    {digest : String → String → String} {s : Conversations} → Later digest empty s → IsBounded s
Later-IsBounded now = λ user_id thread_id. ground arith
Later-IsBounded (after later call) = Call-IsBounded call (Later-IsBounded later)
