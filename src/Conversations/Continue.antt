-- ===== src/Conversations/Continue.antt =====
-- A retry of a continuation (harness/server/sessions.py).
use adk_coding_agent.Prelude.{
  String, Bool, true, not, ◌&&◌, ◌≡◌, refl, sym, ap, ◌∙◌, Option, none, some, List, [], ◌∷◌, ◌++◌,
  leb, ◌==◌, find, any, arith, eq_iff,
}
use adk_coding_agent.Prelude.Keyed.{string_eq, find_by}
use adk_coding_agent.Prelude.Result.{value_error, ok}
use adk_coding_agent.Prelude.Text.{Text}
use adk_coding_agent.Runs.Models.{RunRecord}
use adk_coding_agent.Conversations.Store.{
  FollowUp, Continuation, Conversations, followup_id, is_run, queue_size, same_followup,
  enqueue_found, enqueue, has_id, remove_found, remove, has_request, continuation_found,
  continuation_target, is_starting, mark_dispatched, is_dispatched, first_pending, of_thread,
}
use adk_coding_agent.Conversations.Life.{
  Call, enqueues, removes, continues, dispatches, Later, now, after, if_state,
}
use adk_coding_agent.Conversations.Retry.{ok_then, ok_eq}

-- The row of a request's continuation has this conversation and this target.
abbrev HasContinuation : String → String → String → Option String → Conversations → Type 0
HasContinuation user_id request_id thread_id target s =
    (c : Continuation) × (find (has_request user_id request_id) s.continuations ≡ some c)
    × (c.thread_id ≡ thread_id)
    × (c.item_id ≡ target)

find-append :
    (p : Continuation → Bool) (xs ys : List Continuation) (c : Continuation)
    → find p xs ≡ some c
    → find p (xs ++ ys) ≡ some c
find-append p [] ys c h = absurd (ground arith)
find-append p (x ∷ xs) ys c h = ground (arith, find-append p xs ys c)

find-snoc :
    (p : Continuation → Bool) (xs : List Continuation) (c : Continuation)
    → find p xs ≡ none
    → p c ≡ true
    → find p (xs ++ c ∷ []) ≡ some c
find-snoc p [] c h q = rw q refl
find-snoc p (x ∷ xs) c h q = ground (arith, find-snoc p xs c)

continuation_found-Has :
    (found : Option Continuation) (s : Conversations) (user thread request : String)
    (user_id request_id thread_id : String) (target : Option String)
    → HasContinuation user_id request_id thread_id target s
    → HasContinuation user_id request_id thread_id target
        (continuation_found found s user thread request).1
unfolding continuation_found
continuation_found-Has (some prior) s user thread request user_id request_id thread_id target h =
    if_state (HasContinuation user_id request_id thread_id target) (prior.thread_id == thread) _ _ h
      h
continuation_found-Has none s user thread request user_id request_id thread_id target
      (c, found, h, k) =
    (c, find-append (has_request user_id request_id) s.continuations _ c found, h, k)

enqueue_found-continuations :
    (found : Option FollowUp) (runs : List RunRecord) (s : Conversations) (item_id : String)
    (parent : RunRecord) (content : Text)
    → (enqueue_found found runs s item_id parent content).1.continuations ≡ s.continuations
unfolding enqueue_found
enqueue_found-continuations (some prior) runs s item_id parent content =
    if_state (λ t. t.continuations ≡ s.continuations) (same_followup parent content prior) _ _ refl
      refl
enqueue_found-continuations none runs s item_id parent content =
    if_state (λ t. t.continuations ≡ s.continuations)
      (leb 20 (queue_size parent.user_id parent.thread_id s.followups)) _ _ refl
      (if_state (λ t. t.continuations ≡ s.continuations) (is_run parent.run_id runs) _ _ refl refl)

remove_found-continuations :
    (found : Option FollowUp) (s : Conversations) (item_id : String)
    → (remove_found found s item_id).1.continuations ≡ s.continuations
unfolding remove_found
remove_found-continuations none s item_id = refl
remove_found-continuations (some r) s item_id =
    if_state (λ t. t.continuations ≡ s.continuations) (is_dispatched r.status) _ _ refl refl

-- The continuations after a call, where another one is not added, are those before.
same_continuations :
    (s t : Conversations) (user_id request_id thread_id : String) (target : Option String)
    → t.continuations ≡ s.continuations
    → HasContinuation user_id request_id thread_id target s
    → HasContinuation user_id request_id thread_id target t
same_continuations s t user_id request_id thread_id target same (c, found, h, k) =
    (c, ap (find (has_request user_id request_id)) same ∙ found, h, k)

Call-HasContinuation :
    {digest : String → String → String} {s t : Conversations}
    (user_id request_id thread_id : String) (target : Option String)
    → Call digest s t
    → HasContinuation user_id request_id thread_id target s
    → HasContinuation user_id request_id thread_id target t
unfolding enqueue remove continuation_target mark_dispatched
Call-HasContinuation {digest = digest} user_id request_id thread_id target
      (enqueues s runs parent request content) =
    same_continuations s (enqueue digest runs s parent request content).1 user_id request_id
      thread_id target
      (enqueue_found-continuations (find_by followup_id (digest parent.user_id request) s.followups)
        runs s (digest parent.user_id request) parent content)
Call-HasContinuation user_id request_id thread_id target (removes s user thread item_id) =
    same_continuations s (remove s user thread item_id).1 user_id request_id thread_id target (
      remove_found-continuations
        (find (λ r. has_id item_id r && of_thread user thread r) s.followups) s item_id)
Call-HasContinuation user_id request_id thread_id target (continues s user thread request) =
    continuation_found-Has (find (has_request user request) s.continuations) s user thread request
      user_id request_id thread_id target
Call-HasContinuation user_id request_id thread_id target (dispatches s runs item_id run_id) =
    same_continuations s (mark_dispatched runs s item_id run_id).1 user_id request_id thread_id
      target
      (if_state (λ t. t.continuations ≡ s.continuations)
        (any (is_starting item_id) s.followups && not (is_run run_id runs)) _ _ refl refl)

Later-HasContinuation :
    {digest : String → String → String} {s t : Conversations}
    (user_id request_id thread_id : String) (target : Option String)
    → HasContinuation user_id request_id thread_id target s
    → Later digest s t
    → HasContinuation user_id request_id thread_id target t
Later-HasContinuation user_id request_id thread_id target h now = h
Later-HasContinuation user_id request_id thread_id target h (after later call) =
    Call-HasContinuation user_id request_id thread_id target call
      (Later-HasContinuation user_id request_id thread_id target h later)

continued :
    (found : Option Continuation) (s : Conversations) (user_id thread_id request_id : String)
    (target : Option String)
    → find (has_request user_id request_id) s.continuations ≡ found
    → (continuation_found found s user_id thread_id request_id).0 ≡ ok target
    → HasContinuation user_id request_id thread_id target
        (continuation_found found s user_id thread_id request_id).1
unfolding continuation_found
continued (some prior) s user_id thread_id request_id target e h =
    ok_then (HasContinuation user_id request_id thread_id target) (prior.thread_id == thread_id)
      (ok prior.item_id, s) value_error s target h
      (λ same x.
        (prior, e, (eq_iff prior.thread_id thread_id).0 same, sym (ok_eq prior.item_id target x)))
continued none s user_id thread_id request_id target e h =
    let row : Continuation = record {
      user_id = user_id;
      request_id = request_id;
      thread_id = thread_id;
      item_id = first_pending s user_id thread_id;
    } in
    (
      row,
      find-snoc (has_request user_id request_id) s.continuations row e
          (ground (arith, eq_iff user_id user_id, eq_iff request_id request_id)),
      refl,
      sym (ok_eq (first_pending s user_id thread_id) target h),
    )

continued_again :
    (found : Option Continuation) (t : Conversations) (user_id thread_id request_id : String)
    (target : Option String)
    → find (has_request user_id request_id) t.continuations ≡ found
    → HasContinuation user_id request_id thread_id target t
    → continuation_found found t user_id thread_id request_id ≡ (ok target, t)
unfolding continuation_found
continued_again none t user_id thread_id request_id target e (c, found, h, k) =
    absurd (ground arith)
continued_again (some prior) t user_id thread_id request_id target e (c, found, h, k) =
    let same : prior ≡ c = ground arith in
    let threads : (prior.thread_id == thread_id) ≡ true =
      (eq_iff prior.thread_id thread_id).1 (ap (λ (x : Continuation). x.thread_id) same ∙ h) in
    rw threads
      (ap (λ (x : Option String). (ok x, t)) (ap (λ (x : Continuation). x.item_id) same ∙ k))

-- A continuation that returned a target, repeated after any later calls for the same conversation and
-- request, returns the same target and changes nothing, never the next one: also when that target is
-- dispatched or cancelled by then, and when there was none.
pub continuation_target-again :
    {digest : String → String → String} (s : Conversations) {t : Conversations}
    (user_id thread_id request_id : String) (target : Option String)
    → (continuation_target s user_id thread_id request_id).0 ≡ ok target
    → Later digest (continuation_target s user_id thread_id request_id).1 t
    → continuation_target t user_id thread_id request_id ≡ (ok target, t)
unfolding continuation_target
continuation_target-again s {t} user_id thread_id request_id target h later =
    continued_again (find (has_request user_id request_id) t.continuations) t user_id thread_id
      request_id target refl
      (Later-HasContinuation user_id request_id thread_id target
        (continued (find (has_request user_id request_id) s.continuations) s user_id thread_id
          request_id target refl h)
        later)
