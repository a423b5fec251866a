-- ===== src/Conversations/Retry.antt =====
-- A retry of a follow-up (harness/server/sessions.py).
use adk_coding_agent.Prelude.{
  String, Bool, true, false, not, ◌&&◌, ◌≡◌, refl, sym, ap, subst, ◌∙◌, Option, none, some, List,
  [], ◌∷◌, leb, ◌==◌, if◌then◌else◌, find, any, arith, eq_iff,
}
use adk_coding_agent.Prelude.Keyed.{
  string_eq, find_by, find_by-append, find_by-snoc, find_by-update_where, find_by-none_mem, updated,
}
use adk_coding_agent.Prelude.Result.{Result, Error, value_error, integrity_error, ok, err}
use adk_coding_agent.Prelude.Table.{update_where}
use adk_coding_agent.Prelude.Text.{Text, text_eq, text_eq_iff}
use adk_coding_agent.Runs.Models.{RunRecord}
use adk_coding_agent.Conversations.Store.{
  FollowUp, Conversations, followup_id, is_run, queue_size, same_followup, new_followup,
  enqueue_found, enqueue, has_id, set_cancelled, remove_found, remove, has_request,
  continuation_target, is_starting, set_dispatched, mark_dispatched, is_dispatched, of_thread,
}
use adk_coding_agent.Conversations.Life.{
  Call, enqueues, removes, continues, dispatches, Later, now, after, if_state,
  continuation_found-followups,
}

-- The row of an id has this thread and this content.
abbrev Has : String → String → Text → List FollowUp → Type 0
Has id thread_id content rows =
    (r : FollowUp) × (find_by followup_id id rows ≡ some r)
    × (r.thread_id ≡ thread_id)
    × (r.content ≡ content)

abbrev HasFollowUp : String → String → Text → Conversations → Type 0
HasFollowUp id thread_id content s = Has id thread_id content s.followups

if_found :
    (thread_id : String) (content : Text) (b : Bool) (r x : FollowUp)
    → x.thread_id ≡ r.thread_id
    → x.content ≡ r.content
    → r.thread_id ≡ thread_id
    → r.content ≡ content
    → ((if b then x else r).thread_id ≡ thread_id) × ((if b then x else r).content ≡ content)
if_found thread_id content true r x p q h k = (p ∙ h, q ∙ k)
if_found thread_id content false r x p q h k = (h, k)

update_where-Has :
    (id thread_id : String) (content : Text) (p : FollowUp → Bool) (f : FollowUp → FollowUp)
    → ((r : FollowUp) → (f r).item_id ≡ r.item_id)
    → ((r : FollowUp) → (f r).thread_id ≡ r.thread_id)
    → ((r : FollowUp) → (f r).content ≡ r.content)
    → (rows : List FollowUp) → Has id thread_id content rows
    → Has id thread_id content (update_where p f rows)
update_where-Has id thread_id content p f same_id same_thread same_content rows (r, found, h, k) =
    let kept = if_found thread_id content (p r) r (f r) (same_thread r) (same_content r) h k in
    (
      (if p r then f r else r),
      find_by-update_where followup_id id p f same_id rows ∙ ap (updated followup_id p f) found,
      kept.0,
      kept.1,
    )

enqueue_found-Has :
    (found : Option FollowUp) (runs : List RunRecord) (s : Conversations) (item_id : String)
    (parent : RunRecord) (text : Text) (id thread_id : String) (content : Text)
    → HasFollowUp id thread_id content s
    → HasFollowUp id thread_id content (enqueue_found found runs s item_id parent text).1
unfolding enqueue_found
enqueue_found-Has (some prior) runs s item_id parent text id thread_id content h =
    if_state (HasFollowUp id thread_id content) (same_followup parent text prior) _ _ h h
enqueue_found-Has none runs s item_id parent text id thread_id content (r, found, h, k) =
    if_state (HasFollowUp id thread_id content)
      (leb 20 (queue_size parent.user_id parent.thread_id s.followups)) _ _ (r, found, h, k)
      (if_state (HasFollowUp id thread_id content) (is_run parent.run_id runs) _ _
        (
          r,
          find_by-append followup_id id s.followups
              (new_followup s.followups item_id parent text ∷ []) r found,
          h,
          k,
        )
        (r, found, h, k))

Call-Has :
    {digest : String → String → String} {s t : Conversations} (id thread_id : String)
    (content : Text)
    → Call digest s t
    → HasFollowUp id thread_id content s
    → HasFollowUp id thread_id content t
unfolding enqueue remove continuation_target mark_dispatched remove_found
Call-Has {digest = digest} id thread_id content (enqueues s runs parent request_id text) h =
    enqueue_found-Has (find_by followup_id (digest parent.user_id request_id) s.followups) runs s
      (digest parent.user_id request_id) parent text id thread_id content h
Call-Has id thread_id content (removes s user_id thread item_id) h =
    elim (find (λ r. has_id item_id r && of_thread user_id thread r) s.followups)
      as (λ found. HasFollowUp id thread_id content (remove_found found s item_id).1) [
        | none ↦ h
        | some r ↦ if_state (HasFollowUp id thread_id content) (is_dispatched r.status) _ _ h (
            update_where-Has id thread_id content (has_id item_id) set_cancelled (λ x. refl)
              (λ x. refl) (λ x. refl) s.followups h)
      ]
Call-Has id thread_id content (continues s user_id thread request_id) h =
    subst (Has id thread_id content)
      (sym (
        continuation_found-followups (find (has_request user_id request_id) s.continuations) s
          user_id thread request_id))
      h
Call-Has id thread_id content (dispatches s runs item_id run_id) h =
    if_state (HasFollowUp id thread_id content)
      (any (is_starting item_id) s.followups && not (is_run run_id runs)) _ _ h
      (update_where-Has id thread_id content (is_starting item_id) (set_dispatched run_id)
        (λ x. refl) (λ x. refl) (λ x. refl) s.followups h)

Later-Has :
    {digest : String → String → String} {s t : Conversations} (id thread_id : String)
    (content : Text)
    → HasFollowUp id thread_id content s
    → Later digest s t
    → HasFollowUp id thread_id content t
Later-Has id thread_id content h now = h
Later-Has id thread_id content h (after later call) =
    Call-Has id thread_id content call (Later-Has id thread_id content h later)

-- A result that is not an error comes from the other branch.
pub ok_then {ℓ} :
    {A : Type ℓ} (P : Conversations → Type 0) (b : Bool) (x : Result A × Conversations) (e : Error)
    (s : Conversations) (a : A)
    → (if b then x else (err e, s)).0 ≡ ok a
    → (b ≡ true → x.0 ≡ ok a → P x.1)
    → P (if b then x else (err e, s)).1
ok_then P true x e s a h then_P = then_P refl h
ok_then P false x e s a h then_P = absurd (ground arith)

pub ok_else {ℓ} :
    {A : Type ℓ} (P : Conversations → Type 0) (b : Bool) (e : Error) (s : Conversations)
    (y : Result A × Conversations) (a : A)
    → (if b then (err e, s) else y).0 ≡ ok a
    → (y.0 ≡ ok a → P y.1)
    → P (if b then (err e, s) else y).1
ok_else P true e s y a h else_P = absurd (ground arith)
ok_else P false e s y a h else_P = else_P h

pub ok_eq : {A : Type 0} (a b : A) → ok a ≡ ok b → b ≡ a
ok_eq a b h = ground arith

-- What an `enqueue` that returned has written or found.
enqueued :
    (found : Option FollowUp) (runs : List RunRecord) (s : Conversations) (item_id : String)
    (parent : RunRecord) (content : Text) (id : String)
    → find_by followup_id item_id s.followups ≡ found
    → (enqueue_found found runs s item_id parent content).0 ≡ ok id
    → (λ (t : Conversations). (id ≡ item_id) × HasFollowUp item_id parent.thread_id content t)
        (enqueue_found found runs s item_id parent content).1
unfolding enqueue_found
enqueued (some prior) runs s item_id parent content id e h =
    ok_then (λ t. (id ≡ item_id) × HasFollowUp item_id parent.thread_id content t)
      (same_followup parent content prior) (ok item_id, s) value_error s id h
      (λ same x. (
        ok_eq item_id id x,
        (
          prior,
          e,
          (eq_iff prior.thread_id parent.thread_id).0 (ground arith),
          (text_eq_iff prior.content content).0 (ground arith),
        ),
      ))
enqueued none runs s item_id parent content id e h =
    let P : Conversations → Type 0 =
      λ t. (id ≡ item_id) × HasFollowUp item_id parent.thread_id content t in
    let row = new_followup s.followups item_id parent content in
    ok_else P (leb 20 (queue_size parent.user_id parent.thread_id s.followups)) value_error s _ id h
      (λ room. ok_then P (is_run parent.run_id runs) _ integrity_error s id room (λ there x. (
        ok_eq item_id id x,
        (
          row,
          find_by-snoc followup_id item_id s.followups row
              (find_by-none_mem followup_id item_id s.followups e) refl,
          refl,
          refl,
        ),
      )))

-- The lookup of a retry.
found_again :
    (found : Option FollowUp) (runs : List RunRecord) (t : Conversations) (item_id : String)
    (parent : RunRecord) (content : Text) (thread_id : String)
    → find_by followup_id item_id t.followups ≡ found
    → parent.thread_id ≡ thread_id
    → HasFollowUp item_id thread_id content t
    → enqueue_found found runs t item_id parent content ≡ (ok item_id, t)
unfolding enqueue_found
found_again none runs t item_id parent content thread_id e p (r, found, h, k) =
    absurd (ground arith)
found_again (some prior) runs t item_id parent content thread_id e p (r, found, h, k) =
    let same : prior ≡ r = ground arith in
    let threads : (prior.thread_id == parent.thread_id) ≡ true =
      (eq_iff prior.thread_id parent.thread_id).1
        (ap (λ (x : FollowUp). x.thread_id) same ∙ h ∙ sym p) in
    let contents : text_eq prior.content content ≡ true =
      (text_eq_iff prior.content content).1 (ap (λ (x : FollowUp). x.content) same ∙ k) in
    rw threads (rw contents refl)

-- An `enqueue` that returned an id, repeated after any later calls by a parent of the same user and
-- thread, with the same request and content, returns the same id and changes nothing: also when the queue
-- is full by then, or the follow-up is dispatched or cancelled.
pub enqueue-again :
    {digest : String → String → String} (runs later_runs : List RunRecord) (s : Conversations)
    {t : Conversations} (parent later_parent : RunRecord) (request_id : String) (content : Text)
    (id : String)
    → (enqueue digest runs s parent request_id content).0 ≡ ok id
    → Later digest (enqueue digest runs s parent request_id content).1 t
    → later_parent.user_id ≡ parent.user_id
    → later_parent.thread_id ≡ parent.thread_id
    → enqueue digest later_runs t later_parent request_id content ≡ (ok id, t)
unfolding enqueue
enqueue-again {digest = digest} runs later_runs s {t} parent later_parent request_id content id h
      later same_user same_thread =
    let item_id = digest parent.user_id request_id in
    let first =
      enqueued (find_by followup_id item_id s.followups) runs s item_id parent content id refl h in
    let kept = Later-Has item_id parent.thread_id content first.1 later in
    ap
      (λ u.
        enqueue_found (find_by followup_id (digest u request_id) t.followups) later_runs t
          (digest u request_id) later_parent content)
      same_user
    ∙ found_again (find_by followup_id item_id t.followups) later_runs t item_id later_parent
        content parent.thread_id refl same_thread kept
    ∙ ap (λ (i : String). (ok i, t)) (sym first.0)
