-- ===== src/Events/Retry.antt =====
-- What a reader sees of an append, and a call that is repeated (harness/state/event_store.py).
use adk_coding_agent.Prelude.{
  ℕ, ◌+◌, String, ◌≡◌, ◌⊎◌, ap, ◌∙◌, Bool, true, Option, none, some, List, [], ◌∷◌, ◌++◌, eq_refl,
  if◌then◌else◌, find, option_eq, length, arith, inl, inr,
}
use adk_coding_agent.Prelude.Keyed.{Eq}
use adk_coding_agent.Prelude.Result.{ok, err, value_error}
use adk_coding_agent.Events.Model.{HarnessEvent}
use adk_coding_agent.Events.Store.{Files, read, has_key, same_content, append_found, append}
use adk_coding_agent.Events.Append.{Numbered, whole_read}
use adk_coding_agent.Events.Streams.{
  Reach, Reach-AllStreams, Appended, append-Appended, append-AllStreams, append-eq, new_event,
}

module _ {P : Type 0} ⦃eq : Eq P⦄ (path : String → String) where
  read-ok :
      (files : Files P) (task_id : String) (es : List (HarnessEvent P))
      → Numbered 1 (files (path task_id))
      → read path files task_id 0 ≡ ok es
      → files (path task_id) ≡ es
  read-ok files task_id es valid h = let whole = whole_read path files task_id valid in ground arith

  -- After an append that returned, the task's stream reads as before when the event was in it under
  -- its idempotency key, and else with the event at its end, numbered by the new length.
  pub append-read :
      (files : Files P) (task_id kind : String) (payload : P) (key : Option String)
      (event_id : String) (now : ℕ) (event : HarnessEvent P) (after : Files P)
      (es : List (HarnessEvent P))
      → Reach path files
      → read path files task_id 0 ≡ ok es
      → append path files task_id kind payload key event_id now ≡ ok (event, after)
      → ((find (has_key key) es ≡ some event) × (read path after task_id 0 ≡ ok es))
        ⊎ ((find (has_key key) es ≡ none)
            × (event.sequence ≡ length es + 1)
            × (read path after task_id 0 ≡ ok (es ++ event ∷ [])))
  unfolding Appended
  append-read files task_id kind payload key event_id now event after es reached was h =
      let valid = Reach-AllStreams path files reached in
      let valid_after =
        append-AllStreams path files task_id kind payload key event_id now event after valid h in
      let (own, result) =
        append-Appended path files task_id kind payload key event_id now event after valid h in
      let before = read-ok files task_id es (valid (path task_id)).0 was in
      let whole = whole_read path after task_id (valid_after (path task_id)).0 in
      elim result [
        | inl (found, same) ↦ inl (ground arith, whole ∙ rw own (ap ok (same ∙ before)))
        | inr (fresh, keyed, number, tail) ↦ inr (
          ground arith,
          ground arith,
          whole
              ∙ rw own (ap ok (tail ∙ ap (λ (l : List (HarnessEvent P)). l ++ event ∷ []) before)),
        )
      ]

  find-snoc :
      (t : HarnessEvent P → Bool) (es : List (HarnessEvent P)) (e : HarnessEvent P)
      → find t es ≡ none
      → t e ≡ true
      → find t (es ++ e ∷ []) ≡ some e
  find-snoc t [] e h g = ground arith
  find-snoc t (x ∷ es) e h g = ground (arith, find-snoc t es e)

  -- An append under an idempotency key, repeated once it has returned, with any new event id and time:
  -- for the same kind and payload the first event comes back and nothing is written, for others it
  -- raises ValueError.
  pub append_retry :
      (files : Files P) (task_id kind : String) (payload : P) (key event_id : String) (now : ℕ)
      (event : HarnessEvent P) (after : Files P) (kind_again : String) (payload_again : P)
      (event_id_again : String) (now_again : ℕ)
      → Reach path files
      → append path files task_id kind payload (some key) event_id now ≡ ok (event, after)
      → append path after task_id kind_again payload_again (some key) event_id_again now_again ≡ (
          if same_content event kind_again payload_again
          then ok (event, after)
          else err value_error)
  unfolding Appended append_found
  append_retry files task_id kind payload key event_id now event after kind_again payload_again
        event_id_again now_again reached h =
      let p = path task_id in
      let valid = Reach-AllStreams path files reached in
      let valid_after =
        append-AllStreams path files task_id kind payload (some key) event_id now event after valid
          h in
      let (own, result) =
        append-Appended path files task_id kind payload (some key) event_id now event after valid
          h in
      let found : find (has_key (some key)) (after p) ≡ some event = elim result [
        | inl (found, same) ↦ ap (find (has_key (some key))) same ∙ found
        | inr (fresh, keyed, number, tail) ↦
            ap (find (has_key (some key))) tail
            ∙ find-snoc (has_key (some key)) (files p) event fresh
                (ap (λ k. option_eq k (some key)) keyed ∙ eq_refl key)
      ] in
      append-eq path after task_id kind_again payload_again (some key) event_id_again now_again
        (valid_after p).0
      ∙ ap
          (λ t.
            if t
            then append_found (find (has_key (some key)) (after p)) after p (
                new_event path (after p) task_id kind_again payload_again (some key) event_id_again
                  now_again)
            else err value_error)
          own
      ∙ ap
          (λ f. append_found f after p (
            new_event path (after p) task_id kind_again payload_again (some key) event_id_again
              now_again))
          found
