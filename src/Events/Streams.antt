-- ===== src/Events/Streams.antt =====
-- What holds of every stream that appends have built (harness/state/event_store.py).
use adk_coding_agent.Prelude.{
  ℕ, ◌+◌, String, ◌≡◌, ◌⊎◌, refl, ap, sym, ◌∙◌, Bool, true, false, Option, none, some, List, [],
  ◌∷◌, ◌++◌, eq_iff, eq_refl, if◌then◌else◌, find, all, length, arith, inl, inr,
}
use adk_coding_agent.Prelude.Keyed.{Eq, string_eq}
use adk_coding_agent.Prelude.Result.{Result, ok, err, value_error, ◌>>=◌}
use adk_coding_agent.Events.Model.{HarnessEvent}
use adk_coding_agent.Events.Store.{Files, has_key, next_sequence, append_to, append}
use adk_coding_agent.Events.Append.{
  Numbered, IsStream, belongs, whole_read, next_sequence-Numbered, write_line-IsStream,
  append_found-cases,
}

if-bind :
    {A B : Type 0} (t : Bool) (x : A) (k : A → Result B)
    → ((if t then ok x else err value_error) >>= k) ≡ (if t then k x else err value_error)
if-bind true x k = refl
if-bind false x k = refl

module _ {P : Type 0} ⦃eq : Eq P⦄ (path : String → String) where
  abbrev pub AllStreams : Files P → Type 0
  AllStreams files = (p : String) → IsStream (files p)

  -- The appends of a run, from an empty directory.
  pub data Reach : Files P → Type 0 where
    start : Reach (λ p. [])
    appended :
        (files : Files P) (task_id kind : String) (payload : P) (key : Option String)
        (event_id : String) (now : ℕ) (event : HarnessEvent P) (after : Files P)
        → Reach files
        → append path files task_id kind payload key event_id now ≡ ok (event, after)
        → Reach after

  -- The event that an append makes for a stream.
  abbrev pub new_event :
      List (HarnessEvent P) → String → String → P → Option String → String → ℕ → HarnessEvent P
  new_event existing task_id kind payload key event_id now = record {
    event_id = event_id;
    task_id = task_id;
    sequence = next_sequence existing;
    kind = kind;
    payload = payload;
    timestamp = now;
    idempotency_key = key;
  }

  -- What an append does, in terms of the file.
  pub append-eq :
      (files : Files P) (task_id kind : String) (payload : P) (key : Option String)
      (event_id : String) (now : ℕ)
      → Numbered 1 (files (path task_id))
      → append path files task_id kind payload key event_id now ≡ (
          if all (belongs task_id) (files (path task_id))
          then append_to
              (files (path task_id))
              files
              (path task_id)
              (new_event (files (path task_id)) task_id kind payload key event_id now)
          else err value_error)
  unfolding append
  append-eq files task_id kind payload key event_id now valid =
      let k = λ (existing : List (HarnessEvent P)).
        append_to existing files (path task_id)
          (new_event existing task_id kind payload key event_id now) in
      ap (λ m. m >>= k) (whole_read path files task_id valid)
      ∙ if-bind (all (belongs task_id) (files (path task_id))) (files (path task_id)) k

  append-ok :
      (files : Files P) (task_id kind : String) (payload : P) (key : Option String)
      (event_id : String) (now : ℕ) (r : HarnessEvent P × Files P)
      → Numbered 1 (files (path task_id))
      → append path files task_id kind payload key event_id now ≡ ok r
      → (all (belongs task_id) (files (path task_id)) ≡ true)
        × (append_to
              (files (path task_id))
              files
              (path task_id)
              (new_event (files (path task_id)) task_id kind payload key event_id now)
            ≡ ok r)
  append-ok files task_id kind payload key event_id now r valid h =
      let eqn = append-eq files task_id kind payload key event_id now valid in ground arith

  pub append-AllStreams :
      (files : Files P) (task_id kind : String) (payload : P) (key : Option String)
      (event_id : String) (now : ℕ) (event : HarnessEvent P) (after : Files P)
      → AllStreams files
      → append path files task_id kind payload key event_id now ≡ ok (event, after)
      → AllStreams after
  append-AllStreams files task_id kind payload key event_id now event after valid h q =
      let p = path task_id in
      let e = new_event (files p) task_id kind payload key event_id now in
      let (own, did) =
        append-ok files task_id kind payload key event_id now (event, after) (valid p).0 h in
      elim (append_found-cases (find (has_key key) (files p)) files p e event after did) [
        | inl (found, same, unchanged) ↦ rw unchanged (valid q)
        | inr (fresh, made, written) ↦ rw written (write_line-IsStream files p e valid refl fresh q)
      ]

  -- Whatever appends have run, every stream is numbered 1, 2, 3 ... without a gap, and no idempotency
  -- key stands in it twice.
  pub Reach-AllStreams : (files : Files P) → Reach files → AllStreams files
  Reach-AllStreams files start = λ q. (tt, tt)
  Reach-AllStreams files (appended before task_id kind payload key event_id now event after r h) =
      append-AllStreams before task_id kind payload key event_id now event after
        (Reach-AllStreams before r) h

  -- The stream of the task, after an append that returned.
  unfoldable pub Appended :
      List (HarnessEvent P)
      → String
      → Option String
      → HarnessEvent P
      → List (HarnessEvent P)
      → Type 0
  Appended es task_id key event after =
      (all (belongs task_id) after ≡ true)
      × (((find (has_key key) es ≡ some event) × (after ≡ es))
          ⊎ ((find (has_key key) es ≡ none)
              × (event.idempotency_key ≡ key)
              × (event.sequence ≡ length es + 1)
              × (after ≡ es ++ event ∷ [])))

  all-snoc :
      (t : String) (es : List (HarnessEvent P)) (e : HarnessEvent P)
      → all (belongs t) es ≡ true
      → e.task_id ≡ t
      → all (belongs t) (es ++ e ∷ []) ≡ true
  all-snoc t [] e h g = ground (arith, eq_iff e.task_id t)
  all-snoc t (x ∷ es) e h g = ground (arith, all-snoc t es e)

  pub append-Appended :
      (files : Files P) (task_id kind : String) (payload : P) (key : Option String)
      (event_id : String) (now : ℕ) (event : HarnessEvent P) (after : Files P)
      → AllStreams files
      → append path files task_id kind payload key event_id now ≡ ok (event, after)
      → Appended (files (path task_id)) task_id key event (after (path task_id))
  unfolding Appended
  append-Appended files task_id kind payload key event_id now event after valid h =
      let p = path task_id in
      let e = new_event (files p) task_id kind payload key event_id now in
      let (own, did) =
        append-ok files task_id kind payload key event_id now (event, after) (valid p).0 h in
      elim (append_found-cases (find (has_key key) (files p)) files p e event after did) [
        | inl (found, same, unchanged) ↦ (
          ap (λ (f : Files P). all (belongs task_id) (f p)) unchanged ∙ own,
          inl (found, ap (λ (f : Files P). f p) unchanged),
        )
        | inr (fresh, made, written) ↦
            let tail : after p ≡ files p ++ e ∷ [] =
              ap (λ (f : Files P). f p) written
              ∙ ap (λ t. if t then files p ++ e ∷ [] else files p) (eq_refl p) in
            (
              ap (all (belongs task_id)) tail ∙ all-snoc task_id (files p) e own refl,
              inr (
                fresh,
                ap (λ (f : HarnessEvent P). f.idempotency_key) made,
                ap (λ (f : HarnessEvent P). f.sequence) made
                    ∙ next_sequence-Numbered (files p) (valid p).0,
                tail ∙ ap (λ (f : HarnessEvent P). files p ++ f ∷ []) (sym made),
              ),
            )
      ]
