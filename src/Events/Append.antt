-- ===== src/Events/Append.antt =====
-- What an append to a stream does (harness/state/event_store.py).
use adk_coding_agent.Prelude.{
  ℕ, suc, ◌+◌, String, ◌≡◌, ◌⊎◌, refl, ap, ◌∙◌, Bool, true, false, ◌||◌, Option, none, some, List,
  [], ◌∷◌, ◌++◌, ltb, ◌==◌, eq_iff, if◌then◌else◌, find, any, all, filter, length, arith,
  Bool-cases, inl, inr,
}
use adk_coding_agent.Prelude.Keyed.{Eq, string_eq}
use adk_coding_agent.Prelude.Result.{ok, err, value_error}
use adk_coding_agent.Events.Model.{HarnessEvent}
use adk_coding_agent.Events.Store.{
  Files, read_events, read, has_key, next_sequence, write_line, same_content, append_found,
}

module _ {P : Type 0} where
  -- The events carry the sequence numbers from n on.
  abbrev pub Numbered : ℕ → List (HarnessEvent P) → Type 0
  Numbered n [] = Unit
  Numbered n (e ∷ es) = (e.sequence ≡ n) × Numbered (suc n) es

  -- No idempotency key is used twice.
  abbrev pub DistinctIdempotencyKeys : List (HarnessEvent P) → Type 0
  DistinctIdempotencyKeys [] = Unit
  DistinctIdempotencyKeys (e ∷ es) =
      (any (has_key e.idempotency_key) es ≡ false) × DistinctIdempotencyKeys es

  abbrev pub IsStream : List (HarnessEvent P) → Type 0
  IsStream es = Numbered 1 es × DistinctIdempotencyKeys es

  last-Numbered :
      (n : ℕ) (e : HarnessEvent P) (es : List (HarnessEvent P))
      → Numbered n (e ∷ es)
      → next_sequence (e ∷ es) ≡ n + length (e ∷ es)
  last-Numbered n e [] h = ground arith
  last-Numbered n e (f ∷ es) h = ground (arith, last-Numbered (suc n) f es h.1)

  pub next_sequence-Numbered :
      (es : List (HarnessEvent P)) → Numbered 1 es → next_sequence es ≡ length es + 1
  next_sequence-Numbered [] h = refl
  next_sequence-Numbered (e ∷ es) h = ground (arith, last-Numbered 1 e es h)

  pub Numbered-snoc :
      (n : ℕ) (es : List (HarnessEvent P)) (e : HarnessEvent P)
      → Numbered n es
      → e.sequence ≡ n + length es
      → Numbered n (es ++ e ∷ [])
  Numbered-snoc n [] e h s = (ground arith, tt)
  Numbered-snoc n (x ∷ es) e h s = (h.0, Numbered-snoc (suc n) es e h.1 (ground arith))

  has_key_comm :
      (e f : HarnessEvent P) (j k : Option String)
      → e.idempotency_key ≡ j
      → f.idempotency_key ≡ k
      → has_key k e ≡ has_key j f
  has_key_comm e f none none he hf = refl
  has_key_comm e f none (some b) he hf = ground arith
  has_key_comm e f (some a) none he hf = ground arith
  has_key_comm e f (some a) (some b) he hf = ground (arith, eq_iff a b, eq_iff b a)

  any-snoc :
      (k : Option String) (es : List (HarnessEvent P)) (e : HarnessEvent P)
      → any (has_key k) (es ++ e ∷ []) ≡ (any (has_key k) es || has_key k e)
  any-snoc k [] e = ground arith
  any-snoc k (x ∷ es) e = ground (arith, any-snoc k es e)

  find-any :
      (k : Option String) (es : List (HarnessEvent P))
      → find (has_key k) es ≡ none
      → any (has_key k) es ≡ false
  find-any k [] h = refl
  find-any k (x ∷ es) h = ground (arith, find-any k es)

  DistinctIdempotencyKeys-snoc :
      (es : List (HarnessEvent P)) (e : HarnessEvent P)
      → DistinctIdempotencyKeys es
      → any (has_key e.idempotency_key) es ≡ false
      → DistinctIdempotencyKeys (es ++ e ∷ [])
  DistinctIdempotencyKeys-snoc [] e d h = (refl, tt)
  DistinctIdempotencyKeys-snoc (x ∷ es) e d h = (
    ground (
      arith,
      any-snoc x.idempotency_key es e,
      has_key_comm e x e.idempotency_key x.idempotency_key refl refl,
    ),
    DistinctIdempotencyKeys-snoc es e d.1 (ground arith),
  )

  abbrev pub belongs : String → HarnessEvent P → Bool
  belongs task e = e.task_id == task

  -- A read refuses a stream with another task's event, and else returns the later events.
  pub read_events-eq :
      (task : String) (after : ℕ) (lines : List (HarnessEvent P))
      → read_events task after lines ≡ (
          if all (belongs task) lines
          then ok (filter (λ (e : HarnessEvent P). ltb after e.sequence) lines)
          else err value_error)
  unfolding read_events
  read_events-eq task after [] = refl
  read_events-eq task after (e ∷ lines) = ground (arith, read_events-eq task after lines)

  pub filter-Numbered :
      (n : ℕ) (lines : List (HarnessEvent P))
      → Numbered (suc n) lines
      → filter (λ (e : HarnessEvent P). ltb 0 e.sequence) lines ≡ lines
  filter-Numbered n [] h = refl
  filter-Numbered n (e ∷ lines) h = ground (arith, filter-Numbered (suc n) lines h.1)

  pub whole_read :
      (path : String → String) (files : Files P) (task : String)
      → Numbered 1 (files (path task))
      → read path files task 0 ≡ (
          if all (belongs task) (files (path task))
          then ok (files (path task))
          else err value_error)
  unfolding read
  whole_read path files task h =
      read_events-eq task 0 (files (path task))
      ∙ ap (λ es. if all (belongs task) (files (path task)) then ok es else err value_error)
          (filter-Numbered 0 (files (path task)) h)

  pub write_line-IsStream :
      (files : Files P) (p : String) (event : HarnessEvent P)
      → ((q : String) → IsStream (files q))
      → event.sequence ≡ next_sequence (files p)
      → find (has_key event.idempotency_key) (files p) ≡ none
      → (q : String) → IsStream (write_line files p event q)
  write_line-IsStream files p event valid s fresh q = elim (Bool-cases (q == p)) [
    | inl e ↦ rw e (
      Numbered-snoc 1 (files q) event (valid q).0
          (ground (arith, eq_iff q p, next_sequence-Numbered (files q) (valid q).0)),
      DistinctIdempotencyKeys-snoc (files q) event (valid q).1 (
          find-any event.idempotency_key (files q)
            (ap (λ t. find (has_key event.idempotency_key) (files t)) ((eq_iff q p).0 e) ∙ fresh)),
    )
    | inr e ↦ rw e (valid q)
  ]

module _ {P : Type 0} ⦃eq : Eq P⦄ where
  -- An append that returns has found the event under its key, or has written it.
  pub append_found-cases :
      (found : Option (HarnessEvent P)) (files : Files P) (p : String) (event f : HarnessEvent P)
      (after : Files P)
      → append_found found files p event ≡ ok (f, after)
      → ((found ≡ some f) × (same_content f event.kind event.payload ≡ true) × (after ≡ files))
        ⊎ ((found ≡ none) × (f ≡ event) × (after ≡ write_line files p event))
  unfolding append_found
  append_found-cases none files p event f after h = ground arith
  append_found-cases (some previous) files p event f after h = ground arith
