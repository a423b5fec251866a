-- ===== src/Events/Replay.antt =====
-- What the replay of a stream returns (harness/state/events.py `rebuild_ledger`).
use adk_coding_agent.Prelude.{
  ℕ, suc, ◌+◌, String, ◌≡◌, ◌↔◌, refl, ap, sym, subst, ◌∙◌, true, false, Option, none, some, List,
  [], ◌∷◌, ◌++◌, map, leb, eqb, length, eq_iff, eq_refl, if◌then◌else◌, arith, Bool-cases, inl, inr,
}
use adk_coding_agent.Prelude.Keyed.{Eq, string_eq, mem_key, DistinctKeys, DistinctKeys-snoc}
use adk_coding_agent.Prelude.Result.{Result, ok, err, value_error, ◌>>=◌}
use adk_coding_agent.Prelude.Sort.{insert, sort}
use adk_coding_agent.Task.Models.{TaskLedger}
use adk_coding_agent.Events.Model.{HarnessEvent}
use adk_coding_agent.Events.Append.{Numbered, Numbered-snoc}
use adk_coding_agent.Events.Reduce.{
  Schema, Payload, reduce_event, rebuild_loop, rebuild_sorted, rebuild_ledger, by_sequence,
  assert_some,
}

module _ {P : Type 0} where
  abbrev pub event_ids : List (HarnessEvent P) → List String
  event_ids = map (λ (e : HarnessEvent P). e.event_id)

  -- The events without those whose id was seen before.
  unfoldable pub first_of_each : List String → List (HarnessEvent P) → List (HarnessEvent P)
  first_of_each seen [] = []
  first_of_each seen (e ∷ es) =
      if mem_key e.event_id seen
      then first_of_each seen es
      else e ∷ first_of_each (e.event_id ∷ seen) es

  pub sort-Numbered :
      (n : ℕ) (es : List (HarnessEvent P))
      → Numbered n es
      → sort (λ (a b : HarnessEvent P). leb a.sequence b.sequence) es ≡ es
  unfolding sort insert
  sort-Numbered n [] h = refl
  sort-Numbered n (e ∷ []) h = refl
  sort-Numbered n (e ∷ f ∷ es) h = rw (sort-Numbered (suc n) (f ∷ es) h.1) (ground arith)

counted :
    (m : Result TaskLedger) (first rest : TaskLedger → Result (Option TaskLedger)) (n s : ℕ)
    (N : Type 0) (r : Option TaskLedger)
    → ((l : TaskLedger) → (first l ≡ ok r) ↔ (N × (rest l ≡ ok r)))
    → ((if eqb s n then (m >>= first) else err value_error) ≡ ok r)
      ↔ (((s ≡ n) × N) × ((m >>= rest) ≡ ok r))
counted (ok l) first rest n s N r h = elim (Bool-cases (eqb s n)) [
  | inl e ↦ (
    λ g. (
      (
        (ground arith),
        ((h l).0 (rw (sym (ap (λ t. if t then first l else err value_error) e)) g)).0,
      ),
      ((h l).0 (rw (sym (ap (λ t. if t then first l else err value_error) e)) g)).1,
    ),
    λ g. ap (λ t. if t then first l else err value_error) e ∙ (h l).1 (g.0.1, g.1),
  )
  | inr e ↦ ((λ g. absurd (ground arith)), λ g. absurd (ground arith))
]
counted (err x) first rest n s N r h = ((λ g. absurd (ground arith)), λ g. absurd (ground arith))

map-snoc :
    {P : Type 0} (es : List (HarnessEvent P)) (e : HarnessEvent P)
    → event_ids (es ++ e ∷ []) ≡ event_ids es ++ e.event_id ∷ []
map-snoc [] e = refl
map-snoc (x ∷ es) e = ap (λ t. x.event_id ∷ t) (map-snoc es e)

module _ {A P : Type 0} ⦃e : Eq A⦄ (schema : Schema A) (payload : Payload A P) where
  -- The events reduced one after the other.
  unfoldable pub replay : Option TaskLedger → List (HarnessEvent P) → Result (Option TaskLedger)
  unfolding reduce_event
  replay ledger [] = ok ledger
  replay ledger (event ∷ events) =
      reduce_event schema payload ledger event >>= λ reduced. replay (some reduced) events

  replay-append :
      (ledger : Option TaskLedger) (xs ys : List (HarnessEvent P))
      → replay ledger (xs ++ ys) ≡ (replay ledger xs >>= λ l. replay l ys)
  unfolding replay
  replay-append ledger [] ys = refl
  replay-append ledger (x ∷ xs) ys =
      bound (reduce_event schema payload ledger x) (λ l. replay-append (some l) xs ys)
    where
      bound :
          (m : Result TaskLedger)
          → ((l : TaskLedger)
              → replay (some l) (xs ++ ys) ≡ (replay (some l) xs >>= λ t. replay t ys))
          → (m >>= λ l. replay (some l) (xs ++ ys))
            ≡ ((m >>= λ l. replay (some l) xs) >>= λ t. replay t ys)
      bound (ok l) h = h l
      bound (err x) h = refl

  -- The loop returns exactly when the events, each id taken once, are numbered from the expected
  -- sequence on, and it then returns what they reduce to.
  rebuild_loop-ok :
      (seen : List String) (n : ℕ) (ledger : Option TaskLedger) (events : List (HarnessEvent P))
      (r : Option TaskLedger)
      → (rebuild_loop schema payload seen n ledger events ≡ ok r) ↔ (
          Numbered n (first_of_each seen events)
          × (replay ledger (first_of_each seen events) ≡ ok r))
  unfolding rebuild_loop first_of_each replay
  rebuild_loop-ok seen n ledger [] r = ((λ g. (tt, g)), λ g. g.1)
  rebuild_loop-ok seen n ledger (x ∷ xs) r = elim (Bool-cases (mem_key x.event_id seen)) [
    | inl m ↦ rw m (rebuild_loop-ok seen n ledger xs r)
    | inr m ↦ rw m (
        counted (reduce_event schema payload ledger x)
          (λ l. rebuild_loop schema payload (x.event_id ∷ seen) (suc n) (some l) xs)
          (λ l. replay (some l) (first_of_each (x.event_id ∷ seen) xs)) n x.sequence
          (Numbered (suc n) (first_of_each (x.event_id ∷ seen) xs)) r
          (λ l. rebuild_loop-ok (x.event_id ∷ seen) (suc n) (some l) xs r))
  ]

  assert_some-ok :
      (m : Result (Option TaskLedger)) (l : TaskLedger)
      → ((m >>= assert_some schema payload) ≡ ok l) ↔ (m ≡ ok (some l))
  assert_some-ok (ok none) l = ((λ g. absurd (ground arith)), λ g. absurd (ground arith))
  assert_some-ok (ok (some m)) l = ground arith
  assert_some-ok (err x) l = ((λ g. absurd (ground arith)), λ g. absurd (ground arith))

  sorted-ok :
      (events : List (HarnessEvent P)) (l : TaskLedger)
      → (rebuild_sorted schema payload events ≡ ok l) ↔ (
          Numbered 1 (first_of_each [] events)
          × (replay none (first_of_each [] events) ≡ ok (some l)))
  unfolding rebuild_sorted first_of_each replay
  sorted-ok [] l = ((λ g. absurd (ground arith)), λ g. absurd (ground arith))
  sorted-ok (x ∷ xs) l =
      let loop = rebuild_loop-ok [] 1 none (x ∷ xs) (some l) in
      let end = assert_some-ok (rebuild_loop schema payload [] 1 none (x ∷ xs)) l in
      ((λ g. loop.0 (end.0 g)), λ g. end.1 (loop.1 g))

  -- A stream is rebuilt exactly when its events, put in the order of their sequence and without those
  -- whose id an earlier one has, whatever these say, are numbered 1, 2, 3 ... and reduce one after the
  -- other; the ledger is then what they reduce to.
  pub rebuild_ledger-ok :
      (events : List (HarnessEvent P)) (l : TaskLedger)
      → (rebuild_ledger schema payload events ≡ ok l) ↔ (
          Numbered 1 (first_of_each [] (sort (by_sequence schema payload) events))
          × (replay none (first_of_each [] (sort (by_sequence schema payload) events))
              ≡ ok (some l)))
  unfolding rebuild_ledger
  rebuild_ledger-ok events l = sorted-ok (sort (by_sequence schema payload) events) l

  plain_loop :
      (seen : List String) (n : ℕ) (ledger : Option TaskLedger) (events : List (HarnessEvent P))
      → Numbered n events
      → DistinctKeys (event_ids events)
      → ((k : String) → mem_key k (event_ids events) ≡ true → mem_key k seen ≡ false)
      → rebuild_loop schema payload seen n ledger events ≡ replay ledger events
  unfolding rebuild_loop replay
  plain_loop seen n ledger [] h d apart = refl
  plain_loop seen n ledger (x ∷ xs) h d apart =
      let new : mem_key x.event_id seen ≡ false =
        apart x.event_id (ground (arith, eq_refl x.event_id)) in
      let rest = λ (l : TaskLedger).
        plain_loop (x.event_id ∷ seen) (suc n) (some l) xs h.1 d.1
          (λ k m. ground (arith, eq_iff x.event_id k, apart k)) in
      let m = reduce_event schema payload ledger x in
      let first =
        λ (l : TaskLedger). rebuild_loop schema payload (x.event_id ∷ seen) (suc n) (some l) xs in
      let next : eqb x.sequence n ≡ true = ground arith in
      rw new (
        ap (λ t. if t then (m >>= first) else err value_error) next
        ∙ ap (λ k. m >>= k) (λ i l. rest l i))

  rebuild_ledger-empty : rebuild_ledger schema payload [] ≡ err value_error
  unfolding rebuild_ledger rebuild_sorted sort
  rebuild_ledger-empty = refl

  sorted-plain :
      (x : HarnessEvent P) (xs : List (HarnessEvent P))
      → Numbered 1 (x ∷ xs)
      → DistinctKeys (event_ids (x ∷ xs))
      → rebuild_ledger schema payload (x ∷ xs)
        ≡ (replay none (x ∷ xs) >>= assert_some schema payload)
  unfolding rebuild_ledger rebuild_sorted
  sorted-plain x xs h d =
      ap (rebuild_sorted schema payload) (sort-Numbered 1 (x ∷ xs) h)
      ∙ ap (λ m. m >>= assert_some schema payload) (plain_loop [] 1 none (x ∷ xs) h d (λ k m. refl))

  last_step :
      (m : Result TaskLedger) → ((m >>= λ r. ok (some r)) >>= assert_some schema payload) ≡ m
  last_step (ok l) = refl
  last_step (err x) = refl

  snoc-replay :
      (events : List (HarnessEvent P)) (event : HarnessEvent P) (l : TaskLedger)
      → replay none events ≡ ok (some l)
      → (replay none (events ++ event ∷ []) >>= assert_some schema payload)
        ≡ reduce_event schema payload (some l) event
  unfolding replay
  snoc-replay events event l h =
      ap (λ m. m >>= assert_some schema payload)
        (replay-append none events (event ∷ []) ∙ ap (λ m. m >>= λ t. replay t (event ∷ [])) h)
      ∙ last_step (reduce_event schema payload (some l) event)

  -- A stream whose events are numbered 1, 2, 3 ... under distinct ids, and that is rebuilt, takes one
  -- more event with the next number and a new id: rebuilding the longer stream is reducing the event
  -- on the ledger rebuilt before it, its error included. Replay and live reduction agree.
  pub rebuild_ledger-snoc :
      (events : List (HarnessEvent P)) (event : HarnessEvent P) (l : TaskLedger)
      → Numbered 1 events
      → DistinctKeys (event_ids events)
      → event.sequence ≡ length events + 1
      → mem_key event.event_id (event_ids events) ≡ false
      → rebuild_ledger schema payload events ≡ ok l
      → rebuild_ledger schema payload (events ++ event ∷ [])
        ≡ reduce_event schema payload (some l) event
  rebuild_ledger-snoc [] event l h d number fresh before =
      absurd (let p = rebuild_ledger-empty in ground arith)
  rebuild_ledger-snoc (x ∷ xs) event l h d number fresh before =
      let longer : DistinctKeys (event_ids (x ∷ xs ++ event ∷ [])) =
        subst (λ ids. DistinctKeys ids) (sym (map-snoc (x ∷ xs) event))
          (DistinctKeys-snoc event.event_id (event_ids (x ∷ xs)) d fresh) in
      sorted-plain x (xs ++ event ∷ []) (Numbered-snoc 1 (x ∷ xs) event h (ground arith)) longer
      ∙ snoc-replay (x ∷ xs) event l
          ((assert_some-ok (replay none (x ∷ xs)) l).0 (sym (sorted-plain x xs h d) ∙ before))
