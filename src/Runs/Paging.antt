-- ===== src/Runs/Paging.antt =====
-- What a page of the replay holds (harness/server/registry.py).
use adk_coding_agent.Prelude.{
  ℕ, zero, suc, ◌-◌, ◌≤◌, String, ◌≡◌, ◌⊎◌, refl, ap, sym, ◌∙◌, Bool, true, false, ◌&&◌, Option,
  none, some, List, [], ◌∷◌, filter, ltb, leb, take, drop, if◌then◌else◌, length, length-take, All,
  arith, Bool-cases, inl, inr,
}
use adk_coding_agent.Prelude.Int.{ℤ, pos, negsuc}
use adk_coding_agent.Prelude.Result.{ok}
use adk_coding_agent.Prelude.Sort.{sort, IsSorted, sort-sorted, IsSorted-filter}
use adk_coding_agent.Runs.Models.{RunRecord}
use adk_coding_agent.Runs.Store.{EventRow, Store, get_run}
use adk_coding_agent.Runs.Replay.{
  ReplayPage, by_sequence, is_within, selected_rows, envelopes_of, page_of, page_found, replay_page,
  effective_high_water, bounded_limit, is_negative_bound,
}
use adk_coding_agent.Runs.Rows.{Numbered, IsTable, rows_of, max_sequence-length}
use adk_coding_agent.Runs.Moves.{IsRegistry, get_run-id}

-- Where a number stands to a bound.
monus-cases :
    (a n : ℕ)
    → ((a - n ≡ 0) × (a ≤ n)) ⊎ ((k : ℕ) × (a - n ≡ suc k) × (a - suc n ≡ k) × (suc n ≤ a))
monus-cases a n = elim (Bool-cases (leb a n)) [
  | inl e ↦ inl (ground arith)
  | inr e ↦ inr (a - suc n, ground arith, refl, ground arith)
]

-- The bound of a snapshot, where one is given that is below the number of the run's events.
abbrev pub capped : Option ℤ → ℕ → ℕ
capped none count = count
capped (some (negsuc n)) count = 0
capped (some (pos n)) count = if leb n count then n else count

capped_lem : (bound : Option ℤ) (count : ℕ) → effective_high_water bound count ≡ capped bound count
capped_lem none count = refl
capped_lem (some (negsuc n)) count = ground arith
capped_lem (some (pos n)) count = ground arith

module _ {E : Type 0} where
  within : ℕ → ℕ → EventRow E → Bool
  within after high row = ltb after row.sequence && leb row.sequence high

  filter-rows_of :
      (run_id : String) (after high : ℕ) (rows : List (EventRow E))
      → filter (is_within run_id after high) rows ≡ filter (within after high) (rows_of run_id rows)
  unfolding within
  filter-rows_of run_id after high [] = refl
  filter-rows_of run_id after high (row ∷ rows) =
      ground (arith, filter-rows_of run_id after high rows)

  from_first :
      (m n : ℕ) (rows : List (EventRow E))
      → m ≤ n
      → Numbered n rows
      → All (λ row. leb m row.sequence ≡ true) rows
  from_first m n [] l h = tt
  from_first m n (row ∷ rows) l h = (ground arith, from_first m (suc n) rows (omega arith) h.1)

  Numbered-IsSorted :
      (n : ℕ) (rows : List (EventRow E)) → Numbered n rows → IsSorted by_sequence rows
  Numbered-IsSorted n [] h = tt
  Numbered-IsSorted n (row ∷ rows) h =
      (from_first row.sequence (suc n) rows (omega arith) h.1, Numbered-IsSorted (suc n) rows h.1)

  take-nil : (n : ℕ) → take {A = EventRow E} n [] ≡ []
  take-nil zero = refl
  take-nil (suc n) = refl

  pub drop-nil : (n : ℕ) → drop {A = EventRow E} n [] ≡ []
  drop-nil zero = refl
  drop-nil (suc n) = refl

  beyond :
      (n after high : ℕ) (rows : List (EventRow E))
      → high ≤ n
      → Numbered (suc n) rows
      → filter (within after high) rows ≡ []
  unfolding within
  beyond n after high [] l h = refl
  beyond n after high (row ∷ rows) l h =
      ground (arith, beyond (suc n) after high rows (omega arith) h.1)

  -- The rows between two numbers are a part of the stream.
  filter-part :
      (n after high : ℕ) (rows : List (EventRow E))
      → Numbered (suc n) rows
      → filter (within after high) rows ≡ drop (after - n) (take (high - n) rows)
  unfolding within
  filter-part n after high [] h =
      sym (ap (drop (after - n)) (take-nil (high - n)) ∙ drop-nil (after - n))
  filter-part n after high (row ∷ rows) h =
      let rest = filter-part (suc n) after high rows h.1 in
      elim (monus-cases high n) [
        | inl (none_left, below) ↦
            beyond n after high (row ∷ rows) below h
            ∙ sym
                (ap (λ k. drop (after - n) (take k (row ∷ rows))) none_left ∙ drop-nil (after - n))
        | inr (k, more, fewer, above) ↦ elim (monus-cases after n) [
          | inl (from_here, low) ↦
              let zero_left : after - suc n ≡ 0 = omega arith in
              let kept : filter (within after high) (row ∷ rows)
                  ≡ row ∷ filter (within after high) rows =
                ground arith in
              kept
              ∙ ap (◌∷◌ row) (
                  rest
                  ∙ ap (λ j. drop j (take (high - suc n) rows)) zero_left
                  ∙ ap (λ j. take j rows) fewer)
              ∙ sym (
                  ap (λ j. drop (after - n) (take j (row ∷ rows))) more
                  ∙ ap (λ j. drop j (row ∷ take k rows)) from_here)
          | inr (j, later, next, past) ↦
              let skipped : filter (within after high) (row ∷ rows)
                  ≡ filter (within after high) rows =
                ground arith in
              skipped
              ∙ rest
              ∙ ap (λ i. drop i (take (high - suc n) rows)) next
              ∙ ap (λ i. drop j (take i rows)) fewer
              ∙ sym (
                  ap (λ i. drop (after - n) (take i (row ∷ rows))) more
                  ∙ ap (λ i. drop i (row ∷ take k rows)) later)
        ]
      ]

  take-take : (n : ℕ) (rows : List (EventRow E)) → take n (take (suc n) rows) ≡ take n rows
  take-take zero rows = refl
  take-take (suc n) [] = refl
  take-take (suc n) (row ∷ rows) = ap (◌∷◌ row) (take-take n rows)

  pub take-short :
      (n : ℕ) (rows : List (EventRow E)) → ltb n (length rows) ≡ false → take n rows ≡ rows
  take-short zero [] h = refl
  take-short zero (row ∷ rows) h = absurd (ground arith)
  take-short (suc n) [] h = refl
  take-short (suc n) (row ∷ rows) h = ap (◌∷◌ row) (take-short n rows (ground arith))

  -- The page that one row more than the limit makes.
  page_of-take :
      (limit high : ℕ) (rows : List (EventRow E))
      → page_of (take (suc limit) rows) high limit ≡ record {
        events = envelopes_of (take limit rows);
        high_water_sequence = high;
        has_more = ltb limit (length rows);
      }
  unfolding page_of
  page_of-take limit high rows =
      let longer : ltb limit (length (take (suc limit) rows)) ≡ ltb limit (length rows) =
        ground (arith, length-take (suc limit) rows) in
      let events : (if ltb limit (length (take (suc limit) rows))
            then take limit (take (suc limit) rows)
            else take (suc limit) rows)
          ≡ take limit rows =
        elim (Bool-cases (ltb limit (length (take (suc limit) rows)))) [
          | inl e ↦ rw e (take-take limit rows)
          | inr e ↦ rw e (sym (take-short limit (take (suc limit) rows) e) ∙ take-take limit rows)
        ] in
      ap
        (λ l. record {
          events = envelopes_of l;
          high_water_sequence = high;
          has_more = ltb limit (length (take (suc limit) rows));
        })
        events
      ∙ ap
          (λ m. record {
            events = envelopes_of (take limit rows);
            high_water_sequence = high;
            has_more = m;
          })
          longer

  -- The part of a run's stream after one number and up to another.
  abbrev pub part_of : List (EventRow E) → String → ℕ → ℕ → List (EventRow E)
  part_of rows run_id after high = drop after (take high (rows_of run_id rows))

  selected-part :
      (rows : List (EventRow E)) (run_id : String) (after high limit : ℕ)
      → IsTable rows
      → selected_rows rows run_id after high limit
        ≡ take (suc limit) (part_of rows run_id after high)
  selected-part rows run_id after high limit h =
      let own = filter-rows_of run_id after high rows in
      ap (take (suc limit)) (
        ap (sort by_sequence) own
        ∙ sort-sorted by_sequence (filter (within after high) (rows_of run_id rows)) (
            IsSorted-filter by_sequence (within after high) (rows_of run_id rows)
              (Numbered-IsSorted 1 (rows_of run_id rows) (h.numbered run_id)))
        ∙ filter-part 0 after high (rows_of run_id rows) (h.numbered run_id)
        ∙ ap (λ i. drop i (take (high - 0) (rows_of run_id rows))) (less_none after)
        ∙ ap (λ i. drop after (take i (rows_of run_id rows))) (less_none high))
    where
      less_none : (n : ℕ) → n - 0 ≡ n
      less_none n = omega arith

  -- The page that a snapshot of the tables promises: of the run's events after the cursor and up to
  -- the high water, the first ones that the limit allows.
  abbrev pub promised_page : List (EventRow E) → String → ℕ → ℕ → ℕ → ReplayPage E
  promised_page rows run_id after limit high = record {
    events = envelopes_of (take limit (part_of rows run_id after high));
    high_water_sequence = high;
    has_more = ltb limit (length (part_of rows run_id after high));
  }

  pub replay_page_lem :
      (s : Store E) (run_id : String) (run : RunRecord) (after : ℕ) (limit : ℤ) (bound : Option ℤ)
      → IsRegistry s
      → get_run s run_id ≡ some run
      → is_negative_bound bound ≡ false
      → replay_page s run_id (pos after) limit bound
        ≡ ok (
            promised_page s.events run_id after
              (bounded_limit limit)
              (effective_high_water bound (length (rows_of run_id s.events))))
  unfolding replay_page page_found
  replay_page_lem s run_id run after limit bound h found sign =
      let same = get_run-id s run_id run found in
      let high = effective_high_water bound (length (rows_of run_id s.events)) in
      rw (sign, found)
        (ap
            (λ i.
              page_found (some (record run { run_id = i })) s.events after (bounded_limit limit)
                bound)
            same
          ∙ ap
              (λ l. ok (
                page_of
                  (selected_rows s.events run_id after (effective_high_water bound l)
                    (bounded_limit limit))
                  (effective_high_water bound l) (bounded_limit limit)))
              (max_sequence-length s.events run_id h.table)
          ∙ ap (λ l. ok (page_of l high (bounded_limit limit)))
              (selected-part s.events run_id after high (bounded_limit limit) h.table)
          ∙ ap ok (page_of-take (bounded_limit limit) high (part_of s.events run_id after high)))

  -- A page of a run in the table is the promised one, its high water the number of the run's events or
  -- the bound that is given, whichever is less.
  pub replay_page-promised :
      (s : Store E) (run_id : String) (run : RunRecord) (after : ℕ) (limit : ℤ) (bound : Option ℤ)
      → IsRegistry s
      → get_run s run_id ≡ some run
      → is_negative_bound bound ≡ false
      → replay_page s run_id (pos after) limit bound
        ≡ ok (
            promised_page s.events run_id after
              (bounded_limit limit)
              (capped bound (length (rows_of run_id s.events))))
  replay_page-promised s run_id run after limit bound h found sign =
      replay_page_lem s run_id run after limit bound h found sign
      ∙ ap (λ high. ok (promised_page s.events run_id after (bounded_limit limit) high))
          (capped_lem bound (length (rows_of run_id s.events)))
