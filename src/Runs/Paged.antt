-- ===== src/Runs/Paged.antt =====
-- The pages of a replay join to the run's stream, whatever happens between them
-- (harness/server/runtime.py, harness/server/registry.py).
use adk_coding_agent.Prelude.{
  ℕ, zero, suc, ◌+◌, ◌*◌, ◌<◌, String, ◌≡◌, refl, ap, sym, subst, ◌∙◌, true, false, Option, some,
  List, [], ◌∷◌, ◌++◌, ltb, ltb→lt, take, drop, length, length-take, length-drop, length-append,
  take-append-drop, All, All-take, arith, Bool-cases, inl, inr,
}
use adk_coding_agent.Prelude.Int.{ℤ, pos}
use adk_coding_agent.Prelude.Result.{ok}
use adk_coding_agent.Runs.Models.{RunRecord, ServerEnvelope}
use adk_coding_agent.Runs.Store.{EventRow, Store, get_run}
use adk_coding_agent.Runs.Replay.{
  ReplayPage, envelopes_of, replay_page, effective_high_water, is_negative_bound,
}
use adk_coding_agent.Runs.Rows.{Numbered, IsTrue, rows_of}
use adk_coding_agent.Runs.Moves.{IsRegistry}
use adk_coding_agent.Runs.Paging.{part_of, drop-nil, take-short, promised_page, replay_page_lem}
use adk_coding_agent.Runs.Attach.{turn, catch_up, caught_up, End, last_sequence, kept_high}

module _ {E : Type 0} where
  last-Numbered :
      (n : ℕ) (rows : List (EventRow E))
      → Numbered (suc n) rows
      → All IsTrue rows
      → last_sequence (pos n) (envelopes_of rows) ≡ pos (n + length rows)
  last-Numbered n [] h t = ap pos (omega arith)
  last-Numbered n (row ∷ rows) h t =
      ap (λ i. last_sequence (pos i) (envelopes_of rows)) (t.0.0 ∙ h.0)
      ∙ last-Numbered (suc n) rows h.1 t.1
      ∙ ap pos (omega arith)

  pub Numbered-drop :
      (n c : ℕ) (rows : List (EventRow E))
      → Numbered (suc n) rows
      → Numbered (suc (n + c)) (drop c rows)
  Numbered-drop n zero rows h = subst (λ i. Numbered (suc i) rows) (omega arith) h
  Numbered-drop n (suc c) [] h = tt
  Numbered-drop n (suc c) (row ∷ rows) h =
      subst (λ i. Numbered (suc i) (drop c rows)) (omega arith) (Numbered-drop (suc n) c rows h.1)

  Numbered-take : (n k : ℕ) (rows : List (EventRow E)) → Numbered n rows → Numbered n (take k rows)
  Numbered-take n zero rows h = tt
  Numbered-take n (suc k) [] h = tt
  Numbered-take n (suc k) (row ∷ rows) h = (h.0, Numbered-take (suc n) k rows h.1)

  pub All-drop :
      (P : EventRow E → Type 0) (n : ℕ) (rows : List (EventRow E))
      → All P rows
      → All P (drop n rows)
  All-drop P zero rows h = h
  All-drop P (suc n) [] h = tt
  All-drop P (suc n) (row ∷ rows) h = All-drop P n rows h.1

  pub drop-drop : (m n : ℕ) (rows : List (EventRow E)) → drop m (drop n rows) ≡ drop (n + m) rows
  drop-drop m zero rows = ap (λ i. drop i rows) (omega arith)
  drop-drop m (suc n) [] = drop-nil m ∙ sym (drop-nil (suc n + m))
  drop-drop m (suc n) (row ∷ rows) = drop-drop m n rows ∙ ap (λ i. drop i (row ∷ rows)) (shift n m)
    where
      shift : (n m : ℕ) → suc (n + m) ≡ suc n + m
      shift n m = omega arith

  envelopes_of-append :
      (xs ys : List (EventRow E)) → envelopes_of (xs ++ ys) ≡ envelopes_of xs ++ envelopes_of ys
  envelopes_of-append [] ys = refl
  envelopes_of-append (x ∷ xs) ys = ap (◌∷◌ x.envelope) (envelopes_of-append xs ys)

  -- The store that a page is read from: a registry with the run, whose stream begins with the snapshot.
  pub record HasSnapshot (run_id : String) (snapshot : List (EventRow E)) (s : Store E)
      : Type 0 where
    pub registry : IsRegistry s
    pub run : RunRecord
    pub found : get_run s run_id ≡ some run
    pub more : List (EventRow E)
    pub stream : rows_of run_id s.events ≡ snapshot ++ more

  take-append : (xs ys : List (EventRow E)) → take (length xs) (xs ++ ys) ≡ xs
  take-append [] ys = refl
  take-append (x ∷ xs) ys = ap (◌∷◌ x) (take-append xs ys)

  -- A page of the snapshot.
  snapshot_page :
      (run_id : String) (snapshot : List (EventRow E)) (s : Store E) (c : ℕ) (bound : Option ℤ)
      → HasSnapshot run_id snapshot s
      → is_negative_bound bound ≡ false
      → effective_high_water bound (length (rows_of run_id s.events)) ≡ length snapshot
      → replay_page s run_id (pos c) (pos 1000) bound
        ≡ ok (record {
          events = envelopes_of (take 1000 (drop c snapshot));
          high_water_sequence = length snapshot;
          has_more = ltb 1000 (length (drop c snapshot));
        })
  snapshot_page run_id snapshot s c bound h sign high =
      let part : part_of s.events run_id c (length snapshot) ≡ drop c snapshot =
        ap (λ l. drop c (take (length snapshot) l)) h.stream
        ∙ ap (drop c) (take-append snapshot h.more) in
      replay_page_lem s run_id h.run c (pos 1000) bound h.registry h.found sign
      ∙ ap (λ l. ok (promised_page s.events run_id c 1000 l)) high
      ∙ ap
          (λ l. ok (record {
            events = envelopes_of (take 1000 l);
            high_water_sequence = length snapshot;
            has_more = ltb 1000 (length l);
          }))
          part

  -- What one page leaves to the next.
  split_page :
      (c : ℕ) (snapshot : List (EventRow E))
      → envelopes_of (take 1000 (drop c snapshot)) ++ envelopes_of (drop (c + 1000) snapshot)
        ≡ envelopes_of (drop c snapshot)
  split_page c snapshot =
      ap (λ l. envelopes_of (take 1000 (drop c snapshot)) ++ envelopes_of l)
        (sym (drop-drop 1000 c snapshot))
      ∙ sym (envelopes_of-append (take 1000 (drop c snapshot)) (drop 1000 (drop c snapshot)))
      ∙ ap envelopes_of (take-append-drop 1000 (drop c snapshot))

  page_cursor :
      (c n : ℕ) (snapshot : List (EventRow E))
      → Numbered 1 snapshot
      → All IsTrue snapshot
      → last_sequence (pos c) (envelopes_of (take n (drop c snapshot)))
        ≡ pos (c + length (take n (drop c snapshot)))
  page_cursor c n snapshot h t =
      last-Numbered c (take n (drop c snapshot))
        (Numbered-take (suc c) n (drop c snapshot) (
          subst (λ i. Numbered (suc i) (drop c snapshot)) (omega arith)
            (Numbered-drop 0 c snapshot h)))
        (All-take IsTrue n (drop c snapshot) (All-drop IsTrue c snapshot t))

  full_page :
      (n : ℕ) (rows : List (EventRow E)) → ltb n (length rows) ≡ true → length (take n rows) ≡ n
  full_page n rows h = let longer = ltb→lt n (length rows) h in length-take n rows ∙ (omega arith)

  fewer_left :
      (c m : ℕ) (snapshot : List (EventRow E))
      → ltb 1000 (length (drop c snapshot)) ≡ true
      → length (drop c snapshot) < 1000 * suc m
      → (length (drop (c + 1000) snapshot) < 1000 * m)
        × (c + 1000 + length (drop (c + 1000) snapshot) ≡ c + length (drop c snapshot))
  fewer_left c m snapshot more enough =
      let here = length-drop c snapshot in
      let there = length-drop (c + 1000) snapshot in
      let past = ltb→lt 1000 (length (drop c snapshot)) more in (omega arith, omega arith)

  -- The high water of the first page is the length of the snapshot.
  abbrev FirstHigh : String → List (EventRow E) → Option ℤ → List (Store E) → Type 0
  FirstHigh run_id snapshot bound [] = Unit
  FirstHigh run_id snapshot bound (s ∷ stores) =
      effective_high_water bound (length (rows_of run_id s.events)) ≡ length snapshot

  later_high :
      (run_id : String) (snapshot : List (EventRow E)) (stores : List (Store E))
      → All (HasSnapshot run_id snapshot) stores
      → FirstHigh run_id snapshot (some (pos (length snapshot))) stores
  later_high run_id snapshot [] h = tt
  later_high run_id snapshot (s ∷ stores) h =
      omega (arith, ap length h.0.stream, length-append snapshot h.0.more)

  pub catch_up-snapshot :
      (stores : List (Store E)) (run_id : String) (snapshot : List (EventRow E)) (c : ℕ)
      (bound : Option ℤ)
      → All (HasSnapshot run_id snapshot) stores
      → Numbered 1 snapshot
      → All IsTrue snapshot
      → is_negative_bound bound ≡ false
      → FirstHigh run_id snapshot bound stores
      → kept_high bound (length snapshot) ≡ pos (length snapshot)
      → length (drop c snapshot) < 1000 * length stores
      → catch_up stores run_id (pos c) bound
        ≡ (envelopes_of (drop c snapshot), caught_up (pos (c + length (drop c snapshot))))
  unfolding catch_up
  catch_up-snapshot [] run_id snapshot c bound h n t sign high kept enough = absurd (omega arith)
  catch_up-snapshot (s ∷ stores) run_id snapshot c bound h n t sign high kept enough =
      let rest = λ (page : ReplayPage E).
        catch_up stores run_id (last_sequence (pos c) page.events)
          (some (kept_high bound page.high_water_sequence)) in
      let cursor = page_cursor c 1000 snapshot n t in
      let page : ReplayPage E = record {
        events = envelopes_of (take 1000 (drop c snapshot));
        high_water_sequence = length snapshot;
        has_more = ltb 1000 (length (drop c snapshot));
      } in
      ap (λ r. turn (pos c) r rest) (snapshot_page run_id snapshot s c bound h.0 sign high)
      ∙ elim (Bool-cases (ltb 1000 (length (drop c snapshot)))) [
        | inl more ↦
            let full = ap (λ i. c + i) (full_page 1000 (drop c snapshot) more) in
            let (enough_left, last) = fewer_left c (length stores) snapshot more enough in
            let after : rest page ≡ (
              envelopes_of (drop (c + 1000) snapshot),
              caught_up (pos (c + 1000 + length (drop (c + 1000) snapshot))),
            ) =
              ap (λ i. catch_up stores run_id i (some (kept_high bound (length snapshot))))
                (cursor ∙ ap pos full)
              ∙ ap (λ i. catch_up stores run_id (pos (c + 1000)) (some i)) kept
              ∙ catch_up-snapshot stores run_id snapshot (c + 1000) (some (pos (length snapshot)))
                  h.1 n t refl (later_high run_id snapshot stores h.1) refl enough_left in
            rw more (
              ap
                (λ (r : List (ServerEnvelope E) × End).
                  (envelopes_of (take 1000 (drop c snapshot)) ++ r.0, r.1))
                after
              ∙ ap (λ l. (l, caught_up (pos (c + 1000 + length (drop (c + 1000) snapshot)))))
                  (split_page c snapshot)
              ∙ ap (λ i. (envelopes_of (drop c snapshot), caught_up (pos i))) last)
        | inr done ↦ rw done (
            ap (λ i. (envelopes_of (take 1000 (drop c snapshot)), caught_up i)) cursor
            ∙ ap (λ l. (envelopes_of l, caught_up (pos (c + length l))))
                (take-short 1000 (drop c snapshot) done))
      ]
