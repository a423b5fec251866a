-- ===== src/Runs/Follow.antt =====
-- A client that attaches sees the run's events without a gap (harness/server/runtime.py).
use adk_coding_agent.Prelude.{
  ℕ, suc, ◌+◌, ◌-◌, ◌*◌, ◌≤◌, ◌<◌, String, ◌≡◌, refl, ap, sym, subst, ◌∙◌, Bool, true, false, not,
  Option, none, some, List, [], ◌∷◌, ◌++◌, map, leb, drop, if◌then◌else◌, length, length-drop, All,
  All-map, All-filter, arith, Bool-cases, inl, inr, eq_iff,
}
use adk_coding_agent.Prelude.Int.{ℤ, pos, int_le}
use adk_coding_agent.Prelude.Result.{ok}
use adk_coding_agent.Runs.Models.{EventType, RunRecord, ServerEnvelope, is_active}
use adk_coding_agent.Runs.Store.{EventRow, Store, get_run, Digests}
use adk_coding_agent.Runs.Append.{of_run}
use adk_coding_agent.Runs.Replay.{envelopes_of, replay}
use adk_coding_agent.Runs.Rows.{Numbered, IsTable, IsTrue, rows_of}
use adk_coding_agent.Runs.Broker.{Received, received}
use adk_coding_agent.Runs.Life.{
  ◌⟶*◌, here, Reach, Reach-IsRegistry, later-IsRegistry, run_advances, stream_grows,
}
use adk_coding_agent.Runs.Paging.{drop-nil}
use adk_coding_agent.Runs.Paged.{All-drop, HasSnapshot, catch_up-snapshot, drop-drop, Numbered-drop}
use adk_coding_agent.Runs.Attach.{
  Stored, End, caught_up, waits, ended, owned, owned_run, catch_up, live, follow, then_follow,
  or_raise, tail_of, attach,
}

module _ {E : Type 0} (is_final : E → Bool) where
  -- The events up to one that ends the stream.
  abbrev pub until_final : List (ServerEnvelope E) → List (ServerEnvelope E) × End
  until_final [] = ([], waits)
  until_final (e ∷ events) =
      let rest = until_final events in
      if is_final e.event then (e ∷ [], ended) else (e ∷ rest.0, rest.1)

  live-until_final :
      (k c : ℕ) (rows : List (EventRow E))
      → k ≤ c
      → Numbered (suc k) rows
      → All IsTrue rows
      → live is_final (pos c) (map received (envelopes_of rows))
        ≡ until_final (envelopes_of (drop (c - k) rows))
  unfolding live
  live-until_final k c [] l n t = sym (ap (λ l. until_final (envelopes_of l)) (drop-nil (c - k)))
  live-until_final k c (row ∷ rows) l n t =
      let number = t.0.0 ∙ n.0 in
      elim (Bool-cases (leb (suc k) c)) [
        | inl before ↦
            let skips : int_le (pos row.envelope.sequence) (pos c) ≡ true = ground arith in
            let shift : suc (c - suc k) ≡ c - k = ground arith in
            rw skips (
              live-until_final (suc k) c rows (ground arith) n.1 t.1
              ∙ ap (λ i. until_final (envelopes_of (drop i (row ∷ rows)))) shift)
        | inr at ↦
            let takes : int_le (pos row.envelope.sequence) (pos c) ≡ false = ground arith in
            let level : c - k ≡ 0 = ground arith in
            let rest =
              ap (λ i. live is_final (pos i) (map received (envelopes_of rows))) number
              ∙ live-until_final (suc k) (suc k) rows (omega arith) n.1 t.1
              ∙ ap (λ i. until_final (envelopes_of (drop i rows))) (nothing_left (suc k)) in
            rw (takes, level)
              (ap
                (λ (r : List (ServerEnvelope E) × End).
                  if is_final row.envelope.event
                  then (row.envelope ∷ [], ended)
                  else (row.envelope ∷ r.0, r.1))
                rest)
      ]
    where
      nothing_left : (i : ℕ) → i - i ≡ 0
      nothing_left i = omega arith

some_injective : {a b : RunRecord} → ◌≡◌ {A = Option RunRecord} (some a) (some b) → a ≡ b
some_injective h = ground arith

owned-ok :
    (found : Option RunRecord) (run : RunRecord) (user_id : String)
    → found ≡ some run
    → run.user_id ≡ user_id
    → owned found user_id ≡ ok run
unfolding owned
owned-ok none run user_id h u = absurd (ground arith)
owned-ok (some r) run user_id h u = ground (arith, eq_iff r.user_id user_id)

-- The rows of a run with their envelopes, as the registry keeps them.
rows_of-IsTrue :
    {E : Type 0} (rows : List (EventRow E)) (run_id : String)
    → IsTable rows
    → All IsTrue (rows_of run_id rows)
rows_of-IsTrue rows run_id h = All-filter IsTrue (of_run run_id) rows h.envelopes_true

module _ {E : Type 0} (type : EventType E) (digests : Digests) where
  abbrev pub Leads : Store E → Store E → Type 0
  Leads s t = ◌⟶*◌ type digests s t

  -- The stores of later pages.
  abbrev pub AreLater : Store E → List (Store E) → Type 0
  AreLater s stores = All (Leads s) stores

  later-HasSnapshot :
      (s : Store E) (run_id : String) (run : RunRecord) (stores : List (Store E))
      → Reach type digests s
      → get_run s run_id ≡ some run
      → AreLater s stores
      → All (HasSnapshot run_id (rows_of run_id s.events)) stores
  later-HasSnapshot s run_id run stores reached found =
      All-map (Leads s) (HasSnapshot run_id (rows_of run_id s.events))
        (λ t moved.
          let (later, found_later, same) =
            run_advances type digests s t run_id run reached moved found in
          let (more, grown) = stream_grows type digests s t run_id reached moved in
          record {
            registry = later-IsRegistry type digests s t reached moved;
            run = later;
            found = found_later;
            more = more;
            stream = grown;
          })
        stores

  -- The reading of a run page by page, from the events after a cursor, ends: where the first page is
  -- read from a store that calls have led to, the others from any later stores, and the events that are
  -- left at the first page are fewer than a thousand for each store. It then has yielded the events
  -- that the run had at the first page after the cursor, each once and in order.
  pub catch_up-whole :
      (s : Store E) (stores : List (Store E)) (run_id : String) (run : RunRecord) (c : ℕ)
      → Reach type digests s
      → get_run s run_id ≡ some run
      → AreLater s stores
      → length (drop c (rows_of run_id s.events)) < 1000 * suc (length stores)
      → catch_up (s ∷ stores) run_id (pos c) none ≡ (
        envelopes_of (drop c (rows_of run_id s.events)),
        caught_up (pos (c + length (drop c (rows_of run_id s.events)))),
      )
  catch_up-whole s stores run_id run c reached found later enough =
      let registry = Reach-IsRegistry type digests s reached in
      catch_up-snapshot (s ∷ stores) run_id (rows_of run_id s.events) c none
        (later-HasSnapshot s run_id run (s ∷ stores) reached found (here s, later))
        (registry.table.numbered run_id) (rows_of-IsTrue s.events run_id registry.table) refl refl
        refl enough

  follow-live :
      (is_final : E → Bool) (stored : Stored E) (run_id user_id : String) (current : RunRecord)
      (cursor : ℤ) (items : List (Received E))
      → get_run stored.at_status run_id ≡ some current
      → current.user_id ≡ user_id
      → is_active current.status ≡ true
      → follow is_final stored run_id user_id cursor items ≡ live is_final cursor items
  unfolding follow owned_run
  follow-live is_final stored run_id user_id current cursor items found user active =
      ap
        (λ o. or_raise o (λ current.
          if not (is_active current.status)
          then tail_of (replay stored.at_tail run_id cursor (pos 1000))
          else live is_final cursor items))
        (owned-ok (get_run stored.at_status run_id) current user_id found user)
      ∙ ap
          (λ b.
            if not b
            then tail_of (replay stored.at_tail run_id cursor (pos 1000))
            else live is_final cursor items)
          active

  -- A client attaches to its user's run with a cursor that is not past the run's events: the pages are
  -- read from the store of the start and from later ones, as many as are needed, the run is still active
  -- at the check that follows, and the subscription, made when the run had k events or more, gives the
  -- events after the k-th that the run has in a later store. The client sees the events after its cursor
  -- that the run had at the start and then, each once and in order, all the later ones up to the first
  -- that ends the stream.
  pub attach_without_gap :
      (is_final : E → Bool) (s t : Store E) (stored : Stored E) (stores : List (Store E))
      (run_id user_id : String) (run current : RunRecord) (c k : ℕ)
      → Reach type digests s
      → stored.at_pages ≡ s ∷ stores
      → AreLater s stores
      → Leads s stored.at_status
      → Leads s t
      → get_run s run_id ≡ some run
      → run.user_id ≡ user_id
      → get_run stored.at_status run_id ≡ some current
      → is_active current.status ≡ true
      → length (drop c (rows_of run_id s.events)) < 1000 * suc (length stores)
      → c ≤ length (rows_of run_id s.events)
      → k ≤ length (rows_of run_id s.events)
      → let rest =
          until_final is_final
            (envelopes_of (drop (length (rows_of run_id s.events)) (rows_of run_id t.events))) in
        attach is_final s stored run_id user_id
          (pos c)
          (map received (envelopes_of (drop k (rows_of run_id t.events))))
        ≡ (envelopes_of (drop c (rows_of run_id s.events)) ++ rest.0, rest.1)
  unfolding attach owned_run owned follow
  attach_without_gap is_final s t stored stores run_id user_id run current c k reached pages later
        checked moved found mine found_later active enough cursor subscribed =
      let here_rows = rows_of run_id s.events in
      let there_rows = rows_of run_id t.events in
      let table = (later-IsRegistry type digests s t reached moved).table in
      let (later_run, found_run, same) =
        run_advances type digests s stored.at_status run_id run reached checked found in
      let user : current.user_id ≡ user_id =
        ap (λ (r : RunRecord). r.user_id) (some_injective (sym found_later ∙ found_run))
        ∙ ap (λ (r : RunRecord). r.user_id) same.same_run
        ∙ mine in
      let items = map received (envelopes_of (drop k there_rows)) in
      let high : c + length (drop c here_rows) ≡ length here_rows =
        omega (arith, length-drop c here_rows) in
      let caught : catch_up stored.at_pages run_id (pos c) none
          ≡ (envelopes_of (drop c here_rows), caught_up (pos (length here_rows))) =
        ap (λ l. catch_up l run_id (pos c) none) pages
        ∙ catch_up-whole s stores run_id run c reached found later enough
        ∙ ap (λ i. (envelopes_of (drop c here_rows), caught_up (pos i))) high in
      let lived : live is_final (pos (length here_rows)) items
          ≡ until_final is_final (envelopes_of (drop (length here_rows) there_rows)) =
        live-until_final is_final k (length here_rows) (drop k there_rows) subscribed
          (subst (λ i. Numbered (suc i) (drop k there_rows)) (omega arith)
            (Numbered-drop 0 k there_rows (table.numbered run_id)))
          (All-drop IsTrue k there_rows (rows_of-IsTrue t.events run_id table))
        ∙ ap (λ l. until_final is_final (envelopes_of l))
            (drop-drop (length here_rows - k) k there_rows
              ∙ ap (λ i. drop i there_rows) (omega arith)) in
      let followed : follow is_final stored run_id user_id (pos (length here_rows)) items
          ≡ until_final is_final (envelopes_of (drop (length here_rows) there_rows)) =
        follow-live is_final stored run_id user_id current (pos (length here_rows)) items
          found_later user active
        ∙ lived in
      ap
        (λ o. or_raise o (λ run.
          then_follow (catch_up stored.at_pages run_id (pos c) none)
            (λ cursor. follow is_final stored run_id user_id cursor items)))
        (owned-ok (get_run s run_id) run user_id found mine)
      ∙ ap (λ r. then_follow r (λ cursor. follow is_final stored run_id user_id cursor items))
          caught
      ∙ ap (λ (r : List (ServerEnvelope E) × End). (envelopes_of (drop c here_rows) ++ r.0, r.1))
          followed
