-- ===== src/Runs/Replay.antt =====
-- `replay_page` and `replay` of `SqliteRunEventStore` (harness/server/registry.py).
use adk_coding_agent.Prelude.{
  ℕ, suc, String, Bool, true, false, ◌&&◌, Option, none, some, List, map, min, max, ltb, leb,
  if◌then◌else◌, length, filter, take,
}
use adk_coding_agent.Prelude.Int.{ℤ, pos, negsuc, pos_part}
use adk_coding_agent.Prelude.Keyed.{string_eq}
use adk_coding_agent.Prelude.Result.{Result, ok, err, value_error, key_error, ◌>>=◌}
use adk_coding_agent.Prelude.Sort.{sort}
use adk_coding_agent.Runs.Models.{RunRecord, ServerEnvelope}
use adk_coding_agent.Runs.Store.{EventRow, Store, get_run}
use adk_coding_agent.Runs.Append.{of_run, max_sequence}

pub record ReplayPage (E : Type 0) : Type 0 where
  pub events : List (ServerEnvelope E)
  pub high_water_sequence : ℕ
  pub has_more : Bool

abbrev pub is_negative : ℤ → Bool
is_negative (pos n) = false
is_negative (negsuc n) = true

abbrev pub is_negative_bound : Option ℤ → Bool
is_negative_bound none = false
is_negative_bound (some bound) = is_negative bound

-- `max(1, min(limit, 10_000))`
abbrev pub bounded_limit : ℤ → ℕ
bounded_limit limit = max 1 (min (pos_part limit) 10000)

abbrev pub effective_high_water : Option ℤ → ℕ → ℕ
effective_high_water none observed = observed
effective_high_water (some bound) observed = min (pos_part bound) observed

module _ {E : Type 0} where
  abbrev pub by_sequence : EventRow E → EventRow E → Bool
  by_sequence a b = leb a.sequence b.sequence

  abbrev pub is_within : String → ℕ → ℕ → EventRow E → Bool
  is_within run_id after high row =
      of_run run_id row && ltb after row.sequence && leb row.sequence high

  -- The `SELECT` of a page, with its `LIMIT`.
  abbrev pub selected_rows : List (EventRow E) → String → ℕ → ℕ → ℕ → List (EventRow E)
  selected_rows rows run_id after high limit =
      take (suc limit) (sort by_sequence (filter (is_within run_id after high) rows))

  abbrev pub envelopes_of : List (EventRow E) → List (ServerEnvelope E)
  envelopes_of rows = map (λ (row : EventRow E). row.envelope) rows

  -- The page of the rows that are read: one more than the limit says that there are more.
  unfoldable pub page_of : List (EventRow E) → ℕ → ℕ → ReplayPage E
  page_of rows high limit =
      let has_more = ltb limit (length rows) in
      record {
        events = envelopes_of (if has_more then take limit rows else rows);
        high_water_sequence = high;
        has_more = has_more;
      }

  -- The page of a run that is looked up.
  unfoldable pub page_found :
      Option RunRecord → List (EventRow E) → ℕ → ℕ → Option ℤ → Result (ReplayPage E)
  unfolding page_of
  page_found none rows after limit bound = err key_error
  page_found (some run) rows after limit bound =
      let high = effective_high_water bound (max_sequence run.run_id rows) in
      ok (page_of (selected_rows rows run.run_id after high limit) high limit)

  unfoldable pub replay_page : Store E → String → ℤ → ℤ → Option ℤ → Result (ReplayPage E)
  unfolding get_run page_found
  replay_page s run_id after_sequence limit high_water_sequence =
      if is_negative after_sequence
      then err value_error
      else if is_negative_bound high_water_sequence
      then err value_error
      else page_found (get_run s run_id) s.events (pos_part after_sequence) (bounded_limit limit)
          high_water_sequence

  unfoldable pub replay : Store E → String → ℤ → ℤ → Result (List (ServerEnvelope E))
  unfolding replay_page
  replay s run_id after_sequence limit =
      replay_page s run_id after_sequence limit none >>= λ page. ok page.events
