-- ===== src/Runs/Follows.antt =====
-- The queue of a subscription against the stream of its run: the journal, the store and the broker
-- together (harness/server/registry.py).
use mathlib.Core.List.{append-nil, append_assoc}
use adk_coding_agent.Prelude.{
  ℕ, String, ◌≡◌, refl, ap, sym, subst, ◌∙◌, true, false, some, List, [], ◌∷◌, ◌++◌, map, eq_iff,
  if◌then◌else◌, find, eqb, All, arith,
}
use adk_coding_agent.Prelude.Keyed.{find_by-key, updated, find_by-update_where}
use adk_coding_agent.Prelude.Table.{update_where}
use adk_coding_agent.Runs.Models.{ServerEnvelope, EventAppendResult}
use adk_coding_agent.Runs.Store.{EventRow, Store}
use adk_coding_agent.Runs.Replay.{envelopes_of}
use adk_coding_agent.Runs.Broker.{
  Item, envelope, closed_marker, Subscription, Broker, received, receive, receive_item, close,
  is_subscription, discard,
}
use adk_coding_agent.Runs.Journal.{publish_results, created_envelopes}
use adk_coding_agent.Runs.Rows.{IsTrue, rows_of}
use adk_coding_agent.Runs.Streams.{Streams}
use adk_coding_agent.Runs.Fanout.{
  subscription_of, number_of, number_eq, envelopes_for, map-append, publish_results-Heard,
}

-- The store and the broker of a server.
pub record Server (E : Type 0) : Type 0 where
  pub store : Store E
  pub broker : Broker E

module _ {E : Type 0} where
  abbrev pub stream_of_run : String → Store E → List (ServerEnvelope E)
  stream_of_run run_id s = envelopes_of (rows_of run_id s.events)

  abbrev pub items : List (ServerEnvelope E) → List (Item E)
  items = map (λ e. envelope e)

  -- What a run's stream has more, its queue has more, but for what was received.
  pub record Follows (x y : Server E) (got : List (ServerEnvelope E)) (a z : Subscription E)
      : Type 0 where
    pub same_run : z.run_id ≡ a.run_id
    pub was_attached : z.attached ≡ true → a.attached ≡ true
    pub new : List (ServerEnvelope E)
    pub stream : stream_of_run a.run_id y.store ≡ stream_of_run a.run_id x.store ++ new
    pub queue : z.attached ≡ true → a.queue ++ items new ≡ items got ++ z.queue

  -- The rows that a call adds, in the stream of each run.
  added_stream :
      (run_id : String) (rows added : List (EventRow E))
      → All IsTrue added
      → envelopes_of (rows_of run_id (rows ++ added))
        ≡ envelopes_of (rows_of run_id rows) ++ envelopes_for run_id (envelopes_of added)
  added_stream run_id [] [] t = refl
  added_stream run_id [] (row ∷ added) t = ground (
    arith,
    added_stream run_id [] added t.1,
    eq_iff row.run_id run_id,
    eq_iff run_id row.envelope.run_id,
  )
  added_stream run_id (row ∷ rows) added t = ground (arith, added_stream run_id rows added t)

  All-tail : (xs ys : List (EventRow E)) → All IsTrue (xs ++ ys) → All IsTrue ys
  All-tail [] ys h = h
  All-tail (x ∷ xs) ys h = All-tail xs ys h.1

  -- A call of the journal.
  pub journal-Follows :
      (s t : Store E) (b : Broker E) (run_id : String) (results : List (EventAppendResult E))
      (number : ℕ) (a : Subscription E)
      → Streams s t run_id (created_envelopes results)
      → subscription_of b number ≡ some a
      → (z : Subscription E) × (subscription_of (publish_results b results) number ≡ some z)
        × Follows
            (record { store = s; broker = b })
            (record { store = t; broker = publish_results b results })
            []
            a
            z
  journal-Follows s t b run_id results number a streams found =
      let (z, last, heard) = publish_results-Heard b results number a found in
      let table = streams.moves.0.table in
      let rows_true : All IsTrue streams.events.added =
        All-tail s.events streams.events.added
          (subst (All IsTrue) streams.events.tail table.envelopes_true) in
      (
        z,
        last,
        record {
          same_run = heard.same_run;
          was_attached = heard.was_attached;
          new = envelopes_for a.run_id (created_envelopes results);
          stream =
              ap (λ l. envelopes_of (rows_of a.run_id l)) streams.events.tail
              ∙ added_stream a.run_id s.events streams.events.added rows_true
              ∙ ap (λ l. envelopes_of (rows_of a.run_id s.events) ++ envelopes_for a.run_id l)
                  streams.events.created_by;
          queue = λ h. sym (heard.queue h);
        },
      )

  pub Follows-trans :
      (x y w : Server E) (got more : List (ServerEnvelope E)) (a m z : Subscription E)
      → Follows x y got a m
      → Follows y w more m z
      → Follows x w (got ++ more) a z
  Follows-trans x y w got more a m z f g = record {
    same_run = g.same_run ∙ f.same_run;
    was_attached = λ h. f.was_attached (g.was_attached h);
    new = f.new ++ g.new;
    stream =
        ap (λ r. stream_of_run r w.store) (sym f.same_run)
        ∙ g.stream
        ∙ ap (λ r. stream_of_run r y.store ++ g.new) f.same_run
        ∙ ap (λ l. l ++ g.new) f.stream
        ∙ append_assoc (stream_of_run a.run_id x.store) f.new g.new;
    queue = λ h.
        ap (λ l. a.queue ++ l) (map-append f.new g.new)
        ∙ sym (append_assoc a.queue (items f.new) (items g.new))
        ∙ ap (λ l. l ++ items g.new) (f.queue (g.was_attached h))
        ∙ append_assoc (items got) m.queue (items g.new)
        ∙ ap (λ l. items got ++ l) (g.queue h)
        ∙ sym (append_assoc (items got) (items more) z.queue)
        ∙ ap (λ l. l ++ z.queue) (sym (map-append got more));
  }

  pub Follows-idle :
      (x y : Server E) (a z : Subscription E)
      → y.store.events ≡ x.store.events
      → z.run_id ≡ a.run_id
      → (z.attached ≡ true → a.attached ≡ true)
      → (z.attached ≡ true → a.queue ≡ z.queue)
      → Follows x y [] a z
  Follows-idle x y a z events same was q = record {
    same_run = same;
    was_attached = was;
    new = [];
    stream =
        ap (λ l. envelopes_of (rows_of a.run_id l)) events
        ∙ sym (append-nil (stream_of_run a.run_id x.store));
    queue = λ h. append-nil a.queue ∙ q h;
  }

  -- A broker's step that leaves the subscription of the number as it is.
  pub other-number :
      (b : Broker E) (number other : ℕ) (f : Subscription E → Subscription E) (a : Subscription E)
      → ((s : Subscription E) → (f s).number ≡ s.number)
      → eqb number other ≡ false
      → subscription_of b number ≡ some a
      → find (is_subscription number) (update_where (is_subscription other) f b.subscriptions)
        ≡ some a
  other-number b number other f a same differ found =
      let own = find_by-key number_of number b.subscriptions a found in
      find_by-update_where number_of number (is_subscription other) f same b.subscriptions
      ∙ ap (updated number_of (is_subscription other) f) found
      ∙ ap (λ n. some (if eqb n other then f a else a)) own
      ∙ ap (λ t. some (if t then f a else a)) differ

  receive_item-number :
      (queue : List (Item E)) (s : Subscription E) → (receive_item queue s).1.number ≡ s.number
  unfolding receive_item
  receive_item-number [] s = refl
  receive_item-number (closed_marker ∷ rest) s = refl
  receive_item-number (envelope e ∷ rest) s = refl

  pub receive-number : (s : Subscription E) → (receive s).1.number ≡ s.number
  unfolding receive
  receive-number s = receive_item-number s.queue s

  pub discard-number :
      (run_id : String) (s : Subscription E) → (close false (discard run_id s)).number ≡ s.number
  unfolding close
  discard-number run_id s = ground arith

  pub receive_item-received :
      (queue : List (Item E)) (s : Subscription E) (e : ServerEnvelope E)
      → (receive_item queue s).0 ≡ received e
      → (queue ≡ envelope e ∷ (receive_item queue s).1.queue)
        × ((receive_item queue s).1.run_id ≡ s.run_id)
        × ((receive_item queue s).1.attached ≡ s.attached)
  unfolding receive_item
  receive_item-received [] s e h = absurd (ground arith)
  receive_item-received (closed_marker ∷ rest) s e h = absurd (ground arith)
  receive_item-received (envelope x ∷ rest) s e h = (ground arith, refl, refl)
