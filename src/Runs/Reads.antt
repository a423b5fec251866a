-- ===== src/Runs/Reads.antt =====
-- A subscriber hears its run: what it receives and what is in its queue is what the run's stream has
-- more (harness/server/registry.py).
use mathlib.Core.List.{append-nil}
use adk_coding_agent.Prelude.{
  ℕ, String, ◌≡◌, refl, ap, sym, subst, ◌∙◌, Bool, true, false, Option, some, List, [], ◌∷◌, ◌++◌,
  if◌then◌else◌, eqb, eqb_iff, length, arith,
}
use adk_coding_agent.Prelude.Result.{ok, >>=-eq-ok}
use adk_coding_agent.Prelude.Text.{Text}
use adk_coding_agent.Prelude.Keyed.{find_by-key, updated, find_by-update_where, find_by-append}
use adk_coding_agent.Runs.Models.{EventType, ServerEnvelope, EventAppendResult}
use adk_coding_agent.Runs.Store.{Store, Digests}
use adk_coding_agent.Runs.Append.{append_events_with_outcomes, envelopes}
use adk_coding_agent.Runs.Terminal.{Terminal, Expected, terminalize}
use adk_coding_agent.Runs.Broker.{
  Subscription, Broker, received, receive, receive_item, close, new_subscription, subscribe,
  is_subscription, discard, unsubscribe, receive_from,
}
use adk_coding_agent.Runs.Journal.{
  publish_created, publish_results, journal_append, journal_terminalize,
}
use adk_coding_agent.Runs.Moves.{IsRegistry}
use adk_coding_agent.Runs.Streams.{append-Streams, terminalize-Streams}
use adk_coding_agent.Runs.Life.{◌⟶◌, ⟶-Moves}
use adk_coding_agent.Runs.Follows.{
  Server, Follows, journal-Follows, Follows-trans, Follows-idle, other-number, receive-number,
  discard-number, receive_item-received, items, stream_of_run,
}
use adk_coding_agent.Runs.Fanout.{subscription_of, number_of, number_eq}

module _ {E : Type 0} (type : EventType E) (digests : Digests) where
  -- What a server does while one reads the subscription of a number: calls of the store that write no
  -- event, calls of the journal, subscriptions and what is done to others; and what the reader receives.
  pub data Reads (number : ℕ) : Server E → List (ServerEnvelope E) → Server E → Type 0 where
    ends_here : (x : Server E) → Reads number x [] x
    calls :
        (x y : Server E) (t : Store E) (got : List (ServerEnvelope E))
        → ◌⟶◌ type digests x.store t
        → t.events ≡ x.store.events
        → Reads number (record { store = t; broker = x.broker }) got y
        → Reads number x got y
    appends :
        (x y : Server E) (run_id : String) (events : List E) (durable : Bool)
        (session_id invocation_id : Option String) (keys : Option (List (Option String))) (now : ℕ)
        (envelopes : List (ServerEnvelope E)) (t : Store E) (c : Broker E)
        (got : List (ServerEnvelope E))
        → journal_append type x.store x.broker run_id events durable session_id invocation_id keys
            now
          ≡ ok (envelopes, t, c)
        → Reads number (record { store = t; broker = c }) got y
        → Reads number x got y
    ends_run :
        (x y : Server E) (run_id : String) (terminal : Terminal) (event : E) (source_key : String)
        (expected : Expected) (error : Option Text) (now : ℕ) (e : ServerEnvelope E) (t : Store E)
        (c : Broker E) (got : List (ServerEnvelope E))
        → journal_terminalize type x.store x.broker run_id terminal event source_key expected error
            now
          ≡ ok (e, t, c)
        → Reads number (record { store = t; broker = c }) got y
        → Reads number x got y
    subscribes :
        (x y : Server E) (run_id : String) (got : List (ServerEnvelope E))
        → Reads number (record { store = x.store; broker = (subscribe x.broker run_id).1 }) got y
        → Reads number x got y
    others_leave :
        (x y : Server E) (run_id : String) (other : ℕ) (got : List (ServerEnvelope E))
        → eqb number other ≡ false
        → Reads number
            (record { store = x.store; broker = unsubscribe x.broker run_id other })
            got
            y
        → Reads number x got y
    others_receive :
        (x y : Server E) (other : ℕ) (got : List (ServerEnvelope E))
        → eqb number other ≡ false
        → Reads number (record { store = x.store; broker = receive_from x.broker other }) got y
        → Reads number x got y
    receives :
        (x y : Server E) (s : Subscription E) (e : ServerEnvelope E) (got : List (ServerEnvelope E))
        → subscription_of x.broker number ≡ some s
        → (receive s).0 ≡ received e
        → Reads number (record { store = x.store; broker = receive_from x.broker number }) got y
        → Reads number x (e ∷ got) y

  -- A step of the server that the subscription of a number has followed.
  abbrev Took : Server E → Server E → ℕ → List (ServerEnvelope E) → Subscription E → Type 0
  Took x y number got a =
      IsRegistry y.store
      × (z : Subscription E) × (subscription_of y.broker number ≡ some z)
      × Follows x y got a z

  -- The calls of the journal, as steps of the server.
  append-step :
      (x : Server E) (run_id : String) (events : List E) (durable : Bool)
      (session_id invocation_id : Option String) (keys : Option (List (Option String))) (now : ℕ)
      (made : List (ServerEnvelope E)) (t : Store E) (c : Broker E) (number : ℕ)
      (a : Subscription E)
      → IsRegistry x.store
      → subscription_of x.broker number ≡ some a
      → journal_append type x.store x.broker run_id events durable session_id invocation_id keys now
        ≡ ok (made, t, c)
      → Took x (record { store = t; broker = c }) number [] a
  unfolding journal_append
  append-step x run_id events durable session_id invocation_id keys now made t c number a h found
        ret =
      let ((results, after), did, last) =
        >>=-eq-ok
          (append_events_with_outcomes type x.store run_id events durable session_id invocation_id
            keys now)
          (λ ((results, after) : List (EventAppendResult E) × Store E).
            ok (envelopes results, after, publish_results x.broker results))
          ret in
      let store : after ≡ t = ground arith in
      let broker : publish_results x.broker results ≡ c = ground arith in
      let streams =
        append-Streams type x.store after run_id events durable session_id invocation_id keys now
          results h did in
      let (z, there, follows) =
        journal-Follows x.store after x.broker run_id results number a streams found in
      (
        subst IsRegistry store streams.moves.0,
        z,
        ap (λ b. subscription_of b number) (sym broker) ∙ there,
        subst (λ b. Follows x (record { store = t; broker = b }) [] a z) broker
            (subst
              (λ s.
                Follows x (record { store = s; broker = publish_results x.broker results }) [] a z)
              store follows),
      )

  end-step :
      (x : Server E) (run_id : String) (terminal : Terminal) (event : E) (source_key : String)
      (expected : Expected) (error : Option Text) (now : ℕ) (made : ServerEnvelope E) (t : Store E)
      (c : Broker E) (number : ℕ) (a : Subscription E)
      → IsRegistry x.store
      → subscription_of x.broker number ≡ some a
      → journal_terminalize type x.store x.broker run_id terminal event source_key expected error
          now
        ≡ ok (made, t, c)
      → Took x (record { store = t; broker = c }) number [] a
  unfolding journal_terminalize publish_results
  end-step x run_id terminal event source_key expected error now made t c number a h found ret =
      let ((result, after), did, last) =
        >>=-eq-ok (terminalize type x.store run_id terminal event source_key expected error now)
          (λ ((result, after) : EventAppendResult E × Store E).
            ok (result.envelope, after, publish_created x.broker result))
          ret in
      let store : after ≡ t = ground arith in
      let broker : publish_results x.broker (result ∷ []) ≡ c = ground arith in
      let streams =
        terminalize-Streams type x.store after run_id terminal event source_key expected error now
          result h did in
      let (z, there, follows) =
        journal-Follows x.store after x.broker run_id (result ∷ []) number a streams found in
      (
        subst IsRegistry store streams.moves.0,
        z,
        ap (λ b. subscription_of b number) (sym broker) ∙ there,
        subst (λ b. Follows x (record { store = t; broker = b }) [] a z) broker
            (subst
              (λ s.
                Follows x (record { store = s; broker = publish_results x.broker (result ∷ []) }) []
                  a z)
              store follows),
      )

  -- A receive of the reader's own.
  receive-step :
      (x : Server E) (number : ℕ) (a s : Subscription E) (e : ServerEnvelope E)
      → IsRegistry x.store
      → subscription_of x.broker number ≡ some a
      → subscription_of x.broker number ≡ some s
      → (receive s).0 ≡ received e
      → Took x (record { store = x.store; broker = receive_from x.broker number }) number (e ∷ []) a
  unfolding receive_from receive
  receive-step x number a s e h found own took =
      let same : s ≡ a = ground arith in
      let got : (receive_item a.queue a).0 ≡ received e =
        ap (λ (r : Subscription E). (receive_item r.queue r).0) (sym same) ∙ took in
      let (queue, run, attached) = receive_item-received a.queue a e got in
      (
        h,
        (receive_item a.queue a).1,
        find_by-update_where number_of number (is_subscription number)
              (λ (s : Subscription E). (receive s).1) receive-number x.broker.subscriptions
            ∙ ap
                (updated number_of (is_subscription number) (λ (s : Subscription E). (receive s).1))
                found
            ∙ ap (λ t. some (if t then (receive_item a.queue a).1 else a))
                ((eqb_iff a.number number).1
                  (find_by-key number_of number x.broker.subscriptions a found)),
        record {
          same_run = run;
          was_attached = λ z. sym attached ∙ z;
          new = [];
          stream = sym (append-nil (stream_of_run a.run_id x.store));
          queue = λ z. append-nil a.queue ∙ queue;
        },
      )

  after-step :
      (x y w : Server E) (number : ℕ) (got more : List (ServerEnvelope E)) (a : Subscription E)
      → Took x y number got a
      → ((m : Subscription E)
          → IsRegistry y.store
          → subscription_of y.broker number ≡ some m
          → Took y w number more m)
      → Took x w number (got ++ more) a
  after-step x y w number got more a (registry, m, there, first) rest =
      let (last, z, found, second) = rest m registry there in
      (last, z, found, Follows-trans x y w got more a m z first second)

  idle-step :
      (x y : Server E) (number : ℕ) (a : Subscription E)
      → IsRegistry y.store
      → y.store.events ≡ x.store.events
      → subscription_of y.broker number ≡ some a
      → Took x y number [] a
  idle-step x y number a h events found =
      (h, a, found, Follows-idle x y a a events refl (λ z. z) (λ z. refl))

  Reads-Took :
      (number : ℕ) (x y : Server E) (got : List (ServerEnvelope E)) (a : Subscription E)
      → Reads number x got y
      → IsRegistry x.store
      → subscription_of x.broker number ≡ some a
      → Took x y number got a
  unfolding subscribe unsubscribe receive_from
  Reads-Took number u v all a (ends_here x) h found = idle-step x x number a h refl found
  Reads-Took number u v all a (calls x y t got call events rest) h found =
      let next : Server E = record { store = t; broker = x.broker } in
      after-step x next y number [] got a
        (idle-step x next number a (⟶-Moves type digests x.store t call h).0 events found)
        (λ m k there. Reads-Took number next y got m rest k there)
  Reads-Took number u v all a
        (appends x y run_id events durable session_id invocation_id keys now made t c got call rest)
        h found =
      let next : Server E = record { store = t; broker = c } in
      after-step x next y number [] got a
        (append-step x run_id events durable session_id invocation_id keys now made t c number a h
          found call)
        (λ m k there. Reads-Took number next y got m rest k there)
  Reads-Took number u v all a
        (ends_run x y run_id terminal event source_key expected error now made t c got call rest) h
        found =
      let next : Server E = record { store = t; broker = c } in
      after-step x next y number [] got a
        (end-step x run_id terminal event source_key expected error now made t c number a h found
          call)
        (λ m k there. Reads-Took number next y got m rest k there)
  Reads-Took number u v all a (subscribes x y run_id got rest) h found =
      let next : Server E = record { store = x.store; broker = (subscribe x.broker run_id).1 } in
      after-step x next y number [] got a
        (idle-step x next number a h refl (
          find_by-append number_of number x.broker.subscriptions
            (new_subscription (length x.broker.subscriptions) run_id ∷ []) a found))
        (λ m k there. Reads-Took number next y got m rest k there)
  Reads-Took number u v all a (others_leave x y run_id other got differ rest) h found =
      let next : Server E = record {
        store = x.store;
        broker = unsubscribe x.broker run_id other;
      } in
      after-step x next y number [] got a
        (idle-step x next number a h refl (
          other-number x.broker number other (λ s. close false (discard run_id s)) a
            (discard-number run_id) differ found))
        (λ m k there. Reads-Took number next y got m rest k there)
  Reads-Took number u v all a (others_receive x y other got differ rest) h found =
      let next : Server E = record { store = x.store; broker = receive_from x.broker other } in
      after-step x next y number [] got a
        (idle-step x next number a h refl
          (other-number x.broker number other (λ s. (receive s).1) a receive-number differ found))
        (λ m k there. Reads-Took number next y got m rest k there)
  Reads-Took number u v all a (receives x y s e got own took rest) h found =
      let next : Server E = record { store = x.store; broker = receive_from x.broker number } in
      after-step x next y number (e ∷ []) got a (receive-step x number a s e h found own took)
        (λ m k there. Reads-Took number next y got m rest k there)

  -- A subscription with an empty queue, whose reader the server then serves for a while, the journal
  -- appending and ending runs and others coming and going in any order: as long as it is still attached,
  -- what the reader received, followed by what is in the queue, is exactly what the run's stream in the
  -- store has more, in its order.
  pub subscriber-hears :
      (x y : Server E) (number : ℕ) (got : List (ServerEnvelope E)) (a : Subscription E)
      → Reads number x got y
      → IsRegistry x.store
      → subscription_of x.broker number ≡ some a
      → a.queue ≡ []
      → (z : Subscription E) × (new : List (ServerEnvelope E)) × (subscription_of y.broker number
          ≡ some z)
        × (stream_of_run a.run_id y.store ≡ stream_of_run a.run_id x.store ++ new)
        × (z.attached ≡ true → items new ≡ items got ++ z.queue)
  subscriber-hears x y number got a reads h found empty =
      let (registry, z, there, follows) = Reads-Took number x y got a reads h found in
      (
        z,
        follows.new,
        there,
        follows.stream,
        λ still. ap (λ q. q ++ items follows.new) (sym empty) ∙ follows.queue still,
      )
