-- ===== src/Runs/Fanout.antt =====
-- What the broker does to the queues of the subscriptions (harness/server/registry.py).
use mathlib.Core.List.{append-nil, append_assoc}
use adk_coding_agent.Prelude.{
  ℕ, ◌≤◌, String, ◌≡◌, refl, ap, sym, ◌∙◌, Bool, true, false, Option, some, List, [], ◌∷◌, ◌++◌,
  map, ◌==◌, if◌then◌else◌, filter, find, eqb, eqb_iff, length, length-append, All, All-append,
  arith, Bool-cases, inl, inr,
}
use adk_coding_agent.Prelude.Result.{ok}
use adk_coding_agent.Prelude.Keyed.{Eq, updated, find_by-update_where}
use adk_coding_agent.Prelude.Table.{All-update_where}
use adk_coding_agent.Runs.Models.{ServerEnvelope, EventAppendResult}
use adk_coding_agent.Runs.Broker.{
  Item, envelope, closed_marker, Subscription, Broker, receive, receive_item, close, new_broker,
  new_subscription, subscribe, is_subscription, discard, unsubscribe, hears, has_room, deliver,
  publish, receive_from,
}
use adk_coding_agent.Runs.Journal.{publish_results, created_envelopes}

module _ {E : Type 0} where
  -- What happens at a broker.
  pub data Happens : Broker E → Broker E → Type 0 where
    subscribes : (b : Broker E) (run_id : String) → Happens b (subscribe b run_id).1
    unsubscribes :
        (b : Broker E) (run_id : String) (number : ℕ) → Happens b (unsubscribe b run_id number)
    publishes : (b : Broker E) (e : ServerEnvelope E) → Happens b (publish b e).1
    receives : (b : Broker E) (number : ℕ) → Happens b (receive_from b number)

  pub data Served : Broker E → Type 0 where
    starts : (capacity : ℕ) (b : Broker E) → new_broker capacity ≡ ok b → Served b
    goes_on : (b c : Broker E) → Served b → Happens b c → Served c

  abbrev IsBounded : ℕ → Subscription E → Type 0
  IsBounded capacity s = length s.queue ≤ capacity

  abbrev pub IsBroker : Broker E → Type 0
  IsBroker b = (1 ≤ b.queue_capacity) × All (IsBounded b.queue_capacity) b.subscriptions

  close-IsBounded :
      (capacity : ℕ) (overflowed : Bool) (s : Subscription E)
      → 1 ≤ capacity
      → IsBounded capacity s
      → IsBounded capacity (close overflowed s)
  unfolding close
  close-IsBounded capacity overflowed s c h = ground arith

  receive_item-IsBounded :
      (capacity : ℕ) (items : List (Item E)) (s : Subscription E)
      → length items ≤ capacity
      → IsBounded capacity s
      → IsBounded capacity (receive_item items s).1
  unfolding receive_item
  receive_item-IsBounded capacity [] s l h = h
  receive_item-IsBounded capacity (closed_marker ∷ rest) s l h =
      omega (arith, length-append rest (closed_marker ∷ []))
  receive_item-IsBounded capacity (envelope e ∷ rest) s l h = omega arith

  receive-IsBounded :
      (capacity : ℕ) (s : Subscription E) → IsBounded capacity s → IsBounded capacity (receive s).1
  unfolding receive
  receive-IsBounded capacity s h = receive_item-IsBounded capacity s.queue s h h

  deliver-IsBounded :
      (capacity : ℕ) (e : ServerEnvelope E) (s : Subscription E)
      → 1 ≤ capacity
      → IsBounded capacity s
      → IsBounded capacity (deliver capacity e s)
  unfolding deliver
  deliver-IsBounded capacity e s c h = elim (Bool-cases (has_room capacity s)) [
    | inl room ↦ rw room (ground (arith, length-append s.queue (envelope e ∷ [])))
    | inr full ↦ rw full (close-IsBounded capacity true (record s { attached = false }) c h)
  ]

  Happens-IsBroker : (b c : Broker E) → Happens b c → IsBroker b → IsBroker c
  unfolding subscribe unsubscribe publish receive_from
  Happens-IsBroker x y (subscribes b run_id) h = (
    h.0,
    All-append (IsBounded b.queue_capacity) b.subscriptions
        (new_subscription (length b.subscriptions) run_id ∷ []) h.1 (omega arith, tt),
  )
  Happens-IsBroker x y (unsubscribes b run_id number) h = (
    h.0,
    All-update_where (is_subscription number) (λ s. close false (discard run_id s))
        (λ s p k. close-IsBounded b.queue_capacity false (discard run_id s) h.0 k) b.subscriptions
        h.1,
  )
  Happens-IsBroker x y (publishes b e) h = (
    h.0,
    All-update_where (hears e) (deliver b.queue_capacity e)
        (λ s p k. deliver-IsBounded b.queue_capacity e s h.0 k) b.subscriptions h.1,
  )
  Happens-IsBroker x y (receives b number) h = (
    h.0,
    All-update_where (is_subscription number) (λ s. (receive s).1)
        (λ s p k. receive-IsBounded b.queue_capacity s k) b.subscriptions h.1,
  )

  -- Whatever is subscribed, published, received and left, no queue holds more than the capacity, which
  -- is 1 at least.
  pub queues_bounded : (b : Broker E) → Served b → IsBroker b
  unfolding new_broker
  queues_bounded x (starts capacity b made) = ground arith
  queues_bounded x (goes_on b c r happens) = Happens-IsBroker b c happens (queues_bounded b r)

instance abbrev pub number_eq : Eq ℕ
number_eq = record { beq = eqb; beq_iff = eqb_iff }

module _ {E : Type 0} where
  abbrev pub number_of : Subscription E → ℕ
  number_of s = s.number

  -- The subscription of a number.
  abbrev pub subscription_of : Broker E → ℕ → Option (Subscription E)
  subscription_of b number = find (is_subscription number) b.subscriptions

  -- The envelopes of a list that are of a run.
  abbrev pub envelopes_for : String → List (ServerEnvelope E) → List (ServerEnvelope E)
  envelopes_for run_id = filter (λ (e : ServerEnvelope E). run_id == e.run_id)

  -- A subscription, and what has become of it once envelopes were published: while it is attached, its
  -- queue has those of its run at its end.
  pub record Heard (envelopes : List (ServerEnvelope E)) (a z : Subscription E) : Type 0 where
    pub same_run : z.run_id ≡ a.run_id
    pub was_attached : z.attached ≡ true → a.attached ≡ true
    pub queue :
        z.attached ≡ true
        → z.queue ≡ a.queue ++ map (λ e. envelope e) (envelopes_for a.run_id envelopes)

  deliver-Heard :
      (capacity : ℕ) (e : ServerEnvelope E) (a : Subscription E)
      → Heard (e ∷ []) a (if hears e a then deliver capacity e a else a)
  unfolding deliver close
  deliver-Heard capacity e a = record {
    same_run = ground arith;
    was_attached = λ z. ground arith;
    queue = λ z. ground (arith, append-nil a.queue);
  }

  deliver-number :
      (capacity : ℕ) (e : ServerEnvelope E) (a : Subscription E)
      → (deliver capacity e a).number ≡ a.number
  unfolding deliver close
  deliver-number capacity e a = ground arith

  publish-Heard :
      (b : Broker E) (e : ServerEnvelope E) (number : ℕ) (a : Subscription E)
      → subscription_of b number ≡ some a
      → (z : Subscription E) × (subscription_of (publish b e).1 number ≡ some z)
        × Heard (e ∷ []) a z
  unfolding publish
  publish-Heard b e number a found = (
    if hears e a then deliver b.queue_capacity e a else a,
    find_by-update_where number_of number (hears e) (deliver b.queue_capacity e)
          (deliver-number b.queue_capacity e) b.subscriptions
        ∙ ap (updated number_of (hears e) (deliver b.queue_capacity e)) found,
    deliver-Heard b.queue_capacity e a,
  )

  envelopes_for-append :
      (run_id : String) (xs ys : List (ServerEnvelope E))
      → envelopes_for run_id (xs ++ ys) ≡ envelopes_for run_id xs ++ envelopes_for run_id ys
  envelopes_for-append run_id [] ys = refl
  envelopes_for-append run_id (x ∷ xs) ys = ground (arith, envelopes_for-append run_id xs ys)

  pub map-append :
      (xs ys : List (ServerEnvelope E))
      → map (λ e. envelope e) (xs ++ ys) ≡ map (λ e. envelope e) xs ++ map (λ e. envelope e) ys
  map-append [] ys = refl
  map-append (x ∷ xs) ys = ap (◌∷◌ (envelope x)) (map-append xs ys)

  Heard-refl : (a : Subscription E) → Heard [] a a
  Heard-refl a = record {
    same_run = refl;
    was_attached = λ h. h;
    queue = λ h. sym (append-nil a.queue);
  }

  Heard-trans :
      (xs ys : List (ServerEnvelope E)) (a m z : Subscription E)
      → Heard xs a m
      → Heard ys m z
      → Heard (xs ++ ys) a z
  Heard-trans xs ys a m z f g = record {
    same_run = g.same_run ∙ f.same_run;
    was_attached = λ h. f.was_attached (g.was_attached h);
    queue = λ h.
        g.queue h
        ∙ ap (λ q. q ++ map (λ e. envelope e) (envelopes_for m.run_id ys))
            (f.queue (g.was_attached h))
        ∙ ap
            (λ r.
              (a.queue ++ map (λ e. envelope e) (envelopes_for a.run_id xs))
              ++ map (λ e. envelope e) (envelopes_for r ys))
            f.same_run
        ∙ append_assoc a.queue (map (λ e. envelope e) (envelopes_for a.run_id xs))
            (map (λ e. envelope e) (envelopes_for a.run_id ys))
        ∙ ap (λ q. a.queue ++ q)
            (sym (map-append (envelopes_for a.run_id xs) (envelopes_for a.run_id ys))
              ∙ ap (map (λ e. envelope e)) (sym (envelopes_for-append a.run_id xs ys)));
  }

  -- The publications of a call, one after the other.
  pub publish_results-Heard :
      (b : Broker E) (results : List (EventAppendResult E)) (number : ℕ) (a : Subscription E)
      → subscription_of b number ≡ some a
      → (z : Subscription E) × (subscription_of (publish_results b results) number ≡ some z)
        × Heard (created_envelopes results) a z
  unfolding publish_results
  publish_results-Heard b [] number a found = (a, found, Heard-refl a)
  publish_results-Heard b (result ∷ results) number a found = elim (Bool-cases result.created) [
    | inl new ↦
        let (m, middle, first) = publish-Heard b result.envelope number a found in
        let (z, last, second) =
          publish_results-Heard (publish b result.envelope).1 results number m middle in
        rw new (
          z,
          last,
          Heard-trans (result.envelope ∷ []) (created_envelopes results) a m z first second,
        )
    | inr old ↦ rw old (publish_results-Heard b results number a found)
  ]
