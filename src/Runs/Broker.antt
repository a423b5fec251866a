-- ===== src/Runs/Broker.antt =====
-- `RunEventSubscription` and `RunEventBroker` (harness/server/registry.py). The state has every
-- subscription that was made, under the number of its making; a subscription is in the broker's set
-- for its run while it is attached, and a run without one has no entry in the dictionary. The order
-- of a set is left open by the code: what is done to a subscription depends on no other. A queue is
-- the list of its items, the oldest first; `put_nowait` on a full one raises `QueueFull`.
use adk_coding_agent.Prelude.{
  ℕ, String, Bool, true, false, not, ◌&&◌, ◌||◌, List, [], ◌∷◌, ◌++◌, ltb, eqb, ◌==◌, if◌then◌else◌,
  length, filter,
}
use adk_coding_agent.Prelude.Result.{Result, ok, err, value_error}
use adk_coding_agent.Prelude.Table.{update_where}
use adk_coding_agent.Runs.Models.{ServerEnvelope}

-- What a queue holds: envelopes, and the marker `_CLOSED`.
pub data Item (E : Type 0) : Type 0 where
  envelope : ServerEnvelope E → Item E
  closed_marker : Item E

pub record Subscription (E : Type 0) : Type 0 where
  pub number : ℕ
  pub run_id : String
  pub attached : Bool
  pub queue : List (Item E)
  pub closed : Bool
  pub overflowed : Bool

pub record Broker (E : Type 0) : Type 0 where
  pub queue_capacity : ℕ
  pub subscriptions : List (Subscription E)

-- What a receive gives: an envelope, the end of the iteration, `SubscriberBackpressureError`, or,
-- where the queue is empty, `QueueEmpty` for `receive_nowait` and a wait for `__anext__`.
pub data Received (E : Type 0) : Type 0 where
  received : ServerEnvelope E → Received E
  stopped backpressure nothing : Received E

module _ {E : Type 0} where
  -- A receive, by the items of the queue.
  unfoldable pub receive_item : List (Item E) → Subscription E → Received E × Subscription E
  receive_item [] s = (nothing, s)
  receive_item (closed_marker ∷ rest) s = (
    if s.overflowed then backpressure else stopped,
    record s { queue = rest ++ closed_marker ∷ [] },
  )
  receive_item (envelope e ∷ rest) s = (received e, record s { queue = rest })

  unfoldable pub receive : Subscription E → Received E × Subscription E
  unfolding receive_item
  receive s = receive_item s.queue s

  -- `_close`, of which the last put has room: the queue is drained.
  unfoldable pub close : Bool → Subscription E → Subscription E
  close overflowed s =
      if s.closed
      then record s { overflowed = s.overflowed || overflowed }
      else record s { closed = true; overflowed = overflowed; queue = closed_marker ∷ [] }

  unfoldable pub new_broker : ℕ → Result (Broker E)
  new_broker queue_capacity =
      if ltb queue_capacity 1
      then err value_error
      else ok (record { queue_capacity = queue_capacity; subscriptions = [] })

  abbrev pub new_subscription : ℕ → String → Subscription E
  new_subscription number run_id = record {
    number = number;
    run_id = run_id;
    attached = true;
    queue = [];
    closed = false;
    overflowed = false;
  }

  unfoldable pub subscribe : Broker E → String → Subscription E × Broker E
  subscribe b run_id =
      let s = new_subscription (length b.subscriptions) run_id in
      (s, record b { subscriptions = b.subscriptions ++ s ∷ [] })

  abbrev pub is_subscription : ℕ → Subscription E → Bool
  is_subscription number s = eqb s.number number

  -- `discard` from the set of the run, which holds the subscription if it was made for that run.
  abbrev pub discard : String → Subscription E → Subscription E
  discard run_id s = record s { attached = s.attached && not (s.run_id == run_id) }

  unfoldable pub unsubscribe : Broker E → String → ℕ → Broker E
  unfolding close
  unsubscribe b run_id number = record b {
    subscriptions =
        update_where (is_subscription number) (λ s. close false (discard run_id s)) b.subscriptions;
  }

  -- The subscriptions that an envelope goes to.
  abbrev pub hears : ServerEnvelope E → Subscription E → Bool
  hears e s = s.attached && s.run_id == e.run_id

  abbrev pub has_room : ℕ → Subscription E → Bool
  has_room capacity s = ltb (length s.queue) capacity

  -- What `publish` does to one subscription: the put, or the removal of one that is full.
  unfoldable pub deliver : ℕ → ServerEnvelope E → Subscription E → Subscription E
  unfolding close
  deliver capacity e s =
      if has_room capacity s
      then record s { queue = s.queue ++ envelope e ∷ [] }
      else close true (record s { attached = false })

  -- `publish`, with the number of the queues that took the envelope.
  unfoldable pub publish : Broker E → ServerEnvelope E → ℕ × Broker E
  unfolding deliver
  publish b e = (
    length (filter (λ s. hears e s && has_room b.queue_capacity s) b.subscriptions),
    record b {
      subscriptions = update_where (hears e) (deliver b.queue_capacity e) b.subscriptions;
    },
  )

  -- A receive on the subscription of a number.
  unfoldable pub receive_from : Broker E → ℕ → Broker E
  unfolding receive
  receive_from b number = record b {
    subscriptions = update_where (is_subscription number) (λ s. (receive s).1) b.subscriptions;
  }
