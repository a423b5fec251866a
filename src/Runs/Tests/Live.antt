-- ===== src/Runs/Tests/Live.antt =====
-- A broker and a journal at work, at which the theorems on the live events apply.
use adk_coding_agent.Prelude.{◌≡◌, refl, true, false, none, some, List, [], ◌∷◌, ◌++◌, String}
use adk_coding_agent.Prelude.Keyed.{string_eq}
use adk_coding_agent.Prelude.Result.{ok}
use adk_coding_agent.Prelude.Table.{update_where}
use adk_coding_agent.Runs.Models.{ServerEnvelope}
use adk_coding_agent.Runs.Store.{get_run}
use adk_coding_agent.Runs.Append.{
  append_one, append_loop, append_transaction, checked_append, append_events_with_outcomes,
}
use adk_coding_agent.Runs.Broker.{
  Broker, Subscription, closed_marker, close, new_subscription, new_broker, subscribe, publish,
  deliver, received, receive_item, receive, receive_from,
}
use adk_coding_agent.Runs.Journal.{publish_results, journal_append}
use adk_coding_agent.Runs.Life.{Reach-IsRegistry}
use adk_coding_agent.Runs.Fanout.{
  subscription_of, Served, starts, goes_on, publishes, IsBroker, queues_bounded,
}
use adk_coding_agent.Runs.Fanout
use adk_coding_agent.Runs.Follows.{Server, items, stream_of_run}
use adk_coding_agent.Runs.Reads.{Reads, ends_here, appends, receives, subscriber-hears}
use adk_coding_agent.Runs.Tests.{
  text_events, the_digests, an_envelope, started_store, written_store, two_keys, reach_started,
}

-- A broker with queues of two items and a subscription to the run.
abbrev empty_broker : Broker String
empty_broker = record { queue_capacity = 2; subscriptions = [] }

abbrev a_subscription : Subscription String
a_subscription = new_subscription 0 "r1"

abbrev a_broker : Broker String
a_broker = record { queue_capacity = 2; subscriptions = a_subscription ∷ [] }

abbrev two_queued : Broker String
two_queued = record {
  queue_capacity = 2;
  subscriptions =
      record a_subscription { queue = items (an_envelope 1 "one" ∷ an_envelope 2 "two" ∷ []) } ∷ [];
}

served : Served a_broker
unfolding subscribe new_broker
served =
    goes_on empty_broker a_broker (starts 2 empty_broker refl) (Fanout.subscribes empty_broker "r1")

after_two : Served two_queued
unfolding publish deliver update_where
after_two =
    goes_on (publish a_broker (an_envelope 1 "one")).1 two_queued
      (goes_on a_broker (publish a_broker (an_envelope 1 "one")).1 served
        (publishes a_broker (an_envelope 1 "one")))
      (publishes (publish a_broker (an_envelope 1 "one")).1 (an_envelope 2 "two"))

-- A third event finds the queue full: the subscription is closed and told of the overflow.
overflow :
    (publish two_queued (an_envelope 3 "end")).1.subscriptions
    ≡ record a_subscription {
      attached = false;
      queue = closed_marker ∷ [];
      closed = true;
      overflowed = true;
    }
      ∷ []
unfolding publish deliver close update_where
overflow = refl

abbrev at_start : Server String
at_start = record { store = started_store; broker = a_broker }

abbrev at_write : Server String
at_write = record { store = written_store; broker = two_queued }

abbrev at_read : Server String
at_read = record { store = written_store; broker = receive_from two_queued 0 }

journaled :
    journal_append text_events started_store a_broker "r1"
      ("one" ∷ "two" ∷ [])
      true
      none
      none
      two_keys
      7
    ≡ ok (an_envelope 1 "one" ∷ an_envelope 2 "two" ∷ [], written_store, two_queued)
unfolding journal_append append_events_with_outcomes checked_append append_transaction append_loop
    append_one get_run publish_results publish deliver update_where
journaled = refl

abbrev full_subscription : Subscription String
full_subscription = record a_subscription {
  queue = items (an_envelope 1 "one" ∷ an_envelope 2 "two" ∷ []);
}

taken : (receive full_subscription).0 ≡ received (an_envelope 1 "one")
unfolding receive receive_item
taken = refl

reading : Reads text_events the_digests 0 at_start (an_envelope 1 "one" ∷ []) at_read
reading =
    appends at_start at_read "r1" ("one" ∷ "two" ∷ []) true none none two_keys 7
      (an_envelope 1 "one" ∷ an_envelope 2 "two" ∷ []) written_store two_queued
      (an_envelope 1 "one" ∷ []) journaled
      (receives at_write at_read full_subscription (an_envelope 1 "one") [] refl taken
        (ends_here at_read))

subscriber-hears_example :
    (z : Subscription String) × (new : List (ServerEnvelope String)) × (subscription_of
        at_read.broker 0
      ≡ some z)
    × (stream_of_run "r1" written_store ≡ stream_of_run "r1" started_store ++ new)
    × (z.attached ≡ true → items new ≡ items (an_envelope 1 "one" ∷ []) ++ z.queue)
subscriber-hears_example =
    subscriber-hears text_events the_digests at_start at_read 0 (an_envelope 1 "one" ∷ [])
      a_subscription reading (Reach-IsRegistry text_events the_digests started_store reach_started)
      refl refl
