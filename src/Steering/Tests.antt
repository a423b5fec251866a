-- ===== src/Steering/Tests.antt =====
-- Runs of the model of harness/state/steering.py, and its theorems at concrete inputs.
use adk_coding_agent.Prelude.{◌<◌, ◌≡◌, refl, true, false, none, some, [], ◌∷◌, map, arith, length}
use adk_coding_agent.Prelude.Int.{pos, negsuc}
use adk_coding_agent.Prelude.Keyed.{string_eq, mem_key}
use adk_coding_agent.Prelude.Result.{ok, err, value_error, validation_error}
use adk_coding_agent.Prelude.Sort.{sort}
use adk_coding_agent.Prelude.Table.{update_where}
use adk_coding_agent.Prelude.Text.{codes, strip, is_space, utf8_length, text_eq}
use adk_coding_agent.Steering.Message.{
  Message, queued, leased, acked, new_message, validate_content,
}
use adk_coding_agent.Steering.Queue.{
  Row, Queue, find_row, enqueue, lease, ack, release, leased_by, has_pending, list_messages,
  delivery_le,
}
use adk_coding_agent.Steering.Invariant.{IsValid}
use adk_coding_agent.Steering.Retry.{SameMessage, enqueue_retry}
use adk_coding_agent.Steering.Lease.{lease_exclusive, lease_progress}
use adk_coding_agent.Steering.Life.{
  enqueued, leases, acks, Reach, here, next, Reach-IsValid, acked_forever,
}

program : Unit {0}
unfolding enqueue lease ack release leased_by has_pending list_messages new_message validate_content
    strip is_space utf8_length text_eq sort update_where delivery_le
program = tt

abbrev empty : Queue
empty = record { rows = []; changes = [] }

abbrev first : Message
first = record {
  message_id = "m1";
  task_id = "t";
  content = codes "go left";
  priority = pos 0;
  created_at = 5;
  status = queued;
  lease_owner = none;
  lease_until = none;
}

abbrev urgent : Message
urgent = record first {
  message_id = "m2";
  content = codes "stop";
  priority = pos 9;
  created_at = 6;
}

abbrev one : Queue
one = record {
  rows = record { message = first; idempotency_key = some "k" } ∷ [];
  changes = first ∷ [];
}

abbrev two : Queue
two = record {
  rows =
      record { message = first; idempotency_key = some "k" }
      ∷ record { message = urgent; idempotency_key = none }
      ∷ [];
  changes = first ∷ urgent ∷ [];
}

first_message_in :
    enqueue empty 5 "m1" "t" (codes "  go left ") (pos 0) (some "k") ≡ ok (first, one)
unfolding program
first_message_in = refl

enqueue_second : enqueue one 6 "m2" "t" (codes "stop") (pos 9) none ≡ ok (urgent, two)
unfolding program
enqueue_second = refl

enqueue_other : enqueue one 7 "m3" "t" (codes "stop") (pos 0) (some "k") ≡ err value_error
unfolding program
enqueue_other = refl

enqueue_blank : enqueue one 7 "m3" "t" (codes "  ") (pos 0) none ≡ err validation_error
unfolding program
enqueue_blank = refl

enqueue_priority : enqueue one 7 "m3" "t" (codes "x") (negsuc 1000) none ≡ err validation_error
unfolding program
enqueue_priority = refl

abbrev held : Queue
held = (lease two 10 "t" "w" (pos 1) (pos 60)).1

lease_urgent :
    map (λ (m : Message). m.message_id) (lease two 10 "t" "w" (pos 1) (pos 60)).0 ≡ "m2" ∷ []
unfolding program
lease_urgent = refl

lease_again :
    map (λ (m : Message). m.message_id) (lease held 60_000_011 "t" "v" (pos 5) (pos 60)).0
    ≡ "m2" ∷ "m1" ∷ []
unfolding program
lease_again = refl

ack_foreign : (ack held ("m1" ∷ "m2" ∷ []) "v").0 ≡ 0
unfolding program
ack_foreign = refl

ack_own : (ack held ("m1" ∷ "m2" ∷ []) "w").0 ≡ 1
unfolding program
ack_own = refl

empty-IsValid : IsValid empty.rows
empty-IsValid = record { ids = tt; slots = tt; each = tt }

abbrev to_two : Reach empty two
to_two =
    next
      (next here
        (enqueued 5 "m1" "t" (codes "  go left ") (pos 0) (some "k") first first_message_in))
      (enqueued 6 "m2" "t" (codes "stop") (pos 9) none urgent enqueue_second)

two-IsValid : IsValid two.rows
two-IsValid = Reach-IsValid to_two empty-IsValid

held-IsValid : IsValid held.rows
held-IsValid = Reach-IsValid (next to_two (leases 10 "t" "w" (pos 1) (pos 60))) empty-IsValid

abbrev done : Queue
done = (ack held ("m2" ∷ []) "w").1

abbrev acked_row : Row
acked_row = record { message = record urgent { status = acked }; idempotency_key = none }

done_row : find_row "m2" done.rows ≡ some acked_row
unfolding program
done_row = refl

abbrev first_held : Queue
first_held = (lease one 10 "t" "w" (pos 1) (pos 60)).1

enqueue_retry_example :
    (r : Row) × (find_row "m1" first_held.rows ≡ some r)
    × SameMessage first r.message
    × (enqueue first_held 90 "m7" "t" (codes "  go left ") (pos 0) (some "k")
        ≡ ok (r.message, first_held))
enqueue_retry_example =
    enqueue_retry empty 5 "m1" "t" (codes "  go left ") (pos 0) "k" first one 90 "m7" empty-IsValid
      first_message_in (next here (leases 10 "t" "w" (pos 1) (pos 60)))

abbrev held_row : Row
held_row = record {
  message = record urgent {
    status = leased;
    lease_owner = some "w";
    lease_until = some 60_000_010;
  };
  idempotency_key = none;
}

held_found : find_row "m2" held.rows ≡ some held_row
unfolding program
held_found = refl

lease_exclusive_example :
    (find_row "m2" (lease held 20 "t" "v" (pos 5) (pos 60)).1.rows ≡ some held_row)
    × (mem_key "m2" (map (λ (m : Message). m.message_id) (lease held 20 "t" "v" (pos 5) (pos 60)).0)
        ≡ false)
lease_exclusive_example =
    lease_exclusive held 20 "t" "v" (pos 5) (pos 60) held-IsValid "m2" held_row held_found refl

two_pending : has_pending two 10 "t" ≡ true
unfolding program
two_pending = refl

lease_progress_example : 0 < length (lease two 10 "t" "w" (pos 1) (pos 60)).0
lease_progress_example =
    lease_progress two 10 "t" "w" (pos 1) (pos 60) two_pending (λ h. ground arith)

done-IsValid : IsValid done.rows
done-IsValid =
    Reach-IsValid (next (next to_two (leases 10 "t" "w" (pos 1) (pos 60))) (acks ("m2" ∷ []) "w"))
      empty-IsValid

Reach-IsValid_example : IsValid done.rows
Reach-IsValid_example =
    Reach-IsValid (next (next to_two (leases 10 "t" "w" (pos 1) (pos 60))) (acks ("m2" ∷ []) "w"))
      empty-IsValid

acked_forever_example :
    find_row "m2" (lease done 99_000_000 "t" "v" (pos 5) (pos 60)).1.rows ≡ some acked_row
acked_forever_example =
    acked_forever "m2" acked_row (next here (leases 99_000_000 "t" "v" (pos 5) (pos 60)))
      done-IsValid done_row refl
