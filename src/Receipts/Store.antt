-- ===== src/Receipts/Store.antt =====
-- `ToolReceiptStore` of harness/state/receipts.py. The time of a call is an argument; `saves` is the
-- log of the calls of `on_save`. A call that raises changes nothing.
use adk_coding_agent.Prelude.{
  ℕ, String, ◌≡◌, ◌↔◌, Bool, true, not, ◌&&◌, ◌||◌, Option, none, some, List, [], ◌∷◌, ◌++◌, map,
  eqb, ◌==◌, eq_iff, arith, if◌then◌else◌, length, filter, find,
}
use adk_coding_agent.Prelude.Keyed.{Eq, mem_key, find_by}
use adk_coding_agent.Prelude.Result.{
  Result, ok, err, value_error, key_error, assertion_error, integrity_error, ◌>>=◌,
}
use adk_coding_agent.Prelude.Table.{update_where}
use adk_coding_agent.Prelude.Unique.{Slot, slot, slot_eq, clashes}

pub data Status : Type 0 where
  started completed failed : Status

-- The statuses that `finish` takes.
pub data Outcome : Type 0 where
  success failure : Outcome

abbrev pub status_of : Outcome → Status
status_of success = completed
status_of failure = failed

pub record Receipt : Type 0 where
  pub task_id : String
  pub invocation_id : String
  pub tool_call_id : String
  pub tool_name : String
  pub arguments_hash : String
  pub status : Status
  pub result_hash : Option String
  pub artifact_uri : Option String
  pub side_effect_key : Option String
  pub error : Option String
  pub started_at : ℕ
  pub completed_at : Option ℕ

pub record Store : Type 0 where
  pub rows : List Receipt
  pub saves : List Receipt

-- `PRIMARY KEY (task_id, tool_call_id)`
abbrev pub Key : Type 0
Key = String × String

pub key_beq_iff : (a b : Key) → ((a.0 == b.0 && a.1 == b.1) ≡ true) ↔ (a ≡ b)
key_beq_iff a b = ground (arith, eq_iff a.0 b.0, eq_iff a.1 b.1)

instance abbrev pub key_eq : Eq Key
key_eq = record { beq = λ a b. a.0 == b.0 && a.1 == b.1; beq_iff = key_beq_iff }

abbrev pub row_key : Receipt → Key
row_key r = (r.task_id, r.tool_call_id)

-- `uq_tool_side_effect`: unique where the key is not NULL.
abbrev pub row_slot : Receipt → Slot
row_slot r = slot r.task_id r.side_effect_key

abbrev pub find_row : Key → List Receipt → Option Receipt
find_row = find_by row_key

abbrev pub find_effect : String → Option String → List Receipt → Option Receipt
find_effect task_id side_effect_key =
    find (λ r. slot_eq (slot task_id side_effect_key) (row_slot r))

unfoldable pub get : Store → String → String → Option Receipt
get s task_id tool_call_id = find_row (task_id, tool_call_id) s.rows

abbrev pub save : Receipt → Store → Store
save r s = record s { saves = s.saves ++ r ∷ [] }

-- The row that `begin` inserts.
abbrev pub begun : String → String → String → String → String → Option String → ℕ → Receipt
begun task_id invocation_id tool_call_id tool_name arguments_hash side_effect_key now = record {
  task_id = task_id;
  invocation_id = invocation_id;
  tool_call_id = tool_call_id;
  tool_name = tool_name;
  arguments_hash = arguments_hash;
  status = started;
  result_hash = none;
  artifact_uri = none;
  side_effect_key = side_effect_key;
  error = none;
  started_at = now;
  completed_at = none;
}

abbrev pub or_else : Option Receipt → Option Receipt → Option Receipt
or_else none b = b
or_else (some a) b = some a

-- The handler of `IntegrityError`, on the row that stands in the way.
unfoldable pub existing_receipt : Option Receipt → Receipt → Result Receipt
existing_receipt none r = err integrity_error
existing_receipt (some x) r =
    if not (x.tool_name == r.tool_name) || not (x.arguments_hash == r.arguments_hash)
    then err value_error
    else ok x

-- The receipt of a write, read again and saved.
abbrev pub saved : Option Receipt → Store → Result (Receipt × Store)
saved none s = err assertion_error
saved (some r) s = ok (r, save r s)

unfoldable pub insert_receipt : Store → Receipt → Result (Receipt × Store)
unfolding existing_receipt
insert_receipt s r =
    if mem_key (row_key r) (map row_key s.rows) || clashes (row_slot r) (map row_slot s.rows)
    then existing_receipt
        (or_else (find_row (row_key r) s.rows) (find_effect r.task_id r.side_effect_key s.rows)) r
      >>= (λ x. ok (x, s))
    else saved (find_row (row_key r) (s.rows ++ r ∷ [])) (record s { rows = s.rows ++ r ∷ [] })

unfoldable pub begin :
    Store
    → ℕ
    → String
    → String
    → String
    → String
    → String
    → Option String
    → Result (Receipt × Store)
unfolding insert_receipt
begin s now task_id invocation_id tool_call_id tool_name arguments_hash side_effect_key =
    insert_receipt s
      (begun task_id invocation_id tool_call_id tool_name arguments_hash side_effect_key now)

-- What `finish` writes.
pub record Completion : Type 0 where
  pub outcome : Outcome
  pub result_hash : Option String
  pub artifact_uri : Option String
  pub error : Option String

abbrev pub set_finished : ℕ → Completion → Receipt → Receipt
set_finished now c r = record r {
  status = status_of c.outcome;
  result_hash = c.result_hash;
  artifact_uri = c.artifact_uri;
  error = c.error;
  completed_at = some now;
}

abbrev pub is_call : String → String → Receipt → Bool
is_call task_id tool_call_id r = r.task_id == task_id && r.tool_call_id == tool_call_id

unfoldable pub finish : Store → ℕ → String → String → Completion → Result (Receipt × Store)
finish s now task_id tool_call_id c =
    let rows = update_where (is_call task_id tool_call_id) (set_finished now c) s.rows in
    if eqb (length (filter (is_call task_id tool_call_id) s.rows)) 1
    then saved (find_row (task_id, tool_call_id) rows) (record s { rows = rows })
    else err key_error
