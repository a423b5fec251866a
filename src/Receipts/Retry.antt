-- ===== src/Receipts/Retry.antt =====
-- At most one receipt for a tool call and for a side effect, whatever is retried.
use adk_coding_agent.Prelude.{
  ℕ, String, ◌≡◌, refl, ap, ◌∙◌, Bool, true, false, Option, none, some, List, [], ◌∷◌, ◌++◌,
  eq_refl, arith, if◌then◌else◌, Bool-cases, Option-cases, inl, inr, ◌⊎◌,
}
use adk_coding_agent.Prelude.Keyed.{
  find_by-append, find_by-update_where, find_by-key, updated, count-present, count-absent,
  find_by-none_mem,
}
use adk_coding_agent.Prelude.Result.{ok, err, value_error, key_error}
use adk_coding_agent.Prelude.Table.{update_where, map-update_where}
use adk_coding_agent.Receipts.Store.{
  Receipt, Store, Completion, Key, key_eq, row_key, row_slot, find_row, find_effect, or_else,
  insert_receipt, begin, begun, finish, get, save, set_finished, is_call,
}
use adk_coding_agent.Receipts.Once.{
  IsValid, same_call, conflict, conflict-known, inserts-fresh, inserts-known, insert-IsValid,
}

-- The table after the `UPDATE` of `finish`.
abbrev pub finished : Store → ℕ → String → String → Completion → Store
finished s now task_id tool_call_id c = record s {
  rows = update_where (is_call task_id tool_call_id) (set_finished now c) s.rows;
}

finish-found :
    (s : Store) (now : ℕ) (task_id tool_call_id : String) (c : Completion) (r : Receipt)
    → IsValid s.rows
    → find_row (task_id, tool_call_id) s.rows ≡ some r
    → (find_row (task_id, tool_call_id) (finished s now task_id tool_call_id c).rows
        ≡ some (set_finished now c r))
      × (finish s now task_id tool_call_id c
          ≡ ok (
            set_finished now c r,
            save (set_finished now c r) (finished s now task_id tool_call_id c),
          ))
unfolding finish
finish-found s now task_id tool_call_id c r v h =
    let look =
      find_by-update_where row_key (task_id, tool_call_id) (is_call task_id tool_call_id)
        (set_finished now c) (λ x. refl) s.rows in
    let hit =
      (key_eq.beq_iff (row_key r) (task_id, tool_call_id)).1
        (find_by-key row_key (task_id, tool_call_id) s.rows r h) in
    let at =
      look ∙ ap (updated row_key (is_call task_id tool_call_id) (set_finished now c)) h ∙ rw hit in
    (at, rw (count-present row_key (task_id, tool_call_id) s.rows r v.keys h) (rw at))

finish-missing :
    (s : Store) (now : ℕ) (task_id tool_call_id : String) (c : Completion)
    → find_row (task_id, tool_call_id) s.rows ≡ none
    → finish s now task_id tool_call_id c ≡ err key_error
unfolding finish
finish-missing s now task_id tool_call_id c h = rw (
    count-absent row_key (task_id, tool_call_id) s.rows
      (find_by-none_mem row_key (task_id, tool_call_id) s.rows h))

module _ (s : Store) (now : ℕ)
    (task_id invocation_id tool_call_id tool_name arguments_hash : String)
    (side_effect_key : Option String) where
  -- `begin` has three outcomes. Where a receipt of the task has the tool call, or else the side
  -- effect's key, that receipt is returned if the tool and the arguments are the same and ValueError
  -- is raised if they are not, and in both cases nothing is written. Where there is none, a started
  -- receipt is added and returned. So the sqlite error and the assertion of the source never escape.
  pub begin_lem :
      let r =
        begun task_id invocation_id tool_call_id tool_name arguments_hash side_effect_key now in
      let result =
        begin s now task_id invocation_id tool_call_id tool_name arguments_hash side_effect_key in
      ((x : Receipt)
        → or_else
            (find_row (task_id, tool_call_id) s.rows)
            (find_effect task_id side_effect_key s.rows)
          ≡ some x
        → result ≡ (if same_call x r then ok (x, s) else err value_error))
      × (or_else
              (find_row (task_id, tool_call_id) s.rows)
              (find_effect task_id side_effect_key s.rows)
            ≡ none
          → result ≡ ok (r, save r (record s { rows = s.rows ++ r ∷ [] })))
  unfolding begin
  begin_lem =
      let r =
        begun task_id invocation_id tool_call_id tool_name arguments_hash side_effect_key now in
      (
        λ x k. inserts-known s r x k,
        λ k. elim (Bool-cases (conflict r s.rows)) [
          | inl c ↦ let (x, found) = conflict-known r s.rows c in absurd (ground arith)
          | inr c ↦ inserts-fresh s r c
        ],
      )

-- `finish` writes the outcome to the receipt of the call and returns it, or raises KeyError where the
-- call has none.
pub finish_lem :
    (s : Store) (now : ℕ) (task_id tool_call_id : String) (c : Completion)
    → IsValid s.rows
    → ((r : Receipt)
        → get s task_id tool_call_id ≡ some r
        → finish s now task_id tool_call_id c
          ≡ ok (
            set_finished now c r,
            save (set_finished now c r) (finished s now task_id tool_call_id c),
          ))
      × (get s task_id tool_call_id ≡ none → finish s now task_id tool_call_id c ≡ err key_error)
unfolding get
finish_lem s now task_id tool_call_id c v = (
  λ r h. (finish-found s now task_id tool_call_id c r v h).1,
  λ h. finish-missing s now task_id tool_call_id c h,
)

pub data Step : Store → Store → Type 0 where
  begins :
      {s s' : Store} (now : ℕ)
      (task_id invocation_id tool_call_id tool_name arguments_hash : String)
      (side_effect_key : Option String) (x : Receipt)
      → begin s now task_id invocation_id tool_call_id tool_name arguments_hash side_effect_key
        ≡ ok (x, s')
      → Step s s'
  finishes :
      {s s' : Store} (now : ℕ) (task_id tool_call_id : String) (c : Completion) (x : Receipt)
      → finish s now task_id tool_call_id c ≡ ok (x, s')
      → Step s s'

pub data Reach (s : Store) : Store → Type 0 where
  here : Reach s s
  next : {t u : Store} → Reach s t → Step t u → Reach s u

finished-IsValid :
    (s : Store) (now : ℕ) (task_id tool_call_id : String) (c : Completion)
    → IsValid s.rows
    → IsValid (finished s now task_id tool_call_id c).rows
finished-IsValid s now task_id tool_call_id c v = record {
  keys =
      rw
        (map-update_where row_key (is_call task_id tool_call_id) (set_finished now c) (λ r. refl)
          s.rows)
        v.keys;
  slots =
      rw
        (map-update_where row_slot (is_call task_id tool_call_id) (set_finished now c) (λ r. refl)
          s.rows)
        v.slots;
}

-- What a call that returned made of the table of `finish`.
finish-store :
    (s s' : Store) (now : ℕ) (task_id tool_call_id : String) (c : Completion) (x : Receipt)
    → finish s now task_id tool_call_id c ≡ ok (x, s')
    → s'.rows ≡ (finished s now task_id tool_call_id c).rows
unfolding finish
finish-store s s' now task_id tool_call_id c x h = ground arith

begin-store :
    (s s' : Store) (r x : Receipt)
    → insert_receipt s r ≡ ok (x, s')
    → (s'.rows ≡ s.rows) ⊎ (s'.rows ≡ s.rows ++ r ∷ [])
begin-store s s' r x h = elim (Bool-cases (conflict r s.rows)) [
  | inl c ↦ let (y, k) = conflict-known r s.rows c in inl (ground (arith, inserts-known s r y k))
  | inr c ↦ inr (ground (arith, inserts-fresh s r c))
]

-- One receipt to a tool call, and one to a side effect's key, in every table that the calls reach.
pub receipts-IsValid : {s t : Store} → Reach s t → IsValid s.rows → IsValid t.rows
receipts-IsValid here v = v
receipts-IsValid (next {t = t} {u = u} r (begins now a b c d e k x h)) v =
    insert-IsValid t u (begun a b c d e k now) x (unfold begin in h) (receipts-IsValid r v)
receipts-IsValid (next {t = t} {u = u} r (finishes now a b c x h)) v =
    rw (finish-store t u now a b c x h) (finished-IsValid t now a b c (receipts-IsValid r v))

-- What a receipt says of its call.
pub record SameCall (a b : Receipt) : Type 0 where
  pub task_id : a.task_id ≡ b.task_id
  pub invocation_id : a.invocation_id ≡ b.invocation_id
  pub tool_call_id : a.tool_call_id ≡ b.tool_call_id
  pub tool_name : a.tool_name ≡ b.tool_name
  pub arguments_hash : a.arguments_hash ≡ b.arguments_hash
  pub side_effect_key : a.side_effect_key ≡ b.side_effect_key
  pub started_at : a.started_at ≡ b.started_at

SameCall-refl : (a : Receipt) → SameCall a a
SameCall-refl a = record {
  task_id = refl;
  invocation_id = refl;
  tool_call_id = refl;
  tool_name = refl;
  arguments_hash = refl;
  side_effect_key = refl;
  started_at = refl;
}

SameCall-trans : (a b c : Receipt) → SameCall a b → SameCall b c → SameCall a c
SameCall-trans a b c x y = record {
  task_id = x.task_id ∙ y.task_id;
  invocation_id = x.invocation_id ∙ y.invocation_id;
  tool_call_id = x.tool_call_id ∙ y.tool_call_id;
  tool_name = x.tool_name ∙ y.tool_name;
  arguments_hash = x.arguments_hash ∙ y.arguments_hash;
  side_effect_key = x.side_effect_key ∙ y.side_effect_key;
  started_at = x.started_at ∙ y.started_at;
}

-- The receipt of a key in a table, saying the same of its call.
abbrev Kept : Key → Receipt → List Receipt → Type 0
Kept k r rows = (r' : Receipt) × (find_row k rows ≡ some r') × SameCall r r'

finished_row :
    (p : Bool) (now : ℕ) (c : Completion) (r : Receipt)
    → SameCall r (if p then set_finished now c r else r)
finished_row false now c r = SameCall-refl r
finished_row true now c r = record {
  task_id = refl;
  invocation_id = refl;
  tool_call_id = refl;
  tool_name = refl;
  arguments_hash = refl;
  side_effect_key = refl;
  started_at = refl;
}

Step-keeps :
    {s t : Store} (k : Key) (r : Receipt) → Step s t → find_row k s.rows ≡ some r → Kept k r t.rows
Step-keeps {s} {t} k r (begins now a b c d e key x h) found =
    added (begin-store s t (begun a b c d e key now) x (unfold begin in h))
  where
    new : Receipt
    new = begun a b c d e key now

    added : (t.rows ≡ s.rows) ⊎ (t.rows ≡ s.rows ++ new ∷ []) → Kept k r t.rows
    added (inl same) = (r, rw same found, SameCall-refl r)
    added (inr more) =
        (r, rw more (find_by-append row_key k s.rows (new ∷ []) r found), SameCall-refl r)
Step-keeps {s} {t} k r (finishes now a b c x h) found = (
  (if is_call a b r then set_finished now c r else r),
  rw (finish-store s t now a b c x h) (
      find_by-update_where row_key k (is_call a b) (set_finished now c) (λ y. refl) s.rows
      ∙ ap (updated row_key (is_call a b) (set_finished now c)) found),
  finished_row (is_call a b r) now c r,
)

-- A receipt stays in the table, and what it says of its call never changes: the invocation, the tool,
-- the arguments, the side effect's key and the start. Only the outcome is written.
pub receipt_kept :
    {s t : Store} (task_id tool_call_id : String) (r : Receipt)
    → Reach s t
    → get s task_id tool_call_id ≡ some r
    → (r' : Receipt) × (get t task_id tool_call_id ≡ some r') × SameCall r r'
unfolding get
receipt_kept a b r here h = (r, h, SameCall-refl r)
receipt_kept a b r (next reach step) h =
    let (m, found, same) = receipt_kept a b r reach h in
    let (z, last, again) = Step-keeps (a, b) m step found in
    (z, last, SameCall-trans r m z same again)

finish-stored :
    (s s' : Store) (now : ℕ) (task_id tool_call_id : String) (c : Completion) (x : Receipt)
    → IsValid s.rows
    → finish s now task_id tool_call_id c ≡ ok (x, s')
    → find_row (task_id, tool_call_id) s'.rows ≡ some x
finish-stored s s' now task_id tool_call_id c x v h =
    elim (Option-cases (find_row (task_id, tool_call_id) s.rows)) [
      | inl missing ↦ absurd (ground (arith, finish-missing s now task_id tool_call_id c missing))
      | inr (r, found) ↦ ground (arith, finish-found s now task_id tool_call_id c r v found)
    ]

-- After `finish` has returned the receipt `x` of a call, whatever receipts are begun and finished later:
-- `begin` for the call, with the tool and the arguments of `x`, under any invocation and side effect's
-- key, writes nothing and returns the receipt that the table has for the call, which says the same of
-- the call as `x`.
pub begin-finish :
    {t : Store} (s s' : Store) (now : ℕ) (task_id tool_call_id : String) (c : Completion)
    (x : Receipt)
    → IsValid s.rows
    → finish s now task_id tool_call_id c ≡ ok (x, s')
    → Reach s' t
    → (later : ℕ) (invocation_id : String) (side_effect_key : Option String)
    → (y : Receipt) × (get t task_id tool_call_id ≡ some y)
      × SameCall x y
      × (begin t later task_id invocation_id tool_call_id x.tool_name x.arguments_hash
            side_effect_key
          ≡ ok (y, t))
unfolding get
begin-finish {t} s s' now task_id tool_call_id c x v h reach later invocation_id side_effect_key =
    let (y, stored, same) =
      receipt_kept task_id tool_call_id x reach
        (finish-stored s s' now task_id tool_call_id c x v h) in
    (
      y,
      stored,
      same,
      (begin_lem t later task_id invocation_id tool_call_id x.tool_name x.arguments_hash
              side_effect_key).0
            y (rw stored)
          ∙ rw (same.tool_name, same.arguments_hash, eq_refl y.tool_name, eq_refl y.arguments_hash),
    )
