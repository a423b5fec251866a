-- ===== src/Receipts/Once.antt =====
-- The table of receipts, and what it means for a call that is made again.
use mathlib.Core.List.{map-append}
use adk_coding_agent.Prelude.{
  ◌≡◌, Bool, true, false, ◌&&◌, ◌||◌, Option, some, List, [], ◌∷◌, ◌++◌, map, ◌==◌, arith,
  if◌then◌else◌, find, Bool-cases, Option-cases, inl, inr,
}
use adk_coding_agent.Prelude.Keyed.{mem_key, DistinctKeys, DistinctKeys-snoc, find_by-snoc}
use adk_coding_agent.Prelude.Result.{ok, err, Error, value_error}
use adk_coding_agent.Prelude.Unique.{Slot, slot_eq, clashes, Unique, Unique-snoc}
use adk_coding_agent.Receipts.Store.{
  Receipt, Store, Key, key_eq, row_key, row_slot, find_row, find_effect, or_else, existing_receipt,
  insert_receipt, save,
}

pub record IsValid (rows : List Receipt) : Type 0 where
  pub keys : DistinctKeys (map row_key rows)
  pub slots : Unique (map row_slot rows)

-- A clash of keys has a row behind it.
clash-find :
    (k : Slot) (rows : List Receipt)
    → clashes k (map row_slot rows) ≡ true
    → (r : Receipt) × (find (λ x. slot_eq k (row_slot x)) rows ≡ some r)
clash-find k [] h = absurd (ground arith)
clash-find k (x ∷ rows) h = elim (Bool-cases (slot_eq k (row_slot x))) [
  | inl e ↦ (x, rw e)
  | inr e ↦ let (r, found) = clash-find k rows (ground arith) in (r, rw e found)
]

mem-find :
    (k : Key) (rows : List Receipt)
    → mem_key k (map row_key rows) ≡ true
    → (r : Receipt) × (find_row k rows ≡ some r)
mem-find k [] h = absurd (ground arith)
mem-find k (x ∷ rows) h = elim (Bool-cases (key_eq.beq (row_key x) k)) [
  | inl e ↦ (x, rw e)
  | inr e ↦ let (r, found) = mem-find k rows (ground arith) in (r, rw e found)
]

pub find-mem :
    (k : Key) (rows : List Receipt) (r : Receipt)
    → find_row k rows ≡ some r
    → mem_key k (map row_key rows) ≡ true
find-mem k [] r h = absurd (ground arith)
find-mem k (x ∷ rows) r h = ground (arith, find-mem k rows r)

find-clash :
    (k : Slot) (rows : List Receipt) (r : Receipt)
    → find (λ x. slot_eq k (row_slot x)) rows ≡ some r
    → clashes k (map row_slot rows) ≡ true
find-clash k [] r h = absurd (ground arith)
find-clash k (x ∷ rows) r h = ground (arith, find-clash k rows r)

abbrev pub conflict : Receipt → List Receipt → Bool
conflict r rows = mem_key (row_key r) (map row_key rows) || clashes (row_slot r) (map row_slot rows)

-- The receipt that answers for `r`.
abbrev pub known : Receipt → List Receipt → Option Receipt
known r rows = or_else (find_row (row_key r) rows) (find_effect r.task_id r.side_effect_key rows)

pub conflict-known :
    (r : Receipt) (rows : List Receipt)
    → conflict r rows ≡ true
    → (x : Receipt) × (known r rows ≡ some x)
conflict-known r rows h = elim (Option-cases (find_row (row_key r) rows)) [
  | inr (x, e) ↦ (x, rw e)
  | inl e ↦ elim (Bool-cases (mem_key (row_key r) (map row_key rows))) [
    | inl m ↦ let (x, found) = mem-find (row_key r) rows m in absurd (ground arith)
    | inr m ↦ let (x, found) = clash-find (row_slot r) rows (ground arith) in (x, rw e found)
  ]
]

known-conflict :
    (r : Receipt) (rows : List Receipt) (x : Receipt)
    → known r rows ≡ some x
    → conflict r rows ≡ true
known-conflict r rows x h = elim (Option-cases (find_row (row_key r) rows)) [
  | inr (y, e) ↦ ground (arith, find-mem (row_key r) rows y e)
  | inl e ↦ ground (arith, find-clash (row_slot r) rows x)
]

pub inserts-fresh :
    (s : Store) (r : Receipt)
    → conflict r s.rows ≡ false
    → insert_receipt s r ≡ ok (r, save r (record s { rows = s.rows ++ r ∷ [] }))
unfolding insert_receipt
inserts-fresh s r h = ground (arith, find_by-snoc row_key (row_key r) s.rows r)

abbrev pub same_call : Receipt → Receipt → Bool
same_call a b = a.tool_name == b.tool_name && a.arguments_hash == b.arguments_hash

pub inserts-known :
    (s : Store) (r x : Receipt)
    → known r s.rows ≡ some x
    → insert_receipt s r ≡ (if same_call x r then ok (x, s) else err value_error)
unfolding insert_receipt existing_receipt
inserts-known s r x h = rw (known-conflict r s.rows x h, h) (ground arith)

pub insert-error :
    (s : Store) (r : Receipt) (e : Error) → insert_receipt s r ≡ err e → e ≡ value_error
insert-error s r e h = elim (Bool-cases (conflict r s.rows)) [
  | inl c ↦ let (x, k) = conflict-known r s.rows c in ground (arith, inserts-known s r x k)
  | inr c ↦ ground (arith, inserts-fresh s r c)
]

pub insert-IsValid :
    (s s' : Store) (r x : Receipt)
    → insert_receipt s r ≡ ok (x, s')
    → IsValid s.rows
    → IsValid s'.rows
insert-IsValid s s' r x h v = elim (Bool-cases (conflict r s.rows)) [
  | inl c ↦
      let (y, k) = conflict-known r s.rows c in
      let same : s' ≡ s = ground (arith, inserts-known s r y k) in rw same v
  | inr c ↦
      let new : s' ≡ save r (record s { rows = s.rows ++ r ∷ [] }) =
        ground (arith, inserts-fresh s r c) in
      rw new (record {
        keys =
            rw (map-append row_key s.rows (r ∷ []))
              (DistinctKeys-snoc (row_key r) (map row_key s.rows) v.keys (ground arith));
        slots =
            rw (map-append row_slot s.rows (r ∷ []))
              (Unique-snoc (row_slot r) (map row_slot s.rows) v.slots (ground arith));
      })
]
