-- ===== src/Ledger/Numbering.antt =====
-- What holds of the ledger whatever is appended to it and erased from it (harness/ledger/jsonl.py).
use adk_coding_agent.Prelude.{
  ℕ, suc, ◌+◌, String, ◌≡◌, ◌⊎◌, refl, ap, sym, subst, ◌∙◌, Bool, true, not, ◌&&◌, ◌||◌, Option,
  none, some, List, [], ◌∷◌, ◌++◌, ◌==◌, eq_iff, if◌then◌else◌, filter, all, length, arith,
  Bool-cases, inl, inr,
}
use adk_coding_agent.Prelude.Keyed.{Eq}
use adk_coding_agent.Prelude.Result.{Result, ok, >>=-eq-ok}
use adk_coding_agent.Ledger.Models.{LedgerEvent, Entry, key_of}
use adk_coding_agent.Ledger.Store.{
  Digests, of_task, next_sequence, new_event, erase_task, find_previous, write, append,
}

module _ {P : Type 0} where
  abbrev pub Numbered : ℕ → List (LedgerEvent P) → Type 0
  Numbered n [] = Unit
  Numbered n (e ∷ es) = (e.sequence ≡ n) × Numbered (suc n) es

  -- Two events of one source's event, or of one key of a task.
  abbrev pub same_identity : LedgerEvent P → LedgerEvent P → Bool
  same_identity a b =
      (a.source == b.source && a.source_id == b.source_id)
      || (a.task_id == b.task_id && a.idempotency_key == b.idempotency_key)

  abbrev pub DistinctIdentities : List (LedgerEvent P) → Type 0
  DistinctIdentities [] = Unit
  DistinctIdentities (e ∷ es) =
      (all (λ f. not (same_identity e f)) es ≡ true) × DistinctIdentities es

  -- Each task's events are numbered 1, 2, 3 ..., and no two events share an identity.
  abbrev pub IsLedger : List (LedgerEvent P) → Type 0
  IsLedger es = ((t : String) → Numbered 1 (filter (of_task t) es)) × DistinctIdentities es

  last-Numbered :
      (n : ℕ) (e : LedgerEvent P) (es : List (LedgerEvent P))
      → Numbered n (e ∷ es)
      → next_sequence (e ∷ es) ≡ n + length (e ∷ es)
  last-Numbered n e [] h = ground arith
  last-Numbered n e (f ∷ es) h = ground (arith, last-Numbered (suc n) f es h.1)

  pub next_sequence-Numbered :
      (es : List (LedgerEvent P)) → Numbered 1 es → next_sequence es ≡ length es + 1
  next_sequence-Numbered [] h = refl
  next_sequence-Numbered (e ∷ es) h = ground (arith, last-Numbered 1 e es h)

  Numbered-snoc :
      (n : ℕ) (es : List (LedgerEvent P)) (e : LedgerEvent P)
      → Numbered n es
      → e.sequence ≡ n + length es
      → Numbered n (es ++ e ∷ [])
  Numbered-snoc n [] e h s = (ground arith, tt)
  Numbered-snoc n (x ∷ es) e h s = (h.0, Numbered-snoc (suc n) es e h.1 (ground arith))

  pub filter-snoc :
      (p : LedgerEvent P → Bool) (es : List (LedgerEvent P)) (e : LedgerEvent P)
      → filter p (es ++ e ∷ []) ≡ (if p e then filter p es ++ e ∷ [] else filter p es)
  filter-snoc p [] e = refl
  filter-snoc p (x ∷ es) e = ground (arith, filter-snoc p es e)

  all-snoc :
      (p : LedgerEvent P → Bool) (es : List (LedgerEvent P)) (e : LedgerEvent P)
      → all p (es ++ e ∷ []) ≡ (all p es && p e)
  all-snoc p [] e = ground arith
  all-snoc p (x ∷ es) e = ground (arith, all-snoc p es e)

  DistinctIdentities-snoc :
      (es : List (LedgerEvent P)) (e : LedgerEvent P)
      → DistinctIdentities es
      → all (λ f. not (same_identity f e)) es ≡ true
      → DistinctIdentities (es ++ e ∷ [])
  DistinctIdentities-snoc [] e d h = (refl, tt)
  DistinctIdentities-snoc (x ∷ es) e d h = (
    ground (arith, all-snoc (λ f. not (same_identity x f)) es e),
    DistinctIdentities-snoc es e d.1 (ground arith),
  )

  pub filter-kept :
      (t task : String) (es : List (LedgerEvent P))
      → filter (of_task t) (erase_task es task).1
        ≡ (if t == task then [] else filter (of_task t) es)
  unfolding erase_task
  filter-kept t task [] = ground arith
  filter-kept t task (x ∷ es) =
      ground
        (arith, filter-kept t task es, eq_iff x.task_id t, eq_iff x.task_id task, eq_iff t task)

  all-filter :
      (p q : LedgerEvent P → Bool) (es : List (LedgerEvent P))
      → all p es ≡ true
      → all p (filter q es) ≡ true
  all-filter p q [] h = refl
  all-filter p q (x ∷ es) h = ground (arith, all-filter p q es)

  DistinctIdentities-filter :
      (q : LedgerEvent P → Bool) (es : List (LedgerEvent P))
      → DistinctIdentities es
      → DistinctIdentities (filter q es)
  DistinctIdentities-filter q [] d = tt
  DistinctIdentities-filter q (x ∷ es) d = elim (Bool-cases (q x)) [
    | inl e ↦
        rw e
          (all-filter (λ f. not (same_identity x f)) q es d.0, DistinctIdentities-filter q es d.1)
    | inr e ↦ rw e (DistinctIdentities-filter q es d.1)
  ]

  erase_task-IsLedger :
      (es : List (LedgerEvent P)) (task : String) → IsLedger es → IsLedger (erase_task es task).1
  unfolding erase_task
  erase_task-IsLedger es task valid = (
    λ t.
        subst (Numbered 1) (sym (filter-kept t task es))
          (elim (Bool-cases (t == task)) [ inl e ↦ rw e tt | inr e ↦ rw e (valid.0 t) ]),
    DistinctIdentities-filter (λ event. not (of_task task event)) es valid.1,
  )

  write-cases :
      (previous : Option (LedgerEvent P)) (new : LedgerEvent P) (es : List (LedgerEvent P))
      (event : LedgerEvent P) (after : List (LedgerEvent P))
      → ◌≡◌ {A = Result (LedgerEvent P × List (LedgerEvent P))}
          (ok (write previous new es))
          (ok (event, after))
      → ((previous ≡ some event) × (after ≡ es))
        ⊎ ((previous ≡ none) × (event ≡ new) × (after ≡ es ++ event ∷ []))
  unfolding write
  write-cases none new es event after h = ground arith
  write-cases (some previous) new es event after h = ground arith

module _ {P : Type 0} ⦃eq : Eq P⦄ (digests : Digests P) where
  -- An event that no earlier one stands in for shares no identity with an earlier one.
  unmet :
      (es : List (LedgerEvent P)) (entry : Entry P) (e : LedgerEvent P)
      → e.source ≡ entry.source
      → e.source_id ≡ entry.source_id
      → e.task_id ≡ entry.task_id
      → find_previous es entry e.idempotency_key ≡ ok none
      → all (λ f. not (same_identity f e)) es ≡ true
  unfolding find_previous
  unmet [] entry e s i t h = refl
  unmet (x ∷ es) entry e s i t h = ground (arith, unmet es entry e s i t)

  -- An append that returns has found its event, or has written it.
  pub append-cases :
      (es : List (LedgerEvent P)) (entry : Entry P) (now : ℕ) (event : LedgerEvent P)
      (after : List (LedgerEvent P))
      → append digests es entry now ≡ ok (event, after)
      → ((find_previous es entry (key_of entry) ≡ ok (some event)) × (after ≡ es))
        ⊎ ((find_previous es entry (key_of entry) ≡ ok none)
            × (event ≡ new_event digests es entry (key_of entry) now)
            × (after ≡ es ++ event ∷ []))
  unfolding append
  append-cases es entry now event after h =
      let k = λ (previous : Option (LedgerEvent P)).
        ok (write previous (new_event digests es entry (key_of entry) now) es) in
      let (previous, found, did) = >>=-eq-ok (find_previous es entry (key_of entry)) k h in
      elim (write-cases previous (new_event digests es entry (key_of entry) now) es event after
        did) [
          | inl (p, same) ↦ inl (found ∙ ap ok p, same)
          | inr (p, made, tail) ↦ inr (found ∙ ap ok p, made, tail)
        ]

  written-IsLedger :
      (es : List (LedgerEvent P)) (entry : Entry P) (now : ℕ)
      → IsLedger es
      → find_previous es entry (key_of entry) ≡ ok none
      → IsLedger (es ++ new_event digests es entry (key_of entry) now ∷ [])
  unfolding new_event
  written-IsLedger es entry now valid fresh =
      let e = new_event digests es entry (key_of entry) now in
      (
        λ t.
            subst (Numbered 1) (sym (filter-snoc (of_task t) es e))
              (elim (Bool-cases (of_task t e)) [
                | inl own ↦ rw own (
                    Numbered-snoc 1 (filter (of_task t) es) e (valid.0 t) (
                      ap (λ u. next_sequence (filter (of_task u) es))
                        ((eq_iff entry.task_id t).0 own)
                      ∙ next_sequence-Numbered (filter (of_task t) es) (valid.0 t)
                      ∙ (omega arith)))
                | inr other ↦ rw other (valid.0 t)
              ]),
        DistinctIdentities-snoc es e valid.1 (unmet es entry e refl refl refl fresh),
      )

  -- The appends and erasures of a process, from an empty file.
  pub data Reach : List (LedgerEvent P) → Type 0 where
    start : Reach []
    appended :
        (es : List (LedgerEvent P)) (entry : Entry P) (now : ℕ) (event : LedgerEvent P)
        (after : List (LedgerEvent P))
        → Reach es
        → append digests es entry now ≡ ok (event, after)
        → Reach after
    erased : (es : List (LedgerEvent P)) (task : String) → Reach es → Reach (erase_task es task).1

  append-IsLedger :
      (es : List (LedgerEvent P)) (entry : Entry P) (now : ℕ) (event : LedgerEvent P)
      (after : List (LedgerEvent P))
      → IsLedger es
      → append digests es entry now ≡ ok (event, after)
      → IsLedger after
  append-IsLedger es entry now event after valid h =
      elim (append-cases es entry now event after h) [
        | inl (found, same) ↦ subst IsLedger (sym same) valid
        | inr (fresh, made, tail) ↦
            subst IsLedger (ap (λ (e : LedgerEvent P). es ++ e ∷ []) (sym made) ∙ sym tail)
              (written-IsLedger es entry now valid fresh)
      ]

  -- Whatever is appended and erased, each task's events are numbered 1, 2, 3 ... in the order of the
  -- file, and no two events have one source and source id, or one task and idempotency key.
  pub Reach-IsLedger : (es : List (LedgerEvent P)) → Reach es → IsLedger es
  Reach-IsLedger es start = (λ t. tt, tt)
  Reach-IsLedger es (appended before entry now event after r h) =
      append-IsLedger before entry now event after (Reach-IsLedger before r) h
  Reach-IsLedger es (erased before task r) =
      erase_task-IsLedger before task (Reach-IsLedger before r)
