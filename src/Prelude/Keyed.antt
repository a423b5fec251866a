-- ===== src/Prelude/Keyed.antt =====
-- Tables whose rows have a key: lookups after an `UPDATE` or an `INSERT`, and selections by key.
use Prim.Native.String.{String}
use Prim.Native.Nat.{suc}
use mathlib.Core.Path.{◌≡◌, refl, ap}
use mathlib.Core.Logic.{◌↔◌, ◌⊎◌, inl, inr}
use mathlib.Core.Bool.{Bool, true, false, ◌||◌}
use mathlib.Core.Option.{Option, none, some}
use mathlib.Core.List.{List, [], ◌∷◌, ◌++◌, map}
use native.Mathlib.Omega.{arith}
use text.Mathlib.Text.{◌==◌}
use text.Mathlib.TextEquality.{eq_iff}
use adk_coding_agent.Prelude.Tests.{if◌then◌else◌, Bool-cases}
use adk_coding_agent.Prelude.Lists.{length, filter, any, find, All, All-map}
use adk_coding_agent.Prelude.Table.{update_where}

-- Equality of keys as the program tests it.
pub record Eq {ℓ} (K : Type ℓ) : Type ℓ where
  pub beq : K → K → Bool
  pub beq_iff : (a b : K) → (beq a b ≡ true) ↔ (a ≡ b)

instance abbrev pub string_eq : Eq String
string_eq = record { beq = ◌==◌; beq_iff = eq_iff }

module _ {ℓ} {K : Type ℓ} ⦃e : Eq K⦄ where
  abbrev pub mem_key : K → List K → Bool
  mem_key k = any (λ j. e.beq j k)

  abbrev pub DistinctKeys : List K → Type 0
  DistinctKeys [] = Unit
  DistinctKeys (k ∷ ks) = (mem_key k ks ≡ false) × DistinctKeys ks

  pub mem_key-append :
      (k : K) (xs ys : List K) → mem_key k (xs ++ ys) ≡ (mem_key k xs || mem_key k ys)
  mem_key-append k [] ys = refl
  mem_key-append k (x ∷ xs) ys = ground (arith, mem_key-append k xs ys)

  pub DistinctKeys-snoc :
      (k : K) (xs : List K) → DistinctKeys xs → mem_key k xs ≡ false → DistinctKeys (xs ++ k ∷ [])
  DistinctKeys-snoc k [] d m = (refl, tt)
  DistinctKeys-snoc k (x ∷ xs) d m = (
    ground (arith, mem_key-append x xs (k ∷ []), e.beq_iff k x, e.beq_iff x k),
    DistinctKeys-snoc k xs d.1 (ground arith),
  )

module _ {ℓ κ} {K : Type ℓ} ⦃e : Eq K⦄ {R : Type κ} (key : R → K) where
  -- `SELECT ... WHERE key=?`
  abbrev pub find_by : K → List R → Option R
  find_by k = find (λ r. e.beq (key r) k)

  -- A row that is in the table under its key, and passes the test.
  abbrev pub Stored : (R → Bool) → List R → R → Type κ
  Stored p rows r = (find_by (key r) rows ≡ some r) × (p r ≡ true)

  pub find_by-append :
      (k : K) (xs ys : List R) (r : R) → find_by k xs ≡ some r → find_by k (xs ++ ys) ≡ some r
  find_by-append k [] ys r h = ground arith
  find_by-append k (x ∷ xs) ys r h = ground (arith, find_by-append k xs ys r)

  pub find_by-snoc :
      (k : K) (xs : List R) (r : R)
      → mem_key k (map key xs) ≡ false
      → key r ≡ k
      → find_by k (xs ++ r ∷ []) ≡ some r
  find_by-snoc k [] r m h = ground (arith, e.beq_iff (key r) k)
  find_by-snoc k (x ∷ xs) r m h = ground (arith, find_by-snoc k xs r)

  pub find_by-key : (k : K) (rows : List R) (r : R) → find_by k rows ≡ some r → key r ≡ k
  find_by-key k [] r h = ground arith
  find_by-key k (x ∷ rows) r h = ground (arith, find_by-key k rows r, e.beq_iff (key x) k)

  pub find_by-none :
      (k : K) (rows : List R) → mem_key k (map key rows) ≡ false → find_by k rows ≡ none
  find_by-none k [] m = refl
  find_by-none k (x ∷ rows) m = ground (arith, find_by-none k rows)

  Stored-cons :
      (r : R) (rows : List R) (p : R → Bool) (s : R)
      → mem_key (key r) (map key rows) ≡ false
      → Stored p rows s
      → Stored p (r ∷ rows) s
  Stored-cons r rows p s fresh st = elim (Bool-cases (e.beq (key r) (key s))) [
    | inl same ↦ absurd (missing rows (ground (arith, e.beq_iff (key r) (key s))) st.0)
    | inr other ↦ (rw other st.0, st.1)
  ]
    where
      missing :
          (rows : List R)
          → mem_key (key s) (map key rows) ≡ false
          → find_by (key s) rows ≡ some s
          → ⊥
      missing [] m f = ground arith
      missing (x ∷ xs) m f = missing xs (ground arith) (ground arith)

  -- With distinct keys, every selected row is the row of its key.
  pub Stored-filter :
      (p : R → Bool) (rows : List R)
      → DistinctKeys (map key rows)
      → All (Stored p rows) (filter p rows)
  Stored-filter p [] d = tt
  Stored-filter p (r ∷ rows) d =
      let rest =
        All-map (Stored p rows) (Stored p (r ∷ rows)) (λ s. Stored-cons r rows p s d.0)
          (filter p rows) (Stored-filter p rows d.1) in
      elim (Bool-cases (p r)) [
        | inl yes_p ↦ rw yes_p ((rw ((e.beq_iff (key r) (key r)).1 refl), yes_p), rest)
        | inr no_p ↦ rw no_p rest
      ]

  -- A key among those of stored rows belongs to a stored row.
  pub Stored-mem :
      (p : R → Bool) (rows picked : List R) (k : K)
      → All (Stored p rows) picked
      → mem_key k (map key picked) ≡ true
      → (r : R) × (find_by k rows ≡ some r) × (p r ≡ true)
  Stored-mem p rows [] k st m = ground arith
  Stored-mem p rows (r ∷ picked) k st m = elim (Bool-cases (e.beq (key r) k)) [
    | inl same ↦ (r, rw (← (e.beq_iff (key r) k).0 same) st.0.0, st.0.1)
    | inr other ↦ Stored-mem p rows picked k st.1 (ground arith)
  ]

  -- What an `UPDATE` makes of one row.
  abbrev pub updated : (R → Bool) → (R → R) → Option R → Option R
  updated p f none = none
  updated p f (some r) = some (if p r then f r else r)

  pub find_by-update_where :
      (k : K) (p : R → Bool) (f : R → R)
      → ((r : R) → key (f r) ≡ key r)
      → (rows : List R) → find_by k (update_where p f rows) ≡ updated p f (find_by k rows)
  unfolding update_where
  find_by-update_where k p f same [] = refl
  find_by-update_where k p f same (r ∷ rows) =
      ground (arith, same r, find_by-update_where k p f same rows)

  mem_key-map_cons :
      (x : R) (xs picked : List R)
      → All (λ r. mem_key (key r) (map key picked) ≡ true) xs
      → All (λ r. mem_key (key r) (map key (x ∷ picked)) ≡ true) xs
  mem_key-map_cons x xs picked =
      All-map (λ r. mem_key (key r) (map key picked) ≡ true)
        (λ r. mem_key (key r) (map key (x ∷ picked)) ≡ true) (λ r h. ground arith) xs

  -- Each row of a list has its key among the keys of the list.
  pub mem_key-map_self : (rows : List R) → All (λ r. mem_key (key r) (map key rows) ≡ true) rows
  mem_key-map_self [] = tt
  mem_key-map_self (r ∷ rows) = (
    ground (arith, e.beq_iff (key r) (key r)),
    mem_key-map_cons r rows rows (mem_key-map_self rows),
  )

  pub find_by-snoc_cases :
      (k : K) (xs : List R) (x r : R)
      → find_by k (xs ++ x ∷ []) ≡ some r
      → (find_by k xs ≡ some r) ⊎ ((find_by k xs ≡ none) × (r ≡ x))
  find_by-snoc_cases k [] x r h = ground arith
  find_by-snoc_cases k (y ∷ xs) x r h = ground (arith, find_by-snoc_cases k xs x r)

  -- What any search finds is the row of its key.
  pub find-Stored :
      (p : R → Bool) (rows : List R) (r : R)
      → DistinctKeys (map key rows)
      → find p rows ≡ some r
      → Stored p rows r
  find-Stored p [] r d h = absurd (ground arith)
  find-Stored p (x ∷ rows) r d h = elim (Bool-cases (p x)) [
    | inl here ↦ ground (arith, e.beq_iff (key x) (key x))
    | inr there ↦ Stored-cons x rows p r d.0 (find-Stored p rows r d.1 (ground arith))
  ]

pub find-All {ℓ κ} :
    {R : Type ℓ} (P : R → Type κ) (p : R → Bool) (rows : List R) (r : R)
    → All P rows
    → find p rows ≡ some r
    → P r
find-All P p [] r a h = absurd (ground arith)
find-All P p (x ∷ rows) r a h = elim (Bool-cases (p x)) [
  | inl here ↦ (let same : x ≡ r = ground arith in rw (← same) a.0)
  | inr there ↦ find-All P p rows r a.1 (ground arith)
]

module _ {ℓ κ} {K : Type ℓ} ⦃e : Eq K⦄ {R : Type κ} (key : R → K) where
  pub count-absent :
      (k : K) (rows : List R)
      → mem_key k (map key rows) ≡ false
      → length (filter (λ r. e.beq (key r) k) rows) ≡ 0
  count-absent k [] h = refl
  count-absent k (x ∷ rows) h = ground (arith, count-absent k rows)

  -- With distinct keys, one row has the key of a row that is there.
  pub count-present :
      (k : K) (rows : List R) (r : R)
      → DistinctKeys (map key rows)
      → find_by key k rows ≡ some r
      → length (filter (λ x. e.beq (key x) k) rows) ≡ 1
  count-present k [] r d h = absurd (ground arith)
  count-present k (x ∷ rows) r d h = elim (Bool-cases (e.beq (key x) k)) [
    | inl here ↦ rw here (
        ap suc (
          count-absent k rows
            (let same : key x ≡ k = (e.beq_iff (key x) k).0 here in rw (← same) d.0)))
    | inr there ↦ rw there (count-present k rows r d.1 (ground arith))
  ]

  pub find_by-none_mem :
      (k : K) (rows : List R) → find_by key k rows ≡ none → mem_key k (map key rows) ≡ false
  find_by-none_mem k [] h = refl
  find_by-none_mem k (x ∷ rows) h = ground (arith, find_by-none_mem k rows)
