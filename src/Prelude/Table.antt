-- ===== src/Prelude/Table.antt =====
-- A table of rows in insertion order, and the `UPDATE ... WHERE` of SQL.
use Prim.Native.Nat.{suc}
use mathlib.Core.Path.{◌≡◌, refl, ap}
use mathlib.Core.Bool.{Bool, true}
use mathlib.Core.Logic.{inl, inr}
use mathlib.Core.List.{List, [], ◌∷◌, map}
use native.Mathlib.Omega.{arith}
use adk_coding_agent.Prelude.Tests.{if◌then◌else◌, Bool-cases}
use adk_coding_agent.Prelude.Lists.{length, All}

module _ {ℓ} {R : Type ℓ} where
  unfoldable pub update_where : (R → Bool) → (R → R) → List R → List R
  update_where p f [] = []
  update_where p f (r ∷ rows) = (if p r then f r else r) ∷ update_where p f rows

  pub length-update_where :
      (p : R → Bool) (f : R → R) (rows : List R) → length (update_where p f rows) ≡ length rows
  unfolding update_where
  length-update_where p f [] = refl
  length-update_where p f (r ∷ rows) = ap suc (length-update_where p f rows)

  -- An update that leaves a column alone.
  pub map-update_where {κ} :
      {K : Type κ} (key : R → K) (p : R → Bool) (f : R → R)
      → ((r : R) → key (f r) ≡ key r)
      → (rows : List R) → map key (update_where p f rows) ≡ map key rows
  unfolding update_where
  map-update_where key p f same [] = refl
  map-update_where key p f same (r ∷ rows) =
      ground (arith, same r, map-update_where key p f same rows)

  pub All-update_where {κ} :
      {P : R → Type κ} (p : R → Bool) (f : R → R)
      → ((r : R) → p r ≡ true → P r → P (f r))
      → (rows : List R) → All P rows
      → All P (update_where p f rows)
  unfolding update_where
  All-update_where p f keep [] h = tt
  All-update_where {P = P} p f keep (r ∷ rows) h = elim (Bool-cases (p r)) [
    | inl e ↦ (rw e (keep r e h.0), All-update_where p f keep rows h.1)
    | inr e ↦ (rw e h.0, All-update_where p f keep rows h.1)
  ]
