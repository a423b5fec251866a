-- ===== src/Prelude/Sort.antt =====
-- `ORDER BY`, and Python's `sorted`: a stable insertion sort by a Boolean order.
use Prim.Native.Nat.{ℕ, zero, suc}
use mathlib.Core.Path.{◌≡◌, refl, ap, ◌∙◌}
use mathlib.Core.Bool.{Bool, true, false}
use mathlib.Core.Logic.{inl, inr}
use mathlib.Core.List.{List, [], ◌∷◌, Perm}
use mathlib.Core.List.Perm
use native.Mathlib.Omega.{arith}
use adk_coding_agent.Prelude.Tests.{if◌then◌else◌, Bool-cases}
use adk_coding_agent.Prelude.Lists.{length, take, filter, All, All-map, All-filter, All-take}

module _ {ℓ} {A : Type ℓ} (le : A → A → Bool) where
  unfoldable pub insert : A → List A → List A
  insert x [] = x ∷ []
  insert x (y ∷ ys) = if le x y then x ∷ y ∷ ys else y ∷ insert x ys

  -- The list is sorted from its end, and an item goes before its equals: the sort is stable.
  unfoldable pub sort : List A → List A
  unfolding insert
  sort [] = []
  sort (x ∷ xs) = insert x (sort xs)

  -- Each item is at most every later one.
  abbrev pub IsSorted : List A → Type 0
  IsSorted [] = Unit {0}
  IsSorted (x ∷ xs) = All (λ y. le x y ≡ true) xs × IsSorted xs

  pub insert-perm : (x : A) (xs : List A) → Perm (insert x xs) (x ∷ xs)
  unfolding insert
  insert-perm x [] = Perm.refl (x ∷ [])
  insert-perm x (y ∷ ys) = elim (Bool-cases (le x y)) [
    | inl e ↦ rw e (Perm.refl (x ∷ y ∷ ys))
    | inr e ↦ rw e (Perm.trans (Perm.cons y (insert-perm x ys)) (Perm.swap x y ys))
  ]

  pub sort-perm : (xs : List A) → Perm (sort xs) xs
  unfolding sort
  sort-perm [] = Perm.refl []
  sort-perm (x ∷ xs) = Perm.trans (insert-perm x (sort xs)) (Perm.cons x (sort-perm xs))

  module _ {κ} (P : A → Type κ) where
    pub All-insert : (x : A) (xs : List A) → P x → All P xs → All P (insert x xs)
    unfolding insert
    All-insert x [] hx h = (hx, tt)
    All-insert x (y ∷ ys) hx h = elim (Bool-cases (le x y)) [
      | inl e ↦ rw e (hx, (h.0, h.1))
      | inr e ↦ rw e (h.0, All-insert x ys hx h.1)
    ]

    pub All-sort : (xs : List A) → All P xs → All P (sort xs)
    unfolding sort
    All-sort [] h = tt
    All-sort (x ∷ xs) h = All-insert x (sort xs) h.0 (All-sort xs h.1)

  pub length-insert : (x : A) (xs : List A) → length (insert x xs) ≡ suc (length xs)
  unfolding insert
  length-insert x [] = refl
  length-insert x (y ∷ ys) = ground (arith, length-insert x ys)

  pub length-sort : (xs : List A) → length (sort xs) ≡ length xs
  unfolding sort
  length-sort [] = refl
  length-sort (x ∷ xs) = length-insert x (sort xs) ∙ ap suc (length-sort xs)

  module _ (total : (x y : A) → le x y ≡ false → le y x ≡ true)
      (trans : (x y z : A) → le x y ≡ true → le y z ≡ true → le x z ≡ true) where
    insert-IsSorted : (x : A) (xs : List A) → IsSorted xs → IsSorted (insert x xs)
    unfolding insert
    insert-IsSorted x [] s = (tt, tt)
    insert-IsSorted x (y ∷ ys) s = elim (Bool-cases (le x y)) [
      | inl e ↦
          rw e
            ((e, All-map (λ z. le y z ≡ true) (λ z. le x z ≡ true) (λ z. trans x y z e) ys s.0), s)
      | inr e ↦
          rw e (All-insert (λ z. le y z ≡ true) x ys (total x y e) s.0, insert-IsSorted x ys s.1)
    ]

    pub sort-IsSorted : (xs : List A) → IsSorted (sort xs)
    unfolding sort
    sort-IsSorted [] = tt
    sort-IsSorted (x ∷ xs) = insert-IsSorted x (sort xs) (sort-IsSorted xs)

  pub IsSorted-take : (n : ℕ) (xs : List A) → IsSorted xs → IsSorted (take n xs)
  IsSorted-take zero xs s = tt
  IsSorted-take (suc n) [] s = tt
  IsSorted-take (suc n) (x ∷ xs) s =
      (All-take (λ y. le x y ≡ true) n xs s.0, IsSorted-take n xs s.1)

  insert-least : (x : A) (xs : List A) → All (λ y. le x y ≡ true) xs → insert x xs ≡ x ∷ xs
  unfolding insert
  insert-least x [] h = refl
  insert-least x (y ∷ ys) h = rw (h.0) refl

  -- A sorted list is left as it is.
  pub sort-sorted : (xs : List A) → IsSorted xs → sort xs ≡ xs
  unfolding sort
  sort-sorted [] s = refl
  sort-sorted (x ∷ xs) s = ap (insert x) (sort-sorted xs s.1) ∙ insert-least x xs s.0

  pub IsSorted-filter : (p : A → Bool) (xs : List A) → IsSorted xs → IsSorted (filter p xs)
  IsSorted-filter p [] s = tt
  IsSorted-filter p (x ∷ xs) s = elim (Bool-cases (p x)) [
    | inl e ↦ rw e (All-filter (λ y. le x y ≡ true) p xs s.0, IsSorted-filter p xs s.1)
    | inr e ↦ rw e (IsSorted-filter p xs s.1)
  ]
