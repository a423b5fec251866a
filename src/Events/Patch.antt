-- ===== src/Events/Patch.antt =====
-- What a patch does to the fields of a ledger (harness/state/events.py `apply_patch`).
use adk_coding_agent.Prelude.{
  String, ◌≡◌, refl, ap, ◌∙◌, Bool, true, false, not, Option, none, some, List, [], ◌∷◌, ◌++◌, map,
  ◌==◌, eq_iff, if◌then◌else◌, all, filter, arith,
}
use adk_coding_agent.Prelude.Keyed.{Eq, string_eq, mem_key, mem_key-append}
use adk_coding_agent.Prelude.Result.{Result, ok, value_error, ◌>>=◌, ◌>>◌, require, >>=-eq-ok}
use adk_coding_agent.Events.Reduce.{
  Value, items, Fields, LedgerPatch, set_field, list_of, apply_set_fields, apply_append_fields,
  apply_remove_values, patched_fields,
}

abbrev pub names : {B : Type 0} → List (String × B) → List String
names xs = map (λ x. x.0) xs

require-ok :
    {B : Type 0} (t : Bool) (m : Result B) (b : B)
    → (require t value_error >> m) ≡ ok b
    → (t ≡ true) × (m ≡ ok b)
require-ok true m b h = (refl, h)
require-ok false m b h = absurd (ground arith)

ok_inj : {B : Type 0} (a b : B) → ok a ≡ ok b → b ≡ a
ok_inj a b h = ground arith

all-append :
    (p : String → Bool) (xs ys : List String)
    → all p xs ≡ true
    → all p ys ≡ true
    → all p (xs ++ ys) ≡ true
all-append p [] ys g h = h
all-append p (x ∷ xs) ys g h = ground (arith, all-append p xs ys)

module _ {A : Type 0} where
  -- The names are all known, and no other field has changed.
  abbrev pub Confined : List String → List String → Fields A → Fields A → Type 0
  Confined known touched before after =
      (all (λ f. mem_key f known) touched ≡ true)
      × ((f : String) → mem_key f touched ≡ false → after f ≡ before f)

  Confined-set :
      (known touched : List String) (name : String) (value : Value A) (before after : Fields A)
      → mem_key name known ≡ true
      → Confined known touched (set_field before name value) after
      → Confined known (name ∷ touched) before after
  Confined-set known touched name value before after k c = (
    ground arith,
    λ f m.
        c.1 f (ground arith)
        ∙ ap (λ t. if t then some value else before f) {x = f == name} {y = false}
            (ground (arith, eq_iff f name, eq_iff name f)),
  )

  apply_set_fields-Confined :
      (known : List String) (sets : List (String × Value A)) (before after : Fields A)
      → apply_set_fields known sets before ≡ ok after
      → Confined known (names sets) before after
  unfolding apply_set_fields
  apply_set_fields-Confined known [] before after h =
      (refl, λ f m. ap (λ (t : Fields A). t f) (ok_inj before after h))
  apply_set_fields-Confined known ((name, value) ∷ sets) before after h =
      let (k, rest) =
        require-ok (mem_key name known) (apply_set_fields known sets (set_field before name value))
          after h in
      Confined-set known (names sets) name value before after k
        (apply_set_fields-Confined known sets (set_field before name value) after rest)

  Confined-trans :
      (known first second : List String) (a b c : Fields A)
      → Confined known first a b
      → Confined known second b c
      → Confined known (first ++ second) a c
  Confined-trans known first second a b c p q = (
    all-append (λ f. mem_key f known) first second p.0 q.0,
    λ f m.
        q.1 f (ground (arith, mem_key-append f first second))
        ∙ p.1 f (ground (arith, mem_key-append f first second)),
  )

  list_of-ok :
      {B : Type 0} (v : Option (Value A)) (k : List A → Result B) (b : B)
      → (list_of v >>= k) ≡ ok b
      → (xs : List A) × (v ≡ some (items xs)) × (k xs ≡ ok b)
  list_of-ok none k b h = absurd (ground arith)
  list_of-ok (some (Value.scalar x)) k b h = absurd (ground arith)
  list_of-ok (some (items xs)) k b h = (xs, refl, h)

  apply_append_fields-Confined :
      (known : List String) (appends : List (String × List A)) (before after : Fields A)
      → apply_append_fields known appends before ≡ ok after
      → Confined known (names appends) before after
  unfolding apply_append_fields
  apply_append_fields-Confined known [] before after h =
      (refl, λ f m. ap (λ (t : Fields A). t f) (ok_inj before after h))
  apply_append_fields-Confined known ((name, values) ∷ appends) before after h =
      let write = λ (xs : List A). set_field before name (items (xs ++ values)) in
      let (k, listed) =
        require-ok (mem_key name known)
          (list_of (before name) >>= λ xs. apply_append_fields known appends (write xs)) after h in
      let (xs, was, rest) =
        list_of-ok (before name) (λ xs. apply_append_fields known appends (write xs)) after
          listed in
      Confined-set known (names appends) name (items (xs ++ values)) before after k
        (apply_append_fields-Confined known appends (write xs) after rest)

module _ {A : Type 0} ⦃eq : Eq A⦄ where
  apply_remove_values-Confined :
      (known : List String) (removes : List (String × List A)) (before after : Fields A)
      → apply_remove_values known removes before ≡ ok after
      → Confined known (names removes) before after
  unfolding apply_remove_values
  apply_remove_values-Confined known [] before after h =
      (refl, λ f m. ap (λ (t : Fields A). t f) (ok_inj before after h))
  apply_remove_values-Confined known ((name, values) ∷ removes) before after h =
      let kept = λ (xs : List A). filter (λ x. not (mem_key x values)) xs in
      let write = λ (xs : List A). set_field before name (items (kept xs)) in
      let (k, listed) =
        require-ok (mem_key name known)
          (list_of (before name) >>= λ xs. apply_remove_values known removes (write xs)) after h in
      let (xs, was, rest) =
        list_of-ok (before name) (λ xs. apply_remove_values known removes (write xs)) after
          listed in
      Confined-set known (names removes) name (items (kept xs)) before after k
        (apply_remove_values-Confined known removes (write xs) after rest)

  abbrev pub touched_by : LedgerPatch A → List String
  touched_by patch =
      names patch.set_fields ++ (names patch.append_fields ++ names patch.remove_values)

  -- A patch that is applied names known fields alone, and every field that it does not name is as it
  -- was.
  pub patched_fields-Confined :
      (known : List String) (patch : LedgerPatch A) (before after : Fields A)
      → patched_fields known patch before ≡ ok after
      → Confined known (touched_by patch) before after
  unfolding patched_fields
  patched_fields-Confined known patch before after h =
      let (set, s, rest) =
        >>=-eq-ok (apply_set_fields known patch.set_fields before)
          (λ set. apply_append_fields known patch.append_fields set >>= λ appended.
            apply_remove_values known patch.remove_values appended)
          h in
      let (appended, a, removed) =
        >>=-eq-ok (apply_append_fields known patch.append_fields set)
          (λ appended. apply_remove_values known patch.remove_values appended) rest in
      Confined-trans known (names patch.set_fields)
        (names patch.append_fields ++ names patch.remove_values) before set after
        (apply_set_fields-Confined known patch.set_fields before set s)
        (Confined-trans known (names patch.append_fields) (names patch.remove_values) set appended
          after (apply_append_fields-Confined known patch.append_fields set appended a)
          (apply_remove_values-Confined known patch.remove_values appended after removed))
