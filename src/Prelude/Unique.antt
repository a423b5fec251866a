-- ===== src/Prelude/Unique.antt =====
-- The uniqueness that a `PRIMARY KEY` or a `UNIQUE(task_id, key)` of a table demands. A row whose
-- key is NULL has no slot, and clashes with none.
use Prim.Native.String.{String}
use mathlib.Core.Path.{◌≡◌, refl}
use mathlib.Core.Bool.{Bool, false, ◌&&◌, ◌||◌}
use mathlib.Core.Option.{Option, none, some}
use mathlib.Core.List.{List, [], ◌∷◌, ◌++◌}
use native.Mathlib.Omega.{arith}
use text.Mathlib.Text.{◌==◌}
use text.Mathlib.TextEquality.{eq_iff}
use adk_coding_agent.Prelude.Lists.{any}

abbrev pub Slot : Type 0
Slot = Option (String × String)

abbrev pub slot : String → Option String → Slot
slot task none = none
slot task (some key) = some (task, key)

abbrev pub slot_eq : Slot → Slot → Bool
slot_eq (some (a, b)) (some (c, d)) = a == c && b == d
slot_eq _ _ = false

abbrev pub clashes : Slot → List Slot → Bool
clashes s = any (slot_eq s)

abbrev pub Unique : List Slot → Type 0
Unique [] = Unit
Unique (s ∷ slots) = (clashes s slots ≡ false) × Unique slots

pub slot_eq_comm : (s t : Slot) → slot_eq s t ≡ slot_eq t s
slot_eq_comm none none = refl
slot_eq_comm none (some t) = refl
slot_eq_comm (some s) none = refl
slot_eq_comm (some (a, b)) (some (c, d)) =
    ground (arith, eq_iff a c, eq_iff c a, eq_iff b d, eq_iff d b)

pub clashes-append :
    (s : Slot) (xs ys : List Slot) → clashes s (xs ++ ys) ≡ (clashes s xs || clashes s ys)
clashes-append s [] ys = refl
clashes-append s (x ∷ xs) ys = ground (arith, clashes-append s xs ys)

pub Unique-snoc :
    (s : Slot) (slots : List Slot)
    → Unique slots
    → clashes s slots ≡ false
    → Unique (slots ++ s ∷ [])
Unique-snoc s [] u c = (refl, tt)
Unique-snoc s (x ∷ slots) u c = (
  ground (arith, clashes-append x slots (s ∷ []), slot_eq_comm x s),
  Unique-snoc s slots u.1 (ground arith),
)
