-- ===== src/Prelude/Limit.antt =====
-- SQL's `LIMIT`: a negative one takes everything.
use Prim.Native.Nat.{ℕ, zero, suc, ◌<◌, min}
use mathlib.Core.Path.{◌≡◌, refl}
use mathlib.Core.Logic.{◌≢◌}
use mathlib.Core.Bool.{Bool}
use mathlib.Core.List.{List}
use native.Mathlib.Omega.{arith}
use adk_coding_agent.Prelude.Int.{ℤ, pos, negsuc}
use adk_coding_agent.Prelude.Lists.{length, take, length-take, All, All-take}
use adk_coding_agent.Prelude.Sort.{IsSorted, IsSorted-take}

abbrev pub limited {ℓ} : {A : Type ℓ} → ℤ → List A → List A
limited (pos n) xs = take n xs
limited (negsuc n) xs = xs

-- How many of a number of rows a limit leaves.
abbrev pub allowed : ℤ → ℕ → ℕ
allowed (pos n) count = min n count
allowed (negsuc n) count = count

pub length-limited {ℓ} :
    {A : Type ℓ} (limit : ℤ) (xs : List A) → length (limited limit xs) ≡ allowed limit (length xs)
length-limited (pos n) xs = length-take n xs
length-limited (negsuc n) xs = refl

pub All-limited {ℓ κ} :
    {A : Type ℓ} (P : A → Type κ) (limit : ℤ) (xs : List A) → All P xs → All P (limited limit xs)
All-limited P (pos n) xs h = All-take P n xs h
All-limited P (negsuc n) xs h = h

pub IsSorted-limited {ℓ} :
    {A : Type ℓ} (le : A → A → Bool) (limit : ℤ) (xs : List A)
    → IsSorted le xs
    → IsSorted le (limited limit xs)
IsSorted-limited le (pos n) xs h = IsSorted-take le n xs h
IsSorted-limited le (negsuc n) xs h = h

-- A limit that is not 0 leaves some of some.
pub allowed_some : (limit : ℤ) (count : ℕ) → limit ≢ pos 0 → 0 < count → 0 < allowed limit count
allowed_some (pos zero) count h some_rows = absurd (h refl)
allowed_some (pos (suc n)) count h some_rows = omega arith
allowed_some (negsuc n) count h some_rows = some_rows
