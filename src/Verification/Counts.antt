-- ===== src/Verification/Counts.antt =====
-- The counts that the runner of harness/verification/runner.py reads in an output: `enforce_test_count`
-- and `_test_counts`. The value of a digit, whose table is Unicode's, is an argument. A number has at
-- most the 4,300 digits that `int` reads.
use adk_coding_agent.Prelude.{
  ℕ, zero, suc, ◌+◌, ◌*◌, ◌/◌, ◌%◌, max, Bool, true, false, not, ◌&&◌, ◌||◌, Option, none, some,
  List, [], ◌∷◌, ◌++◌, leb, ltb, eqb, if◌then◌else◌,
}
use adk_coding_agent.Prelude.Int.{ℤ}
use adk_coding_agent.Prelude.Text.{Text, codes, is_space, strip, rstrip}
use adk_coding_agent.Verification.Contracts.{
  CommandResult, ValidationCommand, ValidationCategory, error_status, is_passed,
}
use adk_coding_agent.Verification.Contracts.ValidationCategory.{test}

-- The text after a word that it starts with.
abbrev pub after_word : Text → Text → Option Text
after_word [] text = some text
after_word (w ∷ word) [] = none
after_word (w ∷ word) (c ∷ text) = let rest = after_word word text in if eqb w c then rest else none

-- The text after the blanks that it starts with.
abbrev pub skip_blanks : Text → Text
skip_blanks [] = []
skip_blanks (c ∷ text) = let rest = skip_blanks text in if is_space c then rest else c ∷ text

-- `\s+`, in front of what is not a blank
abbrev pub after_blanks : Text → Option Text
after_blanks [] = none
after_blanks (c ∷ text) = if is_space c then some (skip_blanks text) else none

infixl 1 ◌>>=◌
abbrev ◌>>=◌ : {A B : Type 0} → Option A → (A → Option B) → Option B
none >>= f = none
some x >>= f = f x

abbrev pub found : Option ℕ → List ℕ → List ℕ
found none rest = rest
found (some n) rest = n ∷ rest

-- `max(counts, default=0)`
abbrev pub largest : List ℕ → ℕ
largest [] = 0
largest (n ∷ counts) = max n (largest counts)

-- The digits of `str(n)`.
unfoldable pub decimal_within : ℕ → ℕ → Text
decimal_within zero n = []
decimal_within (suc fuel) n =
    let front = decimal_within fuel (n / 10) in
    if ltb n 10 then (48 + n) ∷ [] else front ++ (48 + n % 10) ∷ []

unfoldable pub decimal : ℕ → Text
unfolding decimal_within
decimal n = decimal_within (suc n) n

-- `f"{stdout}\n{stderr}"`
abbrev pub output : CommandResult → Text
output r = r.stdout ++ 10 ∷ r.stderr

abbrev pub sum : List ℕ → ℕ
sum [] = 0
sum (n ∷ counts) = n + sum counts

abbrev pub is_test : ValidationCategory → Bool
is_test test = true
is_test _ = false

abbrev pub is_empty {ℓ} : {A : Type ℓ} → List A → Bool
is_empty [] = true
is_empty (x ∷ xs) = false

module _ (digit : ℕ → Option ℕ) where
  -- The number that the digits in front go on to, and the text after it.
  unfoldable pub more_digits : ℕ → Text → ℕ × Text
  more_digits n [] = (n, [])
  more_digits n (c ∷ text) = elim (digit c) [
    | none ↦ (n, c ∷ text)
    | some d ↦ more_digits (n * 10 + d) text
  ]

  -- `\d+`, in front of what is not a digit
  unfoldable pub read_number : Text → Option (ℕ × Text)
  unfolding more_digits
  read_number [] = none
  read_number (c ∷ text) = elim (digit c) [ none ↦ none | some d ↦ some (more_digits d text) ]

  -- The text starts with `Ran\s+(\d+)\s+tests?`.
  unfoldable pub ran_here : Text → Option ℕ
  unfolding read_number
  ran_here text = do
    after ← after_word (codes "Ran") text
    number ← after_blanks after
    read ← read_number number
    name ← after_blanks read.1
    _ ← after_word (codes "test") name
    some read.0

  -- The text starts with `(\d+)\s+` and a word.
  unfoldable pub counted_here : Text → Text → Option ℕ
  unfolding read_number
  counted_here word text = do
    read ← read_number text
    name ← after_blanks read.1
    _ ← after_word word name
    some read.0

  -- `re.findall(r"Ran\s+(\d+)\s+tests?", text)`
  unfoldable pub ran_counts : Text → List ℕ
  unfolding ran_here
  ran_counts [] = []
  ran_counts (c ∷ text) = found (ran_here (c ∷ text)) (ran_counts text)

  abbrev pub is_digit : ℕ → Bool
  is_digit c = elim (digit c) [ none ↦ false | some d ↦ true ]

  -- `re.findall(r"(\d+)\s+word", text)`: a match starts at the first of the digits.
  unfoldable pub word_counts : Text → Bool → Text → List ℕ
  unfolding counted_here
  word_counts word in_number [] = []
  word_counts word in_number (c ∷ text) =
      let rest = word_counts word (is_digit c) text in
      if in_number then rest else found (counted_here word (c ∷ text)) rest

  unfoldable pub observed : CommandResult → ℕ
  unfolding ran_counts
  observed r = largest (ran_counts (output r))

  abbrev pub too_few : ValidationCommand → CommandResult → CommandResult
  too_few c r = record r {
    status = error_status;
    exit_code = some (ℤ.pos 1);
    stderr = strip (
        rstrip r.stderr
        ++ 10 ∷ codes "expected at least "
        ++ decimal c.minimum_test_count
        ++ codes " test(s), observed "
        ++ decimal (observed r));
  }

  unfoldable pub enforce_test_count : ValidationCommand → CommandResult → CommandResult
  unfolding observed is_passed
  enforce_test_count c r =
      if not (is_passed r) || eqb c.minimum_test_count 0
      then r
      else if leb c.minimum_test_count (observed r)
      then r
      else too_few c r

  -- What one result adds to the tests that passed and to those that failed.
  unfoldable pub counts_of : CommandResult → ℕ × ℕ
  unfolding word_counts is_passed
  counts_of r =
      let good = word_counts (codes "passed") false (output r) in
      let bad = word_counts (codes "failed") false (output r) in
      let unread = is_empty good && is_empty bad && not (is_passed r) in
      if is_test r.category then (sum good, sum bad + (if unread then 1 else 0)) else (0, 0)

  -- `_test_counts`
  unfoldable pub test_counts : List CommandResult → ℕ × ℕ
  unfolding counts_of
  test_counts [] = (0, 0)
  test_counts (r ∷ results) =
      let here = counts_of r in let rest = test_counts results in (here.0 + rest.0, here.1 + rest.1)
