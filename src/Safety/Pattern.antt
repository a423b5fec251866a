-- ===== src/Safety/Pattern.antt =====
-- The regular expressions of harness/safety/approval.py, by derivatives. In a pattern `(?:^|\s)` and
-- `(?:\s|$)` stand for a blank: a command is searched with a space put before and behind it, which no
-- other part of these patterns can match. `\w` beyond ASCII, Python's table of characters, is an
-- argument.
use adk_coding_agent.Prelude.{
  ℕ, String, Bool, true, false, not, ◌&&◌, ◌||◌, List, [], ◌∷◌, ◌++◌, leb, eqb, if◌then◌else◌,
}
use adk_coding_agent.Prelude.Text.{Text, codes, is_space}

pub data Pattern : Type 0 where
  never empty : Pattern
  one : (ℕ → Bool) → Pattern
  both either : Pattern → Pattern → Pattern
  many : Pattern → Pattern

abbrev pub nullable : Pattern → Bool
nullable never = false
nullable empty = true
nullable (one p) = false
nullable (both a b) = nullable a && nullable b
nullable (either a b) = nullable a || nullable b
nullable (many a) = true

-- `both`, which nothing can follow a `never`.
abbrev pub then_pattern : Pattern → Pattern → Pattern
then_pattern never b = never
then_pattern a b = both a b

abbrev pub either_pattern : Pattern → Pattern → Pattern
either_pattern never b = b
either_pattern a never = a
either_pattern a b = either a b

-- What is left to match after a character.
unfoldable pub derivative : ℕ → Pattern → Pattern
derivative c never = never
derivative c empty = never
derivative c (one p) = if p c then empty else never
derivative c (both a b) =
    let rest = then_pattern (derivative c a) b in
    let skipped = derivative c b in if nullable a then either_pattern rest skipped else rest
derivative c (either a b) = either_pattern (derivative c a) (derivative c b)
derivative c (many a) = then_pattern (derivative c a) (many a)

unfoldable pub matches_prefix : Pattern → Text → Bool
unfolding derivative
matches_prefix p [] = nullable p
matches_prefix p (c ∷ text) = nullable p || matches_prefix (derivative c p) text

-- `pattern.search(text)`
unfoldable pub search_in : Pattern → Text → Bool
unfolding matches_prefix
search_in p [] = matches_prefix p []
search_in p (c ∷ text) = matches_prefix p (c ∷ text) || search_in p text

abbrev pub literal : Text → Pattern
literal [] = empty
literal (c ∷ text) = both (one (eqb c)) (literal text)

abbrev pub word : String → Pattern
word w = literal (codes w)

abbrev pub blank : Pattern
blank = one is_space

abbrev pub blanks : Pattern
blanks = both blank (many blank)

abbrev pub is_letter : ℕ → Bool
is_letter c = (leb 65 c && leb c 90) || (leb 97 c && leb c 122)

abbrev pub letters : Pattern
letters = many (one is_letter)

-- `.`
abbrev pub not_newline : ℕ → Bool
not_newline c = not (eqb c 10)

abbrev pub anything : Pattern
anything = many (one not_newline)

abbrev pub any_word : List String → Pattern
any_word [] = never
any_word (w ∷ ws) = either (word w) (any_word ws)

-- `(?:^|\s)rm\s+(?:-[A-Za-z]*[rf][A-Za-z]*\s+)+/(?:\s|$)`
abbrev pub removes_root : Pattern
removes_root =
    let flag =
      both (word "-")
        (both letters (both (one (λ c. eqb c 114 || eqb c 102)) (both letters blanks))) in
    both blank
      (both (word "rm") (both blanks (both flag (both (many flag) (both (word "/") blank)))))

-- `(?:^|\s)(?:mkfs|fdisk|parted|shutdown|reboot|halt)(?:\s|$)`
abbrev pub runs_system_command : Pattern
runs_system_command =
    both blank
      (both (any_word ("mkfs" ∷ "fdisk" ∷ "parted" ∷ "shutdown" ∷ "reboot" ∷ "halt" ∷ [])) blank)

-- `(?:^|\s)dd\s+.*\bof=/dev/`: what stands before `of` is the blank, or ends in a character that is
-- not of a word.
abbrev pub writes_device : (ℕ → Bool) → Pattern
writes_device is_word = both blank (
    both (word "dd") (
      both blanks (
        both (either empty (both anything (one (λ c. not_newline c && not (is_word c)))))
          (word "of=/dev/"))))

-- `(?:^|\s)git\s+reset\s+--hard(?:\s|$)`
abbrev pub resets_hard : Pattern
resets_hard = both blank (
    both (word "git")
      (both blanks (both (word "reset") (both blanks (both (word "--hard") blank)))))

-- `(?:^|\s)git\s+clean\s+-[A-Za-z]*f`
abbrev pub cleans : Pattern
cleans = both blank (
    both (word "git")
      (both blanks (both (word "clean") (both blanks (both (word "-") (both letters (word "f")))))))

-- `(?:^|\s)git\s+push\s+.*(?:--force|-f)(?:\s|$)`
abbrev pub pushes_force : Pattern
pushes_force = both blank (
    both (word "git") (
      both blanks (
        both (word "push")
          (both blanks (both anything (both (any_word ("--force" ∷ "-f" ∷ [])) blank))))))

-- `(?:^|\s)(?:du|find|ls)\s+/(?:\s|$)`
abbrev pub host_root_read : Pattern
host_root_read =
    both blank (both (any_word ("du" ∷ "find" ∷ "ls" ∷ [])) (both blanks (both (word "/") blank)))

abbrev pub between_spaces : Text → Text
between_spaces text = 32 ∷ (text ++ 32 ∷ [])

-- One of the six destructive patterns is found.
unfoldable pub is_destructive : (ℕ → Bool) → Text → Bool
unfolding search_in
is_destructive is_word command =
    let text = between_spaces command in
    search_in removes_root text
    || search_in runs_system_command text
    || search_in (writes_device is_word) text
    || search_in resets_hard text
    || search_in cleans text
    || search_in pushes_force text

unfoldable pub reads_host_root : Text → Bool
unfolding search_in
reads_host_root command = search_in host_root_read (between_spaces command)
