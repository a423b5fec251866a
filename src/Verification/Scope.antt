-- ===== src/Verification/Scope.antt =====
-- `check_scope` of harness/verification/scope.py, with `fnmatch.fnmatch` and the text of a
-- `PurePosixPath` as the standard library has them on a POSIX system.
use adk_coding_agent.Prelude.{
  ℕ, Bool, true, false, not, ◌&&◌, ◌||◌, Option, none, some, List, [], ◌∷◌, ◌++◌, map, leb, ltb,
  eqb, if◌then◌else◌, any, filter,
}
use adk_coding_agent.Prelude.Sort.{sort}
use adk_coding_agent.Prelude.Text.{Text, codes, text_eq}

abbrev pub is_slash : ℕ → Bool
is_slash c = eqb c 47

-- The parts of a path, between its slashes.
unfoldable pub split_slashes : Text → Text → List Text
split_slashes part [] = part ∷ []
split_slashes part (c ∷ text) =
    let cut = split_slashes [] text in
    let grown = split_slashes (part ++ c ∷ []) text in if is_slash c then part ∷ cut else grown

-- A path forgets its parts that are empty or a dot.
abbrev pub is_part : Text → Bool
is_part [] = false
is_part (c ∷ []) = not (eqb c 46)
is_part (c ∷ d ∷ rest) = true

abbrev pub join_slashes : List Text → Text
join_slashes [] = []
join_slashes (part ∷ []) = part
join_slashes (part ∷ next ∷ parts) = part ++ 47 ∷ join_slashes (next ∷ parts)

-- `PurePosixPath(path).as_posix()`, without a root, which the `lstrip` after it would take off, as it
-- takes off the dot that stands for no parts.
unfoldable pub posix_text : Text → Text
unfolding split_slashes
posix_text path = join_slashes (filter is_part (split_slashes [] path))

-- `lstrip("./")`
unfoldable pub strip_dots : Text → Text
strip_dots [] = []
strip_dots (c ∷ text) =
    let rest = strip_dots text in if eqb c 46 || is_slash c then rest else c ∷ text

-- `replace("\\", "/")`
abbrev pub forward_slashes : Text → Text
forward_slashes = map (λ c. if eqb c 92 then 47 else c)

unfoldable pub has_prefix : Text → Text → Bool
has_prefix [] text = true
has_prefix (p ∷ prefix) [] = false
has_prefix (p ∷ prefix) (c ∷ text) = eqb p c && has_prefix prefix text

abbrev pub ends_slash : Text → Bool
ends_slash [] = false
ends_slash (c ∷ []) = is_slash c
ends_slash (c ∷ d ∷ text) = ends_slash (d ∷ text)

-- A pattern of `fnmatch`: a star, any one character, or one that passes a test.
pub data Glob : Type 0 where
  star any_one : Glob
  one_that : (ℕ → Bool) → Glob

-- The characters of a set, in which `a-b` is a range.
abbrev pub in_set : Text → ℕ → Bool
in_set [] c = false
in_set (a ∷ []) c = eqb a c
in_set (a ∷ b ∷ []) c = eqb a c || eqb b c
in_set (a ∷ b ∷ d ∷ rest) c =
    let next = in_set (b ∷ d ∷ rest) c in
    let after = in_set rest c in if eqb b 45 then (leb a c && leb c d) || after else eqb a c || next

-- `[!...]`
abbrev pub set_test : Text → ℕ → Bool
set_test [] c = false
set_test (a ∷ set) c = if eqb a 33 then not (in_set set c) else in_set (a ∷ set) c

-- Where the reading of a pattern stands: outside of a set, or in one, with what it has so far.
pub data Reading : Type 0 where
  outside : Reading
  inside : Text → Reading

-- A bracket closes a set that is not at its start.
abbrev pub may_close : Text → Bool
may_close [] = false
may_close (c ∷ []) = not (eqb c 33)
may_close (c ∷ d ∷ set) = true

-- The set closes further on in the pattern.
unfoldable pub closes : Text → Text → Bool
closes set [] = false
closes set (c ∷ pattern) =
    let rest = closes (set ++ c ∷ []) pattern in if eqb c 93 && may_close set then true else rest

abbrev pub literal_glob : ℕ → Glob
literal_glob c = if eqb c 42 then star else if eqb c 63 then any_one else one_that (eqb c)

-- The parts of a pattern. A bracket that no other closes stands for itself.
unfoldable pub parse : Reading → Text → List Glob
unfolding closes
parse state [] = []
parse outside (c ∷ pattern) =
    let set = parse (inside []) pattern in
    let plain = parse outside pattern in
    if eqb c 91 && closes [] pattern then set else literal_glob c ∷ plain
parse (inside set) (c ∷ pattern) =
    let closed = parse outside pattern in
    let more = parse (inside (set ++ c ∷ [])) pattern in
    if eqb c 93 && may_close set then one_that (set_test set) ∷ closed else more

-- A star in front: the rest of the pattern matches some end of the text.
unfoldable pub some_end : (Text → Bool) → Text → Bool
some_end match [] = match []
some_end match (c ∷ text) = match (c ∷ text) || some_end match text

unfoldable pub glob_matches : List Glob → Text → Bool
unfolding some_end
glob_matches [] [] = true
glob_matches [] (c ∷ text) = false
glob_matches (star ∷ globs) text = some_end (glob_matches globs) text
glob_matches (any_one ∷ globs) [] = false
glob_matches (any_one ∷ globs) (c ∷ text) = glob_matches globs text
glob_matches (one_that p ∷ globs) [] = false
glob_matches (one_that p ∷ globs) (c ∷ text) = p c && glob_matches globs text

-- `fnmatch.fnmatch`
unfoldable pub fnmatch : Text → Text → Bool
unfolding parse glob_matches
fnmatch name pattern = glob_matches (parse outside pattern) name

-- `_matches`; a pattern that is left does not end in a slash, so that its `rstrip` changes nothing.
unfoldable pub matches : Text → Text → Bool
unfolding posix_text strip_dots has_prefix fnmatch
matches path pattern =
    let normalized = strip_dots (posix_text path) in
    let normalized_pattern = strip_dots (forward_slashes pattern) in
    if ends_slash normalized_pattern
    then has_prefix normalized_pattern normalized
    else fnmatch normalized normalized_pattern
      || has_prefix (normalized_pattern ++ 47 ∷ []) normalized

-- The order of Python's `str`.
abbrev pub text_le : Text → Text → Bool
text_le [] t = true
text_le (a ∷ s) [] = false
text_le (a ∷ s) (b ∷ t) = ltb a b || (eqb a b && text_le s t)

-- `set(paths)`
unfoldable pub distinct : List Text → List Text
unfolding text_eq
distinct [] = []
distinct (p ∷ paths) = let rest = distinct paths in if any (text_eq p) paths then rest else p ∷ rest

-- What is wrong with a path.
unfoldable pub violation : Option (List Text) → List Text → Text → Option Text
unfolding matches
violation allowed forbidden path =
    if any (matches path) forbidden
    then some (codes "forbidden path changed: " ++ path)
    else elim allowed [
      | none ↦ none
      | some patterns ↦
          if any (matches path) patterns
          then none
          else some (codes "path outside allowed scope: " ++ path)
    ]

abbrev pub collect : Option Text → List Text → List Text
collect none rest = rest
collect (some message) rest = message ∷ rest

-- The loop over the sorted paths.
unfoldable pub violations_of : Option (List Text) → List Text → List Text → List Text
unfolding violation
violations_of allowed forbidden [] = []
violations_of allowed forbidden (path ∷ paths) =
    collect (violation allowed forbidden path) (violations_of allowed forbidden paths)

unfoldable pub check_scope : List Text → Option (List Text) → List Text → List Text
unfolding violations_of distinct
check_scope changed allowed forbidden =
    violations_of allowed forbidden (sort text_le (distinct changed))
