-- ===== src/Context/Compiler.antt =====
-- harness/context/compiler.py. A text is the list of its code points.
use adk_coding_agent.Prelude.{
  ℕ, ◌+◌, ◌*◌, ◌-◌, ◌/◌, max, Bool, true, false, [], ◌∷◌, ◌++◌, leb, if◌then◌else◌, length, take,
  drop,
}
use adk_coding_agent.Prelude.Int.{ℤ, pos, negsuc}
use adk_coding_agent.Prelude.Text.{Text, codes}

abbrev pub chars_per_token_estimate : ℕ
chars_per_token_estimate = 4

unfoldable pub estimate_tokens : Text → ℕ
estimate_tokens [] = 0
estimate_tokens (c ∷ text) =
    max 1 ((length (c ∷ text) + chars_per_token_estimate - 1) / chars_per_token_estimate)

abbrev pub has_text : Text → Bool
has_text [] = false
has_text (c ∷ text) = true

abbrev pub marker : Text
marker = codes "\n... [section truncated by context compiler] ...\n"

-- The beginning and the end that are kept around the marker.
abbrev pub keep_ends : ℕ → Text → Text
keep_ends available text =
    let head = available * 2 / 3 in
    let tail = available - head in take head text ++ (marker ++ drop (length text - tail) text)

-- `truncate_to_tokens` at a positive limit.
unfoldable pub truncate_to_characters : ℕ → Text → Text × Bool
truncate_to_characters character_limit text =
    if leb (length text) character_limit
    then (text, false)
    else if leb character_limit (length marker)
    then (take character_limit text, true)
    else (keep_ends (character_limit - length marker) text, true)

unfoldable pub truncate_to_tokens : Text → ℤ → Text × Bool
unfolding truncate_to_characters
truncate_to_tokens text (negsuc n) = ([], has_text text)
truncate_to_tokens text (pos token_limit) =
    if leb token_limit 0
    then ([], has_text text)
    else truncate_to_characters (token_limit * chars_per_token_estimate) text
