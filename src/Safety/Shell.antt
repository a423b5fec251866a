-- ===== src/Safety/Shell.antt =====
-- How harness/safety/approval.py takes a command apart: `_SHELL_SPLIT`, the pipes, and `_tokens`,
-- which is `shlex.split` in POSIX mode. The blanks that `_SHELL_SPLIT` takes with a separator are
-- those that `strip` takes off each part afterwards.
use adk_coding_agent.Prelude.{
  ℕ, Bool, true, false, ◌&&◌, ◌||◌, Option, none, some, List, [], ◌∷◌, ◌++◌, map, eqb,
  if◌then◌else◌, filter,
}
use adk_coding_agent.Prelude.Text.{Text, strip}

abbrev pub is_nonempty {ℓ} : {A : Type ℓ} → List A → Bool
is_nonempty [] = false
is_nonempty (x ∷ xs) = true

-- `;` or a newline
abbrev pub separates : ℕ → Bool
separates c = eqb c 59 || eqb c 10

-- `&` or `|`, of which two separate
abbrev pub may_separate : ℕ → Bool
may_separate c = eqb c 38 || eqb c 124

-- A character that may begin a separator is held until the next one is seen. The result is the text
-- that the part goes on with, what is held, and the part that has ended.
abbrev pub Cut : Type 0
Cut = Text × Option ℕ × Option Text

unfoldable pub cut_free : Text → ℕ → Cut
cut_free part c =
    if separates c
    then ([], none, some part)
    else if may_separate c
    then (part, some c, none)
    else (part ++ c ∷ [], none, none)

unfoldable pub cut_step : Text → Option ℕ → ℕ → Cut
unfolding cut_free
cut_step part none c = cut_free part c
cut_step part (some held) c =
    if eqb c held then ([], none, some part) else cut_free (part ++ held ∷ []) c

abbrev pub emit : Option Text → List Text → List Text
emit none parts = parts
emit (some part) parts = part ∷ parts

unfoldable pub segments_from : Text → Option ℕ → Text → List Text
unfolding cut_step
segments_from part none [] = part ∷ []
segments_from part (some held) [] = (part ++ held ∷ []) ∷ []
segments_from part held (c ∷ text) =
    let (part', held', ended) = cut_step part held c in emit ended (segments_from part' held' text)

-- `segment.split("|")`
unfoldable pub split_pipes : Text → Text → List Text
split_pipes part [] = part ∷ []
split_pipes part (c ∷ text) =
    let rest = split_pipes (if eqb c 124 then [] else part ++ c ∷ []) text in
    if eqb c 124 then part ∷ rest else rest

abbrev pub concat_map : (Text → List Text) → List Text → List Text
concat_map f [] = []
concat_map f (x ∷ xs) = f x ++ concat_map f xs

-- The pipe segments of all segments, stripped, the blank ones left out.
unfoldable pub pipe_segments : Text → List Text
unfolding segments_from split_pipes strip
pipe_segments command =
    filter is_nonempty (map strip (concat_map (split_pipes []) (segments_from [] none command)))

pub data LexMode : Type 0 where
  outside inside : LexMode
  quoting : ℕ → LexMode
  escaping : Option ℕ → LexMode

-- The state of `shlex`: its mode, the token so far, and whether a part of it was quoted.
pub record Lexer : Type 0 where
  pub mode : LexMode
  pub token : Text
  pub quoted : Bool

abbrev pub is_blank : ℕ → Bool
is_blank c = eqb c 32 || eqb c 9 || eqb c 13 || eqb c 10

abbrev pub is_quote : ℕ → Bool
is_quote c = eqb c 34 || eqb c 39

abbrev pub fresh_lexer : Lexer
fresh_lexer = record { mode = outside; token = []; quoted = false }

-- Within a word and before one.
abbrev pub word_step : Lexer → ℕ → Lexer
word_step l c =
    if is_quote c
    then record l { mode = quoting c }
    else if eqb c 92
    then record l { mode = escaping none }
    else record l { mode = inside; token = l.token ++ c ∷ [] }

-- A backslash in double quotes stays when what follows is neither a backslash nor the quote.
abbrev pub escaped_token : Option ℕ → Text → ℕ → Text
escaped_token none token c = token ++ c ∷ []
escaped_token (some quote) token c =
    if eqb c 92 || eqb c quote then token ++ c ∷ [] else token ++ (92 ∷ c ∷ [])

abbrev pub mode_after : Option ℕ → LexMode
mode_after none = inside
mode_after (some quote) = quoting quote

abbrev pub has_token : Lexer → Bool
has_token l = is_nonempty l.token || l.quoted

unfoldable pub lex_step : LexMode → Lexer → ℕ → Lexer × Option Text
lex_step outside l c = (if is_blank c then fresh_lexer else word_step l c, none)
lex_step inside l c =
    if is_blank c
    then (fresh_lexer, if has_token l then some l.token else none)
    else (word_step l c, none)
lex_step (quoting q) l c = (
  (if eqb c q
      then record l { mode = inside; quoted = true }
      else if eqb c 92 && eqb q 34
      then record l { mode = escaping (some q); quoted = true }
      else record l { token = l.token ++ c ∷ []; quoted = true }),
  none,
)
lex_step (escaping back) l c =
    (record l { mode = mode_after back; token = escaped_token back l.token c }, none)

-- At the end of the text a quotation or an escape that is open is a ValueError.
abbrev pub lex_end : LexMode → Lexer → Option (List Text)
lex_end outside l = some []
lex_end inside l = some (if has_token l then l.token ∷ [] else [])
lex_end (quoting q) l = none
lex_end (escaping back) l = none

abbrev pub emit_token : Option Text → Option (List Text) → Option (List Text)
emit_token none rest = rest
emit_token (some token) none = none
emit_token (some token) (some rest) = some (token ∷ rest)

unfoldable pub lex : Lexer → Text → Option (List Text)
unfolding lex_step
lex l [] = lex_end l.mode l
lex l (c ∷ text) = let (next, token) = lex_step l.mode l c in emit_token token (lex next text)

-- `_tokens`
unfoldable pub tokens_of : Text → List Text
unfolding lex
tokens_of segment = elim (lex fresh_lexer segment) [ none ↦ [] | some tokens ↦ tokens ]
