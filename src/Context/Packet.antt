-- ===== src/Context/Packet.antt =====
-- harness/orchestration/core.py `build_work_packet`. The text of the TASK section, the JSON of the
-- ledger's projection, is an argument.
use adk_coding_agent.Prelude.{String, Bool, true, false, List, [], ◌∷◌, ◌++◌, if◌then◌else◌, ◌==◌}
use adk_coding_agent.Prelude.Int.{ℤ, pos, negsuc, int_le}
use adk_coding_agent.Prelude.Text.{Text, codes, strip}
use adk_coding_agent.Context.Compiler.{estimate_tokens, truncate_to_tokens, has_text}

pub record Packet : Type 0 where
  pub task : Text
  pub conversation : Text
  pub selected_skills : Text
  pub repository_manifest : Text
  pub compaction_summary : Text
  pub recent_events : List Text
  pub steering_messages : List Text

abbrev pub default_limits : List (String × ℤ)
default_limits =
    ("TASK", pos 2000)
    ∷ ("CONVERSATION", pos 2000)
    ∷ ("SELECTED SKILLS", pos 6000)
    ∷ ("REPOSITORY MANIFEST", pos 800)
    ∷ ("COMPACTED HISTORY", pos 3000)
    ∷ ("RECENT EVENTS", pos 3500)
    ∷ ("USER STEERING", pos 1000)
    ∷ []

abbrev pub lookup : String → List (String × ℤ) → ℤ → ℤ
lookup title [] default = default
lookup title ((name, limit) ∷ limits) default =
    if name == title then limit else lookup title limits default

-- `limits[title]` once the caller's limits have replaced the defaults, and `max(..., 0)` of it.
abbrev pub limit_of : List (String × ℤ) → String → ℤ
limit_of overrides title = lookup title overrides (lookup title default_limits (pos 0))

abbrev pub at_least_zero : ℤ → ℤ
at_least_zero (pos n) = pos n
at_least_zero (negsuc n) = pos 0

-- `str.join`
abbrev pub join : Text → List Text → Text
join separator [] = []
join separator (t ∷ []) = t
join separator (t ∷ u ∷ texts) = t ++ (separator ++ join separator (u ∷ texts))

-- A section's title, the title in lower case, and the body.
abbrev pub Section : Type 0
Section = String × String × Text

unfoldable pub sections_of : Packet → List Section
unfolding strip
sections_of p =
    ("TASK", "task", p.task)
    ∷ ("CONVERSATION", "conversation", p.conversation)
    ∷ ("SELECTED SKILLS", "selected skills", strip p.selected_skills)
    ∷ ("REPOSITORY MANIFEST", "repository manifest", strip p.repository_manifest)
    ∷ ("COMPACTED HISTORY", "compacted history", strip p.compaction_summary)
    ∷ ("RECENT EVENTS", "recent events", strip (join (codes "\n") p.recent_events))
    ∷ ("USER STEERING", "user steering", strip (join (codes "\n") p.steering_messages))
    ∷ []

abbrev pub notice : String → Text
notice lower = codes "\n[" ++ (codes lower ++ codes " truncated to configured budget]")

abbrev pub with_notice : String → Text × Bool → Text
with_notice lower (bounded, true) = bounded ++ notice lower
with_notice lower (bounded, false) = bounded

abbrev pub heading : String → Text
heading title = codes "## " ++ (codes title ++ codes "\n")

unfoldable pub render_section : List (String × ℤ) → Section → Text
unfolding truncate_to_tokens
render_section limits (title, lower, body) =
    heading title
    ++ with_notice lower (truncate_to_tokens body (at_least_zero (limit_of limits title)))

unfoldable pub rendered : List (String × ℤ) → List Section → List Text
unfolding render_section
rendered limits [] = []
rendered limits ((title, lower, body) ∷ sections) =
    let rest = rendered limits sections in
    if has_text body then render_section limits (title, lower, body) ∷ rest else rest

-- `packet` before it is cut to `max_tokens`.
unfoldable pub whole_packet : Packet → List (String × ℤ) → Text
unfolding rendered sections_of
whole_packet p limits = join (codes "\n\n") (rendered limits (sections_of p))

-- The packet, truncated when it is over `max_tokens`.
unfoldable pub bounded_packet : Text → ℤ → Text
unfolding estimate_tokens truncate_to_tokens
bounded_packet packet max_tokens =
    if int_le (pos (estimate_tokens packet)) max_tokens
    then packet
    else (truncate_to_tokens packet max_tokens).0

unfoldable pub build_work_packet : Packet → ℤ → List (String × ℤ) → Text
unfolding whole_packet bounded_packet
build_work_packet p max_tokens limits = bounded_packet (whole_packet p limits) max_tokens
