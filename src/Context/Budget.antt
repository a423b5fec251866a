-- ===== src/Context/Budget.antt =====
-- That texts keep to their budgets (harness/context/compiler.py, harness/orchestration/core.py).
use adk_coding_agent.Prelude.{
  ℕ, zero, suc, ◌+◌, ◌*◌, ◌-◌, ◌/◌, ◌≤◌, min, String, ◌≡◌, refl, ◌∙◌, Bool, false, List, [], ◌∷◌,
  ◌++◌, leb, ltb, length, take, drop, length-append, length-take, length-drop, arith,
}
use adk_coding_agent.Prelude.Int.{ℤ, pos, negsuc, pos_part}
use adk_coding_agent.Prelude.Text.{Text}
use adk_coding_agent.Context.Compiler.{
  estimate_tokens, truncate_to_characters, truncate_to_tokens, keep_ends, marker, has_text,
}
use adk_coding_agent.Context.Packet.{Packet, bounded_packet, build_work_packet, whole_packet}

estimate_tokens-eq : (t : Text) → estimate_tokens t ≡ (length t + 3) / 4
unfolding estimate_tokens
estimate_tokens-eq [] = refl
estimate_tokens-eq (c ∷ t) = ground arith

length-keep_ends :
    (available : ℕ) (t : Text)
    → available ≤ length t
    → length (keep_ends available t) ≡ available + length marker
length-keep_ends available t h = ground (
  arith,
  length-append (take (available * 2 / 3) t)
      (marker ++ drop (length t - (available - available * 2 / 3)) t),
  length-append marker (drop (length t - (available - available * 2 / 3)) t),
  length-take (available * 2 / 3) t,
  length-drop (length t - (available - available * 2 / 3)) t,
)

-- A text within the limit comes back as it is; one over the limit comes back cut to the limit exactly,
-- and flagged.
truncate_to_characters-length :
    (n : ℕ) (t : Text)
    → (length (truncate_to_characters n t).0 ≡ min n (length t))
      × ((truncate_to_characters n t).1 ≡ ltb n (length t))
unfolding truncate_to_characters
truncate_to_characters-length n t =
    ground (arith, length-take n t, length-keep_ends (n - length marker) t)

abbrev pub Truncated : Text → ℕ → Text × Bool → Type 0
Truncated t limit r =
    (estimate_tokens r.0 ≡ min limit (estimate_tokens t))
    × (r.1 ≡ ltb limit (estimate_tokens t))
    × (r.1 ≡ false → r.0 ≡ t)

unflagged :
    (n : ℕ) (t : Text) → (truncate_to_characters n t).1 ≡ false → (truncate_to_characters n t).0 ≡ t
unfolding truncate_to_characters
unflagged n t h = ground arith

no_tokens : (t : Text) → Truncated t 0 ([], has_text t)
no_tokens [] = ground (arith, estimate_tokens-eq [])
no_tokens (c ∷ t) = ground (arith, estimate_tokens-eq [], estimate_tokens-eq (c ∷ t))

truncate_some : (t : Text) (n : ℕ) → Truncated t n (truncate_to_characters (n * 4) t)
truncate_some t n =
    let (bound, flag) = truncate_to_characters-length (n * 4) t in
    (
      omega (
        arith,
        estimate_tokens-eq t,
        estimate_tokens-eq (truncate_to_characters (n * 4) t).0,
        bound,
      ),
      flag ∙ ground (arith, estimate_tokens-eq t),
      unflagged (n * 4) t,
    )

-- A truncated text has as many estimated tokens as it had, or the limit if that is less, a negative
-- limit being 0; it is flagged exactly when it had more than the limit, and unflagged it is the text.
pub truncate_to_tokens_lem :
    (t : Text) (limit : ℤ) → Truncated t (pos_part limit) (truncate_to_tokens t limit)
unfolding truncate_to_tokens
truncate_to_tokens_lem t (negsuc n) = no_tokens t
truncate_to_tokens_lem t (pos zero) = no_tokens t
truncate_to_tokens_lem t (pos (suc n)) =
    let over : leb (suc n) 0 ≡ false = ground arith in rw over (truncate_some t (suc n))

bounded_packet_lem :
    (t : Text) (max_tokens : ℤ)
    → (estimate_tokens (bounded_packet t max_tokens)
        ≡ min (pos_part max_tokens) (estimate_tokens t))
      × (estimate_tokens t ≤ pos_part max_tokens → bounded_packet t max_tokens ≡ t)
unfolding bounded_packet
bounded_packet_lem t max_tokens =
    let (count, flag, same) = truncate_to_tokens_lem t max_tokens in ground arith

-- The work packet never has more estimated tokens than it may, whatever goes into it; and when the
-- whole packet has no more, it is the whole packet.
pub build_work_packet_lem :
    (p : Packet) (max_tokens : ℤ) (limits : List (String × ℤ))
    → (estimate_tokens (build_work_packet p max_tokens limits)
        ≡ min (pos_part max_tokens) (estimate_tokens (whole_packet p limits)))
      × (estimate_tokens (whole_packet p limits) ≤ pos_part max_tokens
          → build_work_packet p max_tokens limits ≡ whole_packet p limits)
unfolding build_work_packet
build_work_packet_lem p max_tokens limits = bounded_packet_lem (whole_packet p limits) max_tokens
