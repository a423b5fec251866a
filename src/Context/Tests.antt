-- ===== src/Context/Tests.antt =====
-- Texts over and under their budgets, at which the theorems on truncation apply.
use adk_coding_agent.Prelude.{min, ◌≤◌, ◌≡◌, refl, [], ◌∷◌}
use adk_coding_agent.Prelude.Int.{pos}
use adk_coding_agent.Prelude.Text.{Text, codes}
use adk_coding_agent.Context.Compiler.{estimate_tokens, truncate_to_tokens, truncate_to_characters}
use adk_coding_agent.Context.Packet.{Packet, build_work_packet, whole_packet}
use adk_coding_agent.Context.Budget.{build_work_packet_lem}

abbrev a_text : Text
a_text = codes "def parse(text): return text.split()"

cut_text : (truncate_to_tokens a_text (pos 2)).0 ≡ codes "def pars"
unfolding truncate_to_tokens truncate_to_characters
cut_text = refl

counted_text : estimate_tokens a_text ≡ 9
unfolding estimate_tokens
counted_text = refl

abbrev a_packet : Packet
a_packet = record {
  task = codes "{}";
  conversation = codes " hello ";
  selected_skills = codes "  ";
  repository_manifest = codes "src/";
  compaction_summary = [];
  recent_events = codes "ran tests" ∷ codes "edited parser" ∷ [];
  steering_messages = [];
}

build_work_packet_lem_example :
    (estimate_tokens (build_work_packet a_packet (pos 5) (("TASK", pos 100) ∷ []))
      ≡ min 5 (estimate_tokens (whole_packet a_packet (("TASK", pos 100) ∷ []))))
    × (estimate_tokens (whole_packet a_packet (("TASK", pos 100) ∷ [])) ≤ 5
        → build_work_packet a_packet (pos 5) (("TASK", pos 100) ∷ [])
          ≡ whole_packet a_packet (("TASK", pos 100) ∷ []))
build_work_packet_lem_example = build_work_packet_lem a_packet (pos 5) (("TASK", pos 100) ∷ [])
