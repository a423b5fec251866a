-- ===== src/Safety/Tests.antt =====
-- Commands and what the classifier and the policy make of them.
use adk_coding_agent.Prelude.{
  ℕ, ◌≡◌, refl, Bool, false, ◌||◌, ◌&&◌, String, none, some, List, [], ◌∷◌, leb, eqb,
}
use adk_coding_agent.Prelude.Text.{codes, strip, lstrip, rstrip, is_space, text_eq}
use adk_coding_agent.Safety.Pattern.{
  is_destructive, reads_host_root, search_in, matches_prefix, derivative,
}
use adk_coding_agent.Safety.Shell.{
  pipe_segments, segments_from, split_pipes, cut_step, cut_free, tokens_of, lex, lex_step,
}
use adk_coding_agent.Safety.Risk.{
  CommandRisk, read_only, publish_or_deploy, destructive, unknown, one_of, base_name_from, git_risk,
  package_risk, notebook_risk, cd_risk,
}
use adk_coding_agent.Safety.Classify.{
  priority, segment_risk, tokens_risk, mutation_risk, max_from, max_risk, classify_text,
  classify_command,
}
use adk_coding_agent.Safety.Policy.{ApprovalPolicy, decide_risk, decide_command}
use adk_coding_agent.Safety.Highest.{AtMost, classify_command_highest, allowed_is_low}

abbrev ascii_word : ℕ → Bool
ascii_word c =
    (leb 48 c && leb c 57) || (leb 65 c && leb c 90) || (leb 97 c && leb c 122) || eqb c 95

abbrev risk_of : String → CommandRisk
risk_of s = classify_command ascii_word none (codes s)

quoted_tokens : tokens_of (codes "echo \"a b\"'c' ''") ≡ codes "echo" ∷ codes "a bc" ∷ [] ∷ []
unfolding tokens_of lex lex_step
quoted_tokens = refl

cut_segments :
    pipe_segments (codes "a && b|c ; d &e") ≡ codes "a" ∷ codes "b" ∷ codes "c" ∷ codes "d &e" ∷ []
unfolding pipe_segments segments_from split_pipes cut_step cut_free strip lstrip rstrip is_space
cut_segments = refl

-- In the last two, one `&` is no separator, so that what runs behind it is an argument of `true`, and
-- the listing of the host's root decides before the segments do.
abbrev sample_risks : List CommandRisk
sample_risks =
    risk_of "git status | head"
    ∷ risk_of "rm -rf /"
    ∷ risk_of "npm publish"
    ∷ risk_of "/usr/bin/python -m pytest; rm -r x"
    ∷ risk_of "dd if=x of=/dev/sda"
    ∷ risk_of "git push origin -f"
    ∷ risk_of "true & rm -r build"
    ∷ risk_of "ls / && sudo x"
    ∷ []

risks_of_samples :
    sample_risks
    ≡ read_only ∷ destructive ∷ publish_or_deploy ∷ destructive ∷ destructive ∷ destructive
      ∷ read_only ∷ unknown ∷ []
unfolding classify_command classify_text is_destructive reads_host_root search_in matches_prefix
    derivative pipe_segments segments_from split_pipes cut_step cut_free strip lstrip rstrip
    segment_risk tokens_of lex lex_step tokens_risk one_of base_name_from git_risk package_risk
    notebook_risk cd_risk mutation_risk max_risk max_from text_eq is_space
risks_of_samples = refl

abbrev closed_policy : ApprovalPolicy
closed_policy = record {
  allow_dependency_install = false;
  allow_network = false;
  allow_git_history_mutation = false;
  allow_unknown = false;
  approved_fingerprints = "f1" ∷ [];
}

classify_command_highest_example :
    AtMost
      (priority (classify_command ascii_word none (codes "ls | curl x")))
      none
      (pipe_segments (strip (codes "ls | curl x")))
unfolding reads_host_root search_in matches_prefix derivative strip lstrip rstrip is_space
classify_command_highest_example =
    classify_command_highest ascii_word none (codes "ls | curl x") refl

allowed_is_low_example :
    (is_destructive ascii_word (strip (codes "ls | wc")) ≡ false)
    × AtMost 2 none (pipe_segments (strip (codes "ls | wc")))
unfolding decide_command decide_risk classify_command classify_text is_destructive reads_host_root
    search_in matches_prefix derivative pipe_segments segments_from split_pipes cut_step cut_free
    strip lstrip rstrip segment_risk tokens_of lex lex_step tokens_risk one_of base_name_from
    git_risk package_risk notebook_risk cd_risk mutation_risk max_risk max_from text_eq is_space
allowed_is_low_example =
    allowed_is_low closed_policy ascii_word none (codes "ls | wc") (some "f2")
      (refl, refl, refl, refl) refl refl
