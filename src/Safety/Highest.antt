-- ===== src/Safety/Highest.antt =====
-- What the classification and the policy of harness/safety/approval.py guarantee.
use adk_coding_agent.Prelude.{
  ℕ, ◌≤◌, ◌≡◌, ◌↔◌, refl, sym, subst, Bool, true, false, String, Option, List, [], ◌∷◌, map, leb,
  if◌then◌else◌, All, arith,
}
use adk_coding_agent.Prelude.Text.{Text, strip, lstrip, rstrip}
use adk_coding_agent.Safety.Pattern.{is_destructive, reads_host_root}
use adk_coding_agent.Safety.Shell.{pipe_segments, segments_from, split_pipes}
use adk_coding_agent.Safety.Risk.{CommandRisk, destructive, publish_or_deploy}
use adk_coding_agent.Safety.Classify.{
  priority, higher, max_from, max_risk, segment_risk, classify_text, classify_command,
}
use adk_coding_agent.Safety.Policy.{
  allow, deny, require_approval, ApprovalPolicy, is_preapproved, decide_risk, decide_command,
}

-- The risk of every pipe segment is at most a priority.
abbrev pub AtMost : ℕ → Option (Text → Bool) → List Text → Type 0
AtMost n workspace = All (λ p. leb (priority (segment_risk workspace p)) n ≡ true)

from_best :
    (best : CommandRisk) (risks : List CommandRisk)
    → leb (priority best) (priority (max_from best risks)) ≡ true
unfolding max_from
from_best best [] = ground arith
from_best best (r ∷ risks) = ground (arith, from_best (higher best r) risks)

AtMost-from :
    (workspace : Option (Text → Bool)) (n : ℕ) (best : CommandRisk) (segments : List Text)
    → priority (max_from best (map (segment_risk workspace) segments)) ≤ n
    → AtMost n workspace segments
unfolding max_from
AtMost-from workspace n best [] h = tt
AtMost-from workspace n best (p ∷ segments) h =
    let best' = higher best (segment_risk workspace p) in
    let top = from_best best' (map (segment_risk workspace) segments) in
    (ground arith, AtMost-from workspace n best' segments h)

AtMost-max :
    (workspace : Option (Text → Bool)) (n : ℕ) (segments : List Text)
    → priority (max_risk (map (segment_risk workspace) segments)) ≤ n
    → AtMost n workspace segments
unfolding max_risk
AtMost-max workspace n [] h = tt
AtMost-max workspace n (p ∷ segments) h =
    let top = from_best (segment_risk workspace p) (map (segment_risk workspace) segments) in
    (ground arith, AtMost-from workspace n (segment_risk workspace p) segments h)

no_segments : pipe_segments [] ≡ []
unfolding pipe_segments segments_from split_pipes strip lstrip rstrip
no_segments = refl

top_priority : (r : CommandRisk) → leb (priority r) 8 ≡ true
top_priority r = ground arith

AtMost-top : (workspace : Option (Text → Bool)) (segments : List Text) → AtMost 8 workspace segments
AtMost-top workspace [] = tt
AtMost-top workspace (p ∷ segments) =
    (top_priority (segment_risk workspace p), AtMost-top workspace segments)

-- What the tests come to.
unfoldable classified : Bool → Bool → List CommandRisk → CommandRisk
unfolding max_risk
classified destroys reads_root risks =
    if destroys then destructive else if reads_root then CommandRisk.unknown else max_risk risks

AtMost-classified :
    (destroys reads_root : Bool) (workspace : Option (Text → Bool)) (segments : List Text)
    → reads_root ≡ false
    → AtMost
        (priority (classified destroys reads_root (map (segment_risk workspace) segments)))
        workspace
        segments
unfolding classified
AtMost-classified true reads_root workspace segments h = AtMost-top workspace segments
AtMost-classified false true workspace segments h = absurd (ground arith)
AtMost-classified false false workspace segments h =
    AtMost-max workspace (priority (max_risk (map (segment_risk workspace) segments))) segments
      (omega arith)

text_highest :
    (is_word : ℕ → Bool) (workspace : Option (Text → Bool)) (t : Text)
    → reads_host_root t ≡ false
    → AtMost (priority (classify_text is_word workspace t)) workspace (pipe_segments t)
unfolding classify_text classified
text_highest is_word workspace [] h =
    subst (λ l. AtMost (priority (classify_text is_word workspace [])) workspace l)
      (sym no_segments) tt
text_highest is_word workspace (c ∷ t) h =
    AtMost-classified (is_destructive is_word (c ∷ t)) (reads_host_root (c ∷ t)) workspace
      (pipe_segments (c ∷ t)) h

-- A command in which no listing of the host's root is found is classified at least as high as each of
-- the pipe segments that the code cuts it into.
pub classify_command_highest :
    (is_word : ℕ → Bool) (workspace : Option (Text → Bool)) (command : Text)
    → reads_host_root (strip command) ≡ false
    → AtMost
        (priority (classify_command is_word workspace command))
        workspace
        (pipe_segments (strip command))
unfolding classify_command
classify_command_highest is_word workspace command h =
    text_highest is_word workspace (strip command) h

-- A policy without any switch on.
abbrev pub NoOptIn : ApprovalPolicy → Type 0
NoOptIn p =
    (p.allow_dependency_install ≡ false)
    × (p.allow_network ≡ false)
    × (p.allow_git_history_mutation ≡ false)
    × (p.allow_unknown ≡ false)

low_risk :
    (policy : ApprovalPolicy) (r : CommandRisk)
    → NoOptIn policy
    → (decide_risk policy r).action ≡ allow
    → priority r ≤ 2
unfolding decide_risk
low_risk policy r shut h = ground arith

low_tests :
    (destroys reads_root : Bool) (risks : List CommandRisk)
    → priority (classified destroys reads_root risks) ≤ 2
    → (destroys ≡ false) × (reads_root ≡ false)
unfolding classified
low_tests destroys reads_root risks h = ground arith

low_text :
    (is_word : ℕ → Bool) (workspace : Option (Text → Bool)) (t : Text)
    → priority (classify_text is_word workspace t) ≤ 2
    → (is_destructive is_word t ≡ false) × AtMost 2 workspace (pipe_segments t)
unfolding classify_text classified
low_text is_word workspace [] h = absurd (omega arith)
low_text is_word workspace (c ∷ t) h =
    let (d, r) =
      low_tests (is_destructive is_word (c ∷ t)) (reads_host_root (c ∷ t))
        (map (segment_risk workspace) (pipe_segments (c ∷ t))) h in
    (d, AtMost-max workspace 2 (pipe_segments (c ∷ t)) (ground arith))

-- A policy with no switch on runs a command that was not approved beforehand only when none of the
-- destructive patterns is found in it and each of the pipe segments that the code cuts it into has one
-- of the three lowest risks: it reads, builds or tests, or changes the workspace.
pub allowed_is_low :
    (policy : ApprovalPolicy) (is_word : ℕ → Bool) (workspace : Option (Text → Bool))
    (command : Text) (fingerprint : Option String)
    → NoOptIn policy
    → is_preapproved policy fingerprint ≡ false
    → (decide_command policy is_word workspace command fingerprint).action ≡ allow
    → (is_destructive is_word (strip command) ≡ false)
      × AtMost 2 workspace (pipe_segments (strip command))
unfolding decide_command classify_command
allowed_is_low policy is_word workspace command fingerprint shut unknown_before h =
    let risk = classify_text is_word workspace (strip command) in
    low_text is_word workspace (strip command) (low_risk policy risk shut (ground arith))

-- A command is denied exactly when it is destructive and was not approved beforehand; one that
-- publishes or deploys then asks for approval, whatever the switches.
pub denied_is_destructive :
    (policy : ApprovalPolicy) (is_word : ℕ → Bool) (workspace : Option (Text → Bool))
    (command : Text) (fingerprint : Option String)
    → ((decide_command policy is_word workspace command fingerprint).action ≡ deny ↔ (
        (is_preapproved policy fingerprint ≡ false)
        × (classify_command is_word workspace command ≡ destructive)))
      × (is_preapproved policy fingerprint ≡ false
          → classify_command is_word workspace command ≡ publish_or_deploy
          → (decide_command policy is_word workspace command fingerprint).action ≡ require_approval)
unfolding decide_command decide_risk
denied_is_destructive policy is_word workspace command fingerprint = ground arith
