-- ===== src/Safety/Classify.antt =====
-- `classify_command` of harness/safety/approval.py.
use adk_coding_agent.Prelude.{
  ℕ, String, Bool, not, ◌&&◌, Option, List, [], ◌∷◌, leb, eqb, if◌then◌else◌, any, map,
}
use adk_coding_agent.Prelude.Text.{Text, strip}
use adk_coding_agent.Safety.Pattern.{is_destructive, reads_host_root}
use adk_coding_agent.Safety.Shell.{pipe_segments, tokens_of, is_nonempty}
use adk_coding_agent.Safety.Risk.{
  CommandRisk, read_only, workspace_mutation, build_or_test, dependency_install, network_access,
  git_history_mutation, publish_or_deploy, destructive, unknown, one_of, any_of, base_name_from,
  git_risk, publish_words, package_risk, notebook_risk, starts_with, cd_risk,
}

abbrev pub package_commands : List String
package_commands = "pip" ∷ "pip3" ∷ "uv" ∷ "npm" ∷ "npx" ∷ "pnpm" ∷ "yarn" ∷ "cargo" ∷ "go" ∷ []

abbrev pub network_commands : List String
network_commands =
    "curl" ∷ "ftp" ∷ "gh" ∷ "git" ∷ "http" ∷ "https" ∷ "nc" ∷ "netcat" ∷ "scp" ∷ "sftp" ∷ "ssh"
    ∷ "telnet" ∷ "wget" ∷ []

abbrev pub mutation_commands : List String
mutation_commands =
    "chmod" ∷ "cp" ∷ "install" ∷ "ln" ∷ "mkdir" ∷ "mv" ∷ "patch" ∷ "rm" ∷ "rmdir" ∷ "touch"
    ∷ "truncate" ∷ []

abbrev pub build_commands : List String
build_commands =
    "cargo" ∷ "dotnet" ∷ "go" ∷ "gradle" ∷ "gradlew" ∷ "java" ∷ "javac" ∷ "make" ∷ "mvn" ∷ "npm"
    ∷ "npx" ∷ "pnpm" ∷ "pyright" ∷ "pytest" ∷ "python" ∷ "python3" ∷ "ruff" ∷ "tox" ∷ "uv" ∷ "yarn"
    ∷ []

abbrev pub safe_read_commands : List String
safe_read_commands =
    "cat" ∷ "cut" ∷ "diff" ∷ "du" ∷ "echo" ∷ "find" ∷ "git" ∷ "grep" ∷ "head" ∷ "ls" ∷ "pwd"
    ∷ "printf" ∷ "rg" ∷ "sed" ∷ "sort" ∷ "stat" ∷ "tail" ∷ "wc" ∷ "which" ∷ "test" ∷ "true"
    ∷ "false" ∷ []

-- `"r" in token and token.startswith("-")`
abbrev pub is_recursive_flag : Text → Bool
is_recursive_flag token = any (eqb 114) token && starts_with 45 token

unfoldable pub mutation_risk : Text → List Text → CommandRisk
unfolding one_of
mutation_risk executable args =
    if one_of executable ("rm" ∷ []) && any is_recursive_flag args
    then destructive
    else workspace_mutation

-- The chain of tests on the executable of a pipe segment.
unfoldable pub tokens_risk : Option (Text → Bool) → List Text → CommandRisk
unfolding one_of base_name_from git_risk package_risk notebook_risk cd_risk mutation_risk
tokens_risk workspace [] = unknown
tokens_risk workspace (program ∷ args) =
    let executable = base_name_from [] program in
    if one_of executable ("sudo" ∷ [])
    then destructive
    else if one_of executable ("cd" ∷ [])
    then cd_risk workspace (program ∷ args)
    else if one_of executable ("git" ∷ [])
    then git_risk (program ∷ args)
    else if one_of executable ("nb" ∷ [])
    then notebook_risk (program ∷ args)
    else if one_of executable package_commands
    then package_risk (program ∷ args)
    else if one_of executable network_commands
    then network_access
    else if one_of executable mutation_commands
    then mutation_risk executable args
    else if one_of executable build_commands
    then build_or_test
    else if one_of executable safe_read_commands
    then read_only
    else if one_of executable ("gcloud" ∷ "kubectl" ∷ "terraform" ∷ "helm" ∷ "docker" ∷ [])
    then (if any_of args publish_words then publish_or_deploy else unknown)
    else unknown

unfoldable pub segment_risk : Option (Text → Bool) → Text → CommandRisk
unfolding tokens_of tokens_risk
segment_risk workspace segment = tokens_risk workspace (tokens_of segment)

abbrev pub priority : CommandRisk → ℕ
priority read_only = 0
priority build_or_test = 1
priority workspace_mutation = 2
priority dependency_install = 3
priority network_access = 4
priority git_history_mutation = 5
priority unknown = 6
priority publish_or_deploy = 7
priority destructive = 8

-- `max` by priority; the first of equals stays.
abbrev pub higher : CommandRisk → CommandRisk → CommandRisk
higher a b = if leb (priority b) (priority a) then a else b

unfoldable pub max_from : CommandRisk → List CommandRisk → CommandRisk
max_from best [] = best
max_from best (r ∷ risks) = max_from (higher best r) risks

unfoldable pub max_risk : List CommandRisk → CommandRisk
unfolding max_from
max_risk [] = unknown
max_risk (r ∷ risks) = max_from r risks

-- The command once it is stripped.
unfoldable pub classify_text : (ℕ → Bool) → Option (Text → Bool) → Text → CommandRisk
unfolding is_destructive reads_host_root pipe_segments segment_risk max_risk
classify_text is_word workspace command =
    if not (is_nonempty command)
    then unknown
    else if is_destructive is_word command
    then destructive
    else if reads_host_root command
    then unknown
    else max_risk (map (segment_risk workspace) (pipe_segments command))

unfoldable pub classify_command : (ℕ → Bool) → Option (Text → Bool) → Text → CommandRisk
unfolding strip classify_text
classify_command is_word workspace command = classify_text is_word workspace (strip command)
