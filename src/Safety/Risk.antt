-- ===== src/Safety/Risk.antt =====
-- The risks of harness/safety/approval.py, and those of one program's arguments.
use adk_coding_agent.Prelude.{
  ℕ, String, Bool, false, ◌&&◌, ◌||◌, Option, some, List, [], ◌∷◌, ◌++◌, eqb, if◌then◌else◌, any,
}
use adk_coding_agent.Prelude.Text.{Text, codes, text_eq}

pub data CommandRisk : Type 0 where
  read_only workspace_mutation build_or_test dependency_install network_access git_history_mutation
        publish_or_deploy destructive unknown :
      CommandRisk

-- `text in {...}`
unfoldable pub one_of : Text → List String → Bool
unfolding text_eq
one_of t [] = false
one_of t (w ∷ ws) = text_eq t (codes w) || one_of t ws

-- `set(args) & {...}`
abbrev pub any_of : List Text → List String → Bool
any_of args ws = any (λ t. one_of t ws) args

-- `token.rsplit("/", 1)[-1]`
unfoldable pub base_name_from : Text → Text → Text
base_name_from part [] = part
base_name_from part (c ∷ text) = base_name_from (if eqb c 47 then [] else part ++ c ∷ []) text

abbrev pub git_mutations : List String
git_mutations =
    "add" ∷ "am" ∷ "branch" ∷ "checkout" ∷ "cherry-pick" ∷ "commit" ∷ "merge" ∷ "mv" ∷ "rebase"
    ∷ "reset" ∷ "restore" ∷ "revert" ∷ "rm" ∷ "stash" ∷ "switch" ∷ "tag" ∷ "worktree" ∷ []

unfoldable pub git_risk : List Text → CommandRisk
unfolding one_of
git_risk (program ∷ subcommand ∷ args) =
    if one_of subcommand git_mutations
    then git_history_mutation
    else if one_of subcommand ("push" ∷ "send-email" ∷ [])
    then publish_or_deploy
    else if one_of subcommand ("clone" ∷ "fetch" ∷ "pull" ∷ "remote" ∷ "submodule" ∷ [])
    then network_access
    else read_only
git_risk _ = read_only

abbrev pub publish_words : List String
publish_words = "deploy" ∷ "publish" ∷ "release" ∷ "upload" ∷ []

unfoldable pub package_risk : List Text → CommandRisk
unfolding one_of base_name_from
package_risk [] = unknown
package_risk (program ∷ args) =
    let command = base_name_from [] program in
    if one_of command ("uv" ∷ [])
    then (if any_of args ("add" ∷ "remove" ∷ "sync" ∷ "pip" ∷ [])
        then dependency_install
        else build_or_test)
    else if one_of command ("npm" ∷ "pnpm" ∷ "yarn" ∷ [])
    then (if any_of args ("add" ∷ "install" ∷ "remove" ∷ "uninstall" ∷ "update" ∷ "upgrade" ∷ [])
        then dependency_install
        else if any_of args publish_words
        then publish_or_deploy
        else build_or_test)
    else if one_of command ("cargo" ∷ [])
    then (if any_of args ("add" ∷ "install" ∷ "remove" ∷ "update" ∷ [])
        then dependency_install
        else if any_of args ("publish" ∷ "login" ∷ "owner" ∷ [])
        then publish_or_deploy
        else build_or_test)
    else if one_of command ("go" ∷ [])
    then (if any_of args ("get" ∷ "install" ∷ []) then dependency_install else build_or_test)
    else if one_of command ("pip" ∷ "pip3" ∷ [])
    then dependency_install
    else build_or_test

unfoldable pub notebook_risk : List Text → CommandRisk
unfolding one_of
notebook_risk (program ∷ subcommand ∷ args) =
    if any_of args ("--server" ∷ "--token" ∷ [])
    then unknown
    else if one_of subcommand ("status" ∷ "search" ∷ [])
    then read_only
    else if one_of subcommand ("read" ∷ []) && any_of args ("--no-output" ∷ [])
    then read_only
    else unknown
notebook_risk _ = unknown

abbrev pub starts_with : ℕ → Text → Bool
starts_with c [] = false
starts_with c (d ∷ text) = eqb c d

-- `_cd_risk`. Whether the resolved target is in the resolved workspace is the file system's to say.
unfoldable pub cd_risk : Option (Text → Bool) → List Text → CommandRisk
cd_risk (some resolves_inside) (program ∷ target ∷ []) =
    if starts_with 45 target then unknown else if resolves_inside target then read_only else unknown
cd_risk _ _ = unknown
