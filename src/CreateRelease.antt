-- ===== src/CreateRelease.antt =====
-- cmd/createRelease.go: `run` prepares a release on a branch of its own and opens a pull request. The
-- world of Git is the parameter; the script that runs in the clone is one of its actions.
pub mod Plan
mod Examples
use delorean.Base.{
  ℕ, List, [], ◌∷◌, ◌++◌, Bool, true, false, ◌&&◌, ltb, Text, codes, contains_text, split,
  if◌then◌else◌,
}
use delorean.Base.Traces.{◌>>=◌, ◌>>◌, done, act}
use delorean.Version.{
  RhmiVersion, to_string, prepare_release_branch_name, prepare_release_commit_message,
  prepare_release_pr_title,
}
use delorean.Git.{
  World, Command, checkout, change_mode, run_script, add, commit, push, perform, get_worktree,
  get_status, branch_reference, clone_to_tmp_dir, create_pr_if_not_exists,
}

pub record CreateReleaseCmd : Type 0 where
  pub version : RhmiVersion
  pub owner : Text
  pub repo : Text
  -- a full reference name
  pub base_branch : Text
  pub release_script : Text
  pub service_affecting : Bool
  pub cpaas_functional : Bool
  pub prepare_for_next_release : Bool

abbrev pub clone_prefix : Text
clone_prefix = codes "integreatly-operator"

abbrev pub repo_url : Text → Text → Text
repo_url owner repo =
    codes "https://github.com/" ++ (owner ++ (codes "/" ++ (repo ++ codes ".git")))

-- `splitVersion[0]`: there is always a first part.
abbrev first_part : List Text → Text
first_part [] = []
first_part (p ∷ ps) = p

-- The version that the script gets: a candidate's build is dropped if CPaaS works.
unfoldable pub updated_version : CreateReleaseCmd → Text
updated_version c =
    if c.cpaas_functional && contains_text (to_string c.version) (codes "rc")
    then first_part (split (to_string c.version) b'-')
    else to_string c.version

abbrev flag : Text → Bool → Text
flag name on = name ++ (if on then codes "=true" else codes "=false")

abbrev pub script_envs : CreateReleaseCmd → List Text
script_envs c =
    (codes "SEMVER=" ++ updated_version c)
    ∷ (codes "OLM_TYPE=" ++ c.version.olm_type)
    ∷ flag (codes "SERVICE_AFFECTING") c.service_affecting
    ∷ flag (codes "PREPARE_FOR_NEXT_RELEASE") c.prepare_for_next_release
    ∷ []

module _ (w : World) (c : CreateReleaseCmd) where
  pub run_release_script : Text → Command (Unit {0})
  run_release_script repo_dir = do
    perform w (change_mode (repo_dir ∷ c.release_script ∷ []))
    perform w (run_script c.release_script (script_envs c))

  pub commit_and_push_changes : Command (Unit {0})
  commit_and_push_changes = do
    perform w (add (codes "."))
    perform w (commit (prepare_release_commit_message c.version))
    perform w (push (codes "origin") [])

  unfoldable pub run : Command Text
  unfolding run_release_script commit_and_push_changes
  run = do
    clone_to_tmp_dir w clone_prefix (repo_url c.owner c.repo) c.base_branch
    let repo_dir = w.tmp_dir clone_prefix
    get_worktree w
    let branch = prepare_release_branch_name c.version
    -- `checkoutBranchAndPullLatset` creates the branch and pulls nothing.
    perform w (checkout (branch_reference branch) true false)
    run_release_script repo_dir
    status ← get_status w
    if ltb 0 status then commit_and_push_changes else done tt
    create_pr_if_not_exists w c.owner c.repo (prepare_release_pr_title c.version)
        (c.owner ++ (codes ":" ++ branch)) c.base_branch
    done repo_dir
