-- ===== src/Git.antt =====
-- pkg/services/git_service.go and the git and GitHub steps that commands share. What go-git, the
-- operating system and GitHub answer is the parameter `World`: which actions succeed, and what is
-- read from the repository. A path is the list of the parts that `path.Join` joins.
pub mod Plans
pub mod Sandbox
use delorean.Base.{
  ℕ, List, [], ◌∷◌, ◌++◌, Bool, true, false, Option, none, some, Text, codes, text_eq,
  if◌then◌else◌, Result, ok, err, panic,
}
use delorean.Base.Traces.{Traced, ◌>>=◌, ◌>>◌, done, stop, act}
use delorean.MergeRelease.{
  MergeError, none_found, github_error, many_found, PullRequest, PullRequestsService,
  find_pr_for_release,
}

abbrev pub PathParts : Type 0
PathParts = List Text

-- What a command does to a repository, to files and to GitHub.
pub data Action : Type 0 where
  temp_dir : Text → Action
  plain_clone : Text → Text → Action
  fetch_all : Action
  create_remote : Text → Text → Action
  pull : Text → Action
  checkout : (branch : Text) → (create : Bool) → (force : Bool) → Action
  add : Text → Action
  commit : Text → Action
  push : Text → List Text → Action
  change_mode : PathParts → Action
  run_script : Text → List Text → Action
  load_yaml : PathParts → Action
  set_yaml : Text → Text → Action
  write_yaml : PathParts → Action
  look_path : Text → Action
  make_jobs : Text → Action
  create_file : PathParts → Action
  copy_directory : PathParts → PathParts → Action
  copy_file : Text → Text → Action
  remove : PathParts → Action
  write_file : PathParts → Text → Action
  create_pull_request : (owner repo : Text) → (title head base : Text) → Action

pub data CommandError : Type 0 where
  failed : Action → CommandError
  cannot_read : Text → CommandError
  pull_request_error : MergeError → CommandError
  refused : Text → CommandError

pub record World : Type 0 where
  -- A fetch that finds everything up to date counts as one that succeeds.
  pub allows : Action → Bool
  -- the directory that is made for a prefix
  pub tmp_dir : Text → Text
  pub worktree : Bool
  pub head : Option Text
  -- how many files of the tree have changed
  pub status : Option ℕ
  -- the pull requests of the repository in which the command opens one
  pub pull_requests : PullRequestsService

abbrev pub Command : Type 0 → Type 0
Command A = Traced Action CommandError A

abbrev pub perform : World → Action → Command (Unit {0})
perform w a = act a (w.allows a) (failed a)

-- What is read from the repository: `none` is an error.
abbrev pub reading : {A : Type 0} → Text → Option A → Result CommandError A
reading what none = err (cannot_read what)
reading what (some a) = ok a

abbrev pub read : {A : Type 0} → Text → Option A → Command A
read what answer = ([], reading what answer)

abbrev pub get_worktree : World → Command (Unit {0})
get_worktree w = read (codes "worktree") (if w.worktree then some tt else none)

abbrev pub get_status : World → Command ℕ
get_status w = read (codes "status") w.status

-- `plumbing.NewBranchReferenceName` and `NewTagReferenceName` of go-git
abbrev pub branch_reference : Text → Text
branch_reference name = codes "refs/heads/" ++ name

abbrev pub tag_reference : Text → Text
tag_reference name = codes "refs/tags/" ++ name

-- `config.RefSpec(branch + ":" + branch)`
abbrev pub same_branch : Text → List Text
same_branch branch = (branch ++ (codes ":" ++ branch)) ∷ []

-- `CloneToTmpDir`
unfoldable pub clone_to_tmp_dir : World → Text → Text → Text → Command (Unit {0})
clone_to_tmp_dir w prefix url reference = do
  perform w (temp_dir prefix)
  perform w (plain_clone url reference)
  perform w fetch_all

-- `CreateAndPull`
unfoldable pub create_and_pull : World → Text → Text → Command (Unit {0})
create_and_pull w name url = do
  perform w (create_remote name url)
  get_worktree w
  perform w (pull name)

-- `isPRNotFoundError`: only this error has "no open pull request found" in its message.
unfoldable pub is_pr_not_found_error : MergeError → Bool
is_pr_not_found_error none_found = true
is_pr_not_found_error _ = false

-- The lookup in `createPRIfNotExists`: an error is passed on unless there is no pull request.
abbrev pub existing_pr : Result MergeError PullRequest → Result CommandError (Option PullRequest)
existing_pr panic = panic
existing_pr (ok pr) = ok (some pr)
existing_pr (err e) = if is_pr_not_found_error e then ok none else err (pull_request_error e)

-- `createPRIfNotExists`
unfoldable pub create_pr_if_not_exists :
    World → Text → Text → Text → Text → Text → Command (Unit {0})
create_pr_if_not_exists w owner repo title head base = do
  pr ← ([], existing_pr (find_pr_for_release w.pull_requests head base))
  elim pr [ some _ ↦ done tt | none ↦ perform w (create_pull_request owner repo title head base) ]
