-- ===== src/Git/Sandbox.antt =====
-- A world for examples: what one test refuses fails, and GitHub has no open pull request.
use delorean.Base.{ℕ, [], Bool, true, false, none, some, codes, ◌++◌}
use delorean.MergeRelease.{PullRequestsService}
use delorean.Git.{Action, World, checkout, push}

abbrev github : PullRequestsService
github = record { list = λ _ _. some []; get_pull_request = λ _. none; merge = λ _ _. none }

abbrev pub world : (Action → Bool) → ℕ → World
world allows changed = record {
  allows = allows;
  tmp_dir = λ prefix. codes "/tmp/" ++ prefix;
  worktree = true;
  head = some (codes "refs/heads/main");
  status = some changed;
  pull_requests = github;
}

abbrev pub refuses_nothing : Action → Bool
refuses_nothing _ = true

abbrev pub refuses_push : Action → Bool
refuses_push (push _ _) = false
refuses_push _ = true

-- The checkout of a branch that does not exist fails.
abbrev pub refuses_old_branch : Action → Bool
refuses_old_branch (checkout _ create _) = create
refuses_old_branch _ = true

abbrev pub refuses_branches : Action → Bool
refuses_branches (checkout _ _ _) = false
refuses_branches _ = true
