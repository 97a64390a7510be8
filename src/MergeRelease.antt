-- ===== src/MergeRelease.antt =====
-- cmd/mergeRelease.go: the pull request of a release is merged. GitHub is a parameter; `none` is a call that
-- failed. Besides a value the functions return the calls that merge, each with its message.
pub mod Merged
mod Examples
use delorean.Base.{
  ℕ, List, [], ◌∷◌, ◌++◌, Bool, true, false, not, Option, none, some, Text, codes, text_eq,
  if◌then◌else◌, Result, ok, err, panic, ◌>>=◌,
}
use delorean.Version.{VersionError, new_version, prepare_release_branch_name}

pub record MergeReleaseOptions : Type 0 where
  pub release_version : Text
  pub base_branch : Text
  pub olm_type : Text
  -- of `repoInfo`
  pub owner : Text

-- `mergeable` is `none` while GitHub has not decided it.
pub record PullRequest : Type 0 where
  pub number : ℕ
  pub merged : Bool
  pub state : Text
  pub mergeable : Option Bool
  pub merge_commit_sha : Text

pub data MergeError : Type 0 where
  bad_version : VersionError → MergeError
  github_error none_found many_found closed not_mergeable merge_failed : MergeError

pub record PullRequestsService : Type 0 where
  -- the numbers of the open pull requests from a head to a base
  pub list : Text → Text → Option (List ℕ)
  pub get_pull_request : ℕ → Option PullRequest
  -- whether it has been merged, and the commit
  pub merge : ℕ → Text → Option (Bool × Text)

-- `fmt.Sprintf("%s:%s", repoInfo.owner, rv.PrepareReleaseBranchName())`
abbrev pub release_head : Text → Text → Text
release_head owner branch = owner ++ (codes ":" ++ branch)

unfoldable pub answered : Option PullRequest → Result {0, 0} MergeError PullRequest
answered none = err github_error
answered (some pr) = ok pr

-- `len(prs)`
unfoldable pub the_only : PullRequestsService → List ℕ → Result {0, 0} MergeError PullRequest
unfolding answered
the_only client [] = err none_found
the_only client (n ∷ []) = answered (client.get_pull_request n)
the_only client (n ∷ m ∷ prs) = err many_found

unfoldable pub find_pr_for_release :
    PullRequestsService → Text → Text → Result {0, 0} MergeError PullRequest
unfolding the_only
find_pr_for_release client head base = elim (client.list head base) [
  | none ↦ err github_error
  | some prs ↦ the_only client prs
]

abbrev merge_answer : Option (Bool × Text) → Result {0, 0} MergeError Text
merge_answer none = err github_error
merge_answer (some (true, sha)) = ok sha
merge_answer (some (false, sha)) = err merge_failed

-- `*pr.Mergeable` of a nil pointer panics.
pub merge_pr :
    PullRequestsService → PullRequest → Text → List (ℕ × Text) × Result {0, 0} MergeError Text
merge_pr client pr msg =
    if pr.merged
    then ([], ok pr.merge_commit_sha)
    else if text_eq pr.state (codes "closed")
    then ([], err closed)
    else elim pr.mergeable [
      | none ↦ ([], panic)
      | some false ↦ ([], err not_mergeable)
      | some true ↦ ((pr.number, msg) ∷ [], merge_answer (client.merge pr.number msg))
    ]

-- The pull request that the version and the base branch select.
pub select_pr : PullRequestsService → MergeReleaseOptions → Result {0, 0} MergeError PullRequest
unfolding find_pr_for_release
select_pr client opts = elim (new_version opts.release_version opts.olm_type) [
  | panic ↦ panic
  | err e ↦ err (bad_version e)
  | ok rv ↦
      find_pr_for_release client (release_head opts.owner (prepare_release_branch_name rv))
        opts.base_branch
]

unfoldable pub do_merge_release :
    PullRequestsService → MergeReleaseOptions → List (ℕ × Text) × Result {0, 0} MergeError Text
unfolding merge_pr select_pr
do_merge_release client opts = elim (select_pr client opts) [
  | panic ↦ ([], panic)
  | err e ↦ ([], err e)
  | ok pr ↦ merge_pr client pr (codes "merge for release " ++ opts.release_version)
]
