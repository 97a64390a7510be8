-- ===== src/MergeBlocker.antt =====
-- cmd/mergeBlocker.go: an open issue blocks merges into a branch during a release. GitHub is a
-- parameter: the open issues with the label, and what it answers to a new or edited issue; `none` is
-- a call that failed. Besides a value the functions return the calls that change an issue.
pub mod Issues
mod Examples
use delorean.Base.{
  ℕ, List, [], ◌∷◌, ◌++◌, Bool, true, false, Option, none, some, Text, codes, contains_text,
  if◌then◌else◌, Result, ok, err, panic,
}

pub record Issue : Type 0 where
  pub number : ℕ
  pub title : Text

pub data IssueCall : Type 0 where
  create_issue : Text → IssueCall
  close_issue : ℕ → Text → IssueCall

pub data BlockerError : Type 0 where
  github_error : BlockerError
  no_blocker : Text → BlockerError

pub record IssuesService : Type 0 where
  pub list_by_repo : Option (List Issue)
  pub create : Text → Option Issue
  pub edit : ℕ → Text → Option Issue

-- `fmt.Sprintf("branch:%s", branch)` and the title of a new issue
abbrev pub branch_mark : Text → Text
branch_mark branch = codes "branch:" ++ branch

abbrev pub blocker_title : Text → Text
blocker_title branch = codes "Merge Blocker|branch:" ++ branch

-- The loop that returns the first issue whose title has the mark.
unfoldable pub find_blocker : List Issue → Text → Option Issue
find_blocker [] branch = none
find_blocker (i ∷ issues) branch =
    let rest = find_blocker issues branch in
    if contains_text i.title (branch_mark branch) then some i else rest

unfoldable pub search_merge_blockers :
    IssuesService → Text → Result {0, 0} BlockerError (Option Issue)
search_merge_blockers client branch = elim client.list_by_repo [
  | none ↦ err github_error
  | some issues ↦ ok (find_blocker issues branch)
]

abbrev answered : Option Issue → Result {0, 0} BlockerError Issue
answered none = err github_error
answered (some issue) = ok issue

unfoldable pub create_merge_blocker :
    IssuesService → Text → List IssueCall × Result {0, 0} BlockerError Issue
create_merge_blocker client branch = elim (search_merge_blockers client branch) [
  | panic ↦ ([], panic)
  | err e ↦ ([], err e)
  | ok (some existing) ↦ ([], ok existing)
  | ok none ↦
      (create_issue (blocker_title branch) ∷ [], answered (client.create (blocker_title branch)))
]

unfoldable pub close_merge_blocker :
    IssuesService → Text → List IssueCall × Result {0, 0} BlockerError Issue
close_merge_blocker client branch = elim (search_merge_blockers client branch) [
  | panic ↦ ([], panic)
  | err e ↦ ([], err e)
  | ok none ↦ ([], err (no_blocker branch))
  | ok (some existing) ↦ (
    close_issue existing.number existing.title ∷ [],
    answered (client.edit existing.number existing.title),
  )
]

abbrev without_value :
    List IssueCall × Result {0, 0} BlockerError Issue
    → List IssueCall × Result {0, 0} BlockerError Unit
without_value (calls, panic) = (calls, panic)
without_value (calls, err e) = (calls, err e)
without_value (calls, ok issue) = (calls, ok tt)

unfoldable pub do_merge_blocker :
    IssuesService → Bool → Text → List IssueCall × Result {0, 0} BlockerError Unit
unfolding create_merge_blocker close_merge_blocker
do_merge_blocker client is_deletion base_branch =
    if is_deletion
    then without_value (close_merge_blocker client base_branch)
    else without_value (create_merge_blocker client base_branch)
