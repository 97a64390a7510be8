-- ===== src/MergeBlocker/Examples.antt =====
-- A branch that is blocked, and one whose name begins like it.
use delorean.Base.{List, [], ◌∷◌, true, false, some, codes, cut, contains_text, ok, ◌≡◌, refl, All}
use delorean.MergeBlocker.{
  Issue, create_issue, close_issue, IssuesService, blocker_title, find_blocker,
  search_merge_blockers, do_merge_blocker,
}
use delorean.MergeBlocker.Issues.{
  IsJustified, IsBlocked, do_merge_blocker-IsJustified, do_merge_blocker-IsBlocked,
}

abbrev github : List Issue → IssuesService
github issues = record {
  list_by_repo = some issues;
  create = λ title. some (record { number = 9; title = title });
  edit = λ number title. some (record { number = number; title = title });
}

abbrev other_branch : List Issue
other_branch = record { number = 4; title = blocker_title (codes "master-2") } ∷ []

-- The issue of `master-2` is taken for one of `master`, and closed.
closes_other :
    do_merge_blocker (github other_branch) true (codes "master")
    ≡ (close_issue 4 (blocker_title (codes "master-2")) ∷ [], ok tt)
unfolding do_merge_blocker search_merge_blockers find_blocker contains_text cut
closes_other = refl

creates_one :
    do_merge_blocker (github []) false (codes "master")
    ≡ (create_issue (blocker_title (codes "master")) ∷ [], ok tt)
unfolding do_merge_blocker search_merge_blockers find_blocker contains_text cut
creates_one = refl

do_merge_blocker-IsJustified_example :
    All
      (IsJustified other_branch (codes "release") false)
      (do_merge_blocker (github other_branch) false (codes "release")).0
do_merge_blocker-IsJustified_example =
    do_merge_blocker-IsJustified (github other_branch) false (codes "release") other_branch refl

do_merge_blocker-IsBlocked_example :
    IsBlocked other_branch
      (codes "release")
      (do_merge_blocker (github other_branch) false (codes "release")).0
do_merge_blocker-IsBlocked_example =
    do_merge_blocker-IsBlocked (github other_branch) (codes "release") other_branch refl
