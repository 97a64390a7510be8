-- ===== src/MergeRelease/Examples.antt =====
-- A release that is merged, and one that GitHub has not decided yet.
use delorean.Base.{
  split, [], ◌∷◌, Bool, true, false, Option, none, some, codes, text_eq, if◌then◌else◌, ok, panic,
  ◌≡◌, refl, ap, All,
}
use delorean.Version.{new_version, prepare_release_branch_name, olm_type_rhoam, tag_name}
use delorean.MergeRelease.{MergeReleaseOptions, PullRequest, PullRequestsService, do_merge_release}
use delorean.MergeRelease.Merged.{
  IsAllowed, IsReleasePr, IsMerged, do_merge_release-IsAllowed, do_merge_release-IsMerged,
}

abbrev options : MergeReleaseOptions
options = record {
  release_version = codes "2.0.0";
  base_branch = codes "master";
  olm_type = olm_type_rhoam;
  owner = codes "integr8ly";
}

abbrev pull_request : Option Bool → PullRequest
pull_request mergeable = record {
  number = 7;
  merged = false;
  state = codes "open";
  mergeable = mergeable;
  merge_commit_sha = [];
}

abbrev github : Option Bool → PullRequestsService
github mergeable = record {
  list = λ head base.
      if text_eq head (codes "integr8ly:prepare-for-release-rhoam-v2.0.0")
      then some (7 ∷ [])
      else some [];
  get_pull_request = λ n. some (pull_request mergeable);
  merge = λ n msg. some (true, codes "c1");
}

merges :
    do_merge_release (github (some true)) options
    ≡ ((7, codes "merge for release 2.0.0") ∷ [], ok (codes "c1"))
unfolding do_merge_release new_version prepare_release_branch_name tag_name text_eq split
merges = refl

-- While GitHub has not decided whether it can be merged, the command panics.
undecided : do_merge_release (github none) options ≡ ([], panic)
unfolding do_merge_release new_version prepare_release_branch_name tag_name text_eq split
undecided = refl

do_merge_release-IsAllowed_example :
    All (IsAllowed (github (some true)) options) (do_merge_release (github (some true)) options).0
do_merge_release-IsAllowed_example = do_merge_release-IsAllowed (github (some true)) options

do_merge_release-IsMerged_example :
    (pr : PullRequest) × IsReleasePr (github (some true)) options pr
    × IsMerged
        (github (some true))
        pr
        (do_merge_release (github (some true)) options).0
        (codes "c1")
do_merge_release-IsMerged_example =
    do_merge_release-IsMerged (github (some true)) options (codes "c1") (ap (λ r. r.1) merges)
