-- ===== src/TagRelease/Examples.antt =====
-- A final release whose image appears at the second attempt, the choice of RC tags, and a failure that is not reported.
use delorean.Base.{
  [], ◌∷◌, ◌++◌, true, false, none, some, Text, codes, text_eq, split, replace_all, text_lt,
  if◌then◌else◌, ok, ◌≡◌, refl, ap, In, All,
}
use delorean.Version.{
  RhmiVersion, new_version, tag_name, rc_tag_ref, release_branch_image_tag, is_pre_release,
}
use delorean.TagRelease.{
  TagReleaseOptions, Reference, Refs, found, not_found, Image, Mirror, Quay, get_git_ref,
  get_image_repo_and_tag, try_create_quay_tag, prepare, promoted, do_tag_release,
}
use delorean.Base.{ltb}
use delorean.Version.{olm_type_rhoam}
use delorean.TagRelease.Latest.{IsGreatest, get_git_ref-IsGreatest}
use delorean.TagRelease.Tags.{IsTagged}
use delorean.TagRelease.Release.{IsPromoted, do_tag_release-IsPromoted, do_tag_release-IsTagged}

abbrev options : TagReleaseOptions
options = record {
  release_version = codes "2.0.0";
  branch = codes "master";
  wait = true;
  quay_repos = codes "o/i,o/j:x";
  olm_type = olm_type_rhoam;
  source_tag = [];
}

abbrev master : Reference
master = record { ref = codes "refs/heads/master"; sha = codes "c1" }

abbrev rc : Text → Reference
rc n = record { ref = codes "refs/tags/rhoam-v2.0.0-rc" ++ n; sha = n }

abbrev git : Text → Refs
git ref =
    if text_eq ref (codes "refs/heads/master")
    then found (master ∷ [])
    else if text_eq ref (codes "refs/tags/rhoam-v2.0.0-")
    then found (rc (codes "9") ∷ rc (codes "10") ∷ [])
    else not_found

abbrev image_quay : Quay
image_quay = record {
  token_file = λ n. true;
  info = λ n image. if ltb 0 n then some (codes "9") else none;
  mirror = λ n source destination. true;
}

abbrev image : Text → Text → Image
image name tag = record { namespace = codes "o"; name = name; tag = tag }

abbrev copied : Text → Text → Mirror
copied name tag = record {
  source = image name (codes "rhoam-v2.0.0-rc9");
  destination = image name tag;
  succeeded = true;
}

abbrev rv : RhmiVersion
rv = record {
  base = codes "2.0.0";
  build = codes "";
  major = codes "2";
  minor = codes "0";
  patch = codes "0";
  olm_type = olm_type_rhoam;
}

-- The ninth candidate is taken for the newest of ten.
ninth : get_git_ref git (codes "refs/tags/rhoam-v2.0.0-") true ≡ ok (some (rc (codes "9")))
unfolding get_git_ref text_eq text_lt
ninth = refl

prepared : prepare options git ≡ ok (rv, master, some (rc (codes "9")))
unfolding prepare get_git_ref new_version rc_tag_ref text_eq text_lt split
prepared = refl

released :
    do_tag_release options git image_quay 3
    ≡ (copied (codes "i") (codes "rhoam-v2.0.0") ∷ copied (codes "j") (codes "x") ∷ [], ok tt)
unfolding do_tag_release prepare get_git_ref new_version rc_tag_ref tag_name promoted
    get_image_repo_and_tag try_create_quay_tag is_pre_release release_branch_image_tag replace_all
    text_eq text_lt split
released = refl

-- Without `wait` an image that is not there is no error, and nothing is tagged.
not_reported : do_tag_release (record options { wait = false }) git image_quay 3 ≡ ([], ok tt)
unfolding do_tag_release prepare get_git_ref new_version rc_tag_ref tag_name promoted
    get_image_repo_and_tag try_create_quay_tag is_pre_release release_branch_image_tag replace_all
    text_eq text_lt split
not_reported = refl

get_git_ref-IsGreatest_example :
    (r : Reference) × (get_git_ref git (codes "refs/tags/rhoam-v2.0.0-") true ≡ ok (some r))
    × In r (rc (codes "9") ∷ rc (codes "10") ∷ [])
    × IsGreatest r (rc (codes "9") ∷ rc (codes "10") ∷ [])
unfolding text_eq
get_git_ref-IsGreatest_example =
    get_git_ref-IsGreatest git (codes "refs/tags/rhoam-v2.0.0-")
      (rc (codes "9") ∷ rc (codes "10") ∷ []) refl (λ h. cc h)

do_tag_release-IsPromoted_example :
    All (IsPromoted options git image_quay) (do_tag_release options git image_quay 3).0
do_tag_release-IsPromoted_example = do_tag_release-IsPromoted options git image_quay 3

do_tag_release-IsTagged_example :
    All
      (IsTagged (do_tag_release options git image_quay 3).0 (tag_name rv))
      (split options.quay_repos b',')
do_tag_release-IsTagged_example =
    do_tag_release-IsTagged options git image_quay 3 rv master (some (rc (codes "9"))) prepared refl
      (λ h. cc h) (ap (λ t. t.1) released)
