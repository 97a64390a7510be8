-- ===== src/TagRepository/Examples.antt =====
-- A branch that has a head, and a tag that is new.
use delorean.Base.{split, [], ◌∷◌, Bool, true, Text, codes, text_eq, if◌then◌else◌, ok, ◌≡◌, refl}
use delorean.Version.{is_pre_release, new_version, RhmiVersion, tag_name}
use delorean.TagRelease.{get_git_ref, Reference, Refs, found, not_found}
use delorean.TagRepository.{with_tag, create_git_tag, with_head, tag_branch, run_tag_repository}
use delorean.TagRepository.Tagged.{IsTagged, tag_branch-IsTagged}

abbrev head : Reference
head = record { ref = codes "refs/heads/master"; sha = codes "c1" }

abbrev git : Text → Refs
git ref = if text_eq ref (codes "refs/heads/master") then found (head ∷ []) else not_found

abbrev accepts : Reference → Bool
accepts _ = true

abbrev version : RhmiVersion
version = record {
  base = codes "1.2.0";
  major = codes "1";
  minor = codes "2";
  patch = codes "0";
  build = [];
  olm_type = codes "managed-api-service";
}

creates :
    tag_branch git accepts (codes "master") version
    ≡ (record { ref = codes "refs/tags/rhoam-v1.2.0"; sha = codes "c1" } ∷ [], ok tt)
unfolding tag_branch with_head get_git_ref text_eq create_git_tag with_tag tag_name
creates = refl

skips :
    run_tag_repository git accepts (codes "1.2.0-rc1") (record {
      branch = codes "master";
      skip_pre_release = true;
      olm_type = codes "managed-api-service";
    })
    ≡ ([], ok tt)
unfolding run_tag_repository new_version text_eq split is_pre_release
skips = refl

tag_branch-IsTagged_example :
    IsTagged git accepts
      (codes "master")
      (tag_name version)
      (tag_branch git accepts (codes "master") version)
tag_branch-IsTagged_example = tag_branch-IsTagged git accepts (codes "master") version
