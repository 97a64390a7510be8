-- ===== src/TagRepository.antt =====
-- cmd/tagReleaseRepository.go and cmd/tagRepository.go: a branch's head is tagged with a version. The refs of
-- the repository, and whether GitHub creates a ref, are parameters.
pub mod Tagged
mod Examples
use delorean.Base.{
  List, [], ◌∷◌, ◌++◌, Bool, true, false, ◌&&◌, Option, none, some, Text, codes, text_eq,
  if◌then◌else◌, Result, ok, err, panic,
}
use delorean.Version.{RhmiVersion, VersionError, new_version, tag_name, is_pre_release}
use delorean.TagRelease.{Reference, Refs, TagError, get_git_ref}
use delorean.Git.{branch_reference, tag_reference}

pub data RepositoryError : Type 0 where
  invalid_version : VersionError → RepositoryError
  refs_error : TagError → RepositoryError
  branch_not_found : Text → RepositoryError
  other_commit : Text → RepositoryError
  not_created : RepositoryError

pub record TagRepositoryFlags : Type 0 where
  pub branch : Text
  pub skip_pre_release : Bool
  pub olm_type : Text

-- The refs that were asked for, and whether the command succeeds.
abbrev pub Tagging : Type 0
Tagging = List Reference × Result {0, 0} RepositoryError Unit

-- `createGitTag`, after the lookup of the tag: one that is there must point to the commit.
unfoldable pub with_tag :
    (Reference → Bool) → Reference → Result TagError (Option Reference) → Tagging
with_tag create_ref tag panic = ([], panic)
with_tag create_ref tag (err e) = ([], err (refs_error e))
with_tag create_ref tag (ok none) = (tag ∷ [], if create_ref tag then ok tt else err not_created)
with_tag create_ref tag (ok (some r)) =
    ([], if text_eq r.sha tag.sha then ok tt else err (other_commit tag.ref))

module _ (git : Text → Refs) (create_ref : Reference → Bool) where
  unfoldable pub create_git_tag : Text → Text → Tagging
  create_git_tag tag sha =
      with_tag create_ref (record { ref = tag_reference tag; sha = sha })
        (get_git_ref git (tag_reference tag) false)

  -- After the lookup of the branch.
  unfoldable pub with_head : Text → Text → Result TagError (Option Reference) → Tagging
  with_head branch tag panic = ([], panic)
  with_head branch tag (err e) = ([], err (refs_error e))
  with_head branch tag (ok none) = ([], err (branch_not_found branch))
  with_head branch tag (ok (some head)) = create_git_tag tag head.sha

  -- What both commands do once they have a version.
  unfoldable pub tag_branch : Text → RhmiVersion → Tagging
  tag_branch branch v =
      with_head branch (tag_name v) (get_git_ref git (branch_reference branch) false)

  -- `DoTagReleaseRepo`
  unfoldable pub do_tag_release_repo : (release_version branch olm_type : Text) → Tagging
  do_tag_release_repo release_version branch olm_type =
      elim (new_version release_version olm_type) [
        | panic ↦ ([], panic)
        | err e ↦ ([], err (invalid_version e))
        | ok v ↦ tag_branch branch v
      ]

  -- `runTagRepository`
  unfoldable pub run_tag_repository : Text → TagRepositoryFlags → Tagging
  run_tag_repository version flags = elim (new_version version flags.olm_type) [
    | panic ↦ ([], panic)
    | err e ↦ ([], err (invalid_version e))
    | ok v ↦
        if flags.skip_pre_release && is_pre_release v
        then ([], ok tt)
        else tag_branch flags.branch v
  ]
