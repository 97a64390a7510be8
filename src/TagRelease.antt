-- ===== src/TagRelease.antt =====
-- cmd/tagRelease.go: `DoTagRelease` gives the image that was built from a release's commit the
-- release's tag on quay.io. The services are parameters: the refs of the git repository, and what
-- `oc image info` and `oc image mirror` answer at the n-th attempt. Besides a value the functions
-- return the calls of `oc image mirror`, in their order; `none` instead of a value is a panic.
pub mod Latest
pub mod Tags
pub mod Selected
pub mod Release
mod Examples
use delorean.Base.{
  ℕ, zero, suc, List, [], ◌∷◌, ◌++◌, Bool, true, false, not, ◌&&◌, Option, none, some, Text, codes,
  text_eq, split, replace_all, text_lt, if◌then◌else◌, Result, ok, err, panic, ◌>>=◌,
}
use delorean.Version.{
  RhmiVersion, VersionError, new_version, tag_name, rc_tag_ref, release_branch_image_tag,
  is_pre_release,
}

pub record TagReleaseOptions : Type 0 where
  pub release_version : Text
  pub branch : Text
  pub wait : Bool
  pub quay_repos : Text
  pub olm_type : Text
  pub source_tag : Text

-- `github.Reference` with `GetRef()` and `GetObject().GetSHA()`
pub record Reference : Type 0 where
  pub ref : Text
  pub sha : Text

-- What `GetRefs` answers.
pub data Refs : Type 0 where
  found : List Reference → Refs
  not_found failed : Refs

pub data TagError : Type 0 where
  bad_version : VersionError → TagError
  git_error : TagError
  no_branch : Text → TagError
  timed_out : TagError

-- `DockerImageReference` on quay.io
pub record Image : Type 0 where
  pub namespace : Text
  pub name : Text
  pub tag : Text

pub record Mirror : Type 0 where
  pub source : Image
  pub destination : Image
  pub succeeded : Bool

pub record Quay : Type 0 where
  -- the file with the token was written
  pub token_file : ℕ → Bool
  -- the label with the commit; `none` if the call or the JSON failed
  pub info : ℕ → Image → Option Text
  pub mirror : ℕ → Image → Image → Bool

-- `sort.Slice` with the greater ref first
insert_ref : Reference → List Reference → List Reference
insert_ref r [] = r ∷ []
insert_ref r (x ∷ xs) =
    let rest = insert_ref r xs in if text_lt r.ref x.ref then x ∷ rest else r ∷ x ∷ xs

sort_refs : List Reference → List Reference
unfolding insert_ref
sort_refs [] = []
sort_refs (r ∷ rs) = insert_ref r (sort_refs rs)

abbrev first_ref : List Reference → Option Reference
first_ref [] = none
first_ref (r ∷ rs) = some r

find_ref : Text → List Reference → Option Reference
find_ref ref [] = none
find_ref ref (r ∷ rs) = let rest = find_ref ref rs in if text_eq r.ref ref then some r else rest

-- `mostRecent && len(gitRefs) > 0`
choose_ref : Text → Bool → List Reference → Option Reference
unfolding sort_refs find_ref
choose_ref ref true (r ∷ rs) = first_ref (sort_refs (r ∷ rs))
choose_ref ref most_recent rs = find_ref ref rs

unfoldable pub get_git_ref : (Text → Refs) → Text → Bool → Result TagError (Option Reference)
unfolding choose_ref
get_git_ref git ref most_recent = elim (git ref) [
  | failed ↦ err git_error
  | not_found ↦ ok none
  | found rs ↦ ok (choose_ref ref most_recent rs)
]

abbrev repo_and_tag : Text → Text → List Text → Text × Text
repo_and_tag s default_tag (repo ∷ tag ∷ rest) = (repo, tag)
repo_and_tag s default_tag _ = (s, default_tag)

unfoldable pub get_image_repo_and_tag : Text → Text → Text × Text
get_image_repo_and_tag s default_tag = repo_and_tag s default_tag (split s b':')

-- The two tags, the expected commit and the number of the attempt.
module _ (quay : Quay) (src_tag dst_tag commit_sha : Text) (attempt : ℕ) where
  -- `split[0], split[1]`: without a slash the index is out of range.
  create_tag_in : List Text → Text → List Mirror × Option Bool
  create_tag_in (org ∷ image ∷ rest) tag =
      let source : Image = record { namespace = org; name = image; tag = src_tag } in
      let destination : Image = record { namespace = org; name = image; tag = tag } in
      elim (quay.info attempt source) [
        | none ↦ ([], some false)
        | some commit_id ↦
            if not (text_eq commit_id commit_sha)
            then ([], some false)
            else (let done = quay.mirror attempt source destination in
                (
                  record { source = source; destination = destination; succeeded = done } ∷ [],
                  some done,
                ))
      ]
  create_tag_in _ tag = ([], none)

  create_tag_for_image : Text → List Mirror × Option Bool
  unfolding create_tag_in
  create_tag_for_image r =
      let (repo, tag) = get_image_repo_and_tag r dst_tag in create_tag_in (split repo b'/') tag

  create_tags : List Text → List Mirror × Option Bool
  unfolding create_tag_for_image
  create_tags [] = ([], some true)
  create_tags (r ∷ repos) =
      let (calls, one) = create_tag_for_image r in
      let (more, all) = create_tags repos in
      elim one [
        | none ↦ (calls, none)
        | some done ↦ (calls ++ more, elim all [ none ↦ none | some rest ↦ some (done && rest) ])
      ]

  unfoldable pub try_create_quay_tag : Text → List Mirror × Option Bool
  unfolding create_tags
  try_create_quay_tag quay_repos =
      if quay.token_file attempt then create_tags (split quay_repos b',') else ([], some false)

module _ (quay : Quay) (src_tag dst_tag commit_sha quay_repos : Text) where
  -- `wait.Poll`: the first argument is how often it tries before it times out.
  pub poll : ℕ → ℕ → List Mirror × Option Bool
  poll zero attempt = ([], some false)
  poll (suc checks) attempt =
      let (calls, done) = try_create_quay_tag quay src_tag dst_tag commit_sha attempt quay_repos in
      let (more, later) = poll checks (suc attempt) in
      elim done [
        | none ↦ (calls, none)
        | some true ↦ (calls, some true)
        | some false ↦ (calls ++ more, later)
      ]

-- The branch must exist; an RC tag need not.
with_refs :
    Text
    → RhmiVersion
    → Result TagError (Option Reference)
    → Result TagError (Option Reference)
    → Result TagError (RhmiVersion × Reference × Option Reference)
with_refs branch rv head_ref existing_rc_tag_ref = do
  head ← head_ref
  existing ← existing_rc_tag_ref
  elim head [ none ↦ err (no_branch branch) | some r ↦ ok (rv, r, existing) ]

-- The checks before anything is tagged.
unfoldable pub prepare :
    TagReleaseOptions → (Text → Refs) → Result TagError (RhmiVersion × Reference × Option Reference)
unfolding with_refs
prepare opts git = elim (new_version opts.release_version opts.olm_type) [
  | panic ↦ panic
  | err e ↦ err (bad_version e)
  | ok rv ↦
      with_refs opts.branch rv (get_git_ref git (codes "refs/heads/" ++ opts.branch) false)
        (get_git_ref git (codes "refs/tags/" ++ rc_tag_ref rv) true)
]

-- The tag and the commit of the image to promote.
unfoldable pub promoted :
    TagReleaseOptions → RhmiVersion → Reference → Option Reference → Text × Text
promoted opts rv head existing =
    let tag =
      if not (text_eq opts.source_tag []) then opts.source_tag else release_branch_image_tag rv in
    elim existing [
      | none ↦ (tag, head.sha)
      | some rc ↦
          if not (is_pre_release rv)
          then (replace_all rc.ref (codes "refs/tags/") [], rc.sha)
          else (tag, head.sha)
    ]

-- The result of the attempts: without `wait` the error that is returned is `nil`.
abbrev finish_tags :
    Bool
    → List Mirror × Option Bool
    → List Mirror × Option Bool
    → List Mirror × Result {0, 0} TagError Unit
finish_tags wait (calls, none) later = (calls, panic)
finish_tags wait (calls, some true) later = (calls, ok tt)
finish_tags false (calls, some false) later = (calls, ok tt)
finish_tags true (calls, some false) (more, none) = (calls ++ more, panic)
finish_tags true (calls, some false) (more, some true) = (calls ++ more, ok tt)
finish_tags true (calls, some false) (more, some false) = (calls ++ more, err timed_out)

unfoldable pub do_tag_release :
    TagReleaseOptions → (Text → Refs) → Quay → ℕ → List Mirror × Result {0, 0} TagError Unit
unfolding poll
do_tag_release opts git quay checks = elim (prepare opts git) [
  | panic ↦ ([], panic)
  | err e ↦ ([], err e)
  | ok (rv, head, existing) ↦
      if text_eq opts.quay_repos []
      then ([], ok tt)
      else (let (src, sha) = promoted opts rv head existing in
          let dst = tag_name rv in
          finish_tags opts.wait (try_create_quay_tag quay src dst sha 0 opts.quay_repos)
            (poll quay src dst sha opts.quay_repos checks 1))
]
