-- ===== src/Version.antt =====
-- pkg/utils/rhmi_version.go: release versions such as `2.0.1-rc3`, and the names of tags, branches
-- and image tags that are made from them. A text is a list of bytes, as in Go.
pub mod Parsing
pub mod Naming
mod Examples
use delorean.Base.{
  ℕ, List, [], ◌∷◌, ◌++◌, Bool, true, false, not, Text, codes, text_eq, split, join, get_elem?,
  if◌then◌else◌, Result, ok, err, or_panic, ◌>>=◌,
}

-- pkg/types/types.go: the operator's kinds
abbrev pub olm_type_rhmi : Text
olm_type_rhmi = codes "integreatly-operator"

abbrev pub olm_type_rhoam : Text
olm_type_rhoam = codes "managed-api-service"

abbrev pub olm_type_multitenant_rhoam : Text
olm_type_multitenant_rhoam = codes "multitenant-managed-api-service"

pub record RhmiVersion : Type 0 where
  pub base : Text
  pub build : Text
  pub major : Text
  pub minor : Text
  pub patch : Text
  pub olm_type : Text

pub data VersionError : Type 0 where
  empty : VersionError
  empty_build : Text → VersionError
  invalid : Text → VersionError
  invalid_olm_type : Text → VersionError

-- `parts[0]`, `parts[1]`, `parts[2]`: fewer than three parts are an index out of range.
with_base : Text → Text → Result VersionError RhmiVersion
with_base base build = do
  let parts = split base b'.'
  major ← or_panic (get_elem? parts 0)
  minor ← or_panic (get_elem? parts 1)
  patch ← or_panic (get_elem? parts 2)
  ok (record {
    base = base;
    build = build;
    major = major;
    minor = minor;
    patch = patch;
    olm_type = olm_type_rhmi;
  })

-- `switch len(p)`
from_parts : Text → List Text → Result VersionError RhmiVersion
unfolding with_base
from_parts version (base ∷ []) = with_base base []
from_parts version (base ∷ build ∷ []) =
    if text_eq build [] then err (empty_build version) else with_base base build
from_parts version _ = err (invalid version)

pub new_rhmi_version : Text → Result VersionError RhmiVersion
unfolding from_parts
new_rhmi_version version =
    if text_eq version [] then err empty else from_parts version (split version b'-')

unfoldable pub string_in_slice : Text → List Text → Bool
string_in_slice a [] = false
string_in_slice a (b ∷ list) = if text_eq b a then true else string_in_slice a list

abbrev pub accepted_olm_types : List Text
accepted_olm_types = olm_type_rhmi ∷ olm_type_rhoam ∷ olm_type_multitenant_rhoam ∷ []

unfoldable pub new_version : Text → Text → Result VersionError RhmiVersion
unfolding new_rhmi_version string_in_slice
new_version version olm_type =
    if not (string_in_slice olm_type accepted_olm_types)
    then err (invalid_olm_type olm_type)
    else do v ← new_rhmi_version version; ok (record v { olm_type = olm_type })

-- `String`
unfoldable pub to_string : RhmiVersion → Text
unfolding join
to_string v =
    join (if not (text_eq v.build []) then v.base ∷ v.build ∷ [] else v.base ∷ []) (codes "-")

unfoldable pub is_pre_release : RhmiVersion → Bool
is_pre_release v = not (text_eq v.build [])

unfoldable pub major_minor : RhmiVersion → Text
major_minor v = v.major ++ (codes "." ++ v.minor)

unfoldable pub major_minor_patch : RhmiVersion → Text
unfolding major_minor
major_minor_patch v = major_minor v ++ (codes "." ++ v.patch)

-- `switch v.olmType` with a case for each accepted type and a default
abbrev by_olm_type : RhmiVersion → Text → Text → Text → Text → Text
by_olm_type v rhmi rhoam multitenant other =
    if text_eq v.olm_type olm_type_rhmi
    then rhmi
    else if text_eq v.olm_type olm_type_rhoam
    then rhoam
    else if text_eq v.olm_type olm_type_multitenant_rhoam
    then multitenant
    else other

unfoldable pub release_branch_name : RhmiVersion → Text
unfolding major_minor
release_branch_name v =
    by_olm_type v (codes "release-v" ++ major_minor v) (codes "rhoam-release-v" ++ major_minor v)
      (codes "rhoam-release-v" ++ major_minor v) (codes "release-v" ++ major_minor v)

unfoldable pub tag_name : RhmiVersion → Text
unfolding to_string
tag_name v =
    by_olm_type v (codes "v" ++ to_string v) (codes "rhoam-v" ++ to_string v)
      (codes "rhoam-v" ++ to_string v) (codes "v" ++ to_string v)

-- A git ref that finds all RC tags of the version.
unfoldable pub rc_tag_ref : RhmiVersion → Text
unfolding major_minor_patch
rc_tag_ref v =
    by_olm_type v (codes "v" ++ (major_minor_patch v ++ codes "-"))
      (codes "rhoam-v" ++ (major_minor_patch v ++ codes "-"))
      (codes "rhoam-v" ++ (major_minor_patch v ++ codes "-"))
      (codes "v" ++ (major_minor_patch v ++ codes "-"))

unfoldable pub initial_point_release_tag : RhmiVersion → Text
unfolding major_minor
initial_point_release_tag v = codes "v" ++ (major_minor v ++ codes ".0")

unfoldable pub polarion_release_id : RhmiVersion → Text
polarion_release_id v = codes "v" ++ (v.major ++ (codes "_" ++ (v.minor ++ (codes "_" ++ v.patch))))

unfoldable pub polarion_milestone_id : RhmiVersion → Text
unfolding polarion_release_id
polarion_milestone_id v = polarion_release_id v ++ (codes "_" ++ v.build)

unfoldable pub prepare_release_branch_name : RhmiVersion → Text
unfolding tag_name
prepare_release_branch_name v =
    let branch_name = codes "prepare-for-release-" ++ tag_name v in
    if text_eq v.olm_type olm_type_multitenant_rhoam
    then branch_name ++ codes "-MT"
    else branch_name

unfoldable pub prepare_prodsec_manifest_branch_name : RhmiVersion → Text
unfolding tag_name
prepare_prodsec_manifest_branch_name v =
    by_olm_type v (codes "rhmi-manifest-for-release-" ++ tag_name v)
      (codes "rhoam-manifest-for-release-" ++ tag_name v)
      (codes "rhoam-manifest-for-release-" ++ tag_name v)
      (codes "rhmi-manifest-for-release-" ++ tag_name v)

unfoldable pub is_patch_release : RhmiVersion → Bool
is_patch_release v = not (text_eq v.patch (codes "0"))

unfoldable pub release_branch_image_tag : RhmiVersion → Text
unfolding is_patch_release major_minor
release_branch_image_tag v = if is_patch_release v then major_minor v else codes "master"

unfoldable pub name_by_olm_type : RhmiVersion → Text
name_by_olm_type v = by_olm_type v (codes "rhmi") (codes "rhoam") (codes "rhoam") (codes "rhmi")

unfoldable pub prepare_release_commit_message : RhmiVersion → Text
unfolding tag_name
prepare_release_commit_message v =
    if text_eq v.olm_type olm_type_multitenant_rhoam
    then codes "MGDAPI-4533 prepare for multitenant release " ++ tag_name v
    else codes "MGDAPI-3209 prepare for release " ++ tag_name v

unfoldable pub prepare_release_pr_title : RhmiVersion → Text
unfolding tag_name
prepare_release_pr_title v =
    if text_eq v.olm_type olm_type_multitenant_rhoam
    then codes "release PR for MT version " ++ tag_name v
    else codes "release PR for version " ++ tag_name v
