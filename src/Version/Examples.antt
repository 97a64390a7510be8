-- ===== src/Version/Examples.antt =====
-- Runs of the version functions, and the theorems about them at concrete inputs.
use delorean.Base.{◌≡◌, refl, ok, panic, true, Text, codes, text_eq, split, join, arith}
use delorean.Version.{
  RhmiVersion, olm_type_rhoam, olm_type_multitenant_rhoam, new_version, string_in_slice,
  accepted_olm_types, to_string, tag_name, name_by_olm_type, release_branch_name,
  release_branch_image_tag,
}
use delorean.Version.Parsing.{string-new_version, new_version_total, new_version_panics}
use delorean.Version.Naming.{tag_name_injective}

abbrev v200 : Text → RhmiVersion
v200 olm_type = record {
  base = codes "2.0.0";
  build = codes "";
  major = codes "2";
  minor = codes "0";
  patch = codes "0";
  olm_type = olm_type;
}

abbrev v200_rc1 : RhmiVersion
v200_rc1 = record (v200 olm_type_rhoam) { build = codes "rc1" }

parse_release : new_version (codes "2.0.0") olm_type_rhoam ≡ ok (v200 olm_type_rhoam)
unfolding new_version text_eq split
parse_release = refl

parse_multitenant :
    new_version (codes "2.0.0") olm_type_multitenant_rhoam ≡ ok (v200 olm_type_multitenant_rhoam)
unfolding new_version text_eq split
parse_multitenant = refl

parse_candidate : new_version (codes "2.0.0-rc1") olm_type_rhoam ≡ ok v200_rc1
unfolding new_version text_eq split
parse_candidate = refl

names_of_candidate :
    (tag_name v200_rc1 ≡ codes "rhoam-v2.0.0-rc1")
    × (release_branch_name v200_rc1 ≡ codes "rhoam-release-v2.0")
    × (release_branch_image_tag v200_rc1 ≡ codes "master")
unfolding tag_name release_branch_name release_branch_image_tag text_eq join
names_of_candidate = (refl, refl, refl)

same_tag : tag_name (v200 olm_type_rhoam) ≡ tag_name (v200 olm_type_multitenant_rhoam)
unfolding tag_name text_eq join
same_tag = refl

rhoam_accepted : string_in_slice olm_type_rhoam accepted_olm_types ≡ true
unfolding string_in_slice text_eq
rhoam_accepted = refl

string-new_version_example :
    (to_string v200_rc1 ≡ codes "2.0.0-rc1") × (v200_rc1.olm_type ≡ olm_type_rhoam)
string-new_version_example =
    string-new_version (codes "2.0.0-rc1") olm_type_rhoam v200_rc1 parse_candidate

new_version_total_example : (v : RhmiVersion) × (new_version (codes "1.15.0") olm_type_rhoam ≡ ok v)
new_version_total_example =
    new_version_total (codes "1.15.0") olm_type_rhoam rhoam_accepted refl (omega arith)

new_version_panics_example : new_version (codes "2.0") olm_type_rhoam ≡ panic
new_version_panics_example =
    new_version_panics (codes "2.0") olm_type_rhoam rhoam_accepted (λ e. cc e) refl (omega arith)

tag_name_injective_example :
    (codes "2.0.0" ≡ codes "2.0.0")
    × (name_by_olm_type (v200 olm_type_rhoam) ≡ name_by_olm_type (v200 olm_type_multitenant_rhoam))
tag_name_injective_example =
    tag_name_injective (codes "2.0.0") (codes "2.0.0") olm_type_rhoam olm_type_multitenant_rhoam
      (v200 olm_type_rhoam) (v200 olm_type_multitenant_rhoam) parse_release parse_multitenant
      same_tag
