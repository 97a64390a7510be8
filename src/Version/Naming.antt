-- ===== src/Version/Naming.antt =====
-- The names of tags and branches that `RHMIVersion` gives.
use delorean.Base.{
  ℕ, suc, List, [], ◌∷◌, ◌++◌, false, ◌≡◌, ◌≢◌, refl, sym, ap, ◌∙◌, ◌⊎◌, inl, inr, Text, codes,
  text_eq, split, join, join-split, length-split, length, count, get_elem?, append_assoc,
  append_cancel, if◌then◌else◌, ok, arith,
}
use delorean.Version.{
  RhmiVersion, new_version, to_string, is_pre_release, major_minor_patch, tag_name, rc_tag_ref,
  by_olm_type, name_by_olm_type, olm_type_rhmi, olm_type_rhoam, olm_type_multitenant_rhoam,
}
use delorean.Version.Parsing.{Fields, new_version-Parsed}

-- A base of three parts is its major, minor and patch number.
base_parts :
    (ps : List Text) (v : RhmiVersion)
    → split v.base b'.' ≡ ps
    → length ps ≡ 3
    → Fields v.base v.build v
    → major_minor_patch v ≡ join ps (codes ".")
unfolding major_minor_patch join
base_parts [] v e n f = absurd (omega arith)
base_parts (a ∷ []) v e n f = absurd (omega arith)
base_parts (a ∷ b ∷ []) v e n f = absurd (omega arith)
base_parts (a ∷ b ∷ c ∷ []) v e n f = rw append_assoc (
    cc (
      ap (λ (l : List Text). get_elem? l 0) e,
      ap (λ (l : List Text). get_elem? l 1) e,
      ap (λ (l : List Text). get_elem? l 2) e,
      f.major_is,
      f.minor_is,
      f.patch_is,
    ))
base_parts (a ∷ b ∷ c ∷ d ∷ ps) v e n f = absurd (omega arith)

base-major_minor_patch :
    (v : RhmiVersion)
    → count b'.' v.base ≡ 2
    → Fields v.base v.build v
    → major_minor_patch v ≡ v.base
base-major_minor_patch v n f =
    base_parts _ v refl (length-split v.base b'.' ∙ ap suc n) f ∙ join-split v.base b'.'

-- What stands before the version in a tag.
abbrev tag_prefix : RhmiVersion → Text
tag_prefix v = by_olm_type v (codes "v") (codes "rhoam-v") (codes "rhoam-v") (codes "v")

by_olm_type-append :
    (v : RhmiVersion) (a b c d s : Text)
    → by_olm_type v (a ++ s) (b ++ s) (c ++ s) (d ++ s) ≡ by_olm_type v a b c d ++ s
by_olm_type-append v a b c d s = ground arith

tag_name-prefix : (v : RhmiVersion) → tag_name v ≡ tag_prefix v ++ to_string v
unfolding tag_name
tag_name-prefix v = by_olm_type-append v _ _ _ _ (to_string v)

rc_tag_ref-prefix :
    (v : RhmiVersion) → rc_tag_ref v ≡ tag_prefix v ++ (major_minor_patch v ++ codes "-")
unfolding rc_tag_ref
rc_tag_ref-prefix v = by_olm_type-append v _ _ _ _ (major_minor_patch v ++ codes "-")

tag_prefix-type : (v w : RhmiVersion) → v.olm_type ≡ w.olm_type → tag_prefix v ≡ tag_prefix w
tag_prefix-type v w e =
    ap
      (λ t.
        if text_eq t olm_type_rhmi
        then codes "v"
        else if text_eq t olm_type_rhoam
        then codes "rhoam-v"
        else if text_eq t olm_type_multitenant_rhoam
        then codes "rhoam-v"
        else codes "v")
      e

string-base : (v : RhmiVersion) → is_pre_release v ≡ false → to_string v ≡ v.base
unfolding is_pre_release to_string join
string-base v h = ground arith

-- The tag of every build of a release begins with the `RCTagRef` of the release: for a release `s`
-- of three parts and no dash, and an accepted version `s-b` of the same type, the tag of the latter
-- is the `RCTagRef` of the former and then `b`.
pub tag_name-rc_tag_ref :
    (s b olm_type : Text) (release candidate : RhmiVersion)
    → count b'-' s ≡ 0
    → count b'.' s ≡ 2
    → new_version s olm_type ≡ ok release
    → new_version (s ++ (codes "-" ++ b)) olm_type ≡ ok candidate
    → tag_name candidate ≡ rc_tag_ref release ++ b
tag_name-rc_tag_ref s b olm_type release candidate dash dots h k =
    let p = new_version-Parsed s olm_type release h in
    let q = new_version-Parsed (s ++ (codes "-" ++ b)) olm_type candidate k in
    let is_final : is_pre_release release ≡ false = p.pre_release_is ∙ rw dash in
    let base_is : release.base ≡ s = sym (string-base release is_final) ∙ p.string_is in
    let whole : major_minor_patch release ≡ s =
      base-major_minor_patch release (ap (count b'.') base_is ∙ dots) p.fields ∙ base_is in
    rw
      (
        tag_name-prefix candidate,
        rc_tag_ref-prefix release,
        whole,
        q.string_is,
        tag_prefix-type candidate release (q.type_is ∙ sym p.type_is),
      )
      (simp append_assoc)

prefix_cases :
    (v : RhmiVersion)
    → ((tag_prefix v ≡ codes "v") × (name_by_olm_type v ≡ codes "rhmi"))
      ⊎ ((tag_prefix v ≡ codes "rhoam-v") × (name_by_olm_type v ≡ codes "rhoam"))
unfolding name_by_olm_type
prefix_cases v = ground arith

abbrev first_byte : Text → ℕ
first_byte [] = 0
first_byte (c ∷ s) = c

prefixes_differ : (s t : Text) → codes "v" ++ s ≢ codes "rhoam-v" ++ t
prefixes_differ s t e = absurd (omega (arith, ap first_byte e))

-- Two accepted versions with the same tag are written alike and belong to the same product.
pub tag_name_injective :
    (s t olm_s olm_t : Text) (v w : RhmiVersion)
    → new_version s olm_s ≡ ok v
    → new_version t olm_t ≡ ok w
    → tag_name v ≡ tag_name w
    → (s ≡ t) × (name_by_olm_type v ≡ name_by_olm_type w)
tag_name_injective s t olm_s olm_t v w h k e =
    let p = new_version-Parsed s olm_s v h in
    let q = new_version-Parsed t olm_t w k in
    let same : tag_prefix v ++ s ≡ tag_prefix w ++ t =
      rw (← p.string_is, ← q.string_is) (sym (tag_name-prefix v) ∙ e ∙ tag_name-prefix w) in
    elim (prefix_cases v) [
      | inl (a, x) ↦ elim (prefix_cases w) [
        | inl (b, y) ↦ (append_cancel (codes "v") s t (rw (a, b) at same), x ∙ sym y)
        | inr (b, y) ↦ absurd (prefixes_differ s t (rw (a, b) at same))
      ]
      | inr (a, x) ↦ elim (prefix_cases w) [
        | inl (b, y) ↦ absurd (prefixes_differ t s (sym (rw (a, b) at same)))
        | inr (b, y) ↦ (append_cancel (codes "rhoam-v") s t (rw (a, b) at same), x ∙ sym y)
      ]
    ]
