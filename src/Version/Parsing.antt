-- ===== src/Version/Parsing.antt =====
-- What `NewRHMIVersion` and `NewVersion` accept, and what they return.
use delorean.Base.{
  ◌≤◌, ◌<◌, List, [], ◌∷◌, true, ◌≡◌, ◌≢◌, refl, ap, subst, ◌∙◌, inl, inr, some, Text, codes,
  text_eq, text_eq_iff, text_eq_refl, split, join, join-split, length-split, length, count,
  get_elem?, split_whole, ok, panic, bind-ok, Bool-cases, arith, ltb,
}
use delorean.Version.{
  olm_type_rhmi, RhmiVersion, with_base, from_parts, new_rhmi_version, new_version, string_in_slice,
  accepted_olm_types, to_string, is_pre_release,
}

-- The fields that `with_base` fills in.
pub record Fields (base build : Text) (v : RhmiVersion) : Type 0 where
  pub base_is : v.base ≡ base
  pub build_is : v.build ≡ build
  pub major_is : get_elem? (split base b'.') 0 ≡ some v.major
  pub minor_is : get_elem? (split base b'.') 1 ≡ some v.minor
  pub patch_is : get_elem? (split base b'.') 2 ≡ some v.patch

Fields-of :
    (parts : List Text) (base build : Text) (v : RhmiVersion)
    → split base b'.' ≡ parts
    → with_base base build ≡ ok v
    → Fields base build v
unfolding with_base
Fields-of [] base build v e h = ground arith
Fields-of (a ∷ []) base build v e h = ground arith
Fields-of (a ∷ b ∷ []) base build v e h = ground arith
Fields-of (a ∷ b ∷ c ∷ ps) base build v e h = ground arith

with_base-Fields :
    (base build : Text) (v : RhmiVersion) → with_base base build ≡ ok v → Fields base build v
with_base-Fields base build v h = Fields-of _ base build v refl h

Fields-self : {base build : Text} {v : RhmiVersion} → Fields base build v → Fields v.base v.build v
Fields-self f = record {
  base_is = refl;
  build_is = refl;
  major_is = ap (λ b. get_elem? (split b b'.') 0) f.base_is ∙ f.major_is;
  minor_is = ap (λ b. get_elem? (split b b'.') 1) f.base_is ∙ f.minor_is;
  patch_is = ap (λ b. get_elem? (split b b'.') 2) f.base_is ∙ f.patch_is;
}

-- The parts that were parsed are the ones that `String` joins again.
from_parts-Fields :
    (s : Text) (ps : List Text) (v : RhmiVersion) → from_parts s ps ≡ ok v → Fields v.base v.build v
unfolding from_parts
from_parts-Fields s [] v h = ground arith
from_parts-Fields s (base ∷ []) v h = Fields-self (with_base-Fields base [] v h)
from_parts-Fields s (base ∷ build ∷ []) v h = elim (Bool-cases (text_eq build [])) [
  | inl e ↦ ground arith
  | inr e ↦ Fields-self (with_base-Fields base build v (rw e at h))
]
from_parts-Fields s (base ∷ build ∷ p ∷ ps) v h = ground arith

string-from_parts :
    (s : Text) (ps : List Text) (v : RhmiVersion)
    → from_parts s ps ≡ ok v
    → to_string v ≡ join ps (codes "-")
unfolding from_parts to_string join
string-from_parts s [] v h = ground arith
string-from_parts s (base ∷ []) v h =
    let f = with_base-Fields base [] v h in rw (f.base_is, f.build_is, text_eq_refl)
string-from_parts s (base ∷ build ∷ []) v h = elim (Bool-cases (text_eq build [])) [
  | inl e ↦ ground arith
  | inr e ↦ let f = with_base-Fields base build v (rw e at h) in rw (f.base_is, f.build_is, e)
]
string-from_parts s (base ∷ build ∷ p ∷ ps) v h = ground arith

pre_release-from_parts :
    (s : Text) (ps : List Text) (v : RhmiVersion)
    → from_parts s ps ≡ ok v
    → is_pre_release v ≡ ltb 1 (length ps)
unfolding from_parts is_pre_release
pre_release-from_parts s [] v h = ground arith
pre_release-from_parts s (base ∷ []) v h =
    let f = with_base-Fields base [] v h in rw (f.build_is, text_eq_refl)
pre_release-from_parts s (base ∷ build ∷ []) v h = elim (Bool-cases (text_eq build [])) [
  | inl e ↦ ground arith
  | inr e ↦ let f = with_base-Fields base build v (rw e at h) in rw (f.build_is, e)
]
pre_release-from_parts s (base ∷ build ∷ p ∷ ps) v h = ground arith

-- A successful `NewVersion` is a successful parse, with the type put in.
pub record Parsed (s olm_type : Text) (v : RhmiVersion) : Type 0 where
  pub accepted : string_in_slice olm_type accepted_olm_types ≡ true
  pub type_is : v.olm_type ≡ olm_type
  pub fields : Fields v.base v.build v
  pub string_is : to_string v ≡ s
  pub pre_release_is : is_pre_release v ≡ ltb 0 (count b'-' s)

retyped :
    {t : Text} {w : RhmiVersion}
    → Fields w.base w.build w
    → Fields w.base w.build (record w { olm_type = t })
retyped f = record {
  base_is = refl;
  build_is = refl;
  major_is = f.major_is;
  minor_is = f.minor_is;
  patch_is = f.patch_is;
}

new_rhmi_version_ok :
    (s : Text) (v : RhmiVersion) → new_rhmi_version s ≡ ok v → from_parts s (split s b'-') ≡ ok v
unfolding new_rhmi_version
new_rhmi_version_ok s v h = elim (Bool-cases (text_eq s [])) [
  | inl e ↦ ground arith
  | inr e ↦ rw e at h
]

pub new_version-Parsed :
    (s olm_type : Text) (v : RhmiVersion) → new_version s olm_type ≡ ok v → Parsed s olm_type v
unfolding new_version
new_version-Parsed s olm_type v h =
    elim (Bool-cases (string_in_slice olm_type accepted_olm_types)) [
      | inr e ↦ absurd (ground arith)
      | inl e ↦
          let (w, parsed, made) = bind-ok (new_rhmi_version s) _ (rw e at h) in
          let q = new_rhmi_version_ok s w parsed in
          subst (Parsed s olm_type) (cc made) (record {
            accepted = e;
            type_is = refl;
            fields = retyped (from_parts-Fields s _ w q);
            string_is = unfold to_string in (string-from_parts s _ w q ∙ join-split s b'-');
            pre_release_is =
                unfold is_pre_release in
                (pre_release-from_parts s _ w q ∙ rw length-split (ground arith));
          })
    ]

-- A version that `NewVersion` accepts is printed back as it was written, and has the type that was
-- asked for.
pub string-new_version :
    (s olm_type : Text) (v : RhmiVersion)
    → new_version s olm_type ≡ ok v
    → (to_string v ≡ s) × (v.olm_type ≡ olm_type)
string-new_version s olm_type v h =
    let p = new_version-Parsed s olm_type v h in (p.string_is, p.type_is)

-- An accepted version is a prerelease exactly when a dash stands in the text.
pub is_pre_release-new_version :
    (s olm_type : Text) (v : RhmiVersion)
    → new_version s olm_type ≡ ok v
    → is_pre_release v ≡ ltb 0 (count b'-' s)
is_pre_release-new_version s olm_type v h = (new_version-Parsed s olm_type v h).pre_release_is

with_base_few :
    (parts : List Text) (base build : Text)
    → split base b'.' ≡ parts
    → length parts < 3
    → with_base base build ≡ panic
unfolding with_base
with_base_few [] base build e h = ground arith
with_base_few (a ∷ []) base build e h = ground arith
with_base_few (a ∷ b ∷ []) base build e h = ground arith
with_base_few (a ∷ b ∷ c ∷ ps) base build e h = absurd (omega arith)

with_base_enough :
    (parts : List Text) (base build : Text)
    → split base b'.' ≡ parts
    → 3 ≤ length parts
    → (v : RhmiVersion) × (with_base base build ≡ ok v)
unfolding with_base
with_base_enough [] base build e h = absurd (omega arith)
with_base_enough (a ∷ []) base build e h = absurd (omega arith)
with_base_enough (a ∷ b ∷ []) base build e h = absurd (omega arith)
with_base_enough (a ∷ b ∷ c ∷ ps) base build e h =
    let v : RhmiVersion = record {
      base = base;
      build = build;
      major = a;
      minor = b;
      patch = c;
      olm_type = olm_type_rhmi;
    } in
    (v, rw e)

-- Without a dash the version goes to `with_base` whole.
no_dash : (s : Text) → s ≢ [] → count b'-' s ≡ 0 → new_rhmi_version s ≡ with_base s []
unfolding new_rhmi_version from_parts
no_dash s n h = elim (Bool-cases (text_eq s [])) [
  | inl e ↦ absurd (n ((text_eq_iff s []).0 e))
  | inr e ↦ rw (e, split_whole s b'-' h)
]

-- A version with no dash and at least two dots, of an accepted type, is accepted.
pub new_version_total :
    (s olm_type : Text)
    → string_in_slice olm_type accepted_olm_types ≡ true
    → count b'-' s ≡ 0
    → 2 ≤ count b'.' s
    → (v : RhmiVersion) × (new_version s olm_type ≡ ok v)
unfolding new_version
new_version_total s olm_type t dash dots =
    let (v, made) = with_base_enough _ s [] refl (rw length-split (omega arith)) in
    (
      record v { olm_type = olm_type },
      rw (t, no_dash s (λ e. omega (arith, ap (λ (t : Text). count b'.' t) e)) dash, made),
    )

-- A version of an accepted type with neither a dash nor two dots, such as `2.0`, is an index out of
-- range, and no error is returned.
pub new_version_panics :
    (s olm_type : Text)
    → string_in_slice olm_type accepted_olm_types ≡ true
    → s ≢ []
    → count b'-' s ≡ 0
    → count b'.' s < 2
    → new_version s olm_type ≡ panic
unfolding new_version
new_version_panics s olm_type t n dash dots =
    rw (t, no_dash s n dash, with_base_few _ s [] refl (rw length-split (omega arith)))
