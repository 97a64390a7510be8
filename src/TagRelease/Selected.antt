-- ===== src/TagRelease/Selected.antt =====
-- Which image `DoTagRelease` of cmd/tagRelease.go selects.
use delorean.Base.{
  [], Bool, true, false, not, Option, none, some, Text, codes, text_eq, text_eq_iff, replace_all,
  if◌then◌else◌, ◌≡◌, ◌≢◌, refl, sym, ◌∙◌, ◌⊎◌, inl, inr, Bool-cases,
}
use delorean.Version.{RhmiVersion, is_pre_release, release_branch_image_tag}
use delorean.TagRelease.{TagReleaseOptions, Reference, promoted}

-- The tag of the options or, if this is empty, that of the release's branch.
abbrev pub IsBranchTag : TagReleaseOptions → RhmiVersion → Text → Type 0
IsBranchTag opts v tag =
    ((opts.source_tag ≢ []) × (tag ≡ opts.source_tag))
    ⊎ ((opts.source_tag ≡ []) × (tag ≡ release_branch_image_tag v))

-- The tag and the commit of the image to copy: for a final release (`false`) with an RC tag those of the RC tag, and
-- otherwise the branch's head.
abbrev pub IsSelected :
    TagReleaseOptions → RhmiVersion → Reference → Bool → Option Reference → Text → Text → Type 0
IsSelected opts v head false (some rc) tag sha =
    (tag ≡ replace_all rc.ref (codes "refs/tags/") []) × (sha ≡ rc.sha)
IsSelected opts v head _ _ tag sha = IsBranchTag opts v tag × (sha ≡ head.sha)

promoted-IsBranchTag :
    (opts : TagReleaseOptions) (v : RhmiVersion)
    → IsBranchTag opts v
        (if not (text_eq opts.source_tag []) then opts.source_tag else release_branch_image_tag v)
promoted-IsBranchTag opts v = elim (Bool-cases (text_eq opts.source_tag [])) [
  | inl e ↦ rw e (inr ((text_eq_iff opts.source_tag []).0 e, refl))
  | inr e ↦ rw e (inl (λ q. cc (sym e ∙ (text_eq_iff opts.source_tag []).1 q), refl))
]

pub promoted-IsSelected :
    (opts : TagReleaseOptions) (v : RhmiVersion) (head : Reference) (existing : Option Reference)
    (pre : Bool)
    → is_pre_release v ≡ pre
    → IsSelected opts v head pre existing
        (promoted opts v head existing).0
        (promoted opts v head existing).1
unfolding promoted
promoted-IsSelected opts v head none true e = (promoted-IsBranchTag opts v, refl)
promoted-IsSelected opts v head none false e = (promoted-IsBranchTag opts v, refl)
promoted-IsSelected opts v head (some rc) true e =
    rw (e, promoted) (promoted-IsBranchTag opts v, refl)
promoted-IsSelected opts v head (some rc) false e = rw (e, promoted) (refl, refl)
