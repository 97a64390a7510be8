-- ===== src/TagRelease/Release.antt =====
-- `DoTagRelease` of cmd/tagRelease.go as a whole: which commit it promotes, and that all repositories get the tag.
use delorean.Base.{
  inl, inr, false, true, ℕ, List, [], ◌∷◌, ◌++◌, Bool, Option, none, some, Text, codes, text_eq,
  text_eq_iff, split, Result, ok, err, panic, ◌≡◌, ◌≢◌, refl, sym, ap, ◌∙◌, In, All, All-append,
  Bool-cases, subst,
}
use delorean.Version.{is_pre_release, RhmiVersion, VersionError, new_version, tag_name, rc_tag_ref}
use delorean.TagRelease.{
  with_refs, TagReleaseOptions, Reference, Refs, found, not_found, failed, TagError, Mirror, Quay,
  find_ref, choose_ref, get_git_ref, try_create_quay_tag, poll, prepare, promoted, finish_tags,
  do_tag_release,
}
use delorean.Base.{All-map}
use delorean.TagRelease.Selected.{IsSelected, promoted-IsSelected}
use delorean.TagRelease.Tags.{
  All-IsTagged, IsVerified, IsTagged, try_create_quay_tag-IsVerified, poll-IsVerified,
  try_create_quay_tag-IsTagged, poll-IsTagged,
}

-- A call of `oc image mirror` that the options and the refs justify: the branch exists, and the image copied carries
-- the commit that is selected and goes from the tag that is selected to the release's.
pub record IsPromoted (opts : TagReleaseOptions) (git : Text → Refs) (quay : Quay) (m : Mirror)
    : Type 0 where
  pub version : RhmiVersion
  pub head : Reference
  pub existing : Option Reference
  pub heads : List Reference
  pub parsed : new_version opts.release_version opts.olm_type ≡ ok version
  pub listed : git (codes "refs/heads/" ++ opts.branch) ≡ found heads
  pub there : In head heads
  pub of_branch : head.ref ≡ codes "refs/heads/" ++ opts.branch
  pub candidate : get_git_ref git (codes "refs/tags/" ++ rc_tag_ref version) true ≡ ok existing
  pub src_tag : Text
  pub commit : Text
  pub selected : IsSelected opts version head (is_pre_release version) existing src_tag commit
  pub verified : IsVerified quay src_tag (tag_name version) commit (split opts.quay_repos b',') m

find_ref-In :
    (ref : Text) (rs : List Reference) (r : Reference)
    → find_ref ref rs ≡ some r
    → In r rs × (r.ref ≡ ref)
unfolding find_ref
find_ref-In ref [] r h = cc h
find_ref-In ref (x ∷ rs) r h = elim (Bool-cases (text_eq x.ref ref)) [
  | inl e ↦
      let same : x ≡ r = cc (rw (e, find_ref) at h) in
      (inl same, ap (λ y. y.ref) (sym same) ∙ (text_eq_iff x.ref ref).0 e)
  | inr e ↦ let (m, q) = find_ref-In ref rs r (rw (e, find_ref) at h) in (inr m, q)
]

choose_ref-exact : (ref : Text) (rs : List Reference) → choose_ref ref false rs ≡ find_ref ref rs
unfolding choose_ref
choose_ref-exact ref [] = refl
choose_ref-exact ref (r ∷ rs) = refl

-- Without `mostRecent` the ref is listed under its exact name.
get_git_ref-exact :
    (git : Text → Refs) (ref : Text) (r : Reference) (answer : Refs)
    → git ref ≡ answer
    → get_git_ref git ref false ≡ ok (some r)
    → (rs : List Reference) × (git ref ≡ found rs) × In r rs × (r.ref ≡ ref)
unfolding get_git_ref
get_git_ref-exact git ref r failed e h = cc (rw (e, get_git_ref) at h)
get_git_ref-exact git ref r not_found e h = cc (rw (e, get_git_ref) at h)
get_git_ref-exact git ref r (found rs) e h =
    let chosen : choose_ref ref false rs ≡ some r = cc (rw (e, get_git_ref) at h) in
    let (m, q) = find_ref-In ref rs r (sym (choose_ref-exact ref rs) ∙ chosen) in (rs, e, m, q)

with_refs-ok :
    (branch : Text) (v rv : RhmiVersion) (head : Reference) (existing : Option Reference)
    (a b : Result TagError (Option Reference))
    → with_refs branch v a b ≡ ok (rv, head, existing)
    → (v ≡ rv) × (a ≡ ok (some head)) × (b ≡ ok existing)
unfolding with_refs
with_refs-ok branch v rv head existing panic b h = cc h
with_refs-ok branch v rv head existing (err x) b h = cc h
with_refs-ok branch v rv head existing (ok x) panic h = cc h
with_refs-ok branch v rv head existing (ok x) (err y) h = cc h
with_refs-ok branch v rv head existing (ok none) (ok y) h = cc h
with_refs-ok branch v rv head existing (ok (some x)) (ok y) h = (cc h, cc h, cc h)

-- What the checks have established when they pass.
prepare-ok :
    (opts : TagReleaseOptions) (git : Text → Refs) (parsed : Result VersionError RhmiVersion)
    (rv : RhmiVersion) (head : Reference) (existing : Option Reference)
    → new_version opts.release_version opts.olm_type ≡ parsed
    → prepare opts git ≡ ok (rv, head, existing)
    → (new_version opts.release_version opts.olm_type ≡ ok rv)
      × (get_git_ref git (codes "refs/heads/" ++ opts.branch) false ≡ ok (some head))
      × (get_git_ref git (codes "refs/tags/" ++ rc_tag_ref rv) true ≡ ok existing)
unfolding prepare
prepare-ok opts git panic rv head existing e h = cc (rw (e, prepare) at h)
prepare-ok opts git (err x) rv head existing e h = cc (rw (e, prepare) at h)
prepare-ok opts git (ok v) rv head existing e h =
    let (same, first, second) =
      with_refs-ok opts.branch v rv head existing _ _ (rw (e, prepare) at h) in
    (
      e ∙ ap ok same,
      first,
      subst (λ x. get_git_ref git (codes "refs/tags/" ++ rc_tag_ref x) true ≡ ok existing) same
          second,
    )

module _ (opts : TagReleaseOptions) (git : Text → Refs) (quay : Quay) where
  prepare-IsPromoted :
      (rv : RhmiVersion) (head : Reference) (existing : Option Reference)
      → prepare opts git ≡ ok (rv, head, existing)
      → (m : Mirror)
      → IsVerified quay
          (promoted opts rv head existing).0
          (tag_name rv)
          (promoted opts rv head existing).1
          (split opts.quay_repos b',')
          m
      → IsPromoted opts git quay m
  prepare-IsPromoted rv head existing e m v =
      let (p, h, t) = prepare-ok opts git _ rv head existing refl e in
      let (heads, listed, there, named) =
        get_git_ref-exact git (codes "refs/heads/" ++ opts.branch) head _ refl h in
      record {
        version = rv;
        head = head;
        existing = existing;
        heads = heads;
        parsed = p;
        listed = listed;
        there = there;
        of_branch = named;
        candidate = t;
        src_tag = _;
        commit = _;
        selected = promoted-IsSelected opts rv head existing _ refl;
        verified = v;
      }

finish_tags-All :
    (P : Mirror → Type 0) (wait : Bool) (first later : List Mirror × Option Bool)
    → All P first.0
    → All P later.0
    → All P (finish_tags wait first later).0
finish_tags-All P wait (calls, none) later f l = f
finish_tags-All P wait (calls, some true) later f l = f
finish_tags-All P false (calls, some false) later f l = f
finish_tags-All P true (calls, some false) (more, none) f l = All-append P calls more f l
finish_tags-All P true (calls, some false) (more, some true) f l = All-append P calls more f l
finish_tags-All P true (calls, some false) (more, some false) f l = All-append P calls more f l

module _ (opts : TagReleaseOptions) (git : Text → Refs) (quay : Quay) (checks : ℕ) where
  IsPromoted-cases :
      (prepared : Result TagError (RhmiVersion × Reference × Option Reference))
      → prepare opts git ≡ prepared
      → All (IsPromoted opts git quay) (do_tag_release opts git quay checks).0
  unfolding do_tag_release
  IsPromoted-cases panic e = rw (e, do_tag_release) tt
  IsPromoted-cases (err x) e = rw (e, do_tag_release) tt
  IsPromoted-cases (ok (rv, head, existing)) e =
      let (src, sha) = promoted opts rv head existing in
      let justify = prepare-IsPromoted opts git quay rv head existing e in
      elim (Bool-cases (text_eq opts.quay_repos [])) [
        | inl q ↦ rw (e, q, do_tag_release) tt
        | inr q ↦
            rw (e, q, do_tag_release)
              (finish_tags-All (IsPromoted opts git quay) opts.wait _ _
                (All-map _ justify
                  (try_create_quay_tag-IsVerified quay src (tag_name rv) sha 0 opts.quay_repos))
                (All-map _ justify
                  (poll-IsVerified quay src (tag_name rv) sha opts.quay_repos checks 1)))
      ]

-- Whatever the services answer, every image that is copied belongs to one of the repositories that the options name and
-- stays in it, was seen to carry the commit that is selected, and goes from the tag that is selected to the release's
-- tag or to the one that its repository is named with. For a final release that has an RC tag, this tag and its commit
-- are selected; otherwise the head of the branch, which is there, with the tag of the options or, without one, that
-- of the release's branch.
pub do_tag_release-IsPromoted :
    (opts : TagReleaseOptions) (git : Text → Refs) (quay : Quay) (checks : ℕ)
    → All (IsPromoted opts git quay) (do_tag_release opts git quay checks).0
do_tag_release-IsPromoted opts git quay checks =
    IsPromoted-cases opts git quay checks (prepare opts git) refl

-- With `wait`, success means that the first attempt or the polling succeeded.
finish_tags-IsTagged :
    (dst : Text) (rs : List Text) (first later : List Mirror × Option Bool)
    → (first.1 ≡ some true → All (IsTagged first.0 dst) rs)
    → (later.1 ≡ some true → All (IsTagged later.0 dst) rs)
    → (finish_tags true first later).1 ≡ ok tt
    → All (IsTagged (finish_tags true first later).0 dst) rs
finish_tags-IsTagged dst rs (calls, none) later f l h = cc h
finish_tags-IsTagged dst rs (calls, some true) later f l h = f refl
finish_tags-IsTagged dst rs (calls, some false) (more, none) f l h = cc h
finish_tags-IsTagged dst rs (calls, some false) (more, some true) f l h =
    All-IsTagged dst rs calls more (l refl)
finish_tags-IsTagged dst rs (calls, some false) (more, some false) f l h = cc h

-- The attempts that `do_tag_release` makes once the checks have passed.
do_tag_release-waits :
    (opts : TagReleaseOptions) (git : Text → Refs) (quay : Quay) (checks : ℕ) (rv : RhmiVersion)
    (head : Reference) (existing : Option Reference)
    → prepare opts git ≡ ok (rv, head, existing)
    → opts.wait ≡ true
    → text_eq opts.quay_repos [] ≡ false
    → do_tag_release opts git quay checks
      ≡ finish_tags true
          (try_create_quay_tag quay
            (promoted opts rv head existing).0
            (tag_name rv)
            (promoted opts rv head existing).1
            0
            opts.quay_repos)
          (poll quay
            (promoted opts rv head existing).0
            (tag_name rv)
            (promoted opts rv head existing).1
            opts.quay_repos
            checks
            1)
unfolding do_tag_release
do_tag_release-waits opts git quay checks rv head existing e w q = rw (e, q, w, do_tag_release) refl

-- If tagging is to wait for the image and succeeds, each repository that was named has got its tag.
pub do_tag_release-IsTagged :
    (opts : TagReleaseOptions) (git : Text → Refs) (quay : Quay) (checks : ℕ) (rv : RhmiVersion)
    (head : Reference) (existing : Option Reference)
    → prepare opts git ≡ ok (rv, head, existing)
    → opts.wait ≡ true
    → opts.quay_repos ≢ []
    → (do_tag_release opts git quay checks).1 ≡ ok tt
    → All
        (IsTagged (do_tag_release opts git quay checks).0 (tag_name rv))
        (split opts.quay_repos b',')
do_tag_release-IsTagged opts git quay checks rv head existing e wait named h =
    let (src, sha) = promoted opts rv head existing in
    let unnamed : text_eq opts.quay_repos [] ≡ false =
      elim (Bool-cases (text_eq opts.quay_repos [])) [
        | inl q ↦ absurd (named ((text_eq_iff opts.quay_repos []).0 q))
        | inr q ↦ q
      ] in
    let same = do_tag_release-waits opts git quay checks rv head existing e wait unnamed in
    subst (λ t. All (IsTagged t.0 (tag_name rv)) (split opts.quay_repos b',')) (sym same)
      (finish_tags-IsTagged (tag_name rv) (split opts.quay_repos b',') _ _
        (try_create_quay_tag-IsTagged quay src (tag_name rv) sha 0 opts.quay_repos)
        (poll-IsTagged quay src (tag_name rv) sha opts.quay_repos checks 1)
        (ap (λ t. t.1) (sym same) ∙ h))
