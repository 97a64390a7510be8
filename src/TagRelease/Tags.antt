-- ===== src/TagRelease/Tags.antt =====
-- What `DoTagRelease` of cmd/tagRelease.go copies on quay.io.
use delorean.Base.{
  ℕ, zero, suc, List, [], ◌∷◌, ◌++◌, Bool, true, false, ◌&&◌, some, Text, text_eq, text_eq_iff,
  split, ◌≡◌, refl, sym, ap, ◌∙◌, inl, inr, In, All, All-append, In-append_left, In-append_right,
  Bool-cases, Option-cases, subst,
}
use delorean.TagRelease.{
  Mirror, Quay, get_image_repo_and_tag, create_tag_in, create_tag_for_image, create_tags,
  try_create_quay_tag, poll,
}

-- The call copies an image that was seen, at some attempt, to carry the commit, from the source tag to the destination
-- tag, or to the tag that its repository is given with, within one of the repositories.
pub record IsVerified (quay : Quay) (src_tag dst_tag commit_sha : Text) (repos : List Text)
    (m : Mirror) : Type 0 where
  pub attempt : ℕ
  pub commit : quay.info attempt m.source ≡ some commit_sha
  pub from_tag : m.source.tag ≡ src_tag
  pub same_namespace : m.destination.namespace ≡ m.source.namespace
  pub same_name : m.destination.name ≡ m.source.name
  pub repo : Text
  pub listed : In repo repos
  pub rest : List Text
  pub named :
      split (get_image_repo_and_tag repo dst_tag).0 b'/'
      ≡ m.destination.namespace ∷ m.destination.name ∷ rest
  pub to_tag : m.destination.tag ≡ (get_image_repo_and_tag repo dst_tag).1

-- The image of the repository has got its tag.
pub record IsTagged (calls : List Mirror) (dst_tag r : Text) : Type 0 where
  pub call : Mirror
  pub made : In call calls
  pub done : call.succeeded ≡ true
  pub rest : List Text
  pub named :
      split (get_image_repo_and_tag r dst_tag).0 b'/'
      ≡ call.destination.namespace ∷ call.destination.name ∷ rest
  pub tagged : call.destination.tag ≡ (get_image_repo_and_tag r dst_tag).1

IsTagged-left :
    (calls more : List Mirror) (dst_tag r : Text)
    → IsTagged calls dst_tag r
    → IsTagged (calls ++ more) dst_tag r
IsTagged-left calls more dst_tag r h = record {
  call = h.call;
  made = In-append_left h.call calls more h.made;
  done = h.done;
  rest = h.rest;
  named = h.named;
  tagged = h.tagged;
}

IsTagged-right :
    (calls more : List Mirror) (dst_tag r : Text)
    → IsTagged more dst_tag r
    → IsTagged (calls ++ more) dst_tag r
IsTagged-right calls more dst_tag r h = record {
  call = h.call;
  made = In-append_right h.call calls more h.made;
  done = h.done;
  rest = h.rest;
  named = h.named;
  tagged = h.tagged;
}

pub All-IsTagged :
    (dst_tag : Text) (rs : List Text) (calls more : List Mirror)
    → All (IsTagged more dst_tag) rs
    → All (IsTagged (calls ++ more) dst_tag) rs
All-IsTagged dst_tag [] calls more h = tt
All-IsTagged dst_tag (r ∷ rs) calls more (h, k) =
    (IsTagged-right calls more dst_tag r h, All-IsTagged dst_tag rs calls more k)

and_both : (a b : Bool) → some (a && b) ≡ some true → (a ≡ true) × (b ≡ true)
and_both true b h = (refl, cc h)
and_both false b h = cc h

module _ (quay : Quay) (src dst sha : Text) where
  create_tag_in-IsVerified :
      (attempt : ℕ) (repos : List Text) (r : Text) (parts : List Text)
      → In r repos
      → split (get_image_repo_and_tag r dst).0 b'/' ≡ parts
      → All
          (IsVerified quay src dst sha repos)
          (create_tag_in quay src dst sha attempt parts (get_image_repo_and_tag r dst).1).0
  unfolding create_tag_in
  create_tag_in-IsVerified attempt repos r [] m named = tt
  create_tag_in-IsVerified attempt repos r (org ∷ []) m named = tt
  create_tag_in-IsVerified attempt repos r (org ∷ image ∷ rest) m named =
      elim (Option-cases
        (quay.info attempt (record { namespace = org; name = image; tag = src }))) [
          | inl e ↦ rw (e, create_tag_in) tt
          | inr (c, e) ↦ elim (Bool-cases (text_eq c sha)) [
            | inl q ↦
                rw (e, q, create_tag_in)
                  (
                    record {
                      attempt = attempt;
                      commit = e ∙ ap some ((text_eq_iff c sha).0 q);
                      from_tag = refl;
                      same_namespace = refl;
                      same_name = refl;
                      repo = r;
                      listed = m;
                      rest = rest;
                      named = named;
                      to_tag = refl;
                    },
                    tt,
                  )
            | inr q ↦ rw (e, q, create_tag_in) tt
          ]
        ]

  create_tags-IsVerified :
      (attempt : ℕ) (repos rs : List Text)
      → ((r : Text) → In r rs → In r repos)
      → All (IsVerified quay src dst sha repos) (create_tags quay src dst sha attempt rs).0
  unfolding create_tags create_tag_for_image
  create_tags-IsVerified attempt repos [] sub = tt
  create_tags-IsVerified attempt repos (r ∷ rs) sub =
      let (repo, tag) = get_image_repo_and_tag r dst in
      let one =
        create_tag_in-IsVerified attempt repos r (split repo b'/') (sub r (inl refl)) refl in
      elim (Option-cases (create_tag_in quay src dst sha attempt (split repo b'/') tag).1) [
        | inl e ↦ rw (e, create_tags) one
        | inr (b, e) ↦
            rw (e, create_tags)
              (All-append (IsVerified quay src dst sha repos) _ _ one
                (create_tags-IsVerified attempt repos rs (λ x m. sub x (inr m))))
      ]

  pub try_create_quay_tag-IsVerified :
      (attempt : ℕ) (repos : Text)
      → All
          (IsVerified quay src dst sha (split repos b','))
          (try_create_quay_tag quay src dst sha attempt repos).0
  unfolding try_create_quay_tag
  try_create_quay_tag-IsVerified attempt repos = elim (Bool-cases (quay.token_file attempt)) [
    | inl e ↦ rw e (create_tags-IsVerified attempt (split repos b',') (split repos b',') (λ r m. m))
    | inr e ↦ rw e tt
  ]

  pub poll-IsVerified :
      (repos : Text) (checks attempt : ℕ)
      → All
          (IsVerified quay src dst sha (split repos b','))
          (poll quay src dst sha repos checks attempt).0
  unfolding poll
  poll-IsVerified repos zero attempt = tt
  poll-IsVerified repos (suc checks) attempt =
      let one = try_create_quay_tag-IsVerified attempt repos in
      elim (Option-cases (try_create_quay_tag quay src dst sha attempt repos).1) [
        | inl e ↦ rw (e, poll) one
        | inr (true, e) ↦ rw (e, poll) one
        | inr (false, e) ↦
            rw (e, poll)
              (All-append (IsVerified quay src dst sha (split repos b',')) _ _ one
                (poll-IsVerified repos checks (suc attempt)))
      ]

  -- An attempt that reports success has tagged the image of each repository.
  create_tag_for_image-IsTagged :
      (attempt : ℕ) (r : Text) (parts : List Text)
      → split (get_image_repo_and_tag r dst).0 b'/' ≡ parts
      → (create_tag_in quay src dst sha attempt parts (get_image_repo_and_tag r dst).1).1
        ≡ some true
      → IsTagged
          (create_tag_in quay src dst sha attempt parts (get_image_repo_and_tag r dst).1).0
          dst
          r
  unfolding create_tag_in
  create_tag_for_image-IsTagged attempt r [] e h = cc h
  create_tag_for_image-IsTagged attempt r (org ∷ []) e h = cc h
  create_tag_for_image-IsTagged attempt r (org ∷ image ∷ rest) e h =
      elim (Option-cases
        (quay.info attempt (record { namespace = org; name = image; tag = src }))) [
          | inl q ↦ cc (rw (q, create_tag_in) at h)
          | inr (c, q) ↦ elim (Bool-cases (text_eq c sha)) [
            | inl k ↦
                rw (q, k, create_tag_in)
                  (record {
                    call = _;
                    made = inl refl;
                    done = cc (rw (q, k, create_tag_in) at h);
                    rest = rest;
                    named = e;
                    tagged = refl;
                  })
            | inr k ↦ cc (rw (q, k, create_tag_in) at h)
          ]
        ]

  create_tags-IsTagged :
      (attempt : ℕ) (rs : List Text)
      → (create_tags quay src dst sha attempt rs).1 ≡ some true
      → All (IsTagged (create_tags quay src dst sha attempt rs).0 dst) rs
  unfolding create_tags create_tag_for_image
  create_tags-IsTagged attempt [] h = tt
  create_tags-IsTagged attempt (r ∷ rs) h =
      let parts = split (get_image_repo_and_tag r dst).0 b'/' in
      let tag = (get_image_repo_and_tag r dst).1 in
      let calls = (create_tag_in quay src dst sha attempt parts tag).0 in
      elim (Option-cases (create_tag_in quay src dst sha attempt parts tag).1) [
        | inl e ↦ cc (rw (e, create_tags) at h)
        | inr (one, e) ↦ elim (Option-cases (create_tags quay src dst sha attempt rs).1) [
          | inl q ↦ cc (rw (e, q, create_tags) at h)
          | inr (all, q) ↦
              let both = and_both one all (cc (rw (e, q, create_tags) at h)) in
              subst (λ made. All (IsTagged made dst) (r ∷ rs)) (sym (rw (e, create_tags) refl))
                (
                  IsTagged-left calls (create_tags quay src dst sha attempt rs).0 dst r
                      (create_tag_for_image-IsTagged attempt r parts refl (e ∙ ap some both.0)),
                  All-IsTagged dst rs calls _
                      (create_tags-IsTagged attempt rs (q ∙ ap some both.1)),
                )
        ]
      ]

  pub try_create_quay_tag-IsTagged :
      (attempt : ℕ) (repos : Text)
      → (try_create_quay_tag quay src dst sha attempt repos).1 ≡ some true
      → All (IsTagged (try_create_quay_tag quay src dst sha attempt repos).0 dst) (split repos b',')
  unfolding try_create_quay_tag
  try_create_quay_tag-IsTagged attempt repos h = elim (Bool-cases (quay.token_file attempt)) [
    | inl e ↦ rw e (create_tags-IsTagged attempt (split repos b',') (rw e at h))
    | inr e ↦ cc (rw e at h)
  ]

  pub poll-IsTagged :
      (repos : Text) (checks attempt : ℕ)
      → (poll quay src dst sha repos checks attempt).1 ≡ some true
      → All (IsTagged (poll quay src dst sha repos checks attempt).0 dst) (split repos b',')
  unfolding poll
  poll-IsTagged repos zero attempt h = cc h
  poll-IsTagged repos (suc checks) attempt h =
      elim (Option-cases (try_create_quay_tag quay src dst sha attempt repos).1) [
        | inl e ↦ cc (rw (e, poll) at h)
        | inr (true, e) ↦ rw (e, poll) (try_create_quay_tag-IsTagged attempt repos e)
        | inr (false, e) ↦
            rw (e, poll)
              (All-IsTagged dst (split repos b',')
                (try_create_quay_tag quay src dst sha attempt repos).0 _
                (poll-IsTagged repos checks (suc attempt) (rw (e, poll) at h)))
      ]
