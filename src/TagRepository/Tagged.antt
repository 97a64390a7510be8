-- ===== src/TagRepository/Tagged.antt =====
-- When a branch is tagged (cmd/tagReleaseRepository.go, cmd/tagRepository.go).
use delorean.Base.{
  List, [], ◌∷◌, Bool, true, false, Bool-cases, Option, none, some, Text, text_eq, text_eq_iff,
  Result, ok, err, panic, All, ◌≡◌, refl, sym, subst, ◌⊎◌, inl, inr,
}
use delorean.Version.{RhmiVersion, tag_name}
use delorean.TagRelease.{Reference, Refs, TagError, get_git_ref}
use delorean.Git.{branch_reference, tag_reference}
use delorean.TagRepository.{Tagging, with_tag, create_git_tag, with_head, tag_branch}

module _ (git : Text → Refs) (create_ref : Reference → Bool) (branch tag : Text) where
  abbrev pub HeadIs : Text → Type 0
  HeadIs sha =
      (head : Reference) × (get_git_ref git (branch_reference branch) false ≡ ok (some head))
      × (head.sha ≡ sha)

  -- A new tag stands on the branch's head, and there was none of its name.
  abbrev pub IsNewTag : Reference → Type 0
  IsNewTag r =
      (r.ref ≡ tag_reference tag)
      × HeadIs r.sha
      × (get_git_ref git (tag_reference tag) false ≡ ok none)

  -- The tag is on the branch's head: it was there, or has been created.
  abbrev pub IsOnHead : List Reference → Type 0
  IsOnHead created =
      ((r : Reference) × (get_git_ref git (tag_reference tag) false ≡ ok (some r))
        × HeadIs r.sha
        × (created ≡ []))
      ⊎ ((r : Reference) × (created ≡ r ∷ []) × IsNewTag r × (create_ref r ≡ true))

  abbrev pub IsTagged : Tagging → Type 0
  IsTagged (created, r) = All IsNewTag created × (r ≡ ok tt → IsOnHead created)

  with_tag-IsTagged :
      (sha : Text) (found : Result TagError (Option Reference))
      → get_git_ref git (tag_reference tag) false ≡ found
      → HeadIs sha
      → IsTagged (with_tag create_ref (record { ref = tag_reference tag; sha = sha }) found)
  unfolding with_tag
  with_tag-IsTagged sha panic e h = (tt, λ q. cc q)
  with_tag-IsTagged sha (err x) e h = (tt, λ q. cc q)
  with_tag-IsTagged sha (ok none) e h =
      elim (Bool-cases (create_ref (record { ref = tag_reference tag; sha = sha }))) [
        | inl c ↦ rw c (
          ((refl, h, e), tt),
          λ _. inr (record { ref = tag_reference tag; sha = sha }, refl, (refl, h, e), c),
        )
        | inr c ↦ rw c (((refl, h, e), tt), λ q. cc q)
      ]
  with_tag-IsTagged sha (ok (some r)) e h = elim (Bool-cases (text_eq r.sha sha)) [
    | inl c ↦ rw c (tt, λ _. inl (r, e, subst HeadIs (sym ((text_eq_iff r.sha sha).0 c)) h, refl))
    | inr c ↦ rw c (tt, λ q. cc q)
  ]

  with_head-IsTagged :
      (found : Result TagError (Option Reference))
      → get_git_ref git (branch_reference branch) false ≡ found
      → IsTagged (with_head git create_ref branch tag found)
  unfolding with_head create_git_tag
  with_head-IsTagged panic e = (tt, λ q. cc q)
  with_head-IsTagged (err x) e = (tt, λ q. cc q)
  with_head-IsTagged (ok none) e = (tt, λ q. cc q)
  with_head-IsTagged (ok (some head)) e = with_tag-IsTagged head.sha _ refl (head, e, refl)

-- A tag is created only if there is none of its name, and on the head of the branch; and if the command succeeds, the
-- version's tag is on that head: it was there before, and nothing is created, or it has been created.
pub tag_branch-IsTagged :
    (git : Text → Refs) (create_ref : Reference → Bool) (branch : Text) (v : RhmiVersion)
    → IsTagged git create_ref branch (tag_name v) (tag_branch git create_ref branch v)
unfolding tag_branch
tag_branch-IsTagged git create_ref branch v =
    with_head-IsTagged git create_ref branch (tag_name v) _ refl
