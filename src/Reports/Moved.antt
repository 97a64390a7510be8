-- ===== src/Reports/Moved.antt =====
-- Which reports cmd/cleanupReports.go moves.
use delorean.Base.{
  List, [], ◌∷◌, ◌++◌, true, false, ◌&&◌, some, Text, text_eq, text_eq_iff, ◌≡◌, refl, sym, ap, ◌⊎◌,
  inl, inr, In, All, All-append, In-append, In-append_left, In-append_right, Bool-cases,
  Option-cases, subst,
}
use delorean.Reports.{
  ObjectTag, CleanupConfig, S3, S3Call, copy_call, delete_call, archive_folder_name, in_folder,
  has_tag, has_all_tags, should_cleanup, select, copy_loop,
}

-- The report has all tags that the configuration asks for.
abbrev pub IsTagged : S3 → CleanupConfig → Text → Type 0
IsTagged s3 config k =
    (found : List ObjectTag) × (s3.object_tagging config.bucket k ≡ some found)
    × All (λ tag. In tag found) config.tags

-- It has been listed, has the tags, and its copy in the archive has been made.
abbrev pub IsArchived : S3 → CleanupConfig → List Text → Text → Type 0
IsArchived s3 config objects k =
    In k objects
    × IsTagged s3 config k
    × (s3.copy_object config.bucket k (in_folder archive_folder_name k) ≡ true)

-- The call is to be made after the calls `before`: a copy of a tagged report to the archive, or the deletion of reports
-- whose copies have been asked for and made.
abbrev pub IsSafe : S3 → CleanupConfig → List Text → List S3Call → S3Call → Type 0
IsSafe s3 config objects before (copy_call bucket from to) =
    (bucket ≡ config.bucket)
    × In from objects
    × IsTagged s3 config from
    × (to ≡ in_folder archive_folder_name from)
IsSafe s3 config objects before (delete_call bucket keys) =
    (bucket ≡ config.bucket)
    × All
        (λ k.
          IsArchived s3 config objects k
          × In (copy_call config.bucket k (in_folder archive_folder_name k)) before)
        keys

has_tag-In :
    (found : List ObjectTag) (tag : ObjectTag)
    → has_tag found tag.key tag.value ≡ true
    → In tag found
unfolding has_tag
has_tag-In [] tag h = cc h
has_tag-In (t ∷ found) tag h = elim (Bool-cases (text_eq t.key tag.key)) [
  | inr e ↦ inr (has_tag-In found tag (rw (e, has_tag) at h))
  | inl e ↦ elim (Bool-cases (text_eq t.value tag.value)) [
    | inr q ↦ inr (has_tag-In found tag (rw (e, q, has_tag) at h))
    | inl q ↦ inl (λ i. record {
      key = (text_eq_iff t.key tag.key).0 e i;
      value = (text_eq_iff t.value tag.value).0 q i;
    })
  ]
]

In-has_tag :
    (found : List ObjectTag) (tag : ObjectTag)
    → In tag found
    → has_tag found tag.key tag.value ≡ true
unfolding has_tag
In-has_tag [] tag m = absurd m
In-has_tag (t ∷ found) tag (inl e) =
    rw
      (
        (text_eq_iff t.key tag.key).1 (ap (λ x. x.key) e),
        (text_eq_iff t.value tag.value).1 (ap (λ x. x.value) e),
        has_tag,
      )
      refl
In-has_tag (t ∷ found) tag (inr m) =
    elim (Bool-cases (text_eq t.key tag.key && text_eq t.value tag.value)) [
      | inl e ↦ rw (e, has_tag) refl
      | inr e ↦ rw (e, has_tag) (In-has_tag found tag m)
    ]

has_all_tags-All :
    (found tags : List ObjectTag) → has_all_tags found tags ≡ true → All (λ tag. In tag found) tags
unfolding has_all_tags
has_all_tags-All found [] h = tt
has_all_tags-All found (tag ∷ tags) h = elim (Bool-cases (has_tag found tag.key tag.value)) [
  | inl e ↦ (has_tag-In found tag e, has_all_tags-All found tags (rw (e, has_all_tags) at h))
  | inr e ↦ cc (rw (e, has_all_tags) at h)
]

All-has_all_tags :
    (found tags : List ObjectTag) → All (λ tag. In tag found) tags → has_all_tags found tags ≡ true
unfolding has_all_tags
All-has_all_tags found [] h = refl
All-has_all_tags found (tag ∷ tags) (m, h) =
    rw (In-has_tag found tag m, has_all_tags) (All-has_all_tags found tags h)

in_tail : {B M N C : Type 0} → (M → N) → B ⊎ (M × C) → B ⊎ (N × C)
in_tail g (inl b) = inl b
in_tail g (inr (m, c)) = inr (g m, c)

module _ (s3 : S3) (config : CleanupConfig) where
  should_cleanup-IsTagged :
      (k : Text) → should_cleanup s3 config.bucket k config.tags ≡ some true → IsTagged s3 config k
  unfolding should_cleanup
  should_cleanup-IsTagged k h = elim (Option-cases (s3.object_tagging config.bucket k)) [
    | inl e ↦ cc (rw (e, should_cleanup) at h)
    | inr (found, e) ↦
        (found, e, has_all_tags-All found config.tags (cc (rw (e, should_cleanup) at h)))
  ]

  IsTagged-should_cleanup :
      (k : Text) → IsTagged s3 config k → should_cleanup s3 config.bucket k config.tags ≡ some true
  unfolding should_cleanup
  IsTagged-should_cleanup k (found, e, h) =
      rw (e, should_cleanup) (ap some (All-has_all_tags found config.tags h))

  pub In-select :
      (k : Text) (objects to_copy : List Text)
      → In k (select s3 config.bucket objects config.tags to_copy)
      → In k to_copy ⊎ (In k objects × IsTagged s3 config k)
  unfolding select
  In-select k [] to_copy m = inl m
  In-select k (o ∷ objects) to_copy m =
      elim (Option-cases (should_cleanup s3 config.bucket o config.tags)) [
        | inl e ↦ in_tail inr (In-select k objects to_copy (rw (e, select) at m))
        | inr (false, e) ↦ in_tail inr (In-select k objects to_copy (rw (e, select) at m))
        | inr (true, e) ↦ elim (In-select k objects (to_copy ++ o ∷ []) (rw (e, select) at m)) [
          | inr (i, t) ↦ inr (inr i, t)
          | inl i ↦ elim (In-append k to_copy (o ∷ []) i) [
            | inl l ↦ inl l
            | inr (inl q) ↦ inr (inl q, subst (IsTagged s3 config) q (should_cleanup-IsTagged o e))
            | inr (inr z) ↦ absurd z
          ]
        ]
      ]

  select_acc-In :
      (k : Text) (objects to_copy : List Text)
      → In k to_copy
      → In k (select s3 config.bucket objects config.tags to_copy)
  unfolding select
  select_acc-In k [] to_copy m = m
  select_acc-In k (o ∷ objects) to_copy m =
      elim (Option-cases (should_cleanup s3 config.bucket o config.tags)) [
        | inl e ↦ rw (e, select) (select_acc-In k objects to_copy m)
        | inr (false, e) ↦ rw (e, select) (select_acc-In k objects to_copy m)
        | inr (true, e) ↦
            rw (e, select)
              (select_acc-In k objects (to_copy ++ o ∷ []) (In-append_left k to_copy (o ∷ []) m))
      ]

  pub select-In :
      (k : Text) (objects to_copy : List Text)
      → In k objects
      → IsTagged s3 config k
      → In k (select s3 config.bucket objects config.tags to_copy)
  unfolding select
  select-In k [] to_copy m t = absurd m
  select-In k (o ∷ objects) to_copy (inl q) t =
      rw
        (
          subst (λ x. should_cleanup s3 config.bucket x config.tags ≡ some true) (sym q)
              (IsTagged-should_cleanup k t),
          select,
        )
        (select_acc-In k objects (to_copy ++ o ∷ []) (In-append_right k to_copy (o ∷ []) (inl q)))
  select-In k (o ∷ objects) to_copy (inr m) t = select-In k objects _ m t

  pub In-copy_loop :
      (k folder : Text) (objects : List Text) (calls : List S3Call) (copied : List Text)
      → In k (copy_loop s3 config.bucket folder objects calls copied).1
      → In k copied ⊎ (In k objects × (s3.copy_object config.bucket k (in_folder folder k) ≡ true))
  unfolding copy_loop
  In-copy_loop k folder [] calls copied m = inl m
  In-copy_loop k folder (o ∷ objects) calls copied m =
      elim (Bool-cases (s3.copy_object config.bucket o (in_folder folder o))) [
        | inr e ↦ in_tail inr (In-copy_loop k folder objects _ copied (rw (e, copy_loop) at m))
        | inl e ↦
            elim (In-copy_loop k folder objects _ (copied ++ o ∷ []) (rw (e, copy_loop) at m)) [
              | inr (i, t) ↦ inr (inr i, t)
              | inl i ↦ elim (In-append k copied (o ∷ []) i) [
                | inl l ↦ inl l
                | inr (inl q) ↦ inr (
                  inl q,
                  subst (λ x. s3.copy_object config.bucket x (in_folder folder x) ≡ true) q e,
                )
                | inr (inr z) ↦ absurd z
              ]
            ]
      ]

  copy_loop_acc-In :
      (k folder : Text) (objects : List Text) (calls : List S3Call) (copied : List Text)
      → In k copied
      → In k (copy_loop s3 config.bucket folder objects calls copied).1
  unfolding copy_loop
  copy_loop_acc-In k folder [] calls copied m = m
  copy_loop_acc-In k folder (o ∷ objects) calls copied m =
      elim (Bool-cases (s3.copy_object config.bucket o (in_folder folder o))) [
        | inr e ↦ rw (e, copy_loop) (copy_loop_acc-In k folder objects _ copied m)
        | inl e ↦
            rw (e, copy_loop)
              (copy_loop_acc-In k folder objects _ (copied ++ o ∷ [])
                (In-append_left k copied (o ∷ []) m))
      ]

  pub copy_loop-In :
      (k folder : Text) (objects : List Text) (calls : List S3Call) (copied : List Text)
      → In k objects
      → s3.copy_object config.bucket k (in_folder folder k) ≡ true
      → In k (copy_loop s3 config.bucket folder objects calls copied).1
  unfolding copy_loop
  copy_loop-In k folder [] calls copied m t = absurd m
  copy_loop-In k folder (o ∷ objects) calls copied (inl q) t =
      rw
        (
          subst (λ x. s3.copy_object config.bucket x (in_folder folder x) ≡ true) (sym q) t,
          copy_loop,
        )
        (copy_loop_acc-In k folder objects _ (copied ++ o ∷ [])
          (In-append_right k copied (o ∷ []) (inl q)))
  copy_loop-In k folder (o ∷ objects) calls copied (inr m) t = copy_loop-In k folder objects _ _ m t

  -- What has been copied has been asked for.
  pub copy_loop-called :
      (k folder : Text) (objects : List Text) (calls : List S3Call) (copied : List Text)
      → (In k copied → In (copy_call config.bucket k (in_folder folder k)) calls)
      → In k (copy_loop s3 config.bucket folder objects calls copied).1
      → In
          (copy_call config.bucket k (in_folder folder k))
          (copy_loop s3 config.bucket folder objects calls copied).0
  unfolding copy_loop
  copy_loop-called k folder [] calls copied h m = h m
  copy_loop-called k folder (o ∷ objects) calls copied h m =
      let c = copy_call config.bucket o (in_folder folder o) in
      let old : In k copied
          → In (copy_call config.bucket k (in_folder folder k)) (calls ++ c ∷ []) =
        λ i. In-append_left (copy_call config.bucket k (in_folder folder k)) calls (c ∷ []) (h i) in
      elim (Bool-cases (s3.copy_object config.bucket o (in_folder folder o))) [
        | inr e ↦
            rw (e, copy_loop)
              (copy_loop-called k folder objects (calls ++ c ∷ []) copied old
                (rw (e, copy_loop) at m))
        | inl e ↦
            rw (e, copy_loop)
              (copy_loop-called k folder objects (calls ++ c ∷ []) (copied ++ o ∷ [])
                (λ i. elim (In-append k copied (o ∷ []) i) [
                  | inl l ↦ old l
                  | inr (inl q) ↦
                      In-append_right (copy_call config.bucket k (in_folder folder k)) calls
                        (c ∷ []) (inl (ap (λ x. copy_call config.bucket x (in_folder folder x)) q))
                  | inr (inr z) ↦ absurd z
                ])
                (rw (e, copy_loop) at m))
      ]

  -- Only selected objects are copied, each into the folder.
  pub copy_loop-All :
      (P : S3Call → Type 0) (folder : Text) (objects : List Text) (calls : List S3Call)
      (copied : List Text)
      → All P calls
      → All (λ o. P (copy_call config.bucket o (in_folder folder o))) objects
      → All P (copy_loop s3 config.bucket folder objects calls copied).0
  unfolding copy_loop
  copy_loop-All P folder [] calls copied h g = h
  copy_loop-All P folder (o ∷ objects) calls copied h (p, g) =
      copy_loop-All P folder objects _ _ (All-append P calls _ h (p, tt)) g
