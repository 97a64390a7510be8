-- ===== src/MergeBlocker/Issues.antt =====
-- Which issues cmd/mergeBlocker.go creates and closes.
use delorean.Base.{
  List, [], ◌∷◌, ◌++◌, Bool, true, false, none, some, Text, codes, contains_text,
  contains_text_append, Result, ok, err, panic, ◌≡◌, refl, sym, ◌⊎◌, inl, inr, In, All, Bool-cases,
  subst,
}
use delorean.MergeBlocker.{
  without_value, Issue, IssueCall, create_issue, close_issue, BlockerError, IssuesService,
  branch_mark, blocker_title, find_blocker, search_merge_blockers, create_merge_blocker,
  close_merge_blocker, do_merge_blocker,
}
use delorean.Base.{append-nil}

-- The title names the branch, or one whose name begins like it.
abbrev pub Mentions : Text → Text → Type 0
Mentions branch title = contains_text title (branch_mark branch) ≡ true

find_blocker-cases :
    (issues : List Issue) (branch : Text)
    → ((find_blocker issues branch ≡ none)
        × All (λ i. contains_text i.title (branch_mark branch) ≡ false) issues)
      ⊎ ((i : Issue) × (find_blocker issues branch ≡ some i)
          × In i issues
          × Mentions branch i.title)
unfolding find_blocker
find_blocker-cases [] branch = inl (refl, tt)
find_blocker-cases (i ∷ issues) branch =
    elim (Bool-cases (contains_text i.title (branch_mark branch))) [
      | inl e ↦ rw (e, find_blocker) (inr (i, refl, inl refl, e))
      | inr e ↦
          rw (e, find_blocker)
            (elim (find_blocker-cases issues branch) [
              | inl (q, h) ↦ inl (q, (refl, h))
              | inr (j, q, m, t) ↦ inr (j, q, inr m, t)
            ])
    ]

-- The title of a new issue is found again.
blocker_title-Mentions : (branch : Text) → Mentions branch (blocker_title branch)
blocker_title-Mentions branch =
    subst (λ t. contains_text (codes "Merge Blocker|" ++ t) (branch_mark branch) ≡ true)
      (append-nil (branch_mark branch))
      (contains_text_append (codes "Merge Blocker|") (branch_mark branch) [])

-- What the calls of the command may be: closing an open issue that mentions the branch, or, if none does, creating
-- one that mentions it.
abbrev pub IsJustified : List Issue → Text → Bool → IssueCall → Type 0
IsJustified issues branch is_deletion (close_issue number title) =
    (is_deletion ≡ true)
    × (i : Issue) × In i issues
    × (i.number ≡ number)
    × (i.title ≡ title)
    × Mentions branch title
IsJustified issues branch is_deletion (create_issue title) =
    (is_deletion ≡ false)
    × Mentions branch title
    × All (λ i. contains_text i.title (branch_mark branch) ≡ false) issues

-- The branch is blocked: an open issue mentions it, or one has been created that does.
abbrev pub IsBlocked : List Issue → Text → List IssueCall → Type 0
IsBlocked issues branch [] = (i : Issue) × In i issues × Mentions branch i.title
IsBlocked issues branch (create_issue title ∷ calls) = Mentions branch title
IsBlocked issues branch (close_issue number title ∷ calls) = ⊥

module _ (client : IssuesService) (branch : Text) (issues : List Issue)
    (listed : client.list_by_repo ≡ some issues) where
  search-found : search_merge_blockers client branch ≡ ok (find_blocker issues branch)
  unfolding search_merge_blockers
  search-found = rw (listed, search_merge_blockers) refl

  -- One of the two actions, from what the search finds.
  create_merge_blocker-IsJustified :
      All (IsJustified issues branch false) (create_merge_blocker client branch).0
  unfolding create_merge_blocker
  create_merge_blocker-IsJustified = elim (find_blocker-cases issues branch) [
    | inl (q, none_mentions) ↦
        rw (search-found, q, create_merge_blocker)
          ((refl, blocker_title-Mentions branch, none_mentions), tt)
    | inr (i, q, m, t) ↦ rw (search-found, q, create_merge_blocker) tt
  ]

  close_merge_blocker-IsJustified :
      All (IsJustified issues branch true) (close_merge_blocker client branch).0
  unfolding close_merge_blocker
  close_merge_blocker-IsJustified = elim (find_blocker-cases issues branch) [
    | inl (q, none_mentions) ↦ rw (search-found, q, close_merge_blocker) tt
    | inr (i, q, m, t) ↦ rw (search-found, q, close_merge_blocker) ((refl, i, m, refl, refl, t), tt)
  ]

  create_merge_blocker-IsBlocked : IsBlocked issues branch (create_merge_blocker client branch).0
  unfolding create_merge_blocker
  create_merge_blocker-IsBlocked = elim (find_blocker-cases issues branch) [
    | inl (q, none_mentions) ↦
        rw (search-found, q, create_merge_blocker) (blocker_title-Mentions branch)
    | inr (i, q, m, t) ↦ rw (search-found, q, create_merge_blocker) (i, m, t)
  ]

without_value_calls :
    (r : List IssueCall × Result {0, 0} BlockerError Issue) → (without_value r).0 ≡ r.0
without_value_calls (calls, panic) = refl
without_value_calls (calls, err e) = refl
without_value_calls (calls, ok issue) = refl

-- If the open issues can be listed, the command closes only an issue that mentions the branch, and creates one, whose
-- title mentions the branch, only if no open issue does.
pub do_merge_blocker-IsJustified :
    (client : IssuesService) (is_deletion : Bool) (branch : Text) (issues : List Issue)
    → client.list_by_repo ≡ some issues
    → All (IsJustified issues branch is_deletion) (do_merge_blocker client is_deletion branch).0
unfolding do_merge_blocker
do_merge_blocker-IsJustified client true branch issues e =
    subst (All (IsJustified issues branch true))
      (sym (without_value_calls (close_merge_blocker client branch)))
      (close_merge_blocker-IsJustified client branch issues e)
do_merge_blocker-IsJustified client false branch issues e =
    subst (All (IsJustified issues branch false))
      (sym (without_value_calls (create_merge_blocker client branch)))
      (create_merge_blocker-IsJustified client branch issues e)

-- If the open issues can be listed, a run that is to block the branch leaves an issue that a later search finds or has
-- asked for one: one
-- was open, or the one it creates has a title that mentions the branch.
pub do_merge_blocker-IsBlocked :
    (client : IssuesService) (branch : Text) (issues : List Issue)
    → client.list_by_repo ≡ some issues
    → IsBlocked issues branch (do_merge_blocker client false branch).0
unfolding do_merge_blocker
do_merge_blocker-IsBlocked client branch issues e =
    subst (IsBlocked issues branch) (sym (without_value_calls (create_merge_blocker client branch)))
      (create_merge_blocker-IsBlocked client branch issues e)
