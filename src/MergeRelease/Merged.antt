-- ===== src/MergeRelease/Merged.antt =====
-- Which pull request cmd/mergeRelease.go merges.
use delorean.Base.{
  ℕ, List, [], ◌∷◌, ◌++◌, Bool, true, false, Option, none, some, Text, codes, text_eq, Result-cases,
  ok, ◌≡◌, refl, ap, ◌∙◌, ◌⊎◌, inl, inr, All, Bool-cases, Option-cases,
}
use delorean.Version.{RhmiVersion, new_version, prepare_release_branch_name}
use delorean.MergeRelease.{
  merge_answer, MergeReleaseOptions, PullRequest, PullRequestsService, release_head, the_only,
  answered, find_pr_for_release, merge_pr, select_pr, do_merge_release,
}

-- The pull request is the only open one from the branch of the release to the base branch.
pub record IsReleasePr (client : PullRequestsService) (opts : MergeReleaseOptions)
    (pr : PullRequest) : Type 0 where
  pub version : RhmiVersion
  pub listed_number : ℕ
  pub parsed : new_version opts.release_version opts.olm_type ≡ ok version
  pub only :
      client.list (release_head opts.owner (prepare_release_branch_name version)) opts.base_branch
      ≡ some (listed_number ∷ [])
  pub fetched : client.get_pull_request listed_number ≡ some pr

-- A call of `Merge` for that pull request, which is open and can be merged.
abbrev pub IsAllowed : PullRequestsService → MergeReleaseOptions → ℕ × Text → Type 0
IsAllowed client opts (number, msg) =
    (pr : PullRequest) × IsReleasePr client opts pr
    × (pr.number ≡ number)
    × (pr.merged ≡ false)
    × (text_eq pr.state (codes "closed") ≡ false)
    × (pr.mergeable ≡ some true)

the_only-ok :
    (client : PullRequestsService) (prs : List ℕ) (pr : PullRequest)
    → the_only client prs ≡ ok pr
    → (n : ℕ) × (prs ≡ n ∷ []) × (client.get_pull_request n ≡ some pr)
unfolding the_only answered
the_only-ok client [] pr h = cc h
the_only-ok client (n ∷ []) pr h = elim (Option-cases (client.get_pull_request n)) [
  | inl e ↦ cc (rw (e, the_only) at h)
  | inr (p, e) ↦ (n, refl, e ∙ ap some (cc (rw (e, the_only) at h)))
]
the_only-ok client (n ∷ m ∷ prs) pr h = cc h

find_pr-ok :
    (client : PullRequestsService) (head base : Text) (pr : PullRequest)
    → find_pr_for_release client head base ≡ ok pr
    → (n : ℕ) × (client.list head base ≡ some (n ∷ [])) × (client.get_pull_request n ≡ some pr)
unfolding find_pr_for_release
find_pr-ok client head base pr h = elim (Option-cases (client.list head base)) [
  | inl e ↦ cc (rw (e, find_pr_for_release) at h)
  | inr (prs, e) ↦
      let (n, only, fetched) = the_only-ok client prs pr (rw (e, find_pr_for_release) at h) in
      (n, e ∙ ap some only, fetched)
]

select_pr-IsReleasePr :
    (client : PullRequestsService) (opts : MergeReleaseOptions) (pr : PullRequest)
    → select_pr client opts ≡ ok pr
    → IsReleasePr client opts pr
unfolding select_pr
select_pr-IsReleasePr client opts pr h =
    elim (Result-cases (new_version opts.release_version opts.olm_type)) [
      | inl e ↦ cc (rw (e, select_pr) at h)
      | inr (inr (x, e)) ↦ cc (rw (e, select_pr) at h)
      | inr (inl (rv, e)) ↦
          let (n, only, fetched) =
            find_pr-ok client (release_head opts.owner (prepare_release_branch_name rv))
              opts.base_branch pr (rw (e, select_pr) at h) in
          record { version = rv; listed_number = n; parsed = e; only = only; fetched = fetched }
    ]

merge_pr-All :
    (client : PullRequestsService) (P : ℕ × Text → Type 0) (pr : PullRequest) (msg : Text)
    → (pr.merged ≡ false
        → text_eq pr.state (codes "closed") ≡ false
        → pr.mergeable ≡ some true
        → P (pr.number, msg))
    → All P (merge_pr client pr msg).0
unfolding merge_pr
merge_pr-All client P pr msg h = elim (Bool-cases pr.merged) [
  | inl e ↦ rw (e, merge_pr) tt
  | inr e ↦ elim (Bool-cases (text_eq pr.state (codes "closed"))) [
    | inl q ↦ rw (e, q, merge_pr) tt
    | inr q ↦ elim (Option-cases pr.mergeable) [
      | inl k ↦ rw (e, q, k, merge_pr) tt
      | inr (false, k) ↦ rw (e, q, k, merge_pr) tt
      | inr (true, k) ↦ rw (e, q, k, merge_pr) (h e q k, tt)
    ]
  ]
]

-- The pull request had been merged before, or GitHub has just merged it.
abbrev pub IsMerged : PullRequestsService → PullRequest → List (ℕ × Text) → Text → Type 0
IsMerged client pr calls sha =
    ((pr.merged ≡ true) × (calls ≡ []) × (pr.merge_commit_sha ≡ sha))
    ⊎ ((msg : Text) × (calls ≡ (pr.number, msg) ∷ [])
        × (client.merge pr.number msg ≡ some (true, sha)))

merge_answer-ok :
    (o : Option (Bool × Text)) (sha : Text) → merge_answer o ≡ ok sha → o ≡ some (true, sha)
merge_answer-ok none sha h = cc h
merge_answer-ok (some (true, x)) sha h = ap (λ y. some (true, y)) (cc h)
merge_answer-ok (some (false, x)) sha h = cc h

merge_pr-IsMerged :
    (client : PullRequestsService) (pr : PullRequest) (msg sha : Text)
    → (merge_pr client pr msg).1 ≡ ok sha
    → IsMerged client pr (merge_pr client pr msg).0 sha
unfolding merge_pr
merge_pr-IsMerged client pr msg sha h = elim (Bool-cases pr.merged) [
  | inl e ↦ inl (e, rw (e, merge_pr) refl, cc (rw (e, merge_pr) at h))
  | inr e ↦ elim (Bool-cases (text_eq pr.state (codes "closed"))) [
    | inl q ↦ cc (rw (e, q, merge_pr) at h)
    | inr q ↦ elim (Option-cases pr.mergeable) [
      | inl k ↦ cc (rw (e, q, k, merge_pr) at h)
      | inr (false, k) ↦ cc (rw (e, q, k, merge_pr) at h)
      | inr (true, k) ↦
          inr
            (msg, rw (e, q, k, merge_pr) refl, merge_answer-ok _ sha (rw (e, q, k, merge_pr) at h))
    ]
  ]
]

-- Whatever GitHub answers, the command merges nothing but the only open pull request from the release's branch to the
-- base branch, and this only if it is not merged, not closed, and mergeable.
pub do_merge_release-IsAllowed :
    (client : PullRequestsService) (opts : MergeReleaseOptions)
    → All (IsAllowed client opts) (do_merge_release client opts).0
unfolding do_merge_release
do_merge_release-IsAllowed client opts = elim (Result-cases (select_pr client opts)) [
  | inl e ↦ rw (e, do_merge_release) tt
  | inr (inr (x, e)) ↦ rw (e, do_merge_release) tt
  | inr (inl (pr, e)) ↦
      rw (e, do_merge_release)
        (merge_pr-All client (IsAllowed client opts) pr _ (λ unmerged not_closed able.
          (pr, select_pr-IsReleasePr client opts pr e, refl, unmerged, not_closed, able)))
]

-- If the command succeeds, the release's pull request had been merged before, and nothing is called, or GitHub has
-- merged it in the one call.
pub do_merge_release-IsMerged :
    (client : PullRequestsService) (opts : MergeReleaseOptions) (sha : Text)
    → (do_merge_release client opts).1 ≡ ok sha
    → (pr : PullRequest) × IsReleasePr client opts pr
      × IsMerged client pr (do_merge_release client opts).0 sha
unfolding do_merge_release
do_merge_release-IsMerged client opts sha h = elim (Result-cases (select_pr client opts)) [
  | inl e ↦ cc (rw (e, do_merge_release) at h)
  | inr (inr (x, e)) ↦ cc (rw (e, do_merge_release) at h)
  | inr (inl (pr, e)) ↦
      let merged =
        merge_pr-IsMerged client pr (codes "merge for release " ++ opts.release_version) sha
          (rw (e, do_merge_release) at h) in
      (pr, select_pr-IsReleasePr client opts pr e, rw (e, do_merge_release) merged)
]
