-- ===== src/Git/Plans.antt =====
-- The plans of the shared steps in Git.
use delorean.Base.{
  List, [], ◌∷◌, Bool, true, false, ltb, codes, ℕ, subst, sym, Option, none, some, Text, ◌≡◌, refl,
  Option-cases, inl, inr, if◌then◌else◌,
}
use delorean.Base.Traces.{◌>>=◌, ◌>>◌, done}
use delorean.Base.Plans.{
  Plan, nothing, ended, one, ◌⊳◌, planned, Rules, Follows, Follows-act, Follows-act_alone,
  Follows-planned, Follows-check, Follows-done,
}
use delorean.MergeRelease.{
  answered, PullRequest, PullRequestsService, find_pr_for_release, the_only,
}
use delorean.Git.{
  get_status, get_worktree, Command, CommandError, Action, temp_dir, plain_clone, fetch_all,
  create_pull_request, World, clone_to_tmp_dir, create_pr_if_not_exists, existing_pr,
  is_pr_not_found_error, reading, perform,
}

-- No failure is tolerated.
abbrev pub strict : World → Rules Action
strict w = record { allows = w.allows; tolerates = λ _. false }

unfoldable pub clone_plan : Text → Text → Text → Plan Action
clone_plan prefix url reference =
    one (temp_dir prefix) ⊳ one (plain_clone url reference) ⊳ one fetch_all

-- A plan for a repository whose tree can be read.
abbrev pub on_tree : World → Plan Action → Plan Action
on_tree w plan = if w.worktree then plan else ended

abbrev pub if_readable : Option PullRequest → Plan Action
if_readable none = ended
if_readable (some pr) = nothing

-- A pull request is opened if none is open from this head to this base; if there is one, it must be readable.
abbrev pub opened_by : Plan Action → PullRequestsService → Option (List ℕ) → Plan Action
opened_by opening service (some []) = opening
opened_by opening service (some (n ∷ [])) = if_readable (service.get_pull_request n)
opened_by opening service _ = ended

abbrev pub pull_request_plan : World → Text → Text → Text → Text → Text → Plan Action
pull_request_plan w owner repo title head base =
    opened_by (one (create_pull_request owner repo title head base)) w.pull_requests
      (w.pull_requests.list head base)

-- Whether the tree has changes decides; the plan ends if that cannot be read.
abbrev pub on_status : Option ℕ → (Bool → Plan Action) → Plan Action
on_status none plan = ended
on_status (some n) plan = plan (ltb 0 n)

module _ (r : Rules Action) where
  at_status :
      {B : Type 0} (status : Option ℕ) (plan : Bool → Plan Action) (next : ℕ → Command B)
      → ((n : ℕ) → Follows r (plan (ltb 0 n)) (next n))
      → Follows r (on_status status plan) (([], reading (codes "status") status) >>= next)
  unfolding planned
  at_status none plan next f =
      Follows-planned r (reading (codes "status") none) (λ n. plan (ltb 0 n)) next f
  at_status (some n) plan next f =
      Follows-planned r (reading (codes "status") (some n)) (λ n. plan (ltb 0 n)) next f

  pub Follows-status :
      {B : Type 0} (w : World) (plan : Bool → Plan Action) (next : ℕ → Command B)
      → ((n : ℕ) → Follows r (plan (ltb 0 n)) (next n))
      → Follows r (on_status w.status plan) (get_status w >>= next)
  Follows-status w plan next f = at_status w.status plan next f

  at_tree :
      {B : Type 0} (there : Bool) (plan : Plan Action) (next : Command B)
      → Follows r plan next
      → Follows r
          (if there then plan else ended)
          (([], reading (codes "worktree") (if there then some tt else none)) >> next)
  unfolding planned
  at_tree true plan next f = Follows-check r (reading (codes "worktree") (some tt)) plan next f
  at_tree false plan next f = Follows-check r (reading (codes "worktree") none) plan next f

  pub Follows-tree :
      {B : Type 0} (w : World) (plan : Plan Action) (next : Command B)
      → Follows r plan next
      → Follows r (on_tree w plan) (get_worktree w >> next)
  Follows-tree w plan next f = at_tree w.worktree plan next f

module _ (w : World) (tolerates : Action → Bool) where
  -- The failures that a command tolerates.
  abbrev pub tolerant : Rules Action
  tolerant = record { allows = w.allows; tolerates = tolerates }

  pub clone_to_tmp_dir-Follows :
      (prefix url reference : Text)
      → tolerates (temp_dir prefix) ≡ false
      → tolerates (plain_clone url reference) ≡ false
      → tolerates fetch_all ≡ false
      → Follows tolerant (clone_plan prefix url reference) (clone_to_tmp_dir w prefix url reference)
  unfolding clone_to_tmp_dir clone_plan
  clone_to_tmp_dir-Follows prefix url reference t u v =
      Follows-act tolerant _ _ _ _ t
        (Follows-act tolerant _ _ _ _ u (Follows-act_alone tolerant _ _ v))

  choose : Action → Option PullRequest → Plan Action
  choose opening none = one opening
  choose opening (some pr) = nothing

  open_or_keep :
      (opening : Action) (pr : Option PullRequest)
      → tolerates opening ≡ false
      → Follows tolerant
          (choose opening pr)
          (elim pr [ some _ ↦ done tt | none ↦ perform w opening ])
  unfolding choose
  open_or_keep opening none t = Follows-act_alone tolerant _ _ t
  open_or_keep opening (some pr) t = Follows-done tolerant CommandError tt

  -- What the lookup finds agrees with the plan.
  existing_pr-plan :
      (opening : Action) (head base : Text)
      → opened_by (one opening) w.pull_requests (w.pull_requests.list head base)
        ≡ planned (existing_pr (find_pr_for_release w.pull_requests head base)) (choose opening)
  unfolding find_pr_for_release the_only answered is_pr_not_found_error planned choose
  existing_pr-plan opening head base = elim (Option-cases (w.pull_requests.list head base)) [
    | inl e ↦ rw (e, find_pr_for_release) refl
    | inr ([], e) ↦ rw (e, find_pr_for_release) refl
    | inr (n ∷ [], e) ↦ elim (Option-cases (w.pull_requests.get_pull_request n)) [
      | inl q ↦ rw (e, q, find_pr_for_release, the_only) refl
      | inr (p, q) ↦ rw (e, q, find_pr_for_release, the_only) refl
    ]
    | inr (n ∷ m ∷ ns, e) ↦ rw (e, find_pr_for_release) refl
  ]

  pub create_pr_if_not_exists-Follows :
      (owner repo title head base : Text)
      → tolerates (create_pull_request owner repo title head base) ≡ false
      → Follows tolerant
          (pull_request_plan w owner repo title head base)
          (create_pr_if_not_exists w owner repo title head base)
  unfolding create_pr_if_not_exists
  create_pr_if_not_exists-Follows owner repo title head base t =
      let opening = create_pull_request owner repo title head base in
      subst (λ plan. Follows tolerant plan (create_pr_if_not_exists w owner repo title head base))
        (sym (existing_pr-plan opening head base))
        (Follows-planned tolerant (existing_pr (find_pr_for_release w.pull_requests head base))
          (choose opening) _ (λ pr. open_or_keep opening pr t))
