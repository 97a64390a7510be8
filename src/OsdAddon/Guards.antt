-- ===== src/OsdAddon/Guards.antt =====
-- Under which conditions cmd/osdAddonRelease.go pushes and opens a merge request.
use delorean.Base.{
  ℕ, List, [], ◌∷◌, ◌++◌, true, false, ◌&&◌, not, ltb, Option, none, some, codes, text_eq,
  text_eq_iff, ok, ◌≡◌, refl, ap, sym, subst, ◌∙◌, Throughout, arith,
}
use delorean.Base.History.{
  AfterAll, Follows-Throughout, Throughout-one, Throughout-nothing, Throughout-ended,
  Throughout-sequence, Throughout-planned, Throughout-if,
}
use delorean.Base.Plans.{one}
use delorean.Version.{is_pre_release}
use delorean.Git.{reading as git_reading, checkout, commit, push, branch_reference, same_branch}
use delorean.OsdAddon.{
  ReleaseChannel, OsdAddonReleaseCmd, AddonAction, AddonError, git, create_merge_request,
  AddonWorld, managed_tenants_main_branch, Presence, present, absent, unknown,
}
use delorean.OsdAddon.Command.{git_result, reading, tests_directory}
use delorean.OsdAddon.Run.{
  branch_ref, commit_message, managed_tenants_branch, run, is_bundle_channel,
}
use delorean.OsdAddon.Plan.{addon_rules, tests_plan, bundle_plan, csv_plan, image_set_plan}
use delorean.OsdAddon.Release.{
  stage_plan, stable_plan, files_plan, proposal, clean_plan, release_plan, checked_plan,
  addon_run-Follows, addon_plan, plan_on,
}

-- What is done before the push: the branch, all of the release's files, which can be read and updated, and the commit.
abbrev pub prepared : AddonWorld → OsdAddonReleaseCmd → ReleaseChannel → List AddonAction
prepared w c channel =
    git (checkout (branch_ref c channel) true false)
    ∷ ((files_plan w c channel).0 ++ git (commit (commit_message c channel)) ∷ [])

abbrev pub push_to_fork : OsdAddonReleaseCmd → ReleaseChannel → AddonAction
push_to_fork c channel = git (push (codes "fork") (same_branch (branch_ref c channel)))

-- The channel takes the version, the repository stands on main, nothing of the release's files is missing, and the
-- commit has left no change behind.
abbrev pub IsReleasable : AddonWorld → OsdAddonReleaseCmd → ReleaseChannel → Type 0
IsReleasable w c channel =
    (is_pre_release c.version && not channel.allow_pre_release ≡ false)
    × (w.git_world.head ≡ some (branch_reference managed_tenants_main_branch))
    × ((files_plan w c channel).1 ≡ true)
    × (w.git_world.status ≡ some 0)

-- A push goes to the fork, after the release has been prepared; a merge request from the release's branch on the fork to
-- main of the origin, after the push; both only if the release is possible.
abbrev pub IsGuarded :
    AddonWorld → OsdAddonReleaseCmd → ReleaseChannel → List AddonAction → AddonAction → Type 0
IsGuarded w c channel before (git (push remote specs)) =
    (remote ≡ codes "fork")
    × (specs ≡ same_branch (branch_ref c channel))
    × (before ≡ prepared w c channel)
    × IsReleasable w c channel
IsGuarded w c channel before (create_merge_request project mr) =
    (project ≡ c.flags.managed_tenants_fork)
    × (mr.source_branch ≡ managed_tenants_branch c channel)
    × (mr.target_branch ≡ managed_tenants_main_branch)
    × (w.get_project c.flags.managed_tenants_origin ≡ some mr.target_project_id)
    × (before ≡ prepared w c channel ++ push_to_fork c channel ∷ [])
    × IsReleasable w c channel
IsGuarded w c channel before _ = Unit

reading-ok : {A : Type 0} (e : AddonError) (o : Option A) (a : A) → reading e o ≡ ok a → o ≡ some a
reading-ok e none a h = cc h
reading-ok e (some b) a h = cc h

status-ok : (o : Option ℕ) (n : ℕ) → git_result (git_reading (codes "status") o) ≡ ok n → o ≡ some n
status-ok none n h = cc h
status-ok (some m) n h = cc h

zero_of : (n : ℕ) → ltb 0 n ≡ false → n ≡ 0
zero_of n h = ground (arith, h)

module _ (w : AddonWorld) (c : OsdAddonReleaseCmd) (channel : ReleaseChannel) where
  abbrev Guarded : List AddonAction → AddonAction → Type 0
  Guarded = IsGuarded w c channel

  abbrev GuardedPlan : List AddonAction → List AddonAction → Type 0
  GuardedPlan = Throughout Guarded

  tests-IsGuarded :
      (before : List AddonAction) (removal : AddonAction) (p : Presence)
      → ((seen : List AddonAction) → Guarded seen removal)
      → GuardedPlan before (tests_plan removal p).0
  tests-IsGuarded before removal present h = Throughout-one Guarded before removal (h before)
  tests-IsGuarded before removal absent h = Throughout-nothing Guarded before
  tests-IsGuarded before removal unknown h = Throughout-ended Guarded before

  bundle-IsGuarded : (before : List AddonAction) → GuardedPlan before (bundle_plan w c channel).0
  unfolding bundle_plan
  bundle-IsGuarded before = Throughout-sequence _ _ _ _ (Throughout-one _ _ _ tt) (λ _.
      Throughout-sequence _ _ _ _ (Throughout-one _ _ _ tt) (λ _.
        Throughout-sequence _ _ _ _
          (tests-IsGuarded _ _ (w.stat (tests_directory c channel)) (λ _. tt))
          (λ _. Throughout-nothing _ _)))

  csv-IsGuarded : (before : List AddonAction) → GuardedPlan before (csv_plan w c channel).0
  unfolding csv_plan
  csv-IsGuarded before = Throughout-planned _ _ _ _ (λ csv _.
      Throughout-planned _ _ _ _ (λ annotations _. Throughout-planned _ _ _ _ (λ new_csv _.
        Throughout-sequence _ _ _ _ (Throughout-one _ _ _ tt) (λ _.
          Throughout-sequence _ _ _ _ (Throughout-one _ _ _ tt) (λ _. Throughout-nothing _ _)))))

  image_set-IsGuarded :
      (before : List AddonAction) → GuardedPlan before (image_set_plan w c channel).0
  unfolding image_set_plan
  image_set-IsGuarded before = Throughout-planned _ _ _ _ (λ image_set _.
      Throughout-sequence _ _ _ _ (Throughout-one _ _ _ tt) (λ _. Throughout-nothing _ _))

  files-IsGuarded : (before : List AddonAction) → GuardedPlan before (files_plan w c channel).0
  unfolding files_plan stage_plan stable_plan
  files-IsGuarded before =
      Throughout-if _ _ (is_bundle_channel c.flags.channel) _ _
        (λ _. Throughout-sequence _ _ _ _ (bundle-IsGuarded _) (λ _.
          Throughout-sequence _ _ _ _ (Throughout-one _ _ _ tt)
            (λ _. Throughout-sequence _ _ _ _ (csv-IsGuarded _) (λ _. Throughout-nothing _ _))))
        (λ _.
          Throughout-if _ _ (text_eq c.flags.channel (codes "stable")) _ _
            (λ _.
              Throughout-sequence _ _ _ _ (image_set-IsGuarded _) (λ _. Throughout-one _ _ _ tt))
            (λ _. Throughout-ended _ _))

  proposal-IsGuarded :
      IsReleasable w c channel → GuardedPlan (prepared w c channel) (proposal w c channel).0
  unfolding proposal one
  proposal-IsGuarded h =
      Throughout-sequence _ _ _ _ ((refl, refl, refl, h), tt)
        (λ _. Throughout-planned _ _ _ _ (λ target_project e.
          Throughout-sequence _ _ _ _
            ((refl, refl, refl, reading-ok _ _ target_project e, refl, h), tt) (λ _. (tt, tt))))

  clean-IsGuarded :
      is_pre_release c.version && not channel.allow_pre_release ≡ false
      → w.git_world.head ≡ some (branch_reference managed_tenants_main_branch)
      → (files_plan w c channel).1 ≡ true
      → GuardedPlan (prepared w c channel) (clean_plan w c channel).0
  unfolding clean_plan
  clean-IsGuarded p h f = Throughout-planned _ _ _ _ (λ n e.
      Throughout-if _ _ (ltb 0 n) _ _ (λ _. Throughout-ended _ _)
        (λ z.
          proposal-IsGuarded (p, h, f, status-ok w.git_world.status n e ∙ ap some (zero_of n z))))

  release-IsGuarded :
      is_pre_release c.version && not channel.allow_pre_release ≡ false
      → w.git_world.head ≡ some (branch_reference managed_tenants_main_branch)
      → GuardedPlan [] (release_plan w c channel).0
  unfolding release_plan one
  release-IsGuarded p h = Throughout-planned _ _ _ _ (λ _ _.
      Throughout-sequence _ _ _ _ (tt, tt)
        (λ _.
          Throughout-sequence _ _ _ _ (files-IsGuarded _)
            (λ complete. Throughout-sequence _ _ _ _ (tt, tt) (λ _. clean-IsGuarded p h complete))))

  checked-IsGuarded : GuardedPlan [] (checked_plan w c channel).0
  unfolding checked_plan
  checked-IsGuarded =
      Throughout-if _ _ (is_pre_release c.version && not channel.allow_pre_release) _ _
        (λ _. Throughout-ended _ _)
        (λ p. Throughout-planned _ _ _ _ (λ head e.
          Throughout-if _ _ (text_eq head (branch_reference managed_tenants_main_branch)) _ _
            (λ h. release-IsGuarded p (
              reading-ok _ w.git_world.head head e
              ∙ ap some ((text_eq_iff head (branch_reference managed_tenants_main_branch)).0 h)))
            (λ _. Throughout-ended _ _)))

-- Whatever succeeds and is read, if a channel is chosen, the command pushes to the fork or opens a merge request only if
-- the channel takes the version, the repository was on main and the commit has left the tree clean, and only after the
-- checkout of the new branch, all writes of the release's files and the commit, and, for the merge request, the push;
-- every action that comes before another has succeeded. The merge request asks for the release's branch of the fork
-- to be merged into main of the origin.
pub addon_run-IsGuarded :
    (w : AddonWorld) (c : OsdAddonReleaseCmd) (channel : ReleaseChannel)
    → c.current_channel ≡ some channel
    → Throughout (AfterAll (addon_rules w) (IsGuarded w c channel)) [] (run w c).0
addon_run-IsGuarded w c channel e =
    Follows-Throughout (addon_rules w) (IsGuarded w c channel) (addon_plan w c) (run w c)
      (addon_run-Follows w c)
      (subst (λ o. Throughout (IsGuarded w c channel) [] (plan_on w c o).0) (sym e)
        (checked-IsGuarded w c channel))
