-- ===== src/OsdAddon/Release.antt =====
-- What cmd/osdAddonRelease.go does in a release, as a plan.
use delorean.Base.{
  ◌++◌, true, false, ◌&&◌, not, ltb, Option, none, some, codes, text_eq, if◌then◌else◌, refl,
}
use delorean.Base.Traces.{◌>>◌}
use delorean.Base.Plans.{
  Plan, nothing, ended, one, ◌⊳◌, planned, Follows, Follows-act, Follows-then, Follows-bind,
  Follows-planned, Follows-if, Follows-done, Follows-stop,
}
use delorean.Version.{is_pre_release}
use delorean.Git.{
  checkout, add, commit, push, branch_reference, same_branch, get_status, get_worktree,
}
use delorean.OsdAddon.{
  ReleaseChannel, OsdAddonReleaseCmd, AddonAction, git, create_merge_request, unread, AddonWorld,
  managed_tenants_main_branch, get_dest_addon_image_set_path,
}
use delorean.OsdAddon.Command.{in_git, git_result, reading, relative_destination}
use delorean.OsdAddon.Run.{
  branch_ref, commit_message, merge_request, is_bundle_channel, stage_files, stable_files,
  release_files, propose, release, checked, run_on, run,
}
use delorean.OsdAddon.Plan.{
  addon_rules, bundle_plan, csv_plan, image_set_plan, perform_git-Follows,
  copy_the_olm_bundles-Follows, update_the_csv_manifest-Follows, copy_addon_image_set-Follows,
  bundle_value, image_set_value,
}

module _ (w : AddonWorld) (c : OsdAddonReleaseCmd) (channel : ReleaseChannel) where
  unfoldable pub stage_plan : Plan AddonAction
  stage_plan =
      bundle_plan w c channel
      ⊳ one (git (add (relative_destination c channel ++ codes "/*")))
      ⊳ csv_plan w c channel
      ⊳ nothing

  unfoldable pub stable_plan : Plan AddonAction
  stable_plan =
      image_set_plan w c channel ⊳ one (git (add (get_dest_addon_image_set_path c channel)))

  -- The release's files, by the channel of the flags.
  unfoldable pub files_plan : Plan AddonAction
  files_plan =
      if is_bundle_channel c.flags.channel
      then stage_plan
      else if text_eq c.flags.channel (codes "stable")
      then stable_plan
      else ended

  -- The push and the merge request, if the origin is known, and the way back to main.
  unfoldable pub proposal : Plan AddonAction
  proposal =
      one (git (push (codes "fork") (same_branch (branch_ref c channel))))
      ⊳ planned
          (reading (unread c.flags.managed_tenants_origin)
            (w.get_project c.flags.managed_tenants_origin))
          (λ target_project.
            one (
              create_merge_request c.flags.managed_tenants_fork
                (merge_request c channel target_project))
            ⊳ one (git (checkout (branch_reference managed_tenants_main_branch) false false)))

  -- The proposal follows if the commit leaves nothing behind.
  unfoldable pub clean_plan : Plan AddonAction
  clean_plan =
      planned (git_result (get_status w.git_world).1) (λ n. if ltb 0 n then ended else proposal)

  -- The branch with the release's files, committed.
  unfoldable pub release_plan : Plan AddonAction
  release_plan = planned (git_result (get_worktree w.git_world).1) (λ _.
      one (git (checkout (branch_ref c channel) true false))
      ⊳ files_plan
      ⊳ one (git (commit (commit_message c channel)))
      ⊳ clean_plan)

  -- The checks come before all actions.
  unfoldable pub checked_plan : Plan AddonAction
  checked_plan =
      if is_pre_release c.version && not channel.allow_pre_release
      then ended
      else planned (reading (unread (codes "head")) w.git_world.head) (λ head.
        if text_eq head (branch_reference managed_tenants_main_branch) then release_plan else ended)

  stage_files-Follows : Follows (addon_rules w) stage_plan (stage_files w c channel)
  unfolding stage_files stage_plan ◌>>◌
  stage_files-Follows = Follows-bind _ _ _ _ _ (copy_the_olm_bundles-Follows w c channel) (λ d e.
      rw (bundle_value w c channel d e) (
        Follows-then _ _ _ _ _ (perform_git-Follows w c channel _) (
          Follows-then _ _ _ _ _ (update_the_csv_manifest-Follows w c channel)
            (Follows-done _ _ tt))))

  stable_files-Follows : Follows (addon_rules w) stable_plan (stable_files w c channel)
  unfolding stable_files stable_plan
  stable_files-Follows =
      Follows-bind _ _ _ _ _ (copy_addon_image_set-Follows w c channel)
        (λ d e. rw (image_set_value w c channel d e) (perform_git-Follows w c channel _))

  release_files-Follows : Follows (addon_rules w) files_plan (release_files w c channel)
  unfolding release_files files_plan
  release_files-Follows =
      Follows-if _ (is_bundle_channel c.flags.channel) _ _ _ _ stage_files-Follows (
        Follows-if _ (text_eq c.flags.channel (codes "stable")) _ _ _ _ stable_files-Follows
          (Follows-stop _ _ _))

  propose-Follows : Follows (addon_rules w) proposal (propose w c channel)
  unfolding propose proposal
  propose-Follows = Follows-then _ _ _ _ _ (perform_git-Follows w c channel _) (
      Follows-planned _ _ _ _
        (λ target_project. Follows-act _ _ _ _ _ refl (perform_git-Follows w c channel _)))

  release-Follows : Follows (addon_rules w) release_plan (release w c channel)
  unfolding release release_plan clean_plan in_git ◌>>◌
  release-Follows = Follows-planned _ (git_result (get_worktree w.git_world).1) _ _ (λ _.
      Follows-then _ _ _ _ _ (perform_git-Follows w c channel _) (
        Follows-then _ _ _ _ _ release_files-Follows (
          Follows-then _ _ _ _ _ (perform_git-Follows w c channel _) (
            Follows-planned _ (git_result (get_status w.git_world).1) _ _
              (λ n. Follows-if _ (ltb 0 n) _ _ _ _ (Follows-stop _ _ _) propose-Follows)))))

  pub checked-Follows : Follows (addon_rules w) checked_plan (checked w c channel)
  unfolding checked checked_plan
  checked-Follows =
      Follows-if _ (is_pre_release c.version && not channel.allow_pre_release) _ _ _ _
        (Follows-stop _ _ _)
        (Follows-planned _ _ _ _ (λ head.
          Follows-if _ (text_eq head (branch_reference managed_tenants_main_branch)) _ _ _ _
            release-Follows (Follows-stop _ _ _)))

-- Nothing is done without a channel.
abbrev pub plan_on : AddonWorld → OsdAddonReleaseCmd → Option ReleaseChannel → Plan AddonAction
plan_on w c none = ended
plan_on w c (some channel) = checked_plan w c channel

abbrev pub addon_plan : AddonWorld → OsdAddonReleaseCmd → Plan AddonAction
addon_plan w c = plan_on w c c.current_channel

run_on-Follows :
    (w : AddonWorld) (c : OsdAddonReleaseCmd) (o : Option ReleaseChannel)
    → Follows (addon_rules w) (plan_on w c o) (run_on w c o)
unfolding run_on
run_on-Follows w c none = Follows-stop _ _ _
run_on-Follows w c (some channel) = checked-Follows w c channel

-- Whatever succeeds and is read, the release goes by its plan: after the checks the branch, the files, the commit, the
-- push and the merge request. It succeeds if and only if the checks pass, all can be read, the commit leaves the tree
-- clean and each action succeeds; otherwise it stops: with an error behind the first action that fails, or where
-- a check fails or something cannot be read or updated.
pub addon_run-Follows :
    (w : AddonWorld) (c : OsdAddonReleaseCmd) → Follows (addon_rules w) (addon_plan w c) (run w c)
unfolding run
addon_run-Follows w c = run_on-Follows w c c.current_channel
