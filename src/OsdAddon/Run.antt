-- ===== src/OsdAddon/Run.antt =====
-- cmd/osdAddonRelease.go, run: the release's branch, its files, the push to the fork and the merge request.
use delorean.Base.{
  ℕ, [], ◌++◌, Bool, true, false, ◌&&◌, ◌||◌, not, ltb, Option, none, some, Text, codes, text_eq,
  if◌then◌else◌,
}
use delorean.Base.Traces.{◌>>=◌, ◌>>◌, done, stop}
use delorean.Version.{to_string, is_pre_release}
use delorean.Git.{
  checkout, add, commit, push, get_worktree, get_status, branch_reference, same_branch,
}
use delorean.OsdAddon.{
  ReleaseChannel, OsdAddonReleaseCmd, MergeRequest, create_merge_request, unread, is_prerelease,
  not_on_main, not_clean, other_channel, no_channel, AddonWorld, managed_tenants_main_branch,
}
use delorean.OsdAddon.Command.{
  AddonCommand, in_git, found, perform_git, perform_addon, copy_the_olm_bundles,
  copy_addon_image_set, update_the_csv_manifest,
}

module _ (c : OsdAddonReleaseCmd) (channel : ReleaseChannel) where
  abbrev pub managed_tenants_branch : Text
  managed_tenants_branch =
      c.addon_config.name ++ (codes "-" ++ (channel.name ++ (codes "-v" ++ to_string c.version)))

  abbrev pub branch_ref : Text
  branch_ref = branch_reference managed_tenants_branch

  abbrev pub commit_message : Text
  commit_message =
      codes "update "
      ++ (c.addon_config.name
          ++ (codes " " ++ (channel.name ++ (codes " to " ++ to_string c.version))))

  abbrev pub merge_request_title : Text
  merge_request_title =
      codes "Update "
      ++ (c.addon_config.name
          ++ (codes " " ++ (channel.name ++ (codes " to " ++ to_string c.version))))

  abbrev pub merge_request : ℕ → MergeRequest
  merge_request target_project_id = record {
    title = merge_request_title;
    description = c.flags.merge_request_description;
    source_branch = managed_tenants_branch;
    target_branch = managed_tenants_main_branch;
    target_project_id = target_project_id;
    remove_source_branch = true;
  }

abbrev pub is_bundle_channel : Text → Bool
is_bundle_channel channel = text_eq channel (codes "stage") || text_eq channel (codes "edge")

module _ (w : AddonWorld) where
  -- By the channel of the flags: the bundle and its CSV, or the image set of the stage.
  unfoldable pub stage_files : OsdAddonReleaseCmd → ReleaseChannel → AddonCommand (Unit {0})
  stage_files c channel = do
    manifests_directory ← copy_the_olm_bundles w c channel
    perform_git w (add (manifests_directory ++ codes "/*"))
    update_the_csv_manifest w c channel
    done tt

  unfoldable pub stable_files : OsdAddonReleaseCmd → ReleaseChannel → AddonCommand (Unit {0})
  stable_files c channel = do
    addon_file ← copy_addon_image_set w c channel
    perform_git w (add addon_file)

  unfoldable pub release_files : OsdAddonReleaseCmd → ReleaseChannel → AddonCommand (Unit {0})
  unfolding stage_files stable_files
  release_files c channel =
      if is_bundle_channel c.flags.channel
      then stage_files c channel
      else if text_eq c.flags.channel (codes "stable")
      then stable_files c channel
      else stop (other_channel c.flags.channel)

  -- The push, the merge request, and the return to main.
  unfoldable pub propose : OsdAddonReleaseCmd → ReleaseChannel → AddonCommand (Unit {0})
  propose c channel = do
    perform_git w (push (codes "fork") (same_branch (branch_ref c channel)))
    target_project ←
        found (unread c.flags.managed_tenants_origin) (w.get_project c.flags.managed_tenants_origin)
    perform_addon w
        (create_merge_request c.flags.managed_tenants_fork (merge_request c channel target_project))
    perform_git w (checkout (branch_reference managed_tenants_main_branch) false false)

  -- On main: the new branch, its files and the commit, which must leave nothing behind.
  unfoldable pub release : OsdAddonReleaseCmd → ReleaseChannel → AddonCommand (Unit {0})
  unfolding release_files propose
  release c channel = do
    in_git (get_worktree w.git_world)
    perform_git w (checkout (branch_ref c channel) true false)
    release_files c channel
    perform_git w (commit (commit_message c channel))
    status ← in_git (get_status w.git_world)
    if ltb 0 status then stop not_clean else propose c channel

  -- The checks on the version and on where the repository stands.
  unfoldable pub checked : OsdAddonReleaseCmd → ReleaseChannel → AddonCommand (Unit {0})
  unfolding release
  checked c channel =
      if is_pre_release c.version && not channel.allow_pre_release
      then stop (is_prerelease (to_string c.version))
      else (do
        head ← found (unread (codes "head")) w.git_world.head
        if text_eq head (branch_reference managed_tenants_main_branch)
            then release c channel
            else stop (not_on_main head))

  unfoldable pub run_on : OsdAddonReleaseCmd → Option ReleaseChannel → AddonCommand (Unit {0})
  unfolding checked
  run_on c none = stop (no_channel [])
  run_on c (some channel) = checked c channel

  -- `run`
  unfoldable pub run : OsdAddonReleaseCmd → AddonCommand (Unit {0})
  unfolding run_on
  run c = run_on c c.current_channel
