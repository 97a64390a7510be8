-- ===== src/OsdAddon/Command.antt =====
-- cmd/osdAddonRelease.go: newOSDAddonReleaseCmd and run, with the steps that they call.
use delorean.Base.{
  List, [], ◌∷◌, ◌++◌, map, Option, none, some, Text, codes, text_eq, if◌then◌else◌, Result, ok,
  err, panic,
}
use delorean.Base.Traces.{Traced, ◌>>=◌, ◌>>◌, done, stop, act}
use delorean.Version.{RhmiVersion, VersionError, new_version, tag_name}
use delorean.Git.{
  Action, CommandError, PathParts, Command, create_remote, copy_directory, remove, clone_to_tmp_dir,
  branch_reference, tag_reference, perform,
}
use delorean.OsdAddon.{
  AddonImageSet, ReleaseChannel, OsdAddonReleaseFlags, OsdAddonReleaseCmd, AddonAction, git,
  write_image_set, write_csv, write_annotations, AddonError, git_error, invalid_version, not_done,
  unread, no_addon, no_channel, Presence, present, absent, unknown, AddonWorld, find_addon,
  find_channel, managed_tenants_main_branch, bundles_directory, stage_addon_image_set_directory,
  get_addon_image_set_name, get_dest_addon_image_set_path,
}
use delorean.OsdAddon.Manifest.{updated_csv, updated_annotations}

abbrev pub AddonCommand : Type 0 → Type 0
AddonCommand A = Traced AddonAction AddonError A

-- What the shared steps of Git do is part of what this command does.
abbrev pub git_result : {A : Type 0} → Result CommandError A → Result AddonError A
git_result (ok a) = ok a
git_result (err e) = err (git_error e)
git_result panic = panic

unfoldable pub in_git : {A : Type 0} → Command A → AddonCommand A
in_git (taken, r) = (map git taken, git_result r)

abbrev pub reading : {A : Type 0} → AddonError → Option A → Result AddonError A
reading e none = err e
reading e (some a) = ok a

abbrev pub found : {A : Type 0} → AddonError → Option A → AddonCommand A
found e answer = ([], reading e answer)

abbrev version_result : Result VersionError RhmiVersion → Result AddonError RhmiVersion
version_result (ok v) = ok v
version_result (err e) = err (invalid_version e)
version_result panic = panic

abbrev pub gitlab_url : Text
gitlab_url = codes "https://gitlab.cee.redhat.com/"

abbrev pub repo_prefix : Text → Text
repo_prefix channel =
    if text_eq channel (codes "stable")
    then codes "managed-tenants"
    else codes "managed-tenants-bundles"

abbrev pub bundle_prefix : Text
bundle_prefix = codes "addon-bundle-"

abbrev pub last_name : List Text → Option Text
last_name [] = none
last_name (name ∷ []) = some name
last_name (name ∷ next ∷ rest) = last_name (next ∷ rest)

abbrev pub last_in : PathParts → Option (List Text) → Option PathParts
last_in directory none = none
last_in directory (some names) = elim (last_name names) [
  | none ↦ none
  | some name ↦ some (directory ++ (name ∷ []))
]

module _ (c : OsdAddonReleaseCmd) (channel : ReleaseChannel) where
  abbrev pub relative_destination : Text
  relative_destination = bundles_directory channel ++ (codes "/" ++ (c.version.base ++ codes "/"))

  abbrev pub bundle_source : PathParts
  bundle_source = c.addon_dir ∷ (c.addon_config.bundle_path ++ (codes "/" ++ c.version.base)) ∷ []

  abbrev pub bundle_destination : PathParts
  bundle_destination = c.managed_tenants_dir ∷ relative_destination ∷ []

  abbrev pub tests_directory : PathParts
  tests_directory = bundle_destination ++ (codes "/tests" ∷ [])

  abbrev pub stage_directory : PathParts
  stage_directory = c.managed_tenants_dir ∷ stage_addon_image_set_directory channel ∷ []

  abbrev pub csv_path : Text
  csv_path =
      bundles_directory channel
      ++ (codes "/"
          ++ (c.version.base
              ++ (codes "/manifests/"
                  ++ (c.addon_config.name ++ codes ".clusterserviceversion.yaml"))))

  abbrev pub csv_file : PathParts
  csv_file = c.managed_tenants_dir ∷ csv_path ∷ []

  abbrev pub metadata_file : PathParts
  metadata_file =
      c.managed_tenants_dir
      ∷ (bundles_directory channel
          ++ (codes "/" ++ (c.version.base ++ codes "/metadata/annotations.yaml")))
      ∷ []

module _ (w : AddonWorld) where
  abbrev pub perform_git : Action → AddonCommand (Unit {0})
  perform_git a = in_git (perform w.git_world a)

  abbrev pub perform_addon : AddonAction → AddonCommand (Unit {0})
  perform_addon a = act a (w.allows a) (not_done a)

  -- `newOSDAddonReleaseCmd`
  unfoldable pub new_osd_addon_release_cmd :
      OsdAddonReleaseFlags → Text → AddonCommand OsdAddonReleaseCmd
  new_osd_addon_release_cmd flags olm_type = do
    version ← ([], version_result (new_version flags.version olm_type))
    addons ← found (unread flags.addons_config) (w.read_addons flags.addons_config)
    current_addon ← found (no_addon flags.addon_name) (find_addon addons flags.addon_name)
    current_channel ← found (no_channel flags.channel) (find_channel current_addon flags.channel)
    found (unread (codes "gitlab")) (if w.new_client then some tt else none)
    in_git (
        clone_to_tmp_dir w.git_world (repo_prefix flags.channel)
          (gitlab_url ++ flags.managed_tenants_origin)
          (branch_reference managed_tenants_main_branch))
    perform_git (create_remote (codes "fork") (gitlab_url ++ flags.managed_tenants_fork))
    in_git (
        clone_to_tmp_dir w.git_world bundle_prefix current_addon.bundle_repo
          (tag_reference (tag_name version)))
    done (record {
      flags = flags;
      version = version;
      managed_tenants_dir = w.git_world.tmp_dir (repo_prefix flags.channel);
      current_channel = some current_channel;
      addon_config = current_addon;
      addon_dir = w.git_world.tmp_dir bundle_prefix;
    })

  module _ (c : OsdAddonReleaseCmd) (channel : ReleaseChannel) where
    -- The tests of the bundle, if they are there.
    unfoldable pub remove_tests : Presence → AddonCommand (Unit {0})
    remove_tests present = perform_git (remove (tests_directory c channel))
    remove_tests absent = done tt
    remove_tests unknown = stop (unread (codes "tests"))

    -- `copyTheOLMBundles`
    unfoldable pub copy_the_olm_bundles : AddonCommand Text
    unfolding remove_tests
    copy_the_olm_bundles = do
      perform_git (copy_directory (bundle_source c channel) (bundle_destination c channel))
      perform_git (remove ((bundle_destination c channel) ++ (codes "/bundle.Dockerfile" ∷ [])))
      remove_tests (w.stat (tests_directory c channel))
      done (relative_destination c channel)

    image_set_at : Option PathParts → Result AddonError AddonImageSet
    image_set_at none = err (unread (codes "stage"))
    image_set_at (some path) = elim (w.read_image_set path) [
      | none ↦ err (unread (codes "image set"))
      | some image_set ↦ ok (record image_set { name = get_addon_image_set_name c channel })
    ]

    -- `getAddonImageSet`: the last image set of the stage, under the release's name.
    unfoldable pub get_addon_image_set : Result AddonError AddonImageSet
    unfolding image_set_at
    get_addon_image_set =
        image_set_at (last_in (stage_directory c channel) (w.read_dir (stage_directory c channel)))

    -- `copyAddonImageSet`
    unfoldable pub copy_addon_image_set : AddonCommand Text
    copy_addon_image_set = do
      image_set ← ([], get_addon_image_set)
      perform_addon (
          write_image_set (c.managed_tenants_dir ∷ get_dest_addon_image_set_path c channel ∷ [])
            image_set)
      done (get_dest_addon_image_set_path c channel)

    -- `updateTheCSVManifest`
    unfoldable pub update_the_csv_manifest : AddonCommand Text
    update_the_csv_manifest = do
      csv ← found (unread (csv_path c channel)) (w.read_csv (csv_file c channel))
      annotations ←
          found (unread (codes "annotations")) (w.read_annotations (metadata_file c channel))
      new_csv ← ([], updated_csv c.addon_config channel csv)
      perform_addon (write_csv (csv_file c channel) new_csv)
      perform_addon (
          write_annotations (metadata_file c channel)
            (updated_annotations c.addon_config channel annotations))
      done (csv_path c channel)
