-- ===== src/OsdAddon.antt =====
-- cmd/osdAddonRelease.go: an addon's release is proposed to the managed-tenants repository. Git, GitLab
-- and the files are the parameter `AddonWorld`: what succeeds, and what is read when it is read.
pub mod Manifest
pub mod Command
pub mod Run
pub mod Plan
pub mod Release
pub mod Guards
pub mod Overrides
mod Examples
use delorean.Base.{
  ℕ, List, [], ◌∷◌, ◌++◌, Bool, true, false, Option, none, some, Text, codes, text_eq,
  if◌then◌else◌, Map,
}
use delorean.Version.{RhmiVersion, VersionError, to_string}
use delorean.Csv.{Deployment}
use delorean.Csv.Find.{InstallMode}
use delorean.Git.{Action, CommandError, World, PathParts}

pub record AddonImageSet : Type 0 where
  pub index_image : Text
  pub name : Text
  pub related_images : List Text

pub record ReleaseChannel : Type 0 where
  pub name : Text
  pub directory : Text
  pub environment : Text
  pub allow_pre_release : Bool

pub record DeploymentContainerEnvVar : Type 0 where
  pub name : Text
  pub value : Text
  -- `ValueFrom.FieldRef.FieldPath`
  pub field_path : Text

pub record Override : Type 0 where
  pub deployment_name : Text
  pub container_name : Text
  pub env_vars : List DeploymentContainerEnvVar

pub record AddonConfig : Type 0 where
  pub name : Text
  pub bundle_repo : Text
  pub bundle_path : Text
  pub channels : List ReleaseChannel
  pub override : Option Override

pub record OsdAddonReleaseFlags : Type 0 where
  pub version : Text
  pub channel : Text
  pub merge_request_description : Text
  pub managed_tenants_origin : Text
  pub managed_tenants_fork : Text
  pub addon_name : Text
  pub addons_config : Text

pub record OsdAddonReleaseCmd : Type 0 where
  pub flags : OsdAddonReleaseFlags
  pub version : RhmiVersion
  pub managed_tenants_dir : Text
  pub current_channel : Option ReleaseChannel
  pub addon_config : AddonConfig
  pub addon_dir : Text

-- The fields of a `ClusterServiceVersion` that the command reads or writes.
pub record ServiceVersion : Type 0 where
  pub name : Text
  pub replaces : Text
  pub deployments : List Deployment
  pub install_modes : List InstallMode

pub record MergeRequest : Type 0 where
  pub title : Text
  pub description : Text
  pub source_branch : Text
  pub target_branch : Text
  pub target_project_id : ℕ
  pub remove_source_branch : Bool

-- What the command does besides Git's actions.
pub data AddonAction : Type 0 where
  git : Action → AddonAction
  write_image_set : PathParts → AddonImageSet → AddonAction
  write_csv : PathParts → ServiceVersion → AddonAction
  write_annotations : PathParts → Map Text → AddonAction
  create_merge_request : (project : Text) → MergeRequest → AddonAction

pub data AddonError : Type 0 where
  git_error : CommandError → AddonError
  invalid_version : VersionError → AddonError
  not_done : AddonAction → AddonError
  unread : Text → AddonError
  no_addon : Text → AddonError
  no_channel : Text → AddonError
  is_prerelease : Text → AddonError
  not_on_main : Text → AddonError
  not_clean : AddonError
  other_channel : Text → AddonError

-- Whether a file is there; `unknown` is another error of `os.Stat`.
pub data Presence : Type 0 where
  present : Presence
  absent : Presence
  unknown : Presence

pub record AddonWorld : Type 0 where
  pub git_world : World
  pub allows : AddonAction → Bool
  pub new_client : Bool
  pub read_addons : Text → Option (List AddonConfig)
  pub stat : PathParts → Presence
  -- the names in a directory, sorted
  pub read_dir : PathParts → Option (List Text)
  pub read_image_set : PathParts → Option AddonImageSet
  pub read_csv : PathParts → Option ServiceVersion
  pub read_annotations : PathParts → Option (Map Text)
  -- the number of a project
  pub get_project : Text → Option ℕ

-- `findAddon`
unfoldable pub find_addon : List AddonConfig → Text → Option AddonConfig
find_addon [] addon_name = none
find_addon (a ∷ rest) addon_name =
    if text_eq a.name addon_name then some a else find_addon rest addon_name

find_channel_in : List ReleaseChannel → Text → Option ReleaseChannel
find_channel_in [] channel_name = none
find_channel_in (c ∷ rest) channel_name =
    if text_eq c.name channel_name then some c else find_channel_in rest channel_name

-- `findChannel`
unfoldable pub find_channel : AddonConfig → Text → Option ReleaseChannel
unfolding find_channel_in
find_channel addon channel_name = find_channel_in addon.channels channel_name

abbrev pub managed_tenants_main_branch : Text
managed_tenants_main_branch = codes "main"

-- `bundlesDirectory`
abbrev pub bundles_directory : ReleaseChannel → Text
bundles_directory c = codes "addons/" ++ (c.directory ++ codes "/main")

-- `stageAddonImageSetDirectory`
abbrev pub stage_addon_image_set_directory : ReleaseChannel → Text
stage_addon_image_set_directory c =
    codes "addons/" ++ (c.directory ++ codes "/addonimagesets/stage")

-- `getAddonImageSetName`
abbrev pub get_addon_image_set_name : OsdAddonReleaseCmd → ReleaseChannel → Text
get_addon_image_set_name c channel = channel.directory ++ (codes ".v" ++ to_string c.version)

-- `getDestAddonImageSetPath`
abbrev pub get_dest_addon_image_set_path : OsdAddonReleaseCmd → ReleaseChannel → Text
get_dest_addon_image_set_path c channel =
    codes "addons/"
    ++ (channel.directory
        ++ (codes "/addonimagesets/"
            ++ (channel.environment
                ++ (codes "/" ++ (get_addon_image_set_name c channel ++ codes ".yaml")))))
