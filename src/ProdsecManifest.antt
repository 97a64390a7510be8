-- ===== src/ProdsecManifest.antt =====
-- cmd/createProdsecManifest.go: `run` generates the manifest of the shipped components on one branch
-- and proposes it on another. The world of Git is the parameter; `today` is the formatted date.
pub mod Plan
mod Examples
use delorean.Base.{
  ℕ, List, [], ◌∷◌, ◌++◌, Bool, true, false, ltb, Text, codes, text_eq, if◌then◌else◌,
}
use delorean.Base.Traces.{◌>>=◌, ◌>>◌, done, act}
use delorean.Version.{
  RhmiVersion, olm_type_rhmi, prepare_prodsec_manifest_branch_name, release_branch_name,
  name_by_olm_type,
}
use delorean.Git.{
  World, Command, checkout, change_mode, run_script, copy_file, add, commit, push, perform,
  get_worktree, get_status, branch_reference, clone_to_tmp_dir, create_pr_if_not_exists,
}
use delorean.CreateRelease.{clone_prefix, repo_url}

pub record ProdsecManifestCmd : Type 0 where
  pub version : RhmiVersion
  pub owner : Text
  pub repo : Text
  -- a full reference name
  pub base_branch : Text
  pub manifest_script : Text
  pub type_of_manifest : Text
  pub today : Text
  -- `PATH` and `HOME`
  pub path_env : Text
  pub home_env : Text

pub record ManifestNames : Type 0 where
  pub branch_name : Text
  pub source_branch : Text
  pub file_name : Text

-- `switch c.typeOfManifest`: what a case does not set stays empty.
unfoldable pub manifest_names : ProdsecManifestCmd → ManifestNames
manifest_names c =
    if text_eq c.type_of_manifest (codes "production")
    then record {
      branch_name = prepare_prodsec_manifest_branch_name c.version;
      source_branch = release_branch_name c.version;
      file_name = name_by_olm_type c.version ++ codes "-production-release-manifest.txt";
    }
    else if text_eq c.type_of_manifest (codes "master")
    then record {
      branch_name = c.version.olm_type ++ (codes "-master-manifest-update-" ++ c.today);
      source_branch = codes "master";
      file_name = name_by_olm_type c.version ++ codes "-master-manifest.txt";
    }
    else if text_eq c.type_of_manifest (codes "compare")
    then record { branch_name = []; source_branch = codes "master"; file_name = [] }
    else record {
      branch_name = prepare_prodsec_manifest_branch_name c.version;
      source_branch = release_branch_name c.version;
      file_name = [];
    }

abbrev pub manifest_path : Text → Text → Text
manifest_path repo_dir file_name = repo_dir ++ (codes "/prodsec-manifests/" ++ file_name)

abbrev pub temporary_path : Text → Text
temporary_path repo_dir = repo_dir ++ codes "/../temporary-manifest.txt"

abbrev pub manifest_envs : ProdsecManifestCmd → List Text
manifest_envs c =
    (codes "OLM_TYPE=" ++ c.version.olm_type)
    ∷ (codes "TYPE_OF_MANIFEST=" ++ c.type_of_manifest)
    ∷ (codes "PATH=" ++ c.path_env)
    ∷ (codes "HOME=" ++ c.home_env)
    ∷ []

abbrev pub manifest_message : ProdsecManifestCmd → Text
manifest_message c =
    codes "MGDAPI-4480 Prepare "
    ++ (c.version.olm_type ++ (codes " manifest for " ++ c.type_of_manifest))

abbrev pub manifest_title : ProdsecManifestCmd → Text
manifest_title c =
    codes "Update to "
    ++ ((if text_eq c.version.olm_type olm_type_rhmi then codes "RHMI" else codes "RHOAM")
        ++ (codes " " ++ (c.type_of_manifest ++ codes " manifest")))

module _ (w : World) where
  -- `checkoutBranch`
  abbrev pub checkout_branch : Bool → Bool → Text → Command (Unit {0})
  checkout_branch remove_changes create branch_name =
      perform w (checkout (branch_reference branch_name) create remove_changes)

  pub run_manifest_script : ProdsecManifestCmd → Text → Command (Unit {0})
  run_manifest_script c repo_dir = do
    perform w (change_mode (repo_dir ∷ c.manifest_script ∷ []))
    perform w (run_script c.manifest_script (manifest_envs c))

  pub commit_and_push_changes : ProdsecManifestCmd → Command (Unit {0})
  commit_and_push_changes c = do
    perform w (add (codes "."))
    perform w (commit (manifest_message c))
    perform w (push (codes "origin") [])

  commit_and_propose : ProdsecManifestCmd → Text → Text → Command Text
  unfolding commit_and_push_changes
  commit_and_propose c branch_name repo_dir = do
    commit_and_push_changes c
    create_pr_if_not_exists w c.owner c.repo (manifest_title c)
        (c.owner ++ (codes ":" ++ branch_name)) c.base_branch
    done repo_dir

  -- From the saving of the manifest on; the empty text is no directory to be removed.
  pub propose_manifest : ProdsecManifestCmd → Text → Command Text
  unfolding commit_and_propose
  propose_manifest c repo_dir = do
    let names = manifest_names c
    perform w (copy_file (manifest_path repo_dir names.file_name) (temporary_path repo_dir))
    checkout_branch true false (codes "master")
    checkout_branch true true names.branch_name
    perform w (copy_file (temporary_path repo_dir) (manifest_path repo_dir names.file_name))
    status ← get_status w
    if ltb 0 status then commit_and_propose c names.branch_name repo_dir else done repo_dir

  unfoldable pub run : ProdsecManifestCmd → Command Text
  unfolding run_manifest_script propose_manifest
  run c = do
    clone_to_tmp_dir w clone_prefix (repo_url c.owner c.repo) c.base_branch
    let repo_dir = w.tmp_dir clone_prefix
    get_worktree w
    checkout_branch false false (manifest_names c).source_branch
    run_manifest_script c repo_dir
    if text_eq c.type_of_manifest (codes "compare") then done [] else propose_manifest c repo_dir
