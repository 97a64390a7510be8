-- ===== src/OpenshiftCi.antt =====
-- cmd/openshiftCIRelease.go and cmd/openshiftCIAddBranch.go: the release branch of the operator, and
-- its configuration in the repository of OpenShift's CI. The world of Git is the parameter.
pub mod Plan
pub mod Release
mod Examples
use delorean.Base.{
  ℕ, List, [], ◌∷◌, ◌++◌, Bool, true, false, ltb, Text, codes, text_eq, replace_all, if◌then◌else◌,
}
use delorean.Base.Traces.{◌>>=◌, ◌>>◌, done, act, attempt}
use delorean.Version.{RhmiVersion, olm_type_rhmi, olm_type_rhoam, release_branch_name, major_minor}
use delorean.Git.{
  World, Command, load_yaml, set_yaml, write_yaml, look_path, make_jobs, create_file, write_file,
  checkout, add, commit, push, perform, get_worktree, get_status, branch_reference, same_branch,
  clone_to_tmp_dir, create_and_pull, create_pr_if_not_exists,
}
use delorean.CreateRelease.{clone_prefix, repo_url}

pub record OpenshiftCiCmd : Type 0 where
  pub version : RhmiVersion
  -- a full reference name
  pub base_branch : Text
  pub intly_owner : Text
  pub intly_repo : Text
  pub origin_owner : Text
  pub origin_repo : Text
  pub upstream_owner : Text
  pub upstream_repo : Text
  -- the flag, from which the version has its type
  pub olm_type : Text

abbrev config_directory : Text
config_directory =
    codes "ci-operator/config/integr8ly/integreatly-operator/integr8ly-integreatly-operator-"

abbrev pub config_of : Text → Text
config_of branch = config_directory ++ (branch ++ codes ".yaml")

-- `ProwConfigSourceMaster` and, by the type of the operator, the others
abbrev pub prow_config_source_master : Text
prow_config_source_master = config_of (codes "master")

unfoldable pub prow_config_source : Text → Text
prow_config_source olm_type =
    if text_eq olm_type olm_type_rhmi
    then config_of (codes "release-v2.9")
    else if text_eq olm_type olm_type_rhoam
    then config_of (codes "rhoam-release-v1.7")
    else prow_config_source_master

abbrev pub mapping_file : Text → Text
mapping_file name =
    codes "core-services/image-mirroring/integr8ly/mapping_integr8ly_operator_"
    ++ replace_all name (codes ".") (codes "_")

-- One line: the image of the CI's registry, and the public one.
abbrev pub mapping_line : Text → Text → Text → Text
mapping_line tag internal public =
    codes "registry.ci.openshift.org/integr8ly/"
    ++ (tag
        ++ (codes ":"
            ++ (internal
                ++ (codes " quay.io/integreatly/"
                    ++ (public ++ (codes ":" ++ (tag ++ codes "\n")))))))

-- The loop over the two templates, of which the first depends on the operator.
unfoldable pub mirroring_config : Text → Text → Text
mirroring_config tag operator =
    mapping_line tag (codes "integreatly-operator") operator
    ++ mapping_line tag (codes "integreatly-operator-test-harness")
        (codes "integreatly-operator-test-harness")

unfoldable pub operator_image : RhmiVersion → Text
operator_image v =
    if text_eq v.olm_type olm_type_rhoam
    then codes "managed-api-service"
    else codes "integreatly-operator"

abbrev pub upstream_url : Text → Text → Text
upstream_url owner repo = codes "https://github.com/" ++ (owner ++ (codes "/" ++ repo))

abbrev pub ci_message : Text → Text
ci_message branch =
    codes "Updated ci operator config for branch "
    ++ (branch ++ (codes "\nUpdated image mirror mapping config for branch " ++ branch))

module _ (w : World) where
  -- `updateCIOperatorConfig`: the source is copied under the branch's name, with two fields set.
  pub update_ci_operator_config : Text → Text → Text → Text → Command (Unit {0})
  update_ci_operator_config repo_dir source promotion branch = do
    perform w (load_yaml (repo_dir ∷ source ∷ []))
    perform w (set_yaml (codes "promotion.name") promotion)
    perform w (set_yaml (codes "zz_generated_metadata.branch") branch)
    perform w (write_yaml (repo_dir ∷ config_of branch ∷ []))
    perform w (look_path (codes "make"))
    perform w (make_jobs repo_dir)

  pub update_image_mirroring_config : Text → Text → Text → Command (Unit {0})
  update_image_mirroring_config repo_dir tag operator = do
    perform w (create_file (repo_dir ∷ mapping_file tag ∷ []))
    perform w (write_file (repo_dir ∷ mapping_file tag ∷ []) (mirroring_config tag operator))

  -- cmd/openshiftCIAddBranch.go
  unfoldable pub do_openshift_release_add_branch : Text → Text → Command (Unit {0})
  unfolding update_ci_operator_config update_image_mirroring_config
  do_openshift_release_add_branch repo_dir branch = do
    update_ci_operator_config repo_dir prow_config_source_master branch branch
    update_image_mirroring_config repo_dir branch (codes "integreatly-operator")

  module _ (c : OpenshiftCiCmd) where
    -- A branch that cannot be created ends the update without an error.
    push_new_branch : Bool → Text → Command Text
    push_new_branch false repo_dir = done []
    push_new_branch true repo_dir = do
      perform w
          (push (codes "origin") (same_branch (branch_reference (release_branch_name c.version))))
      done repo_dir

    create_branch : Bool → Text → Command Text
    unfolding push_new_branch
    create_branch true repo_dir = done repo_dir
    create_branch false repo_dir = do
      created ←
          attempt (checkout (branch_reference (release_branch_name c.version)) true false)
            (w.allows (checkout (branch_reference (release_branch_name c.version)) true false))
      push_new_branch created repo_dir

    unfoldable pub do_intly_operator_update : Command Text
    unfolding create_branch
    do_intly_operator_update = do
      clone_to_tmp_dir w clone_prefix (repo_url c.intly_owner c.intly_repo) c.base_branch
      get_worktree w
      exists ←
          attempt (checkout (branch_reference (release_branch_name c.version)) false false)
            (w.allows (checkout (branch_reference (release_branch_name c.version)) false false))
      create_branch exists (w.tmp_dir clone_prefix)

    -- From the changes on: commit, push and the pull request against the upstream repository.
    publish : Text → Text → Command Text
    publish message repo_dir = do
      perform w (commit message)
      perform w
          (push (codes "origin") (same_branch (branch_reference (release_branch_name c.version))))
      create_pr_if_not_exists w c.upstream_owner c.upstream_repo
          (codes "Add CI config for RHMI operator branch " ++ release_branch_name c.version)
          (c.origin_owner ++ (codes ":" ++ release_branch_name c.version)) (codes "master")
      done repo_dir

    update_config : Text → Command Text
    unfolding publish update_ci_operator_config update_image_mirroring_config
    update_config repo_dir = do
      update_ci_operator_config repo_dir (prow_config_source c.olm_type) (major_minor c.version)
          (release_branch_name c.version)
      perform w (add (codes "ci-operator/*"))
      update_image_mirroring_config repo_dir (major_minor c.version) (operator_image c.version)
      perform w (add (codes "core-services/*"))
      status ← get_status w
      if ltb 0 status
          then publish (ci_message (release_branch_name c.version)) repo_dir
          else done repo_dir

    -- The branch may be new: if it cannot be created, the update ends without an error.
    configure_branch : Bool → Text → Command Text
    unfolding update_config
    configure_branch false repo_dir = done []
    configure_branch true repo_dir = update_config repo_dir

    use_branch : Bool → Text → Command Text
    unfolding configure_branch
    use_branch true repo_dir = update_config repo_dir
    use_branch false repo_dir = do
      created ←
          attempt (checkout (branch_reference (release_branch_name c.version)) true false)
            (w.allows (checkout (branch_reference (release_branch_name c.version)) true false))
      configure_branch created repo_dir

    unfoldable pub do_openshift_release_update : Command Text
    unfolding use_branch
    do_openshift_release_update = do
      clone_to_tmp_dir w (codes "release") (repo_url c.origin_owner c.origin_repo)
          (branch_reference (codes "master"))
      create_and_pull w (codes "upstream") (upstream_url c.upstream_owner c.upstream_repo)
      get_worktree w
      exists ←
          attempt (checkout (branch_reference (release_branch_name c.version)) false false)
            (w.allows (checkout (branch_reference (release_branch_name c.version)) false false))
      use_branch exists (w.tmp_dir (codes "release"))
