-- ===== src/OpenshiftCi/Plan.antt =====
-- The plans of the parts of cmd/openshiftCIRelease.go and of cmd/openshiftCIAddBranch.go.
use delorean.Base.{[], ◌∷◌, Bool, true, false, Text, codes, refl}
use delorean.Base.Plans.{
  Plan, one, ◌⊳◌, Rules, Follows, Follows-act, Follows-act_alone, Follows-then,
}
use delorean.Git.{
  Action, World, load_yaml, set_yaml, write_yaml, look_path, make_jobs, create_file, write_file,
  checkout,
}
use delorean.Git.Plans.{tolerant}
use delorean.OpenshiftCi.{
  config_of, prow_config_source_master, mapping_file, mirroring_config, update_ci_operator_config,
  update_image_mirroring_config, do_openshift_release_add_branch,
}

-- Only a checkout may fail: that of the release branch is tried before the branch is made.
abbrev pub is_checkout : Action → Bool
is_checkout (checkout branch create force) = true
is_checkout _ = false

abbrev pub ci_rules : World → Rules Action
ci_rules w = tolerant w is_checkout

-- The configuration of a branch is a copy with the promotion's name and the branch set; then the jobs are made.
unfoldable pub config_plan : Text → Text → Text → Text → Plan Action
config_plan repo_dir source promotion branch =
    one (load_yaml (repo_dir ∷ source ∷ []))
    ⊳ one (set_yaml (codes "promotion.name") promotion)
    ⊳ one (set_yaml (codes "zz_generated_metadata.branch") branch)
    ⊳ one (write_yaml (repo_dir ∷ config_of branch ∷ []))
    ⊳ one (look_path (codes "make"))
    ⊳ one (make_jobs repo_dir)

unfoldable pub mirroring_plan : Text → Text → Text → Plan Action
mirroring_plan repo_dir tag operator =
    one (create_file (repo_dir ∷ mapping_file tag ∷ []))
    ⊳ one (write_file (repo_dir ∷ mapping_file tag ∷ []) (mirroring_config tag operator))

module _ (w : World) where
  pub config-Follows :
      (repo_dir source promotion branch : Text)
      → Follows
          (ci_rules w)
          (config_plan repo_dir source promotion branch)
          (update_ci_operator_config w repo_dir source promotion branch)
  unfolding update_ci_operator_config config_plan
  config-Follows repo_dir source promotion branch = Follows-act _ _ _ _ _ refl (
      Follows-act _ _ _ _ _ refl (
        Follows-act _ _ _ _ _ refl
          (Follows-act _ _ _ _ _ refl (Follows-act _ _ _ _ _ refl (Follows-act_alone _ _ _ refl)))))

  pub mirroring-Follows :
      (repo_dir tag operator : Text)
      → Follows
          (ci_rules w)
          (mirroring_plan repo_dir tag operator)
          (update_image_mirroring_config w repo_dir tag operator)
  unfolding update_image_mirroring_config mirroring_plan
  mirroring-Follows repo_dir tag operator =
      Follows-act _ _ _ _ _ refl (Follows-act_alone _ _ _ refl)

  -- Adding a branch makes the configuration of master under the branch's name, and then the mapping of its images; it
  -- succeeds if each action does, and stops behind the first that fails.
  pub add_branch-Follows :
      (repo_dir branch : Text)
      → Follows
          (ci_rules w)
          (config_plan repo_dir prow_config_source_master branch branch
            ⊳ mirroring_plan repo_dir branch (codes "integreatly-operator"))
          (do_openshift_release_add_branch w repo_dir branch)
  unfolding do_openshift_release_add_branch
  add_branch-Follows repo_dir branch =
      Follows-then _ _ _ _ _ (config-Follows repo_dir _ branch branch)
        (mirroring-Follows repo_dir branch _)
