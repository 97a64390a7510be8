-- ===== src/ProdsecManifest/Plan.antt =====
-- What cmd/createProdsecManifest.go does, as a plan.
use delorean.Base.{◌∷◌, [], ◌++◌, Bool, true, false, ltb, Text, codes, text_eq, refl, if◌then◌else◌}
use delorean.Base.Plans.{
  Plan, nothing, one, ◌⊳◌, Follows, Follows-act, Follows-act_alone, Follows-then, Follows-if,
  Follows-done,
}
use delorean.Git.{
  Action, World, checkout, change_mode, run_script, copy_file, add, commit, push, branch_reference,
}
use delorean.Git.Plans.{
  strict, clone_plan, pull_request_plan, on_tree, on_status, clone_to_tmp_dir-Follows,
  create_pr_if_not_exists-Follows, Follows-status, Follows-tree,
}
use delorean.CreateRelease.{clone_prefix, repo_url}
use delorean.ProdsecManifest.{
  ProdsecManifestCmd, manifest_names, manifest_path, temporary_path, manifest_envs,
  manifest_message, manifest_title, run_manifest_script, commit_and_push_changes, propose_manifest,
  commit_and_propose, run,
}

unfoldable pub changes_plan : ProdsecManifestCmd → Plan Action
changes_plan c =
    one (add (codes ".")) ⊳ one (commit (manifest_message c)) ⊳ one (push (codes "origin") [])

unfoldable pub script_plan : World → ProdsecManifestCmd → Plan Action
script_plan w c =
    one (change_mode (w.tmp_dir clone_prefix ∷ c.manifest_script ∷ []))
    ⊳ one (run_script c.manifest_script (manifest_envs c))

-- The commit, the push and the pull request, if the manifest differs from the one on master.
abbrev pub proposal : World → ProdsecManifestCmd → Bool → Plan Action
proposal w c changed =
    if changed
    then changes_plan c
      ⊳ pull_request_plan w c.owner c.repo (manifest_title c)
          (c.owner ++ (codes ":" ++ (manifest_names c).branch_name)) c.base_branch
      ⊳ nothing
    else nothing

-- The manifest is kept outside the clone while a new branch is made from master.
unfoldable pub transfer : World → ProdsecManifestCmd → Text → Plan Action
transfer w c repo_dir =
    one (copy_file (manifest_path repo_dir (manifest_names c).file_name) (temporary_path repo_dir))
    ⊳ one (checkout (branch_reference (codes "master")) false true)
    ⊳ one (checkout (branch_reference (manifest_names c).branch_name) true true)
    ⊳ one
        (copy_file (temporary_path repo_dir) (manifest_path repo_dir (manifest_names c).file_name))
    ⊳ on_status w.status (proposal w c)

-- Clone, the branch of the release, the script; and, unless manifests are only compared, the proposal.
unfoldable pub manifest_plan : World → ProdsecManifestCmd → Plan Action
manifest_plan w c =
    clone_plan clone_prefix (repo_url c.owner c.repo) c.base_branch
    ⊳ on_tree w (
        one (checkout (branch_reference (manifest_names c).source_branch) false false)
        ⊳ script_plan w c
        ⊳ (if text_eq c.type_of_manifest (codes "compare")
            then nothing
            else transfer w c (w.tmp_dir clone_prefix)))

module _ (w : World) (c : ProdsecManifestCmd) where
  commit-Follows : Follows (strict w) (changes_plan c) (commit_and_push_changes w c)
  unfolding commit_and_push_changes changes_plan
  commit-Follows =
      Follows-act _ _ _ _ _ refl (Follows-act _ _ _ _ _ refl (Follows-act_alone _ _ _ refl))

  script-Follows :
      Follows (strict w) (script_plan w c) (run_manifest_script w c (w.tmp_dir clone_prefix))
  unfolding run_manifest_script script_plan
  script-Follows = Follows-act _ _ _ _ _ refl (Follows-act_alone _ _ _ refl)

  propose-Follows :
      (repo_dir : Text) → Follows (strict w) (transfer w c repo_dir) (propose_manifest w c repo_dir)
  unfolding propose_manifest commit_and_propose transfer
  propose-Follows repo_dir = Follows-act _ _ _ _ _ refl (
      Follows-act _ _ _ _ _ refl (
        Follows-act _ _ _ _ _ refl (
          Follows-act _ _ _ _ _ refl (
            Follows-status _ w _ _ (λ n.
              Follows-if _ (ltb 0 n) _ _ _ _
                (Follows-then _ _ _ _ _ commit-Follows (
                  Follows-then _ _ _ _ _ (create_pr_if_not_exists-Follows w _ _ _ _ _ _ refl)
                    (Follows-done _ _ _)))
                (Follows-done _ _ _))))))

  -- Whatever succeeds and is read, the manifest command clones, checks out the source branch and runs the script; and,
  -- unless manifests are only compared, it carries the manifest over to a new branch from master, where it commits,
  -- pushes and proposes it if it differs: the command succeeds if and only if each of these actions does and all can be
  -- read; otherwise it stops: with an error behind the first action that fails, or where something cannot be read.
  pub prodsec_run-Follows : Follows (strict w) (manifest_plan w c) (run w c)
  unfolding run manifest_plan
  prodsec_run-Follows = Follows-then _ _ _ _ _ (clone_to_tmp_dir-Follows w _ _ _ _ refl refl refl) (
      Follows-tree _ w _ _ (
        Follows-act _ _ _ _ _ refl (
          Follows-then _ _ _ _ _ script-Follows (
            Follows-if _ (text_eq c.type_of_manifest (codes "compare")) _ _ _ _ (Follows-done _ _ _)
              (propose-Follows _)))))
