-- ===== src/CreateRelease/Plan.antt =====
-- What cmd/createRelease.go does, as a plan.
use delorean.Base.{false, true, ◌∷◌, [], ◌++◌, ltb, codes, refl, if◌then◌else◌}
use delorean.Base.Plans.{
  Plan, nothing, one, ◌⊳◌, Follows, Follows-act, Follows-act_alone, Follows-then, Follows-if,
  Follows-done,
}
use delorean.Version.{
  prepare_release_branch_name, prepare_release_commit_message, prepare_release_pr_title,
}
use delorean.Git.{
  Action, World, checkout, change_mode, run_script, add, commit, push, branch_reference,
}
use delorean.Git.Plans.{
  strict, clone_plan, pull_request_plan, on_tree, on_status, clone_to_tmp_dir-Follows,
  create_pr_if_not_exists-Follows, Follows-status, Follows-tree,
}
use delorean.CreateRelease.{
  CreateReleaseCmd, clone_prefix, repo_url, script_envs, run_release_script,
  commit_and_push_changes, run,
}

-- The commit and the push.
unfoldable pub changes_plan : CreateReleaseCmd → Plan Action
changes_plan c =
    one (add (codes "."))
    ⊳ one (commit (prepare_release_commit_message c.version))
    ⊳ one (push (codes "origin") [])

unfoldable pub script_plan : World → CreateReleaseCmd → Plan Action
script_plan w c =
    one (change_mode (w.tmp_dir clone_prefix ∷ c.release_script ∷ []))
    ⊳ one (run_script c.release_script (script_envs c))

-- Clone, branch, script; commit and push if the script has changed something; and a pull request if there is none.
unfoldable pub release_plan : World → CreateReleaseCmd → Plan Action
release_plan w c =
    clone_plan clone_prefix (repo_url c.owner c.repo) c.base_branch
    ⊳ on_tree w (
        one (checkout (branch_reference (prepare_release_branch_name c.version)) true false)
        ⊳ script_plan w c
        ⊳ on_status w.status (λ changed.
          (if changed then changes_plan c else nothing)
          ⊳ pull_request_plan w c.owner c.repo (prepare_release_pr_title c.version)
              (c.owner ++ (codes ":" ++ prepare_release_branch_name c.version)) c.base_branch
          ⊳ nothing))

module _ (w : World) (c : CreateReleaseCmd) where
  commit-Follows : Follows (strict w) (changes_plan c) (commit_and_push_changes w c)
  unfolding commit_and_push_changes changes_plan
  commit-Follows =
      Follows-act _ _ _ _ _ refl (Follows-act _ _ _ _ _ refl (Follows-act_alone _ _ _ refl))

  script-Follows :
      Follows (strict w) (script_plan w c) (run_release_script w c (w.tmp_dir clone_prefix))
  unfolding run_release_script script_plan
  script-Follows = Follows-act _ _ _ _ _ refl (Follows-act_alone _ _ _ refl)

  -- Whatever succeeds and is read, the release command clones, makes the branch and runs the script, commits and pushes
  -- if the script has changed something, and opens a pull request if none is open: it succeeds if and only if each of
  -- these actions does and all can be read; otherwise it stops: with an error behind the first action that fails, or
  -- where something cannot be read.
  pub run-Follows : Follows (strict w) (release_plan w c) (run w c)
  unfolding run release_plan
  run-Follows = Follows-then _ _ _ _ _ (clone_to_tmp_dir-Follows w _ _ _ _ refl refl refl) (
      Follows-tree _ w _ _ (
        Follows-act _ _ _ _ _ refl (
          Follows-then _ _ _ _ _ script-Follows (
            Follows-status _ w _ _ (λ n.
              Follows-then _ _ _ _ _
                (Follows-if _ (ltb 0 n) _ _ _ _ commit-Follows (Follows-done _ _ tt))
                (Follows-then _ _ _ _ _ (create_pr_if_not_exists-Follows w _ _ _ _ _ _ refl)
                  (Follows-done _ _ _)))))))
