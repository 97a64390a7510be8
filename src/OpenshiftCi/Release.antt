-- ===== src/OpenshiftCi/Release.antt =====
-- What cmd/openshiftCIRelease.go does to the two repositories, as plans.
use delorean.Base.{[], ◌++◌, Bool, true, false, ltb, Text, codes, refl, if◌then◌else◌}
use delorean.Base.Plans.{
  Plan, nothing, one, ◌⊳◌, Follows, Follows-act, Follows-act_alone, Follows-then, Follows-if,
  Follows-done, Follows-attempt,
}
use delorean.Base.Traces.{
  Returns, Returns-done, Returns-bind, Returns-then, Returns-attempt, Returns-if,
}
use delorean.Version.{release_branch_name, major_minor}
use delorean.Git.{
  Action, World, checkout, create_remote, pull, add, commit, push, branch_reference, same_branch,
  create_and_pull,
}
use delorean.Git.Plans.{
  clone_plan, pull_request_plan, on_tree, on_status, clone_to_tmp_dir-Follows,
  create_pr_if_not_exists-Follows, Follows-status, Follows-tree,
}
use delorean.CreateRelease.{clone_prefix, repo_url}
use delorean.OpenshiftCi.{
  OpenshiftCiCmd, prow_config_source, operator_image, upstream_url, ci_message, push_new_branch,
  create_branch, do_intly_operator_update, publish, update_config, configure_branch, use_branch,
  do_openshift_release_update,
}
use delorean.OpenshiftCi.Plan.{
  ci_rules, config_plan, mirroring_plan, config-Follows, mirroring-Follows,
}

-- The checkout of the release branch: of the one that exists, or of a new one.
abbrev pub on_branch : OpenshiftCiCmd → Bool → Action
on_branch c create = checkout (branch_reference (release_branch_name c.version)) create false

abbrev pub push_branch : OpenshiftCiCmd → Action
push_branch c =
    push (codes "origin") (same_branch (branch_reference (release_branch_name c.version)))

-- What is done on the branch if there is one.
abbrev pub if_there : Plan Action → Bool → Plan Action
if_there more there = if there then more else nothing

-- The branch is checked out or made. If neither can be done, nothing more is, and this is no error.
abbrev pub branch_plan : World → OpenshiftCiCmd → Plan Action → Plan Action → Plan Action
branch_plan w c if_old if_new =
    one (on_branch c false)
    ⊳ (if w.allows (on_branch c false)
        then if_old
        else one (on_branch c true) ⊳ if_there if_new (w.allows (on_branch c true)))

-- A branch that is missing is created and pushed.
unfoldable pub intly_plan : World → OpenshiftCiCmd → Plan Action
intly_plan w c =
    clone_plan clone_prefix (repo_url c.intly_owner c.intly_repo) c.base_branch
    ⊳ on_tree w (branch_plan w c nothing (one (push_branch c) ⊳ nothing))

-- Commit, push and a pull request against the upstream repository, if the configuration has changed.
abbrev pub publication : World → OpenshiftCiCmd → Bool → Plan Action
publication w c changed =
    if changed
    then one (commit (ci_message (release_branch_name c.version)))
      ⊳ one (push_branch c)
      ⊳ pull_request_plan w c.upstream_owner c.upstream_repo
          (codes "Add CI config for RHMI operator branch " ++ release_branch_name c.version)
          (c.origin_owner ++ (codes ":" ++ release_branch_name c.version)) (codes "master")
      ⊳ nothing
    else nothing

unfoldable pub update_plan : World → OpenshiftCiCmd → Text → Plan Action
update_plan w c repo_dir =
    config_plan repo_dir (prow_config_source c.olm_type) (major_minor c.version)
      (release_branch_name c.version)
    ⊳ one (add (codes "ci-operator/*"))
    ⊳ mirroring_plan repo_dir (major_minor c.version) (operator_image c.version)
    ⊳ one (add (codes "core-services/*"))
    ⊳ on_status w.status (publication w c)

unfoldable pub upstream_plan : World → Text → Text → Plan Action
upstream_plan w name url = one (create_remote name url) ⊳ on_tree w (one (pull name))

-- Clone, the upstream's changes, the branch, which may be new, and its configuration.
unfoldable pub ci_plan : World → OpenshiftCiCmd → Plan Action
ci_plan w c =
    clone_plan (codes "release") (repo_url c.origin_owner c.origin_repo)
      (branch_reference (codes "master"))
    ⊳ upstream_plan w (codes "upstream") (upstream_url c.upstream_owner c.upstream_repo)
    ⊳ on_tree w (
        branch_plan w c (update_plan w c (w.tmp_dir (codes "release")))
          (update_plan w c (w.tmp_dir (codes "release"))))

-- The directory that is returned: the clone's, or none if there is no branch.
abbrev pub directory_if : Bool → Text → Text
directory_if there dir = if there then dir else []

abbrev pub ci_directory : World → OpenshiftCiCmd → Text
ci_directory w c =
    if w.allows (on_branch c false)
    then w.tmp_dir (codes "release")
    else directory_if (w.allows (on_branch c true)) (w.tmp_dir (codes "release"))

module _ (w : World) (c : OpenshiftCiCmd) where
  push_new-Follows :
      (created : Bool) (repo_dir : Text)
      → Follows
          (ci_rules w)
          (if_there (one (push_branch c) ⊳ nothing) created)
          (push_new_branch w c created repo_dir)
  unfolding push_new_branch
  push_new-Follows true repo_dir = Follows-act _ _ _ _ _ refl (Follows-done _ _ _)
  push_new-Follows false repo_dir = Follows-done _ _ _

  create-Follows :
      (exists : Bool) (repo_dir : Text)
      → Follows
          (ci_rules w)
          (if exists
            then nothing
            else one (on_branch c true)
              ⊳ if_there (one (push_branch c) ⊳ nothing) (w.allows (on_branch c true)))
          (create_branch w c exists repo_dir)
  unfolding create_branch
  create-Follows true repo_dir = Follows-done _ _ _
  create-Follows false repo_dir =
      Follows-attempt _ _ (if_there (one (push_branch c) ⊳ nothing)) _ refl
        (λ created. push_new-Follows created repo_dir)

  -- The operator's repository is cloned and the release branch checked out; a branch that is missing is created and
  -- pushed. The command succeeds if and only if each of these actions but the checkouts does and the tree can be read;
  -- otherwise it stops with an error behind the first action that fails.
  pub intly_update-Follows : Follows (ci_rules w) (intly_plan w c) (do_intly_operator_update w c)
  unfolding do_intly_operator_update intly_plan
  intly_update-Follows =
      Follows-then _ _ _ _ _ (clone_to_tmp_dir-Follows w _ _ _ _ refl refl refl) (
        Follows-tree _ w _ _ (
          Follows-attempt _ _
            (λ exists.
              if exists
              then nothing
              else one (on_branch c true)
                ⊳ if_there (one (push_branch c) ⊳ nothing) (w.allows (on_branch c true)))
            _ refl (λ exists. create-Follows exists _)))

  publish-Follows :
      (repo_dir : Text)
      → Follows
          (ci_rules w)
          (publication w c true)
          (publish w c (ci_message (release_branch_name c.version)) repo_dir)
  unfolding publish
  publish-Follows repo_dir = Follows-act _ _ _ _ _ refl (
      Follows-act _ _ _ _ _ refl (
        Follows-then _ _ _ _ _ (create_pr_if_not_exists-Follows w _ _ _ _ _ _ refl)
          (Follows-done _ _ _)))

  update-Follows :
      (repo_dir : Text)
      → Follows (ci_rules w) (update_plan w c repo_dir) (update_config w c repo_dir)
  unfolding update_config update_plan
  update-Follows repo_dir = Follows-then _ _ _ _ _ (config-Follows w repo_dir _ _ _) (
      Follows-act _ _ _ _ _ refl (
        Follows-then _ _ _ _ _ (mirroring-Follows w repo_dir _ _) (
          Follows-act _ _ _ _ _ refl (
            Follows-status _ w (publication w c) _ (λ n.
              Follows-if _ (ltb 0 n) _ _ _ _ (publish-Follows repo_dir) (Follows-done _ _ _))))))

  configure-Follows :
      (created : Bool) (repo_dir : Text)
      → Follows
          (ci_rules w)
          (if_there (update_plan w c repo_dir) created)
          (configure_branch w c created repo_dir)
  unfolding configure_branch
  configure-Follows true repo_dir = update-Follows repo_dir
  configure-Follows false repo_dir = Follows-done _ _ _

  use-Follows :
      (exists : Bool) (repo_dir : Text)
      → Follows
          (ci_rules w)
          (if exists
            then update_plan w c repo_dir
            else one (on_branch c true)
              ⊳ if_there (update_plan w c repo_dir) (w.allows (on_branch c true)))
          (use_branch w c exists repo_dir)
  unfolding use_branch
  use-Follows true repo_dir = update-Follows repo_dir
  use-Follows false repo_dir =
      Follows-attempt _ _ (if_there (update_plan w c repo_dir)) _ refl
        (λ created. configure-Follows created repo_dir)

  upstream-Follows :
      (name url : Text)
      → Follows (ci_rules w) (upstream_plan w name url) (create_and_pull w name url)
  unfolding create_and_pull upstream_plan
  upstream-Follows name url =
      Follows-act _ _ _ _ _ refl (Follows-tree _ w _ _ (Follows-act_alone _ _ _ refl))

  -- What the update returns, if it returns a value.
  update-Returns : (repo_dir : Text) → Returns repo_dir (update_config w c repo_dir)
  unfolding update_config publish
  update-Returns repo_dir = Returns-then _ _ _ (
      Returns-then _ _ _ (
        Returns-then _ _ _ (
          Returns-then _ _ _ (
            Returns-bind _ _ _ (λ n.
              Returns-if _ (ltb 0 n) _ _
                (Returns-then _ _ _
                  (Returns-then _ _ _ (Returns-then _ _ _ (Returns-done _ _ repo_dir))))
                (Returns-done _ _ repo_dir))))))

  configure-Returns :
      (created : Bool) (repo_dir : Text)
      → Returns (directory_if created repo_dir) (configure_branch w c created repo_dir)
  unfolding configure_branch
  configure-Returns true repo_dir = update-Returns repo_dir
  configure-Returns false repo_dir = Returns-done _ _ []

  use-Returns :
      (exists : Bool) (repo_dir : Text)
      → Returns
          (if exists then repo_dir else directory_if (w.allows (on_branch c true)) repo_dir)
          (use_branch w c exists repo_dir)
  unfolding use_branch
  use-Returns true repo_dir = update-Returns repo_dir
  use-Returns false repo_dir =
      Returns-attempt _ _ _ _ (configure-Returns (w.allows (on_branch c true)) repo_dir)

  -- Whatever succeeds and is read, the update of OpenShift's CI clones, pulls the upstream's changes, checks out the
  -- release branch or creates it, makes its configuration and mapping, and commits, pushes and opens a pull request if
  -- they change something; it stops, with an error behind the first action that fails and is no checkout, or where
  -- something cannot be read, and succeeds otherwise. If the branch can be neither checked out nor created, the command
  -- succeeds without any configuration, and it returns no directory; else, if it succeeds, the clone's.
  pub ci_update-Follows :
      Follows (ci_rules w) (ci_plan w c) (do_openshift_release_update w c)
      × Returns (ci_directory w c) (do_openshift_release_update w c)
  unfolding do_openshift_release_update ci_plan
  ci_update-Follows = (
    Follows-then _ _ _ _ _ (clone_to_tmp_dir-Follows w _ _ _ _ refl refl refl) (
        Follows-then _ _ _ _ _ (upstream-Follows _ _) (
          Follows-tree _ w _ _ (
            Follows-attempt _ _
              (λ exists.
                if exists
                then update_plan w c (w.tmp_dir (codes "release"))
                else one (on_branch c true)
                  ⊳ if_there (update_plan w c (w.tmp_dir (codes "release")))
                      (w.allows (on_branch c true)))
              _ refl (λ exists. use-Follows exists _)))),
    Returns-then _ _ _ (
        Returns-then _ _ _ (
          Returns-then _ _ _
            (Returns-attempt _ _ _ _ (use-Returns (w.allows (on_branch c false)) _)))),
  )
