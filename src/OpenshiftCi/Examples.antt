-- ===== src/OpenshiftCi/Examples.antt =====
-- A release branch that is new, and the images that its mapping mirrors.
use delorean.MergeRelease.{find_pr_for_release}
use delorean.Git.{is_pr_not_found_error, create_pr_if_not_exists, create_and_pull, clone_to_tmp_dir}
use delorean.Base.{replace_all, [], codes, ◌≡◌, refl, ok}
use delorean.Base.Traces.{done, attempt, act, ◌>>◌, Returns}
use delorean.Base.Plans.{Follows}
use delorean.OpenshiftCi.Plan.{ci_rules}
use delorean.Git.Sandbox.{world, refuses_branches, refuses_old_branch}
use delorean.OpenshiftCi.{
  OpenshiftCiCmd, do_intly_operator_update, do_openshift_release_update, mapping_file,
}
use delorean.OpenshiftCi.Release.{
  intly_plan, ci_plan, ci_directory, intly_update-Follows, ci_update-Follows,
}

abbrev release : OpenshiftCiCmd
release = record {
  version = record {
    base = codes "1.2.0";
    major = codes "1";
    minor = codes "2";
    patch = codes "0";
    build = [];
    olm_type = codes "managed-api-service";
  };
  base_branch = codes "refs/tags/rhoam-v1.2.0";
  intly_owner = codes "integr8ly";
  intly_repo = codes "integreatly-operator";
  origin_owner = codes "integr8ly";
  origin_repo = codes "release";
  upstream_owner = codes "openshift";
  upstream_repo = codes "release";
  olm_type = codes "managed-api-service";
}

mapped :
    mapping_file (codes "1.2")
    ≡ codes "core-services/image-mirroring/integr8ly/mapping_integr8ly_operator_1_2"
unfolding replace_all
mapped = refl

returns_directory :
    (do_openshift_release_update (world refuses_old_branch 5) release).1 ≡ ok (codes "/tmp/release")
unfolding do_openshift_release_update ◌>>◌ clone_to_tmp_dir act create_and_pull attempt
    create_pr_if_not_exists find_pr_for_release is_pr_not_found_error done
returns_directory = refl

-- No branch can be checked out: no error is returned.
fails_silently : (do_intly_operator_update (world refuses_branches 5) release).1 ≡ ok []
unfolding do_intly_operator_update ◌>>◌ clone_to_tmp_dir act attempt done
fails_silently = refl

-- The same of the CI's configuration, of which there is then none.
configures_nothing : (do_openshift_release_update (world refuses_branches 5) release).1 ≡ ok []
unfolding do_openshift_release_update ◌>>◌ clone_to_tmp_dir act create_and_pull attempt done
configures_nothing = refl

intly_update-Follows_example :
    Follows
      (ci_rules (world refuses_old_branch 5))
      (intly_plan (world refuses_old_branch 5) release)
      (do_intly_operator_update (world refuses_old_branch 5) release)
intly_update-Follows_example = intly_update-Follows (world refuses_old_branch 5) release

ci_update-Follows_example :
    Follows
      (ci_rules (world refuses_old_branch 5))
      (ci_plan (world refuses_old_branch 5) release)
      (do_openshift_release_update (world refuses_old_branch 5) release)
    × Returns
        (ci_directory (world refuses_old_branch 5) release)
        (do_openshift_release_update (world refuses_old_branch 5) release)
ci_update-Follows_example = ci_update-Follows (world refuses_old_branch 5) release
