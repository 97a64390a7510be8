-- ===== src/CreateRelease/Examples.antt =====
-- A release candidate that changes files, and a push that fails.
use delorean.MergeRelease.{find_pr_for_release}
use delorean.Version.{to_string}
use delorean.Base.{split, text_eq, contains_text, [], true, false, codes, ◌≡◌, refl, ok, err}
use delorean.Base.Traces.{done, act, ◌>>◌}
use delorean.Base.Plans.{Follows}
use delorean.Git.Plans.{strict}
use delorean.Git.{is_pr_not_found_error, create_pr_if_not_exists, clone_to_tmp_dir, push, failed}
use delorean.Git.Sandbox.{world, refuses_nothing, refuses_push}
use delorean.CreateRelease.{CreateReleaseCmd, run, updated_version}
use delorean.CreateRelease.Plan.{release_plan, run-Follows}

abbrev candidate : CreateReleaseCmd
candidate = record {
  version = record {
    base = codes "1.2.3";
    major = codes "1";
    minor = codes "2";
    patch = codes "3";
    build = codes "rc1";
    olm_type = codes "managed-api-service";
  };
  owner = codes "integr8ly";
  repo = codes "integreatly-operator";
  base_branch = codes "refs/heads/master";
  release_script = codes "scripts/prepare-release.sh";
  service_affecting = true;
  cpaas_functional = true;
  prepare_for_next_release = false;
}

without_build : updated_version candidate ≡ codes "1.2.3"
unfolding updated_version contains_text to_string text_eq split
without_build = refl

returns_directory :
    (run (world refuses_nothing 3) candidate).1 ≡ ok (codes "/tmp/integreatly-operator")
unfolding run ◌>>◌ clone_to_tmp_dir act create_pr_if_not_exists find_pr_for_release
    is_pr_not_found_error done
returns_directory = refl

no_pull_request_without_push :
    (run (world refuses_push 3) candidate).1 ≡ err (failed (push (codes "origin") []))
unfolding run ◌>>◌ clone_to_tmp_dir act
no_pull_request_without_push = refl

run-Follows_example :
    Follows
      (strict (world refuses_push 3))
      (release_plan (world refuses_push 3) candidate)
      (run (world refuses_push 3) candidate)
run-Follows_example = run-Follows (world refuses_push 3) candidate
