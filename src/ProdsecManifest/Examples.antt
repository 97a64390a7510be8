-- ===== src/ProdsecManifest/Examples.antt =====
-- The manifest of a production release: one with no change proposes nothing.
use delorean.Git.{clone_to_tmp_dir}
use delorean.Version.{name_by_olm_type}
use delorean.Base.{text_eq, [], codes, ◌≡◌, refl, ok}
use delorean.Base.Traces.{done, act, ◌>>◌}
use delorean.Base.Plans.{Follows}
use delorean.Git.Plans.{strict}
use delorean.Git.Sandbox.{world, refuses_push}
use delorean.ProdsecManifest.{ProdsecManifestCmd, ManifestNames, manifest_names, run}
use delorean.ProdsecManifest.Plan.{manifest_plan, prodsec_run-Follows}

abbrev production : ProdsecManifestCmd
production = record {
  version = record {
    base = codes "1.2.3";
    major = codes "1";
    minor = codes "2";
    patch = codes "3";
    build = [];
    olm_type = codes "managed-api-service";
  };
  owner = codes "integr8ly";
  repo = codes "integreatly-operator";
  base_branch = codes "refs/heads/master";
  manifest_script = codes "scripts/prodsec-manifest-generator.sh";
  type_of_manifest = codes "production";
  today = codes "2023-01-31";
  path_env = codes "/usr/bin";
  home_env = codes "/root";
}

named :
    ManifestNames.file_name (manifest_names production)
    ≡ codes "rhoam-production-release-manifest.txt"
unfolding manifest_names text_eq name_by_olm_type
named = refl

returns_directory :
    (run (world refuses_push 0) production).1 ≡ ok (codes "/tmp/integreatly-operator")
unfolding run ◌>>◌ clone_to_tmp_dir act text_eq done
returns_directory = refl

prodsec_run-Follows_example :
    Follows
      (strict (world refuses_push 2))
      (manifest_plan (world refuses_push 2) production)
      (run (world refuses_push 2) production)
prodsec_run-Follows_example = prodsec_run-Follows (world refuses_push 2) production
