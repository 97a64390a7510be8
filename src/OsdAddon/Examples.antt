-- ===== src/OsdAddon/Examples.antt =====
-- A release candidate of an addon that goes to the edge channel.
use delorean.OsdAddon.Command.{in_git, copy_the_olm_bundles, update_the_csv_manifest}
use delorean.Version.{is_pre_release}
use delorean.Base.{
  cut, second_part, text_eq, ℕ, List, [], ◌∷◌, Bool, true, false, none, some, Text, codes, ◌≡◌,
  refl, ok, err, panic, get,
}
use delorean.Base.History.{AfterAll}
use delorean.Base.Plans.{Follows}
use delorean.OsdAddon.Plan.{addon_rules}
use delorean.Base.{Throughout}
use delorean.Base.Traces.{◌>>=◌, ◌>>◌, act, done, stop, after}
use delorean.Csv.{
  replace_or_append, add_or_update_env_var_with_source, EnvVar, Container, Deployment,
}
use delorean.Csv.Find.{find_install_mode, find_by, find_deployment_by_name, find_container_by_name}
use delorean.Git.Sandbox.{world, refuses_nothing}
use delorean.OsdAddon.{
  ReleaseChannel, Override, AddonConfig, OsdAddonReleaseCmd, ServiceVersion, AddonWorld, present,
  not_clean, find_channel,
}
use delorean.OsdAddon.Manifest.{
  set_env_vars, set_single_namespace, internal_version, override_containers, override_deployments,
  updated_csv,
}
use delorean.OsdAddon.Run.{run}
use delorean.OsdAddon.Release.{addon_plan, addon_run-Follows}
use delorean.OsdAddon.Guards.{IsGuarded, addon_run-IsGuarded}
use delorean.OsdAddon.Overrides.{HasOverride, HasSingleNamespace, updated_csv-HasOverride}

abbrev edge : ReleaseChannel
edge = record {
  name = codes "edge";
  directory = codes "rhoams";
  environment = codes "production";
  allow_pre_release = true;
}

abbrev replaced : Override
replaced = record {
  deployment_name = codes "op";
  container_name = codes "c";
  env_vars =
      record { name = codes "POD_NAME"; value = []; field_path = codes "metadata.name" } ∷ [];
}

abbrev addon : AddonConfig
addon = record {
  name = codes "managed-api-service";
  bundle_repo = codes "https://github.com/integr8ly/integreatly-operator";
  bundle_path = codes "bundles";
  channels = edge ∷ [];
  override = some replaced;
}

abbrev release : OsdAddonReleaseCmd
release = record {
  flags = record {
    version = codes "1.2.0-rc1";
    channel = codes "edge";
    merge_request_description = [];
    managed_tenants_origin = codes "service/managed-tenants-bundles";
    managed_tenants_fork = codes "integreatly-qe/managed-tenants-bundles";
    addon_name = codes "managed-api-service";
    addons_config = codes "addons.yaml";
  };
  version = record {
    base = codes "1.2.0";
    major = codes "1";
    minor = codes "2";
    patch = codes "0";
    build = codes "rc1";
    olm_type = codes "managed-api-service";
  };
  managed_tenants_dir = codes "/tmp/mt";
  current_channel = some edge;
  addon_config = addon;
  addon_dir = codes "/tmp/op";
}

abbrev operator : List EnvVar → Deployment
operator env = record {
  name = codes "op";
  containers = record { name = codes "c"; image = []; env = env } ∷ [];
}

abbrev csv : Text → Text → List EnvVar → Bool → ServiceVersion
csv name replaces env supported = record {
  name = name;
  replaces = replaces;
  deployments = operator env ∷ [];
  install_modes =
      record { type_name = codes "OwnNamespace"; supported = false }
      ∷ record { type_name = codes "SingleNamespace"; supported = supported }
      ∷ [];
}

abbrev old_csv : ServiceVersion
old_csv =
    csv (codes "managed-api-service.v1.2.0") (codes "managed-api-service.v1.1.0")
      (record { name = codes "DEBUG"; value = codes "1"; field_path = none } ∷ []) false

abbrev new_csv : ServiceVersion
new_csv =
    csv (codes "managed-api-service-internal.v1.2.0") (codes "managed-api-service-internal.v1.1.0")
      (record { name = codes "POD_NAME"; value = []; field_path = some (codes "metadata.name") }
        ∷ [])
      true

abbrev files : ℕ → AddonWorld
files changed = record {
  git_world = world refuses_nothing changed;
  allows = λ _. true;
  new_client = true;
  read_addons = λ _. some (addon ∷ []);
  stat = λ _. present;
  read_dir = λ _. some [];
  read_image_set = λ _. none;
  read_csv = λ _. some old_csv;
  read_annotations = λ _. some [];
  get_project = λ _. some 7;
}

found : find_channel addon (codes "edge") ≡ some edge
unfolding find_channel text_eq
found = refl

updates : updated_csv addon edge old_csv ≡ ok new_csv
unfolding updated_csv override_deployments find_deployment_by_name find_by text_eq
    override_containers find_container_by_name internal_version second_part cut set_single_namespace
    find_install_mode set_env_vars add_or_update_env_var_with_source replace_or_append
updates = refl

-- The container of the override is missing.
no_container :
    updated_csv addon edge
      (record old_csv { deployments = record { name = codes "op"; containers = [] } ∷ [] })
    ≡ panic
unfolding updated_csv override_deployments find_deployment_by_name find_by text_eq
    override_containers find_container_by_name
no_container = refl

no_mode : updated_csv addon edge (record old_csv { install_modes = [] }) ≡ panic
unfolding updated_csv override_deployments find_deployment_by_name find_by text_eq
    override_containers find_container_by_name internal_version second_part cut set_single_namespace
    find_install_mode
no_mode = refl

succeeds : (run (files 0) release).1 ≡ ok tt
unfolding run is_pre_release text_eq ◌>>=◌ ◌>>◌ in_git act copy_the_olm_bundles done
    update_the_csv_manifest updated_csv override_deployments find_deployment_by_name find_by
    override_containers find_container_by_name internal_version second_part cut find_install_mode
    add_or_update_env_var_with_source replace_or_append set_env_vars set_single_namespace stop after
    get
succeeds = refl

leaves_changes : (run (files 1) release).1 ≡ err not_clean
unfolding run is_pre_release text_eq ◌>>=◌ ◌>>◌ in_git act copy_the_olm_bundles done
    update_the_csv_manifest updated_csv override_deployments find_deployment_by_name find_by
    override_containers find_container_by_name internal_version second_part cut find_install_mode
    add_or_update_env_var_with_source replace_or_append set_env_vars set_single_namespace stop after
    get
leaves_changes = refl

addon_run-Follows_example :
    Follows (addon_rules (files 0)) (addon_plan (files 0) release) (run (files 0) release)
addon_run-Follows_example = addon_run-Follows (files 0) release

addon_run-IsGuarded_example :
    Throughout
      (AfterAll (addon_rules (files 0)) (IsGuarded (files 0) release edge))
      []
      (run (files 0) release).0
addon_run-IsGuarded_example = addon_run-IsGuarded (files 0) release edge refl

by_name :
    find_deployment_by_name old_csv.deployments (codes "op")
    ≡ some
        (0, operator (record { name = codes "DEBUG"; value = codes "1"; field_path = none } ∷ []))
unfolding find_deployment_by_name find_by text_eq
by_name = refl

updated_csv-HasOverride_example :
    ((containers : List Container) × (new_csv.deployments
        ≡ record (operator []) { containers = containers } ∷ [])
      × HasOverride replaced
          (operator (record { name = codes "DEBUG"; value = codes "1"; field_path = none } ∷ []))
          containers)
    × HasSingleNamespace old_csv.install_modes new_csv.install_modes
updated_csv-HasOverride_example =
    updated_csv-HasOverride addon edge old_csv new_csv replaced 0 _ refl by_name updates
