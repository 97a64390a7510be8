-- ===== src/OsdAddon/Manifest.antt =====
-- cmd/osdAddonRelease.go, updateTheCSVManifest: what is made of the CSV and of its annotations.
use delorean.Base.{
  List, [], ◌∷◌, ◌++◌, Bool, true, false, ◌&&◌, ◌||◌, set, Option, none, some, Text, codes, text_eq,
  second_part, if◌then◌else◌, Result, ok, panic, or_panic, ◌>>=◌, Map, get, put,
}
use delorean.Csv.{
  EnvVar, Container, Deployment, add_or_update_env_var, add_or_update_env_var_with_source,
}
use delorean.Csv.Find.{
  InstallMode, find_deployment_by_name, find_container_by_name, find_install_mode,
}
use delorean.OsdAddon.{
  ReleaseChannel, DeploymentContainerEnvVar, Override, AddonConfig, ServiceVersion, AddonError,
}

abbrev pub set_env_var : DeploymentContainerEnvVar → List EnvVar → List EnvVar
set_env_var v env =
    if text_eq v.name (codes "WATCH_NAMESPACE") || text_eq v.name (codes "POD_NAME")
    then add_or_update_env_var_with_source env v.name v.value v.field_path
    else add_or_update_env_var env v.name v.value

-- The loop over the variables of the override.
unfoldable pub set_env_vars : List DeploymentContainerEnvVar → List EnvVar → List EnvVar
set_env_vars [] env = env
set_env_vars (v ∷ rest) env = set_env_vars rest (set_env_var v env)

-- The container is written back to its index; if it is not found, that index is negative.
unfoldable pub override_containers : Override → List Container → Result AddonError (List Container)
override_containers o containers = elim (find_container_by_name containers o.container_name) [
  | none ↦ panic
  | some (i, c) ↦ ok (set containers i (record c { env = set_env_vars o.env_vars [] }))
]

-- The deployment is a copy, but its containers are shared with the CSV.
unfoldable pub override_deployments :
    Override → List Deployment → Result AddonError (List Deployment)
override_deployments o deployments = elim (find_deployment_by_name deployments o.deployment_name) [
  | none ↦ ok deployments
  | some (i, d) ↦ (do
    containers ← override_containers o d.containers
    ok (set deployments i (record d { containers = containers })))
]

abbrev pub overridden : Option Override → List Deployment → Result AddonError (List Deployment)
overridden none deployments = ok deployments
overridden (some o) deployments = override_deployments o deployments

abbrev pub is_internal : ReleaseChannel → AddonConfig → Bool
is_internal channel addon =
    text_eq channel.name (codes "edge") && text_eq addon.name (codes "managed-api-service")

abbrev pub internal_name : AddonConfig → Text → Text
internal_name addon version = addon.name ++ (codes "-internal.v" ++ version)

-- The names of the internal addon.
unfoldable pub internal_version : AddonConfig → ServiceVersion → Result AddonError ServiceVersion
internal_version addon csv = do
  name_version ← or_panic (second_part csv.name (codes ".v"))
  replaces_version ← or_panic (second_part csv.replaces (codes ".v"))
  ok (record csv {
    name = internal_name addon name_version;
    replaces = internal_name addon replaces_version;
  })

-- An entry that has the old value gets the new one.
unfoldable pub exchange : Text → Text → Text → Map Text → Map Text
exchange key old new annotations = elim (get key annotations) [
  | none ↦ annotations
  | some value ↦ if text_eq value old then put key new annotations else annotations
]

abbrev update_annotation : Text → Map Text → Map Text
update_annotation key annotations =
    exchange key (codes "stable") (codes "edge") (
      exchange key (codes "managed-api-service") (codes "managed-api-service-internal") annotations)

-- The loop over `annotationsToBeUpdated`.
unfoldable pub internal_annotations : Map Text → Map Text
internal_annotations annotations =
    update_annotation (codes "operators.operatorframework.io.bundle.channel.default.v1") (
      update_annotation (codes "operators.operatorframework.io.bundle.channels.v1")
        (update_annotation (codes "operators.operatorframework.io.bundle.package.v1") annotations))

-- Without the mode the index is negative.
unfoldable pub set_single_namespace : List InstallMode → Result AddonError (List InstallMode)
set_single_namespace install_modes =
    elim (find_install_mode install_modes (codes "SingleNamespace")) [
      | none ↦ panic
      | some (i, m) ↦ ok (set install_modes i (record m { supported = true }))
    ]

abbrev pub internal_if : Bool → AddonConfig → ServiceVersion → Result AddonError ServiceVersion
internal_if true addon csv = internal_version addon csv
internal_if false addon csv = ok csv

-- The CSV that is written.
unfoldable pub updated_csv :
    AddonConfig → ReleaseChannel → ServiceVersion → Result AddonError ServiceVersion
updated_csv addon channel csv = do
  deployments ← overridden addon.override csv.deployments
  named ← internal_if (is_internal channel addon) addon (record csv { deployments = deployments })
  install_modes ← set_single_namespace named.install_modes
  ok (record named { install_modes = install_modes })

-- The annotations that are written.
unfoldable pub updated_annotations : AddonConfig → ReleaseChannel → Map Text → Map Text
updated_annotations addon channel annotations =
    if is_internal channel addon then internal_annotations annotations else annotations
