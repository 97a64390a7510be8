-- ===== src/OsdAddon/Overrides.antt =====
-- What updateTheCSVManifest (cmd/osdAddonRelease.go) makes of a CSV.
use delorean.Base.{
  second_part, or_panic, ℕ, List, [], ◌∷◌, Bool, true, false, ◌||◌, Bool-cases, set, Option, none,
  some, Option-cases, inl, inr, Text, codes, text_eq, if◌then◌else◌, ok, bind-ok, ◌≡◌, refl, ap,
  sym, subst, ◌∙◌,
}
use delorean.Csv.{
  EnvVar, Container, Deployment, replace_or_append, add_or_update_env_var,
  add_or_update_env_var_with_source,
}
use delorean.Csv.EnvVars.{IsDistinct, find, replace_or_append-IsDistinct, find-replace_or_append}
use delorean.Csv.Find.{
  InstallMode, find_deployment_by_name, find_container_by_name, find_install_mode,
}
use delorean.OsdAddon.{
  ReleaseChannel, DeploymentContainerEnvVar, Override, AddonConfig, ServiceVersion,
}
use delorean.OsdAddon.Manifest.{
  internal_name, set_env_var, set_env_vars, override_containers, override_deployments, overridden,
  is_internal, internal_if, internal_version, set_single_namespace, updated_csv,
}

-- What a variable of the override says: two names are read from a field.
abbrev pub as_env_var : DeploymentContainerEnvVar → EnvVar
as_env_var v = record {
  name = v.name;
  value = v.value;
  field_path =
      if text_eq v.name (codes "WATCH_NAMESPACE") || text_eq v.name (codes "POD_NAME")
      then some v.field_path
      else none;
}

-- The last variable of the override that has the name.
unfoldable pub last_set : Text → List DeploymentContainerEnvVar → Option EnvVar
last_set name [] = none
last_set name (v ∷ rest) = elim (last_set name rest) [
  | some env ↦ some env
  | none ↦ if text_eq v.name name then some (as_env_var v) else none
]

abbrev or_else : Option EnvVar → Option EnvVar → Option EnvVar
or_else (some env) other = some env
or_else none other = other

set_env_var-replace :
    (v : DeploymentContainerEnvVar) (env : List EnvVar)
    → set_env_var v env ≡ replace_or_append (as_env_var v) env
unfolding add_or_update_env_var add_or_update_env_var_with_source
set_env_var-replace v env =
    elim (Bool-cases
      (text_eq v.name (codes "WATCH_NAMESPACE") || text_eq v.name (codes "POD_NAME"))) [
        | inl e ↦ rw e refl
        | inr e ↦ rw e refl
      ]

set_env_vars-IsDistinct :
    (vs : List DeploymentContainerEnvVar) (env : List EnvVar)
    → IsDistinct env
    → IsDistinct (set_env_vars vs env)
unfolding set_env_vars
set_env_vars-IsDistinct [] env h = h
set_env_vars-IsDistinct (v ∷ rest) env h = set_env_vars-IsDistinct rest (set_env_var v env) (
    subst IsDistinct (sym (set_env_var-replace v env))
      (replace_or_append-IsDistinct (as_env_var v) env h))

or_else-none : (o : Option EnvVar) → or_else o none ≡ o
or_else-none none = refl
or_else-none (some env) = refl

last_or_before :
    (last : Option EnvVar) (same : Bool) (v : EnvVar) (before : Option EnvVar)
    → or_else last (if same then some v else before)
      ≡ or_else (elim last [ some env ↦ some env | none ↦ if same then some v else none ]) before
last_or_before (some env) same v before = refl
last_or_before none true v before = refl
last_or_before none false v before = refl

find-set_env_vars :
    (name : Text) (vs : List DeploymentContainerEnvVar) (env : List EnvVar)
    → find name (set_env_vars vs env) ≡ or_else (last_set name vs) (find name env)
unfolding set_env_vars last_set
find-set_env_vars name [] env = refl
find-set_env_vars name (v ∷ rest) env =
    find-set_env_vars name rest (set_env_var v env)
    ∙ ap (λ l. or_else (last_set name rest) (find name l)) (set_env_var-replace v env)
    ∙ ap (or_else (last_set name rest)) (find-replace_or_append (as_env_var v) name env)
    ∙ last_or_before (last_set name rest) (text_eq v.name name) (as_env_var v) (find name env)

-- The container of the override in a deployment, with the variables that it has afterwards.
abbrev pub HasOverride : Override → Deployment → List Container → Type 0
HasOverride o d containers =
    (j : ℕ) × (c : Container) × (env : List EnvVar) × (find_container_by_name d.containers
        o.container_name
      ≡ some (j, c))
    × (containers ≡ set d.containers j (record c { env = env }))
    × IsDistinct env
    × ((name : Text) → find name env ≡ last_set name o.env_vars)

override_containers-HasOverride :
    (o : Override) (d : Deployment) (containers : List Container)
    → override_containers o d.containers ≡ ok containers
    → HasOverride o d containers
unfolding override_containers find
override_containers-HasOverride o d containers e =
    elim (Option-cases (find_container_by_name d.containers o.container_name)) [
      | inl q ↦ cc (rw (q, override_containers) at e)
      | inr ((j, c), q) ↦
          let same : set d.containers j (record c { env = set_env_vars o.env_vars [] })
              ≡ containers =
            cc (rw (q, override_containers) at e) in
          (
            j,
            c,
            set_env_vars o.env_vars [],
            q,
            sym same,
            set_env_vars-IsDistinct o.env_vars [] tt,
            λ name. find-set_env_vars name o.env_vars [] ∙ or_else-none (last_set name o.env_vars),
          )
    ]

override_deployments-HasOverride :
    (o : Override) (deployments result : List Deployment) (i : ℕ) (d : Deployment)
    → find_deployment_by_name deployments o.deployment_name ≡ some (i, d)
    → override_deployments o deployments ≡ ok result
    → (containers : List Container) × (result
        ≡ set deployments i (record d { containers = containers }))
      × HasOverride o d containers
unfolding override_deployments
override_deployments-HasOverride o deployments result i d q e =
    let (containers, p, f) =
      bind-ok (override_containers o d.containers) _ (rw (q, override_deployments) at e) in
    let same : set deployments i (record d { containers = containers }) ≡ result = cc f in
    (containers, sym same, override_containers-HasOverride o d containers p)

-- The mode that is found, now supported.
abbrev pub HasSingleNamespace : List InstallMode → List InstallMode → Type 0
HasSingleNamespace before after =
    (k : ℕ) × (m : InstallMode) × (find_install_mode before (codes "SingleNamespace") ≡ some (k, m))
    × (after ≡ set before k (record m { supported = true }))

set_single_namespace-HasSingleNamespace :
    (before result : List InstallMode)
    → set_single_namespace before ≡ ok result
    → HasSingleNamespace before result
unfolding set_single_namespace
set_single_namespace-HasSingleNamespace before result e =
    elim (Option-cases (find_install_mode before (codes "SingleNamespace"))) [
      | inl q ↦ cc (rw (q, set_single_namespace) at e)
      | inr ((k, m), q) ↦
          let same : set before k (record m { supported = true }) ≡ result =
            cc (rw (q, set_single_namespace) at e) in
          (k, m, q, sym same)
    ]

-- The names of the internal addon leave deployments and modes alone.
internal_if-same :
    (internal : Bool) (addon : AddonConfig) (csv result : ServiceVersion)
    → internal_if internal addon csv ≡ ok result
    → (result.deployments ≡ csv.deployments) × (result.install_modes ≡ csv.install_modes)
unfolding internal_version
internal_if-same false addon csv result e =
    let same : csv ≡ result = cc e in
    (
      ap (λ (v : ServiceVersion). v.deployments) (sym same),
      ap (λ (v : ServiceVersion). v.install_modes) (sym same),
    )
internal_if-same true addon csv result e =
    let (name_version, _, f) = bind-ok (or_panic (second_part csv.name (codes ".v"))) _ e in
    let (replaces_version, _, g) = bind-ok (or_panic (second_part csv.replaces (codes ".v"))) _ f in
    let same : record csv {
      name = internal_name addon name_version;
      replaces = internal_name addon replaces_version;
    }
        ≡ result =
      cc g in
    (
      ap (λ (v : ServiceVersion). v.deployments) (sym same),
      ap (λ (v : ServiceVersion). v.install_modes) (sym same),
    )

-- If a CSV is updated for an addon with an override whose deployment is found, the container of the override, which
-- must be there, has exactly the override's variables, the last of each name; and of the install modes SingleNamespace,
-- which must be there, is supported. All else in deployments and install modes is as it was.
pub updated_csv-HasOverride :
    (addon : AddonConfig) (channel : ReleaseChannel) (csv result : ServiceVersion) (o : Override)
    (i : ℕ) (d : Deployment)
    → addon.override ≡ some o
    → find_deployment_by_name csv.deployments o.deployment_name ≡ some (i, d)
    → updated_csv addon channel csv ≡ ok result
    → ((containers : List Container) × (result.deployments
          ≡ set csv.deployments i (record d { containers = containers }))
        × HasOverride o d containers)
      × HasSingleNamespace csv.install_modes result.install_modes
unfolding updated_csv
updated_csv-HasOverride addon channel csv result o i d h q e =
    let (deployments, p, f) = bind-ok (overridden addon.override csv.deployments) _ e in
    let (named, r, g) =
      bind-ok
        (internal_if (is_internal channel addon) addon (record csv { deployments = deployments })) _
        f in
    let (install_modes, s, k) = bind-ok (set_single_namespace named.install_modes) _ g in
    let same : record named { install_modes = install_modes } ≡ result = cc k in
    let (same_deployments, same_modes) = internal_if-same _ addon _ named r in
    let (containers, t, has) =
      override_deployments-HasOverride o csv.deployments deployments i d q
        (subst (λ x. overridden x csv.deployments ≡ ok deployments) h p) in
    (
      (
        containers,
        ap (λ (v : ServiceVersion). v.deployments) (sym same) ∙ same_deployments ∙ t,
        has,
      ),
      subst (λ l. HasSingleNamespace l result.install_modes) same_modes
          (subst (λ (v : ServiceVersion). HasSingleNamespace named.install_modes v.install_modes)
            same (set_single_namespace-HasSingleNamespace named.install_modes install_modes s)),
    )
