-- ===== src/Csv.antt =====
-- pkg/utils/csv.go and pkg/utils/env.go: the images that a cluster service version (CSV) names. What the
-- conversions of an unstructured object give, and reading and writing of files, is the parameter.
pub mod EnvVars
pub mod Operands
pub mod Bundles
pub mod Current
pub mod Find
pub mod Update
pub mod Invariant
mod Examples
mod PackageExamples
use delorean.Base.{
  ℕ, zero, suc, List, [], ◌∷◌, ◌++◌, Bool, true, false, ◌||◌, not, ◌==◌, length, Option, none, some,
  Text, codes, text_eq, split, contains_text, replace_first, get_elem?, set, if◌then◌else◌, Result,
  ok, err, panic, or_panic, ◌>>=◌, Map, get, put,
}
use delorean.Images.{build_delorean_image, build_osbs_image}

pub record EnvVar : Type 0 where
  pub name : Text
  pub value : Text
  -- the field that the value is read from
  pub field_path : Option Text

pub record Container : Type 0 where
  pub name : Text
  pub image : Text
  pub env : List EnvVar

pub record Deployment : Type 0 where
  pub name : Text
  pub containers : List Container

pub record RelatedImage : Type 0 where
  pub name : Text
  pub image : Text

pub record Csv : Type 0 where
  pub annotations : Map Text
  -- `none` where what stands there is no list, and of an element that is no deployment
  pub deployments : Option (List (Option Deployment))
  -- `none` where they cannot be read
  pub related_images : Option (List RelatedImage)

-- The search for the variable's name: the first that has it is overwritten.
unfoldable pub replace_or_append : EnvVar → List EnvVar → List EnvVar
replace_or_append v [] = v ∷ []
replace_or_append v (env ∷ rest) =
    if text_eq env.name v.name then v ∷ rest else env ∷ replace_or_append v rest

-- `AddOrUpdateEnvVar`
unfoldable pub add_or_update_env_var : List EnvVar → Text → Text → List EnvVar
add_or_update_env_var env_vars env_name env_val =
    replace_or_append (record { name = env_name; value = env_val; field_path = none }) env_vars

-- `AddOrUpdateEnvVarWithSource`
unfoldable pub add_or_update_env_var_with_source : List EnvVar → Text → Text → Text → List EnvVar
add_or_update_env_var_with_source env_vars env_name env_val field_path =
    replace_or_append (record { name = env_name; value = env_val; field_path = some field_path })
      env_vars

-- The regular expressions are texts in which a dot stands for any byte of a line; what they end with may be empty.
stands_first : Text → Text → Bool
stands_first [] s = true
stands_first (p ∷ pattern) [] = false
stands_first (p ∷ pattern) (c ∷ s) =
    let rest = stands_first pattern s in
    if (if p == b'.' then not (c == b'\n') else p == c) then rest else false

unfoldable pub matches : Text → Text → Bool
unfolding stands_first
matches pattern [] = stands_first pattern []
matches pattern (c ∷ s) =
    let later = matches pattern s in if stands_first pattern (c ∷ s) then true else later

abbrev pub re_prod : Text → Bool
re_prod = matches (codes "registry.redhat.io/")

abbrev pub re_stage : Text → Bool
re_stage = matches (codes "registry.stage.redhat.io")

abbrev pub re_delorean : Text → Bool
re_delorean = matches (codes "quay.io/integreatly/delorean")

-- `processStageToProdImage`
unfoldable pub process_stage_to_prod_image : Text → Text
process_stage_to_prod_image stage_image = replace_first stage_image (codes ".stage") []

-- `addImageMapping`
unfoldable pub add_image_mapping : Text → Map Text → Result Text (Map Text)
add_image_mapping mirror images = do
  image ← or_panic (get_elem? (split mirror b' ') 0)
  target ← or_panic (get_elem? (split mirror b' ') 1)
  ok (put image target images)

-- The new name of an image, which is mirrored from the OSBS registry.
unfoldable pub mirrored : Text → Map Text → Result Text (Text × Map Text)
mirrored image images = do
  delorean_image ← build_delorean_image image
  osbs_image ← build_osbs_image image
  mapped ← add_image_mapping (osbs_image ++ (codes " " ++ delorean_image)) images
  ok (delorean_image, mapped)

abbrev renamed : Result Text (Text × Map Text) → Result Text (Option Text × Map Text)
renamed r = do (image, images) ← r; ok (some image, images)

-- The body of the loop over the variables of a container: the new value, if there is one.
unfoldable pub operand_value : Bool → Text → Map Text → Result Text (Option Text × Map Text)
operand_value true value images =
    ok (if re_stage value then some (process_stage_to_prod_image value) else none, images)
operand_value false value images =
    if re_delorean value
    then ok (none, images)
    else if re_prod value || re_stage value
    then renamed (mirrored value images)
    else ok (none, images)

abbrev pub updated : List EnvVar → Text → Option Text → List EnvVar
updated env_vars name none = env_vars
updated env_vars name (some value) = add_or_update_env_var env_vars name value

-- The loop reads and overwrites the same array: the first argument is how many elements are left, the second is the
-- index of the next.
unfoldable pub env_loop :
    Bool → ℕ → ℕ → List EnvVar → Map Text → Result Text (List EnvVar × Map Text)
env_loop is_ga zero i env_vars images = ok (env_vars, images)
env_loop is_ga (suc n) i env_vars images = do
  env ← or_panic (get_elem? env_vars i)
  (value, mapped) ← operand_value is_ga env.value images
  env_loop is_ga n (suc i) (updated env_vars env.name value) mapped

unfoldable pub container_loop :
    Bool → List Container → Map Text → Result Text (List Container × Map Text)
container_loop is_ga [] images = ok ([], images)
container_loop is_ga (c ∷ rest) images = do
  (env_vars, mapped) ← env_loop is_ga (length c.env) 0 c.env images
  (others, all_mapped) ← container_loop is_ga rest mapped
  ok (record c { env = env_vars } ∷ others, all_mapped)

-- `GetOperatorDeploymentSpec`: the first deployment.
unfoldable pub get_operator_deployment_spec : Csv → Result Text Deployment
get_operator_deployment_spec csv = elim csv.deployments [
  | none ↦ err (codes "not a list")
  | some [] ↦ panic
  | some (none ∷ rest) ↦ err (codes "unable to convert object to StrategyDeploymentSpec")
  | some (some d ∷ rest) ↦ ok d
]

-- `SetOperatorDeploymentSpec`, whose error is never looked at.
unfoldable pub set_operator_deployment_spec : Deployment → Csv → Csv
set_operator_deployment_spec d csv = elim csv.deployments [
  | some (old ∷ rest) ↦ record csv { deployments = some (some d ∷ rest) }
  | _ ↦ csv
]

include_loop : List Text → List EnvVar → Result Text (List EnvVar)
include_loop [] env_vars = ok env_vars
include_loop (i ∷ extra) env_vars = do
  name ← or_panic (get_elem? (split i b'=') 0)
  value ← or_panic (get_elem? (split i b'=') 1)
  include_loop extra (add_or_update_env_var env_vars name value)

include_containers : List Text → List Container → Result Text (List Container)
unfolding include_loop
include_containers extra [] = ok []
include_containers extra (c ∷ rest) = do
  env_vars ← include_loop extra c.env
  others ← include_containers extra rest
  ok (record c { env = env_vars } ∷ others)

-- `includeImages`
unfoldable pub include_images : List Text → Csv → Result Text Csv
unfolding include_containers
include_images extra csv = do
  d ← get_operator_deployment_spec csv
  containers ← include_containers extra d.containers
  ok (set_operator_deployment_spec (record d { containers = containers }) csv)
