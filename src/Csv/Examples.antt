-- ===== src/Csv/Examples.antt =====
-- A CSV with an image of the production registry.
use delorean.Images.{build_osbs_image, strip_sha_or_tag, build_delorean_image}
use delorean.Base.{
  subst, replace_first, put, cut, split, [], ◌∷◌, true, false, none, some, codes, List, Text, Map,
  ◌≡◌, refl, ok, err, panic, text_eq, if◌then◌else◌,
}
use delorean.Csv.{
  set_operator_deployment_spec, container_loop, get_operator_deployment_spec, replace_or_append,
  add_image_mapping, mirrored, matches, operand_value, EnvVar, Deployment, Csv, env_loop,
  add_or_update_env_var, process_stage_to_prod_image,
}
use delorean.Csv.EnvVars.{IsDistinct, find, add_or_update_env_var-IsDistinct}
use delorean.Csv.Operands.{replaced, env_loop-replaced}
use delorean.Csv.Update.{
  update_operator_image, CsvFiles, update_operand_images, get_and_update_operand_images,
  get_and_update_operator_image,
}
use delorean.Csv.Invariant.{IsWellNamed, IsCsvWellNamed, update_operand_images-IsCsvWellNamed}

abbrev variable : Text → Text → EnvVar
variable name value = record { name = name; value = value; field_path = none }

abbrev variables : Text → List EnvVar
variables image = variable (codes "A") (codes "x") ∷ variable (codes "IMAGE") image ∷ []

abbrev operator : Text → Deployment
operator image = record {
  name = codes "op";
  containers = record { name = codes "c"; image = image; env = variables image } ∷ [];
}

abbrev csv : Text → Csv
csv image = record {
  annotations = [];
  deployments = some (some (operator image) ∷ []);
  related_images = some [];
}

abbrev prod_image : Text
prod_image = codes "registry.redhat.io/r/op:1"

abbrev delorean_image : Text
delorean_image = codes "quay.io/integreatly/delorean:r-op_1"

abbrev mirror : Map Text
mirror = (codes "registry-proxy.engineering.redhat.com/rh-osbs/r-op:1", delorean_image) ∷ []

renames : env_loop false 2 0 (variables prod_image) [] ≡ ok (variables delorean_image, mirror)
unfolding env_loop operand_value matches mirrored build_delorean_image split text_eq
    strip_sha_or_tag cut build_osbs_image add_image_mapping add_or_update_env_var put
    replace_or_append
renames = refl

to_prod :
    process_stage_to_prod_image (codes "registry.stage.redhat.io/r/op")
    ≡ codes "registry.redhat.io/r/op"
unfolding process_stage_to_prod_image replace_first
to_prod = refl

abbrev files : Csv → CsvFiles
files c = record { get_current_csv = λ d. ok (c, codes "op.csv.yaml"); write_yaml = λ _ _. true }

-- A CSV whose deployments cannot be read makes the operands' update panic, and the operator's fail.
no_deployments :
    (get_and_update_operand_images
      (files (record (csv prod_image) { deployments = none }))
      []
      []
      true).1
    ≡ panic
unfolding get_and_update_operand_images update_operand_images get_operator_deployment_spec
no_deployments = refl

no_operator :
    (get_and_update_operator_image
      (files (record (csv prod_image) { deployments = none }))
      []
      []
      true).1
    ≡ err (codes "not a list")
unfolding get_and_update_operator_image update_operator_image get_operator_deployment_spec
no_operator = refl

updates :
    update_operand_images [] false (csv prod_image)
    ≡ ok (
      record (csv prod_image) {
        deployments = some (
            some (record (operator prod_image) {
              containers =
                  record { name = codes "c"; image = prod_image; env = variables delorean_image }
                  ∷ [];
            })
            ∷ []);
      },
      mirror,
    )
unfolding update_operand_images get_operator_deployment_spec container_loop env_loop operand_value
    matches mirrored build_delorean_image split text_eq strip_sha_or_tag cut build_osbs_image
    add_image_mapping set_operator_deployment_spec put add_or_update_env_var replace_or_append
updates = refl

distinct : IsDistinct (variables prod_image)
unfolding text_eq
distinct = ((refl, tt), (tt, tt))

add_or_update_env_var-IsDistinct_example :
    IsDistinct (add_or_update_env_var (variables prod_image) (codes "IMAGE") (codes "y"))
    × ((other : Text)
        → find other (add_or_update_env_var (variables prod_image) (codes "IMAGE") (codes "y")) ≡ (
            if text_eq (codes "IMAGE") other
            then some (record { name = codes "IMAGE"; value = codes "y"; field_path = none })
            else find other (variables prod_image)))
add_or_update_env_var-IsDistinct_example =
    add_or_update_env_var-IsDistinct (variables prod_image) (codes "IMAGE") (codes "y") distinct

env_loop-replaced_example :
    env_loop false 2 0 (variables prod_image) [] ≡ replaced false (variables prod_image) []
env_loop-replaced_example = env_loop-replaced false (variables prod_image) [] distinct

well_named : IsCsvWellNamed (csv prod_image)
unfolding IsCsvWellNamed get_operator_deployment_spec
well_named d e =
    let same : operator prod_image ≡ d = cc e in
    subst (λ (x : Deployment). IsWellNamed x.containers) same (distinct, tt)

update_operand_images-IsCsvWellNamed_example : IsCsvWellNamed (record (csv prod_image) {
  deployments = some (
      some (record (operator prod_image) {
        containers =
            record { name = codes "c"; image = prod_image; env = variables delorean_image } ∷ [];
      })
      ∷ []);
})
update_operand_images-IsCsvWellNamed_example =
    update_operand_images-IsCsvWellNamed [] false (csv prod_image) _ mirror updates well_named
