-- ===== src/Csv/Update.antt =====
-- pkg/utils/csv.go: the updates of the current CSV's images, and the searches in a CSV.
use delorean.Base.{
  List, [], ◌∷◌, Bool, true, false, ◌&&◌, ◌||◌, ltb, length, none, some, Text, codes, contains_text,
  replace_first, if◌then◌else◌, Result, ok, err, panic, ◌>>=◌, Map, get, put,
}
use delorean.Csv.{
  build_delorean_image, Container, Deployment, RelatedImage, Csv, re_prod, re_stage,
  process_stage_to_prod_image, mirrored, container_loop, get_operator_deployment_spec,
  set_operator_deployment_spec, include_images,
}

-- The current CSV of a directory with its file, and whether writing it succeeds.
pub record CsvFiles : Type 0 where
  pub get_current_csv : Text → Result Text (Csv × Text)
  pub write_yaml : Csv → Text → Bool

-- What is written, and what the function returns.
abbrev pub Written : Type 0 → Type 0
Written A = List (Csv × Text) × Result Text A

abbrev write_failed : Text
write_failed = codes "cannot write"

abbrev writing : {A : Type 0} → CsvFiles → Text → Result Text (Csv × A) → Written A
writing files fp panic = ([], panic)
writing files fp (err e) = ([], err e)
writing files fp (ok (csv, a)) =
    ((csv, fp) ∷ [], if files.write_yaml csv fp then ok a else err write_failed)

abbrev update_current : {A : Type 0} → CsvFiles → Text → (Csv → Result Text (Csv × A)) → Written A
update_current files manifest_dir update = elim (files.get_current_csv manifest_dir) [
  | panic ↦ ([], panic)
  | err e ↦ ([], err e)
  | ok (csv, fp) ↦ writing files fp (update csv)
]

abbrev pub get_related_images : Csv → Result Text (List RelatedImage)
get_related_images csv = elim csv.related_images [
  | none ↦ err (codes "related images")
  | some images ↦ ok images
]

-- An error of `GetOperatorDeploymentSpec` is overwritten before it is looked at; the deployment is nil then.
abbrev pub with_related :
    Result Text Deployment
    → Result Text (List RelatedImage)
    → Result Text (Deployment × List RelatedImage)
with_related panic related = panic
with_related (err message) related = do _ ← related; panic
with_related (ok deployment) related = do images ← related; ok (deployment, images)

abbrev pub operator_and_related : Csv → Result Text (Deployment × List RelatedImage)
operator_and_related csv = with_related (get_operator_deployment_spec csv) (get_related_images csv)

abbrev pub related_to_prod : RelatedImage → RelatedImage
related_to_prod i =
    if contains_text i.image (codes "registry.stage.redhat.io")
    then record i {
      image = replace_first i.image (codes "registry.stage.redhat.io") (codes "registry.redhat.io");
    }
    else i

abbrev related_loop : List RelatedImage → List RelatedImage
related_loop [] = []
related_loop (i ∷ rest) = related_to_prod i ∷ related_loop rest

abbrev pub set_related_images : Bool → List RelatedImage → Csv → Csv
set_related_images is_ga related csv =
    if is_ga && ltb 0 (length related)
    then record csv { related_images = some (related_loop related) }
    else csv

unfoldable pub included : List Text → Csv → Result Text Csv
included [] csv = ok csv
included (i ∷ extra) csv = include_images (i ∷ extra) csv

-- The body of `GetAndUpdateOperandImages` between the reading and the writing of the CSV.
unfoldable pub update_operand_images : List Text → Bool → Csv → Result Text (Csv × Map Text)
unfolding included
update_operand_images extra_images is_ga source = do
  csv ← included extra_images source
  (deployment, related) ← operator_and_related csv
  (containers, images) ← container_loop is_ga deployment.containers []
  ok (
    set_operator_deployment_spec (record deployment { containers = containers })
        (set_related_images is_ga related csv),
    images,
  )

-- `GetAndUpdateOperandImages`
unfoldable pub get_and_update_operand_images :
    CsvFiles → Text → List Text → Bool → Written (Map Text)
get_and_update_operand_images files manifest_dir extra_images is_ga =
    update_current files manifest_dir (update_operand_images extra_images is_ga)

-- The first container, which must be there.
abbrev first_image : List Container → Result Text (List Container)
first_image [] = panic
first_image (c ∷ rest) = ok (
    (if re_stage c.image then record c { image = process_stage_to_prod_image c.image } else c)
    ∷ rest)

abbrev annotation : Csv → Text
annotation csv = elim (get (codes "containerImage") csv.annotations) [
  | none ↦ []
  | some image ↦ image
]

abbrev annotate : Text → Csv → Csv
annotate image csv = record csv { annotations = put (codes "containerImage") image csv.annotations }

abbrev to_prod_annotation : Csv → Csv
to_prod_annotation csv =
    if re_stage (annotation csv)
    then annotate (process_stage_to_prod_image (annotation csv)) csv
    else csv

unfoldable pub image_loop : List Container → Map Text → Result Text (List Container × Map Text)
image_loop [] images = ok ([], images)
image_loop (c ∷ rest) images =
    if re_stage c.image || re_prod c.image
    then (do
      (image, mapped) ← mirrored c.image images
      (others, all_mapped) ← image_loop rest mapped
      ok (record c { image = image } ∷ others, all_mapped))
    else (do (others, all_mapped) ← image_loop rest images; ok (c ∷ others, all_mapped))

abbrev to_delorean_annotation : Csv → Result Text Csv
to_delorean_annotation csv =
    if re_stage (annotation csv) || re_prod (annotation csv)
    then (do image ← build_delorean_image (annotation csv); ok (annotate image csv))
    else ok csv

-- The body of `GetAndUpdateOperatorImage`.
unfoldable pub update_operator_image : Map Text → Bool → Csv → Result Text (Csv × Map Text)
update_operator_image images true csv = do
  deployment ← get_operator_deployment_spec csv
  containers ← first_image deployment.containers
  ok (
    set_operator_deployment_spec (record deployment { containers = containers })
        (to_prod_annotation csv),
    images,
  )
update_operator_image images false csv = do
  deployment ← get_operator_deployment_spec csv
  (containers, mapped) ← image_loop deployment.containers images
  annotated ← to_delorean_annotation csv
  ok (
    set_operator_deployment_spec (record deployment { containers = containers }) annotated,
    mapped,
  )

unfoldable pub get_and_update_operator_image :
    CsvFiles → Text → Map Text → Bool → Written (Map Text)
get_and_update_operator_image files manifest_dir images is_ga =
    update_current files manifest_dir (update_operator_image images is_ga)
