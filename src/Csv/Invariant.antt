-- ===== src/Csv/Invariant.antt =====
-- The variables of the operator's containers keep distinct names through GetAndUpdateOperandImages.
use delorean.Base.{
  ℕ, zero, suc, List, [], ◌∷◌, Bool, Bool-cases, ◌&&◌, ltb, inl, inr, ◌≡◌, ap, subst, length,
  get_elem?, All, Option, none, some, Option-cases, Text, split, Result, ok, err, panic, or_panic,
  bind-ok, Map,
}
use delorean.Csv.{
  EnvVar, Container, Deployment, RelatedImage, Csv, operand_value, updated, env_loop,
  container_loop, add_or_update_env_var, get_operator_deployment_spec, set_operator_deployment_spec,
  include_loop, include_containers, include_images,
}
use delorean.Csv.EnvVars.{IsDistinct, replace_or_append-IsDistinct}
use delorean.Csv.Update.{
  included, update_operand_images, set_related_images, with_related, operator_and_related,
  get_related_images,
}

abbrev pub IsWellNamed : List Container → Type 0
IsWellNamed containers = All (λ (c : Container). IsDistinct c.env) containers

updated-IsDistinct :
    (env_vars : List EnvVar) (name : Text) (value : Option Text)
    → IsDistinct env_vars
    → IsDistinct (updated env_vars name value)
unfolding add_or_update_env_var
updated-IsDistinct env_vars name none distinct = distinct
updated-IsDistinct env_vars name (some value) distinct =
    replace_or_append-IsDistinct _ env_vars distinct

env_loop-IsDistinct :
    (is_ga : Bool) (n i : ℕ) (env_vars result : List EnvVar) (images mapped : Map Text)
    → env_loop is_ga n i env_vars images ≡ ok (result, mapped)
    → IsDistinct env_vars
    → IsDistinct result
unfolding env_loop
env_loop-IsDistinct is_ga zero i env_vars result images mapped e distinct =
    subst IsDistinct (cc e) distinct
env_loop-IsDistinct is_ga (suc n) i env_vars result images mapped e distinct =
    let (env, _, f) = bind-ok (or_panic (get_elem? env_vars i)) _ e in
    let ((value, next), _, g) = bind-ok (operand_value is_ga env.value images) _ f in
    env_loop-IsDistinct is_ga n (suc i) (updated env_vars env.name value) result next mapped g
      (updated-IsDistinct env_vars env.name value distinct)

container_loop-IsWellNamed :
    (is_ga : Bool) (containers result : List Container) (images mapped : Map Text)
    → container_loop is_ga containers images ≡ ok (result, mapped)
    → IsWellNamed containers
    → IsWellNamed result
unfolding container_loop
container_loop-IsWellNamed is_ga [] result images mapped e named =
    let same : [] ≡ result = cc e in subst IsWellNamed same tt
container_loop-IsWellNamed is_ga (c ∷ rest) result images mapped e (distinct, named) =
    let ((env_vars, next), p, f) = bind-ok (env_loop is_ga (length c.env) 0 c.env images) _ e in
    let ((others, last), q, g) = bind-ok (container_loop is_ga rest next) _ f in
    let same : record c { env = env_vars } ∷ others ≡ result = cc g in
    subst IsWellNamed same (
      env_loop-IsDistinct is_ga (length c.env) 0 c.env env_vars images next p distinct,
      container_loop-IsWellNamed is_ga rest others next last q named,
    )

include_loop-IsDistinct :
    (extra : List Text) (env_vars result : List EnvVar)
    → include_loop extra env_vars ≡ ok result
    → IsDistinct env_vars
    → IsDistinct result
unfolding include_loop add_or_update_env_var
include_loop-IsDistinct [] env_vars result e distinct = subst IsDistinct (cc e) distinct
include_loop-IsDistinct (i ∷ extra) env_vars result e distinct =
    let (name, _, f) = bind-ok (or_panic (get_elem? (split i b'=') 0)) _ e in
    let (value, _, g) = bind-ok (or_panic (get_elem? (split i b'=') 1)) _ f in
    include_loop-IsDistinct extra _ result g (replace_or_append-IsDistinct _ env_vars distinct)

include_containers-IsWellNamed :
    (extra : List Text) (containers result : List Container)
    → include_containers extra containers ≡ ok result
    → IsWellNamed containers
    → IsWellNamed result
unfolding include_containers
include_containers-IsWellNamed extra [] result e named =
    let same : [] ≡ result = cc e in subst IsWellNamed same tt
include_containers-IsWellNamed extra (c ∷ rest) result e (distinct, named) =
    let (env_vars, p, f) = bind-ok (include_loop extra c.env) _ e in
    let (others, q, g) = bind-ok (include_containers extra rest) _ f in
    let same : record c { env = env_vars } ∷ others ≡ result = cc g in
    subst IsWellNamed same (
      include_loop-IsDistinct extra c.env env_vars p distinct,
      include_containers-IsWellNamed extra rest others q named,
    )

-- The operator's containers of a CSV, if it has an operator.
unfoldable pub IsCsvWellNamed : Csv → Type 0
IsCsvWellNamed csv =
    (d : Deployment) → get_operator_deployment_spec csv ≡ ok d → IsWellNamed d.containers

-- What the CSV's operator is after it has been set.
set_operator-get :
    (new : Deployment) (csv : Csv)
    → IsWellNamed new.containers
    → IsCsvWellNamed csv
    → IsCsvWellNamed (set_operator_deployment_spec new csv)
unfolding get_operator_deployment_spec set_operator_deployment_spec IsCsvWellNamed
set_operator-get new csv named h d e = elim (Option-cases csv.deployments) [
  | inl q ↦ cc (rw (q, set_operator_deployment_spec) at e)
  | inr ([], q) ↦ cc (rw (q, set_operator_deployment_spec, get_operator_deployment_spec) at e)
  | inr (old ∷ rest, q) ↦
      let same : new ≡ d = cc (rw (q, set_operator_deployment_spec) at e) in
      subst (λ (x : Deployment). IsWellNamed x.containers) same named
]

include_images-IsCsvWellNamed :
    (extra : List Text) (csv result : Csv)
    → include_images extra csv ≡ ok result
    → IsCsvWellNamed csv
    → IsCsvWellNamed result
unfolding include_images IsCsvWellNamed
include_images-IsCsvWellNamed extra csv result e h =
    let (d, p, f) = bind-ok (get_operator_deployment_spec csv) _ e in
    let (containers, q, g) = bind-ok (include_containers extra d.containers) _ f in
    let same : set_operator_deployment_spec (record d { containers = containers }) csv ≡ result =
      cc g in
    subst IsCsvWellNamed same (
      set_operator-get _ csv
        (include_containers-IsWellNamed extra d.containers containers q (h d p)) h)

included-IsCsvWellNamed :
    (extra : List Text) (csv result : Csv)
    → included extra csv ≡ ok result
    → IsCsvWellNamed csv
    → IsCsvWellNamed result
unfolding included
included-IsCsvWellNamed [] csv result e h = subst IsCsvWellNamed (cc e) h
included-IsCsvWellNamed (i ∷ extra) csv result e h =
    include_images-IsCsvWellNamed (i ∷ extra) csv result e h

operator_named :
    (csv : Csv) (d : Deployment)
    → IsCsvWellNamed csv
    → get_operator_deployment_spec csv ≡ ok d
    → IsWellNamed d.containers
unfolding IsCsvWellNamed
operator_named csv d h e = h d e

set_related_images-IsCsvWellNamed :
    (is_ga : Bool) (related : List RelatedImage) (csv : Csv)
    → IsCsvWellNamed csv
    → IsCsvWellNamed (set_related_images is_ga related csv)
unfolding IsCsvWellNamed get_operator_deployment_spec
set_related_images-IsCsvWellNamed is_ga related csv h =
    elim (Bool-cases (is_ga && ltb 0 (length related))) [ inl e ↦ rw e h | inr e ↦ rw e h ]

with_related-ok :
    (r : Result Text Deployment) (related : Result Text (List RelatedImage)) (d : Deployment)
    (images : List RelatedImage)
    → with_related r related ≡ ok (d, images)
    → r ≡ ok d
with_related-ok panic related d images e = cc e
with_related-ok (err message) related d images e = let (_, _, f) = bind-ok related _ e in cc f
with_related-ok (ok x) related d images e =
    let (l, _, f) = bind-ok related _ e in let same : x ≡ d = cc f in ap ok same

-- Whatever images are added and however they are renamed, if the update of the operands' images succeeds and the
-- containers of the CSV's operator had variables with distinct names, they have distinct names afterwards.
pub update_operand_images-IsCsvWellNamed :
    (extra_images : List Text) (is_ga : Bool) (source result : Csv) (images : Map Text)
    → update_operand_images extra_images is_ga source ≡ ok (result, images)
    → IsCsvWellNamed source
    → IsCsvWellNamed result
unfolding update_operand_images
update_operand_images-IsCsvWellNamed extra_images is_ga source result images e h =
    let (csv, p, f) = bind-ok (included extra_images source) _ e in
    let ((d, related), q, g) = bind-ok (operator_and_related csv) _ f in
    let ((containers, mapped), r, k) = bind-ok (container_loop is_ga d.containers []) _ g in
    let named = included-IsCsvWellNamed extra_images source csv p h in
    let same : set_operator_deployment_spec (record d { containers = containers })
          (set_related_images is_ga related csv)
        ≡ result =
      cc k in
    subst IsCsvWellNamed same (
      set_operator-get _ _
        (container_loop-IsWellNamed is_ga d.containers containers [] mapped r (
          operator_named csv d named (
            with_related-ok (get_operator_deployment_spec csv) (get_related_images csv) d related
              q)))
        (set_related_images-IsCsvWellNamed is_ga related csv named))
