-- ===== src/Csv/Operands.antt =====
-- The loop over the variables of a container (GetAndUpdateOperandImages) reads the array that it writes.
use delorean.Base.{
  suc, List, [], ◌∷◌, ◌++◌, Bool, inl, inr, ◌≡◌, refl, sym, ap, subst, ◌∙◌, length, get_elem?,
  Option, none, some, Text, append_assoc, Result, ok, err, panic, ◌>>=◌, Result-cases, Map,
}
use delorean.Csv.{EnvVar, operand_value, updated, env_loop, add_or_update_env_var}
use delorean.Csv.EnvVars.{IsDistinct, IsNew-before, IsDistinct-middle, replace_or_append-middle}

abbrev pub with_value : EnvVar → Option Text → EnvVar
with_value env none = env
with_value env (some value) = record { name = env.name; value = value; field_path = none }

abbrev pub onto :
    {A : Type 0} → List A → Result Text (List A × Map Text) → Result Text (List A × Map Text)
onto before r = do (rest, images) ← r; ok (before ++ rest, images)

-- Each variable for itself, in order, with the images that are to be mirrored.
unfoldable pub replaced : Bool → List EnvVar → Map Text → Result Text (List EnvVar × Map Text)
replaced is_ga [] images = ok ([], images)
replaced is_ga (env ∷ rest) images = do
  (value, mapped) ← operand_value is_ga env.value images
  onto (with_value env value ∷ []) (replaced is_ga rest mapped)

onto_nothing : {A : Type 0} (r : Result Text (List A × Map Text)) → onto [] r ≡ r
onto_nothing panic = refl
onto_nothing (err e) = refl
onto_nothing (ok (rest, images)) = refl

onto-onto :
    {A : Type 0} (before : List A) (a : A) (r : Result Text (List A × Map Text))
    → onto (before ++ (a ∷ [])) r ≡ onto before (onto (a ∷ []) r)
onto-onto before a panic = refl
onto-onto before a (err e) = refl
onto-onto before a (ok (rest, images)) =
    ap (λ l. ok (l, images)) (append_assoc before (a ∷ []) rest)

get_elem?-middle :
    {A : Type 0} (before : List A) (a : A) (rest : List A)
    → get_elem? (before ++ (a ∷ rest)) (length before) ≡ some a
get_elem?-middle [] a rest = refl
get_elem?-middle (b ∷ before) a rest = get_elem?-middle before a rest

length-snoc :
    {A : Type 0} (before : List A) (a : A) → length (before ++ (a ∷ [])) ≡ suc (length before)
length-snoc [] a = refl
length-snoc (b ∷ before) a = ap suc (length-snoc before a)

-- The array after a variable has been read.
updated-middle :
    (before : List EnvVar) (env : EnvVar) (rest : List EnvVar) (value : Option Text)
    → IsDistinct (before ++ (env ∷ rest))
    → (updated (before ++ (env ∷ rest)) env.name value ≡ before ++ (with_value env value ∷ rest))
      × IsDistinct (before ++ (with_value env value ∷ rest))
unfolding add_or_update_env_var
updated-middle before env rest none distinct = (refl, distinct)
updated-middle before env rest (some value) distinct = (
  replace_or_append-middle _ before env rest refl (IsNew-before before env rest distinct),
  IsDistinct-middle _ before env rest refl distinct,
)

-- What is left of the loop, whatever has been read before.
abbrev IsReplaced : Bool → List EnvVar → Type 0
IsReplaced is_ga rest =
    (before : List EnvVar) (images : Map Text)
    → IsDistinct (before ++ rest)
    → env_loop is_ga (length rest) (length before) (before ++ rest) images
      ≡ onto before (replaced is_ga rest images)

-- One turn, once the value has been found.
turn :
    (is_ga : Bool) (before : List EnvVar) (env : EnvVar) (rest : List EnvVar) (value : Option Text)
    (images : Map Text)
    → IsReplaced is_ga rest
    → IsDistinct (before ++ (env ∷ rest))
    → env_loop is_ga
        (length rest)
        (suc (length before))
        (updated (before ++ (env ∷ rest)) env.name value)
        images
      ≡ onto before (onto (with_value env value ∷ []) (replaced is_ga rest images))
turn is_ga before env rest value images later distinct =
    let v = with_value env value in
    let (same, still_distinct) = updated-middle before env rest value distinct in
    let moved : (before ++ (v ∷ [])) ++ rest ≡ before ++ (v ∷ rest) =
      append_assoc before (v ∷ []) rest in
    ap (λ l. env_loop is_ga (length rest) (suc (length before)) l images) (same ∙ sym moved)
    ∙ ap (λ n. env_loop is_ga (length rest) n ((before ++ (v ∷ [])) ++ rest) images)
        (sym (length-snoc before v))
    ∙ later (before ++ (v ∷ [])) images (subst IsDistinct (sym moved) still_distinct)
    ∙ onto-onto before v (replaced is_ga rest images)

loop_on : (is_ga : Bool) (rest : List EnvVar) → IsReplaced is_ga rest
unfolding env_loop replaced
loop_on is_ga [] before images distinct = refl
loop_on is_ga (env ∷ rest) before images distinct =
    rw (get_elem?-middle before env rest)
      (elim (Result-cases (operand_value is_ga env.value images)) [
        | inl e ↦ rw e refl
        | inr (inr (message, e)) ↦ rw e refl
        | inr (inl ((value, mapped), e)) ↦
            rw e (turn is_ga before env rest value mapped (loop_on is_ga rest) distinct)
      ])

-- If no two variables of a container have the same name, the loop, although it searches the array it reads for the
-- name, replaces each variable in its own place and collects the images in order.
pub env_loop-replaced :
    (is_ga : Bool) (env_vars : List EnvVar) (images : Map Text)
    → IsDistinct env_vars
    → env_loop is_ga (length env_vars) 0 env_vars images ≡ replaced is_ga env_vars images
env_loop-replaced is_ga env_vars images distinct =
    loop_on is_ga env_vars [] images distinct ∙ onto_nothing (replaced is_ga env_vars images)
