-- ===== src/Csv/EnvVars.antt =====
-- Setting a variable of a container (pkg/utils/env.go).
use delorean.Base.{
  List, [], ◌∷◌, ◌++◌, false, Bool-cases, inl, inr, ◌≡◌, refl, sym, ap, subst, ◌∙◌, Option, none,
  some, Text, text_eq, text_eq_iff, text_eq_refl, if◌then◌else◌, All, arith,
}
use delorean.Csv.{EnvVar, replace_or_append, add_or_update_env_var}

pub text_eq_comm : (s t : Text) → text_eq s t ≡ text_eq t s
text_eq_comm s t = ground (arith, text_eq_iff s t, text_eq_iff t s)

-- No variable has the name.
abbrev pub IsNew : Text → List EnvVar → Type 0
IsNew name env_vars = All (λ (env : EnvVar). text_eq env.name name ≡ false) env_vars

-- No two variables have the same name.
abbrev pub IsDistinct : List EnvVar → Type 0
IsDistinct [] = Unit
IsDistinct (env ∷ rest) = IsNew env.name rest × IsDistinct rest

-- The variable that has the name.
unfoldable pub find : Text → List EnvVar → Option EnvVar
find name [] = none
find name (env ∷ rest) = if text_eq env.name name then some env else find name rest

replace_or_append-IsNew :
    (name : Text) (v : EnvVar) (env_vars : List EnvVar)
    → text_eq v.name name ≡ false
    → IsNew name env_vars
    → IsNew name (replace_or_append v env_vars)
unfolding replace_or_append
replace_or_append-IsNew name v [] h _ = (h, tt)
replace_or_append-IsNew name v (env ∷ rest) h (p, hs) =
    elim (Bool-cases (text_eq env.name v.name)) [
      | inl e ↦ rw e (h, hs)
      | inr e ↦ rw e (p, replace_or_append-IsNew name v rest h hs)
    ]

pub replace_or_append-IsDistinct :
    (v : EnvVar) (env_vars : List EnvVar)
    → IsDistinct env_vars
    → IsDistinct (replace_or_append v env_vars)
unfolding replace_or_append
replace_or_append-IsDistinct v [] _ = (tt, tt)
replace_or_append-IsDistinct v (env ∷ rest) (new, distinct) =
    elim (Bool-cases (text_eq env.name v.name)) [
      | inl e ↦ rw e (subst (λ n. IsNew n rest) ((text_eq_iff env.name v.name).0 e) new, distinct)
      | inr e ↦ rw e (
        replace_or_append-IsNew env.name v rest (text_eq_comm v.name env.name ∙ e) new,
        replace_or_append-IsDistinct v rest distinct,
      )
    ]

pub find-replace_or_append :
    (v : EnvVar) (other : Text) (env_vars : List EnvVar)
    → find other (replace_or_append v env_vars)
      ≡ (if text_eq v.name other then some v else find other env_vars)
unfolding find replace_or_append
find-replace_or_append v other [] = refl
find-replace_or_append v other (env ∷ rest) = ground (
  arith,
  text_eq_iff env.name v.name,
  text_eq_iff env.name other,
  text_eq_iff v.name other,
  find-replace_or_append v other rest,
)

-- Setting a variable of a list without two of one name leaves such a list; it has the variable's new value, which is
-- read from no field, and every other variable as before.
pub add_or_update_env_var-IsDistinct :
    (env_vars : List EnvVar) (env_name env_val : Text)
    → IsDistinct env_vars
    → IsDistinct (add_or_update_env_var env_vars env_name env_val)
      × ((other : Text)
          → find other (add_or_update_env_var env_vars env_name env_val) ≡ (
              if text_eq env_name other
              then some (record { name = env_name; value = env_val; field_path = none })
              else find other env_vars))
unfolding add_or_update_env_var
add_or_update_env_var-IsDistinct env_vars env_name env_val distinct = (
  replace_or_append-IsDistinct _ env_vars distinct,
  λ other. find-replace_or_append _ other env_vars,
)

-- In the middle of a list, the variable that has the name is replaced in its place.
pub replace_or_append-middle :
    (v : EnvVar) (before : List EnvVar) (env : EnvVar) (rest : List EnvVar)
    → env.name ≡ v.name
    → IsNew env.name before
    → replace_or_append v (before ++ (env ∷ rest)) ≡ before ++ (v ∷ rest)
unfolding replace_or_append
replace_or_append-middle v [] env rest e _ = rw (e, text_eq_refl) refl
replace_or_append-middle v (b ∷ before) env rest e (p, new) =
    rw (ap (text_eq b.name) (sym e) ∙ p)
      (ap (λ l. b ∷ l) (replace_or_append-middle v before env rest e new))

IsNew-middle :
    (name : Text) (v : EnvVar) (before : List EnvVar) (env : EnvVar) (rest : List EnvVar)
    → env.name ≡ v.name
    → IsNew name (before ++ (env ∷ rest))
    → IsNew name (before ++ (v ∷ rest))
IsNew-middle name v [] env rest e (p, new) = (ap (λ n. text_eq n name) (sym e) ∙ p, new)
IsNew-middle name v (b ∷ before) env rest e (p, new) =
    (p, IsNew-middle name v before env rest e new)

pub IsDistinct-middle :
    (v : EnvVar) (before : List EnvVar) (env : EnvVar) (rest : List EnvVar)
    → env.name ≡ v.name
    → IsDistinct (before ++ (env ∷ rest))
    → IsDistinct (before ++ (v ∷ rest))
IsDistinct-middle v [] env rest e (new, distinct) = (subst (λ n. IsNew n rest) e new, distinct)
IsDistinct-middle v (b ∷ before) env rest e (new, distinct) =
    (IsNew-middle b.name v before env rest e new, IsDistinct-middle v before env rest e distinct)

IsNew-at :
    (name : Text) (before : List EnvVar) (env : EnvVar) (rest : List EnvVar)
    → IsNew name (before ++ (env ∷ rest))
    → text_eq env.name name ≡ false
IsNew-at name [] env rest (p, new) = p
IsNew-at name (b ∷ before) env rest (p, new) = IsNew-at name before env rest new

-- What stands before a variable has other names.
pub IsNew-before :
    (before : List EnvVar) (env : EnvVar) (rest : List EnvVar)
    → IsDistinct (before ++ (env ∷ rest))
    → IsNew env.name before
IsNew-before [] env rest distinct = tt
IsNew-before (b ∷ before) env rest (new, distinct) = (
  text_eq_comm b.name env.name ∙ IsNew-at b.name before env rest new,
  IsNew-before before env rest distinct,
)
