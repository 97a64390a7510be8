-- ===== src/Csv/Find.antt =====
-- The searches of pkg/utils/csv.go by a name or a type. They give an index with a copy of the element.
use delorean.Base.{
  ℕ, suc, List, [], ◌∷◌, Bool, true, Bool-cases, inl, inr, ◌≡◌, ap, sym, subst, ◌∙◌, Option-cases,
  get_elem?, Option, none, some, Text, text_eq, if◌then◌else◌,
}
use delorean.Csv.{Container, Deployment}

pub record InstallMode : Type 0 where
  pub type_name : Text
  pub supported : Bool

abbrev later : {A : Type 0} → Option (ℕ × A) → Option (ℕ × A)
later none = none
later (some (i, x)) = some (suc i, x)

-- The loops of the three functions.
unfoldable pub find_by : {A : Type 0} → (A → Bool) → List A → Option (ℕ × A)
find_by test [] = none
find_by test (x ∷ xs) = let rest = find_by test xs in if test x then some (0, x) else later rest

unfoldable pub find_deployment_by_name : List Deployment → Text → Option (ℕ × Deployment)
find_deployment_by_name deployments name = find_by (λ d. text_eq d.name name) deployments

unfoldable pub find_container_by_name : List Container → Text → Option (ℕ × Container)
find_container_by_name containers container_name =
    find_by (λ c. text_eq c.name container_name) containers

unfoldable pub find_install_mode : List InstallMode → Text → Option (ℕ × InstallMode)
find_install_mode install_modes type_name =
    find_by (λ m. text_eq m.type_name type_name) install_modes

-- What is found stands at the index that is given, and passes the test.
pub find_by-get :
    {A : Type 0} (test : A → Bool) (xs : List A) (i : ℕ) (x : A)
    → find_by test xs ≡ some (i, x)
    → (get_elem? xs i ≡ some x) × (test x ≡ true)
unfolding find_by
find_by-get test [] i x e = cc e
find_by-get test (y ∷ xs) i x e = elim (Bool-cases (test y)) [
  | inl p ↦
      let zero_is : 0 ≡ i = cc (rw p at e) in
      let same : y ≡ x = cc (rw p at e) in
      (subst (λ j. get_elem? (y ∷ xs) j ≡ some x) zero_is (ap some same), ap test (sym same) ∙ p)
  | inr p ↦ elim (Option-cases (find_by test xs)) [
    | inl q ↦ cc (rw (p, q) at e)
    | inr ((j, z), q) ↦
        let next : suc j ≡ i = cc (rw (p, q) at e) in
        let same : z ≡ x = cc (rw (p, q) at e) in
        subst (λ k. (get_elem? (y ∷ xs) k ≡ some x) × (test x ≡ true)) next
          (find_by-get test xs j x (q ∙ ap (λ v. some (j, v)) same))
  ]
]
