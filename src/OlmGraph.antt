-- ===== src/OlmGraph.antt =====
-- cmd/checkOLMGraph.go: each version of an operator must replace a version that is there. The
-- versions of a directory come sorted, as `GetSortedCSVNames` of pkg/utils/csv.go returns them.
pub mod Complete
mod Examples
use delorean.Base.{
  ℕ, zero, suc, ◌-◌, List, [], ◌∷◌, Bool, true, false, not, ◌&&◌, leb, length, get_elem?, Text,
  codes, text_eq, if◌then◌else◌, Result, ok, err, panic, or_panic, ◌>>=◌,
}

pub record CsvName : Type 0 where
  pub name : Text
  pub replaces : Text

pub data GraphError : Type 0 where
  invalid_replaces : Text → Text → GraphError
  check_failed : GraphError

abbrev pub base_keycloak_v18 : Text
base_keycloak_v18 = codes "keycloak-operator.v18.0.0"

abbrev pub base_keycloak_v9 : Text
base_keycloak_v9 = codes "keycloak-operator.v9.0.3"

unfoldable pub contains_name : List CsvName → Text → Bool
contains_name [] name = false
contains_name (c ∷ csvs) name =
    let rest = contains_name csvs name in if text_eq c.name name then true else rest

pub is_broken : List CsvName → CsvName → Bool
is_broken csvs csv =
    not (contains_name csvs csv.replaces)
    && (not (text_eq csv.name base_keycloak_v18) && not (text_eq csv.name base_keycloak_v9))

-- `for i := csvs.Len() - 1; i > 0; i--`
pub check_loop : List CsvName → ℕ → Result {0, 0} GraphError Unit
unfolding is_broken
check_loop csvs zero = ok tt
check_loop csvs (suc i) =
    let rest = check_loop csvs i in
    do
      csv ← or_panic (get_elem? csvs (suc i))
      if is_broken csvs csv then err (invalid_replaces csv.replaces csv.name) else rest

unfoldable pub check_graph_in_dir : List CsvName → Result {0, 0} GraphError Unit
unfolding check_loop
check_graph_in_dir csvs = if leb (length csvs) 1 then ok tt else check_loop csvs (length csvs - 1)

-- The loop over the directories that sets `hasError`; a panic ends it.
run_loop : List (List CsvName) → Bool → Result {0, 0} GraphError Bool
run_loop [] has_error = ok has_error
run_loop (csvs ∷ dirs) has_error = elim (check_graph_in_dir csvs) [
  | panic ↦ panic
  | ok _ ↦ run_loop dirs has_error
  | err e ↦ run_loop dirs true
]

unfoldable pub run : List (List CsvName) → Result {0, 0} GraphError Unit
unfolding run_loop
run dirs = do has_error ← run_loop dirs false; if has_error then err check_failed else ok tt
