-- ===== src/OlmGraph/Examples.antt =====
-- A directory with a gap, and one that begins with a known base version.
use delorean.Base.{List, [], ◌∷◌, codes, text_eq, ok, err, ◌≡◌, refl, ◌⊎◌, All}
use delorean.OlmGraph.{CsvName, check_failed, contains_name, check_graph_in_dir, run}
use delorean.OlmGraph.Complete.{IsComplete, run-IsComplete}

abbrev gap : List CsvName
gap =
    record { name = codes "a.v1"; replaces = [] }
    ∷ record { name = codes "a.v3"; replaces = codes "a.v2" }
    ∷ []

abbrev chain : List CsvName
chain =
    record { name = codes "a.v1"; replaces = [] }
    ∷ record { name = codes "a.v2"; replaces = codes "a.v1" }
    ∷ []

gap_found : run (chain ∷ gap ∷ []) ≡ err check_failed
unfolding run check_graph_in_dir contains_name text_eq
gap_found = refl

chain_passes : run (chain ∷ []) ≡ ok tt
unfolding run check_graph_in_dir contains_name text_eq
chain_passes = refl

run-IsComplete_example :
    ((run (chain ∷ []) ≡ ok tt) × All IsComplete (chain ∷ []))
    ⊎ ((run (chain ∷ []) ≡ err check_failed) × (¬ All IsComplete (chain ∷ [])))
run-IsComplete_example = run-IsComplete (chain ∷ [])
