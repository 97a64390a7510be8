-- ===== src/OlmGraph/Complete.antt =====
-- When cmd/checkOLMGraph.go accepts the graphs.
use delorean.Base.{
  Result-cases, All-get, get_elem?-All, get_elem?-below, ℕ, zero, suc, ◌-◌, ◌<◌, List, [], ◌∷◌,
  true, false, ltb, leb, drop, length, get_elem?, Text, text_eq, text_eq_iff, ok, err, panic, ◌≡◌,
  ◌≢◌, refl, sym, ap, ◌∙◌, ◌⊎◌, ◌↔◌, inl, inr, In, All, Bool-cases, some, arith, subst,
}
use delorean.OlmGraph.{
  CsvName, check_failed, base_keycloak_v18, base_keycloak_v9, contains_name, is_broken, check_loop,
  check_graph_in_dir, run_loop, run,
}

-- The version replaces one that is there, or is a known base version.
abbrev pub IsLinked : List CsvName → CsvName → Type 0
IsLinked csvs c =
    ((d : CsvName) × In d csvs × (d.name ≡ c.replaces))
    ⊎ ((c.name ≡ base_keycloak_v18) ⊎ (c.name ≡ base_keycloak_v9))

-- All versions but the lowest are linked.
abbrev pub IsComplete : List CsvName → Type 0
IsComplete csvs = All (IsLinked csvs) (drop 1 csvs)

contains_name-In :
    (csvs : List CsvName) (name : Text)
    → contains_name csvs name ≡ true
    → (d : CsvName) × In d csvs × (d.name ≡ name)
unfolding contains_name
contains_name-In [] name h = cc h
contains_name-In (c ∷ csvs) name h = elim (Bool-cases (text_eq c.name name)) [
  | inl e ↦ (c, inl refl, (text_eq_iff c.name name).0 e)
  | inr e ↦ let (d, m, q) = contains_name-In csvs name (rw (e, contains_name) at h) in (d, inr m, q)
]

In-contains_name :
    (csvs : List CsvName) (name : Text) (d : CsvName)
    → In d csvs
    → d.name ≡ name
    → contains_name csvs name ≡ true
unfolding contains_name
In-contains_name [] name d m q = absurd m
In-contains_name (c ∷ csvs) name d (inl e) q =
    rw ((text_eq_iff c.name name).1 (ap (λ x. x.name) e ∙ q), contains_name) refl
In-contains_name (c ∷ csvs) name d (inr m) q =
    rw (In-contains_name csvs name d m q, contains_name) (ground arith)

is_broken-IsLinked :
    (csvs : List CsvName) (c : CsvName) → (is_broken csvs c ≡ false) ↔ IsLinked csvs c
unfolding is_broken
is_broken-IsLinked csvs c =
    let old = text_eq_iff c.name base_keycloak_v9 in
    let new = text_eq_iff c.name base_keycloak_v18 in
    (
      λ h. elim (Bool-cases (contains_name csvs c.replaces)) [
        | inl e ↦ inl (contains_name-In csvs c.replaces e)
        | inr e ↦ elim (Bool-cases (text_eq c.name base_keycloak_v18)) [
          | inl q ↦ inr (inl (new.0 q))
          | inr q ↦ elim (Bool-cases (text_eq c.name base_keycloak_v9)) [
            | inl k ↦ inr (inr (old.0 k))
            | inr k ↦ cc (rw (e, q, k, is_broken) at h)
          ]
        ]
      ],
      λ l. elim l as (λ _. is_broken csvs c ≡ false) [
        | inl (d, m, q) ↦ rw (In-contains_name csvs c.replaces d m q) refl
        | inr (inl q) ↦ rw (new.1 q, is_broken) (ground arith)
        | inr (inr q) ↦ rw (old.1 q, is_broken) (ground arith)
      ],
    )

module _ (csvs : List CsvName) where
  check_loop_sound :
      (i : ℕ)
      → i < length csvs
      → check_loop csvs i ≡ ok tt
      → (j : ℕ) (c : CsvName) → j < i
      → get_elem? csvs (suc j) ≡ some c
      → IsLinked csvs c
  unfolding check_loop
  check_loop_sound zero b h j c l e = absurd (omega arith)
  check_loop_sound (suc i) b h j c l e =
      let (d, at) = get_elem?-below csvs (suc i) b in
      elim (Bool-cases (is_broken csvs d)) [
        | inl q ↦ cc (rw (at, q, check_loop) at h)
        | inr q ↦ elim (Bool-cases (ltb j i)) [
          | inl less ↦
              check_loop_sound i (omega arith) (rw (at, q, check_loop) at h) j c (ground arith) e
          | inr same ↦
              let eq : j ≡ i = ground arith in
              let here : d ≡ c = cc (at, e, eq) in
              (is_broken-IsLinked csvs c).0 (subst (λ x. is_broken csvs x ≡ false) here q)
        ]
      ]

  check_loop_complete :
      (i : ℕ)
      → i < length csvs
      → ((j : ℕ) (c : CsvName) → j < i → get_elem? csvs (suc j) ≡ some c → IsLinked csvs c)
      → check_loop csvs i ≡ ok tt
  unfolding check_loop
  check_loop_complete zero b h = refl
  check_loop_complete (suc i) b h =
      let (d, at) = get_elem?-below csvs (suc i) b in
      rw (at, (is_broken-IsLinked csvs d).1 (h i d (omega arith) at), check_loop)
        (check_loop_complete i (omega arith) (λ j c l e. h j c (omega arith) e))

  check_loop-no_panic : (i : ℕ) → i < length csvs → check_loop csvs i ≢ panic
  unfolding check_loop
  check_loop-no_panic zero b h = cc h
  check_loop-no_panic (suc i) b h =
      let (d, at) = get_elem?-below csvs (suc i) b in
      elim (Bool-cases (is_broken csvs d)) [
        | inl q ↦ cc (rw (at, q, check_loop) at h)
        | inr q ↦ check_loop-no_panic i (omega arith) (rw (at, q, check_loop) at h)
      ]

check_graph_in_dir-IsComplete :
    (csvs : List CsvName) → (check_graph_in_dir csvs ≡ ok tt) ↔ IsComplete csvs
unfolding check_graph_in_dir
check_graph_in_dir-IsComplete [] = (λ h. tt, λ h. refl)
check_graph_in_dir-IsComplete (c ∷ []) = (λ h. tt, λ h. refl)
check_graph_in_dir-IsComplete (c ∷ d ∷ csvs) =
    let all = c ∷ d ∷ csvs in
    let n : length all - 1 ≡ suc (length csvs) = omega arith in
    let big : leb (length all) 1 ≡ false = ground arith in
    (
      λ h.
          let h' =
            check_loop_sound all (suc (length csvs)) (omega arith)
              (subst (λ k. check_loop all k ≡ ok tt) n (rw (big, check_graph_in_dir) at h)) in
          All-get (IsLinked all) (d ∷ csvs) (λ i b x e. h' i x (omega arith) e),
      λ h.
          rw (big, check_graph_in_dir)
            (subst (λ k. check_loop all k ≡ ok tt) (sym n)
              (check_loop_complete all (suc (length csvs)) (omega arith)
                (λ j x l e. get_elem?-All (IsLinked all) (d ∷ csvs) j x h e))),
    )

check_graph_in_dir-no_panic : (csvs : List CsvName) → check_graph_in_dir csvs ≢ panic
unfolding check_graph_in_dir
check_graph_in_dir-no_panic csvs h = elim (Bool-cases (leb (length csvs) 1)) [
  | inl e ↦ cc (rw (e, check_graph_in_dir) at h)
  | inr e ↦
      check_loop-no_panic csvs (length csvs - 1) (ground arith) (rw (e, check_graph_in_dir) at h)
]

-- An error of one directory stays.
run_loop-true : (dirs : List (List CsvName)) → run_loop dirs true ≡ ok true
unfolding run_loop
run_loop-true [] = refl
run_loop-true (csvs ∷ dirs) = elim (Result-cases (check_graph_in_dir csvs)) [
  | inl e ↦ absurd (check_graph_in_dir-no_panic csvs e)
  | inr (inl (u, e)) ↦ rw (e, run_loop) (run_loop-true dirs)
  | inr (inr (x, e)) ↦ rw (e, run_loop) (run_loop-true dirs)
]

run_loop-cases :
    (dirs : List (List CsvName))
    → ((run_loop dirs false ≡ ok false) × All IsComplete dirs)
      ⊎ ((run_loop dirs false ≡ ok true) × (¬ All IsComplete dirs))
unfolding run_loop
run_loop-cases [] = inl (refl, tt)
run_loop-cases (csvs ∷ dirs) = elim (Result-cases (check_graph_in_dir csvs)) [
  | inl e ↦ absurd (check_graph_in_dir-no_panic csvs e)
  | inr (inl (u, e)) ↦
      rw (e, run_loop)
        (elim (run_loop-cases dirs) [
          | inl (q, h) ↦ inl (q, ((check_graph_in_dir-IsComplete csvs).0 e, h))
          | inr (q, broken) ↦ inr (q, λ (c, h). broken h)
        ])
  | inr (inr (x, e)) ↦
      rw (e, run_loop)
        (inr (run_loop-true dirs, λ (c, h). cc (e, (check_graph_in_dir-IsComplete csvs).1 c)))
]

-- The command succeeds if in each directory all versions but the lowest replace one that is there or are a known
-- base version; otherwise it fails with its one error, and never panics.
pub run-IsComplete :
    (dirs : List (List CsvName))
    → ((run dirs ≡ ok tt) × All IsComplete dirs)
      ⊎ ((run dirs ≡ err check_failed) × (¬ All IsComplete dirs))
unfolding run
run-IsComplete dirs = elim (run_loop-cases dirs) [
  | inl (q, h) ↦ inl (rw (q, run) refl, h)
  | inr (q, broken) ↦ inr (rw (q, run) refl, broken)
]
