-- ===== src/TagRelease/Latest.antt =====
-- Which ref `getGitRef` of cmd/tagRelease.go returns.
use delorean.Base.{
  List, [], ◌∷◌, true, false, some, Text, text_lt, text_lt_asym, text_lt_irrefl, All-at, All-from,
  text_lt_trans, ok, ◌≡◌, ◌≢◌, refl, sym, ap, ◌∙◌, ◌⊎◌, inl, inr, In, All, Bool-cases, subst,
}
use delorean.TagRelease.{
  first_ref, Reference, Refs, found, insert_ref, sort_refs, choose_ref, get_git_ref,
}

-- No other ref is greater.
abbrev pub IsGreatest : Reference → List Reference → Type 0
IsGreatest r rs = All (λ x. text_lt r.ref x.ref ≡ false) rs

-- Each ref is not less than those after it.
abbrev Descending : List Reference → Type 0
Descending [] = Unit
Descending (r ∷ rs) = IsGreatest r rs × Descending rs

In-insert_ref : (r x : Reference) (rs : List Reference) → In x (insert_ref r rs) → (r ≡ x) ⊎ In x rs
unfolding insert_ref
In-insert_ref r x [] (inl e) = inl e
In-insert_ref r x [] (inr m) = absurd m
In-insert_ref r x (y ∷ rs) m = elim (Bool-cases (text_lt r.ref y.ref)) [
  | inl e ↦ elim (rw e at m) as (λ _. (r ≡ x) ⊎ In x (y ∷ rs)) [
    | inl q ↦ inr (inl q)
    | inr k ↦ elim (In-insert_ref r x rs k) [ inl q ↦ inl q | inr l ↦ inr (inr l) ]
  ]
  | inr e ↦ rw e at m
]

In-sort_refs : (x : Reference) (rs : List Reference) → In x (sort_refs rs) → In x rs
unfolding sort_refs
In-sort_refs x [] m = m
In-sort_refs x (r ∷ rs) m = elim (In-insert_ref r x (sort_refs rs) m) [
  | inl e ↦ inl e
  | inr k ↦ inr (In-sort_refs x rs k)
]

IsGreatest-insert :
    (a r : Reference) (rs : List Reference)
    → text_lt a.ref r.ref ≡ false
    → IsGreatest a rs
    → IsGreatest a (insert_ref r rs)
unfolding insert_ref
IsGreatest-insert a r [] h g = (h, tt)
IsGreatest-insert a r (x ∷ rs) h (k, g) = elim (Bool-cases (text_lt r.ref x.ref)) [
  | inl e ↦ rw e (k, IsGreatest-insert a r rs h g)
  | inr e ↦ rw e (h, (k, g))
]

IsGreatest-trans :
    (a b : Reference) (rs : List Reference)
    → text_lt a.ref b.ref ≡ false
    → IsGreatest b rs
    → IsGreatest a rs
IsGreatest-trans a b [] h g = tt
IsGreatest-trans a b (x ∷ rs) h (k, g) =
    (text_lt_trans a.ref b.ref x.ref h k, IsGreatest-trans a b rs h g)

Descending-insert :
    (r : Reference) (rs : List Reference) → Descending rs → Descending (insert_ref r rs)
unfolding insert_ref
Descending-insert r [] d = (tt, tt)
Descending-insert r (x ∷ rs) (g, d) = elim (Bool-cases (text_lt r.ref x.ref)) [
  | inl e ↦ rw e (IsGreatest-insert x r rs (text_lt_asym r.ref x.ref e) g, Descending-insert r rs d)
  | inr e ↦ rw e ((e, IsGreatest-trans r x rs e g), (g, d))
]

Descending-sort : (rs : List Reference) → Descending (sort_refs rs)
unfolding sort_refs
Descending-sort [] = tt
Descending-sort (r ∷ rs) = Descending-insert r (sort_refs rs) (Descending-sort rs)

-- Sorting loses no ref.
insert_ref-In : (r x : Reference) (rs : List Reference) → (r ≡ x) ⊎ In x rs → In x (insert_ref r rs)
unfolding insert_ref
insert_ref-In r x [] m = m
insert_ref-In r x (y ∷ rs) m = elim (Bool-cases (text_lt r.ref y.ref)) [
  | inl e ↦ rw e (elim m as (λ _. In x (y ∷ insert_ref r rs)) [
    | inl q ↦ inr (insert_ref-In r x rs (inl q))
    | inr (inl q) ↦ inl q
    | inr (inr k) ↦ inr (insert_ref-In r x rs (inr k))
  ])
  | inr e ↦ rw e m
]

sort_refs-In : (x : Reference) (rs : List Reference) → In x rs → In x (sort_refs rs)
unfolding sort_refs
sort_refs-In x [] m = m
sort_refs-In x (r ∷ rs) (inl e) = insert_ref-In r x (sort_refs rs) (inl e)
sort_refs-In x (r ∷ rs) (inr m) = insert_ref-In r x (sort_refs rs) (inr (sort_refs-In x rs m))

-- The first ref of a sorted list is among the given ones and none of them is greater.
first-IsGreatest :
    (rs sorted : List Reference)
    → sorted ≡ sort_refs rs
    → rs ≢ []
    → (r : Reference) × (first_ref sorted ≡ some r) × In r rs × IsGreatest r rs
first-IsGreatest [] sorted e h = absurd (h refl)
first-IsGreatest (r ∷ rs) [] e h =
    absurd (subst (In r) (sym e) (sort_refs-In r (r ∷ rs) (inl refl)))
first-IsGreatest (r ∷ rs) (s ∷ sorted) e h =
    let g = (subst Descending (sym e) (Descending-sort (r ∷ rs))).0 in
    (
      s,
      refl,
      In-sort_refs s (r ∷ rs) (subst (In s) e (inl refl)),
      All-from (λ x. text_lt s.ref x.ref ≡ false) (r ∷ rs)
          (λ x m.
            elim (subst (In x) (sym e) (sort_refs-In x (r ∷ rs) m))
              as (λ _. text_lt s.ref x.ref ≡ false) [
                | inl q ↦ subst (λ y. text_lt s.ref y.ref ≡ false) q (text_lt_irrefl s.ref)
                | inr k ↦ All-at (λ y. text_lt s.ref y.ref ≡ false) sorted x g k
              ]),
    )

choose_ref-most_recent :
    (ref : Text) (rs : List Reference) → rs ≢ [] → choose_ref ref true rs ≡ first_ref (sort_refs rs)
unfolding choose_ref
choose_ref-most_recent ref [] h = absurd (h refl)
choose_ref-most_recent ref (r ∷ rs) h = refl

-- If the repository answers with refs, `getGitRef` with `mostRecent` returns one of them, and none is greater as a
-- string.
pub get_git_ref-IsGreatest :
    (git : Text → Refs) (ref : Text) (rs : List Reference)
    → git ref ≡ found rs
    → rs ≢ []
    → (r : Reference) × (get_git_ref git ref true ≡ ok (some r)) × In r rs × IsGreatest r rs
unfolding get_git_ref
get_git_ref-IsGreatest git ref rs e h =
    let (r, first, m, g) = first-IsGreatest rs (sort_refs rs) refl h in
    (r, rw (e, get_git_ref) (ap ok (choose_ref-most_recent ref rs h ∙ first)), m, g)
