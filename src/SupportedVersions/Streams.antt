-- ===== src/SupportedVersions/Streams.antt =====
-- `getMinorVersions` returns the newest minor streams of each major stream.
use delorean.Base.{
  subst, ℕ, List, [], ◌∷◌, ◌++◌, true, false, ◌≡◌, ◌≢◌, refl, ◌∙◌, inl, inr, if◌then◌else◌,
  Bool-cases, arith, Option, some, none, append_assoc, append-nil, ok,
}
use mathlib.Core.List.{concat-ne-nil}
use delorean.Base.Int.{ℤ, pos, eq_ℤ, eq_ℤ_iff, int_of_uint}
use delorean.SupportedVersions.{
  empty_map, contains, lookup, insert, minor_step, minor_loop, get_minor_versions, or_nil, with_key,
}
use delorean.SupportedVersions.Sorting.{contains→In}
use delorean.SupportedVersions.Top.{IsTop, IsTop-nil, IsTop-again, keep_last-IsTop}
use delorean.SupportedVersions.Majors.{or_err-ok}

-- What the map of minor streams holds at a key: nothing before a version of the stream is seen.
abbrev pub Entry : ℕ → List ℤ → Option (List ℤ) → Type 0
Entry n seen none = seen ≡ []
Entry n seen (some l) = (seen ≢ []) × IsTop n seen l

lookup-insert :
    (key other : ℤ) (slice : List ℤ) (rest : List (ℤ × List ℤ))
    → lookup other (insert key slice rest)
      ≡ (if eq_ℤ key other then some slice else lookup other rest)
unfolding lookup insert
lookup-insert key other slice [] = refl
lookup-insert key other slice ((number, old) ∷ rest) = ground (
  arith,
  eq_ℤ_iff number key,
  eq_ℤ_iff number other,
  eq_ℤ_iff key other,
  lookup-insert key other slice rest,
)

lookup-with_key :
    (k j : ℤ) (m : List (ℤ × List ℤ))
    → lookup j (with_key k m) ≡ (if eq_ℤ k j then some (or_nil (lookup k m)) else lookup j m)
unfolding with_key
lookup-with_key k j m = ground (arith, lookup-insert k j [] m, eq_ℤ_iff k j)

Entry-or_nil : (n : ℕ) (xs : List ℤ) (o : Option (List ℤ)) → Entry n xs o → IsTop n xs (or_nil o)
Entry-or_nil n xs none e = rw e (IsTop-nil n)
Entry-or_nil n xs (some l) e = e.1

module _ {V : Type 0} (major minor : V → ℕ) where
  -- The minor numbers of the versions of one major stream.
  abbrev pub minors_of : ℤ → List V → List ℤ
  minors_of m [] = []
  minors_of m (v ∷ vs) =
      if eq_ℤ (int_of_uint (major v)) m
      then int_of_uint (minor v) ∷ minors_of m vs
      else minors_of m vs

  -- The minor numbers that count at a key: none if the major stream is not supported.
  abbrev pub counted : List ℤ → ℤ → List V → List ℤ
  counted majors m vs = if contains majors m then minors_of m vs else []

  minors_of-append :
      (m : ℤ) (xs ys : List V) → minors_of m (xs ++ ys) ≡ minors_of m xs ++ minors_of m ys
  minors_of-append m [] ys = refl
  minors_of-append m (x ∷ xs) ys = ground (arith, minors_of-append m xs ys)

  abbrev Holds : ℕ → List ℤ → List V → List (ℤ × List ℤ) → Type 0
  Holds n majors seen result = (m : ℤ) → Entry n (counted majors m seen) (lookup m result)

  counted-other :
      (majors : List ℤ) (m : ℤ) (seen : List V) (v : V)
      → eq_ℤ (int_of_uint (major v)) m ≡ false
      → counted majors m (seen ++ v ∷ []) ≡ counted majors m seen
  counted-other majors m seen v h = rw (minors_of-append m seen (v ∷ []), h, append-nil)

  counted_self :
      (majors : List ℤ) (seen : List V) (v : V)
      → contains majors (int_of_uint (major v)) ≡ true
      → counted majors (int_of_uint (major v)) (seen ++ v ∷ [])
        ≡ counted majors (int_of_uint (major v)) seen ++ int_of_uint (minor v) ∷ []
  counted_self majors seen v h =
      let k = int_of_uint (major v) in
      rw (minors_of-append k seen (v ∷ []), h, (eq_ℤ_iff k k).1 refl)

  skipped_self :
      (majors : List ℤ) (seen : List V) (v : V)
      → contains majors (int_of_uint (major v)) ≡ false
      → counted majors (int_of_uint (major v)) (seen ++ v ∷ [])
        ≡ counted majors (int_of_uint (major v)) seen
  skipped_self majors seen v h = rw h

  counted-skipped :
      (majors : List ℤ) (m : ℤ) (seen : List V) (v : V)
      → contains majors (int_of_uint (major v)) ≡ false
      → counted majors m (seen ++ v ∷ []) ≡ counted majors m seen
  counted-skipped majors m seen v h = elim (Bool-cases (eq_ℤ (int_of_uint (major v)) m)) [
    | inl q ↦
        subst (λ j. counted majors j (seen ++ v ∷ []) ≡ counted majors j seen) ((eq_ℤ_iff _ m).0 q)
          (skipped_self majors seen v h)
    | inr q ↦ counted-other majors m seen v q
  ]

  -- One key is set to the greatest numbers seen at it.
  Holds-set :
      (n : ℕ) (majors : List ℤ) (seen : List V) (v : V) (result : List (ℤ × List ℤ)) (r : List ℤ)
      (next : List (ℤ × List ℤ))
      → contains majors (int_of_uint (major v)) ≡ true
      → Holds n majors seen result
      → ((m : ℤ)
          → lookup m next ≡ (if eq_ℤ (int_of_uint (major v)) m then some r else lookup m result))
      → IsTop n (counted majors (int_of_uint (major v)) seen ++ int_of_uint (minor v) ∷ []) r
      → Holds n majors (seen ++ v ∷ []) next
  Holds-set n majors seen v result r next sup h look top m =
      let k = int_of_uint (major v) in
      elim (Bool-cases (eq_ℤ k m)) [
        | inl q ↦
            rw (look m, q)
              (subst (λ j. Entry n (counted majors j (seen ++ v ∷ [])) (some r))
                ((eq_ℤ_iff k m).0 q) (rw (counted_self majors seen v sup) (concat-ne-nil _ _, top)))
        | inr q ↦ rw (look m, q, counted-other majors m seen v q) (h m)
      ]

  -- One round of the loop keeps, at each key, the greatest minor numbers seen so far.
  minor_step-Holds :
      (n : ℕ) (majors : List ℤ) (seen : List V) (v : V) (result : List (ℤ × List ℤ))
      → Holds n majors seen result
      → (r : List (ℤ × List ℤ)) × (minor_step major minor v majors (pos n) result ≡ ok r)
        × Holds n majors (seen ++ v ∷ []) r
  unfolding minor_step
  minor_step-Holds n majors seen v result h =
      elim (Bool-cases (contains majors (int_of_uint (major v)))) [
        | inr e ↦ (result, rw e, λ m. rw (counted-skipped majors m seen v e) (h m))
        | inl e ↦
            let k = int_of_uint (major v) in
            let i = int_of_uint (minor v) in
            let old = or_nil (lookup k result) in
            let there : lookup k (with_key k result) ≡ some old =
              lookup-with_key k k result ∙ rw ((eq_ℤ_iff k k).1 refl) in
            let top = Entry-or_nil n _ _ (h k) in
            elim (Bool-cases (contains old i)) [
              | inl d ↦ (
                with_key k result,
                rw (e, there, d),
                Holds-set n majors seen v result old _ e h (λ m. lookup-with_key k m result)
                    (IsTop-again n _ old i (contains→In old i d) top),
              )
              | inr d ↦
                  let (r, cut, top') = keep_last-IsTop n _ old i d top in
                  (
                    insert k r (with_key k result),
                    rw (e, there, d, cut),
                    Holds-set n majors seen v result r _ e h
                        (λ m. rw (lookup-insert k m r _, lookup-with_key k m result) (ground arith))
                        top',
                  )
            ]
      ]

  minor_loop-Holds :
      (n : ℕ) (majors : List ℤ) (seen vs : List V) (result : List (ℤ × List ℤ))
      → Holds n majors seen result
      → (r : List (ℤ × List ℤ)) × (minor_loop major minor vs majors (pos n) result ≡ ok r)
        × Holds n majors (seen ++ vs) r
  unfolding minor_loop
  minor_loop-Holds n majors seen [] result h = (result, refl, rw append-nil h)
  minor_loop-Holds n majors seen (v ∷ vs) result h =
      let (next, made, k) = minor_step-Holds n majors seen v result h in
      let (r, rest, l) = minor_loop-Holds n majors (seen ++ v ∷ []) vs next k in
      (r, rw (made, rest), rw append_assoc at l)

  Holds-nil : (n : ℕ) (majors : List ℤ) → Holds n majors [] []
  unfolding lookup
  Holds-nil n majors m = ground arith

  Holds-ne-nil :
      (n : ℕ) (majors : List ℤ) (vs : List V) (m : ℤ) (result : List (ℤ × List ℤ))
      → Holds n majors vs result
      → counted majors m vs ≢ []
      → result ≢ []
  unfolding lookup
  Holds-ne-nil n majors vs m [] h some_minor = λ e. some_minor (h m)
  Holds-ne-nil n majors vs m (x ∷ result) h some_minor = λ e. cc

  -- If a version belongs to one of the major streams, `getMinorVersions` returns no error, and its map holds at
  -- every supported major stream of a version the newest `n` minor numbers of that stream, and at every
  -- other number nothing.
  pub get_minor_versions-Entry :
      (n : ℕ) (versions : List V) (majors : List ℤ) (m : ℤ)
      → counted majors m versions ≢ []
      → (r : List (ℤ × List ℤ)) × (get_minor_versions major minor versions majors (pos n) ≡ ok r)
        × ((k : ℤ) → Entry n (counted majors k versions) (lookup k r))
  unfolding get_minor_versions
  get_minor_versions-Entry n versions majors m some_minor =
      let (r, made, h) = minor_loop-Holds n majors [] versions [] (Holds-nil n majors) in
      (r, rw made (or_err-ok empty_map r (Holds-ne-nil n majors versions m r h some_minor)), h)
