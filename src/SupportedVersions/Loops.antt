-- ===== src/SupportedVersions/Loops.antt =====
-- The loops of `trimSemverVersions`, `getPatchVersions` and `getSemverValues`: what they keep.
use delorean.Base.{
  ℕ, ◌<◌, List, [], ◌∷◌, ◌++◌, Bool, false, ◌≡◌, ◌≢◌, refl, sym, ap, inl, inr, In, keep, Bool-cases,
  arith, Option, some, none, map, append_assoc, append-nil, ok, Text, ltb, leb, ◌==◌, ◌&&◌, ◌||◌,
}
use delorean.Base.Int.{ℤ, eq_ℤ, eq_ℤ_iff, int_of_uint}
use delorean.SupportedVersions.{contains, trim_loop, lookup, patch_loop, get_semver_values}
use delorean.SupportedVersions.Top.{IsTop-ne-nil}
use delorean.SupportedVersions.Streams.{minors_of, Entry}

module _ {V : Type 0} (major minor : V → ℕ) where
  -- Not newer than production, patches aside.
  abbrev pub not_newer : V → V → Bool
  not_newer production v =
      ltb (major v) (major production)
      || (major v == major production && leb (minor v) (minor production))

  pub trim_loop-keep :
      (vs : List V) (production : V) (result : List V)
      → trim_loop major minor vs production result ≡ result ++ keep (not_newer production) vs
  unfolding trim_loop
  trim_loop-keep [] production result = sym (append-nil result)
  trim_loop-keep (v ∷ vs) production result = ground (
    arith,
    trim_loop-keep vs production result,
    trim_loop-keep vs production (result ++ v ∷ []),
    append_assoc result (v ∷ []) (keep (not_newer production) vs),
  )

  -- The version belongs to one of the minor streams of the map.
  abbrev pub in_streams : List (ℤ × List ℤ) → V → Bool
  in_streams streams v = elim (lookup (int_of_uint (major v)) streams) [
    | none ↦ false
    | some minors ↦ contains minors (int_of_uint (minor v))
  ]

  pub patch_loop-keep :
      (string : V → Text) (vs : List V) (streams : List (ℤ × List ℤ)) (result : List Text)
      → patch_loop major minor string vs streams result
        ≡ result ++ map string (keep (in_streams streams) vs)
  unfolding patch_loop
  patch_loop-keep string [] streams result = sym (append-nil result)
  patch_loop-keep string (v ∷ vs) streams result = ground (
    arith,
    patch_loop-keep string vs streams result,
    patch_loop-keep string vs streams (result ++ string v ∷ []),
    append_assoc result (string v ∷ []) (map string (keep (in_streams streams) vs)),
  )

pub values_loop :
    {V : Type 0} (make : Text → Option V) (bundles : List Text) (vs done : List V)
    → map make bundles ≡ map some vs
    → get_semver_values make bundles done ≡ ok (done ++ vs)
unfolding get_semver_values
values_loop make [] [] done e = rw append-nil
values_loop make [] (v ∷ vs) done e = cc
values_loop make (b ∷ bundles) [] done e = cc
values_loop make (b ∷ bundles) (v ∷ vs) done e =
    ground
      (arith, values_loop make bundles vs (done ++ v ∷ []) (cc e), append_assoc done (v ∷ []) vs)

pub In-map :
    {A : Type 0} {B : Type 0} (f : A → B) (b : B) (xs : List A)
    → In b (map f xs)
    → (a : A) × In a xs × (f a ≡ b)
In-map f b [] h = absurd h
In-map f b (x ∷ xs) (inl e) = (x, inl refl, e)
In-map f b (x ∷ xs) (inr m) = let (a, l, e) = In-map f b xs m in (a, inr l, e)

pub In-map_of :
    {A : Type 0} {B : Type 0} (f : A → B) (a : A) (xs : List A) → In a xs → In (f a) (map f xs)
In-map_of f a [] h = absurd h
In-map_of f a (x ∷ xs) (inl e) = inl (ap f e)
In-map_of f a (x ∷ xs) (inr m) = inr (In-map_of f a xs m)

pub In-ne-nil : {A : Type 0} (a : A) (xs : List A) → In a xs → xs ≢ []
In-ne-nil a [] h = absurd h
In-ne-nil a (x ∷ xs) h = λ e. cc

pub some_In : {A : Type 0} (xs : List A) → xs ≢ [] → (a : A) × In a xs
some_In [] h = absurd (h refl)
some_In (x ∷ xs) h = (x, inl refl)

pub Entry-pick :
    (j : ℕ) (xs : List ℤ) (b : ℤ) (o : Option (List ℤ))
    → 0 < j
    → In b xs
    → Entry j xs o
    → (l : List ℤ) × (o ≡ some l) × (c : ℤ) × In c l × In c xs
Entry-pick j xs b none room m e = absurd (In-ne-nil b xs m e)
Entry-pick j xs b (some l) room m (some_seen, top) =
    let (c, n) = some_In l (IsTop-ne-nil j xs l b top m room) in (l, refl, c, n, top.found c n)

module _ {V : Type 0} (major minor : V → ℕ) where
  pub In-minors_of :
      (m b : ℤ) (vs : List V)
      → In b (minors_of major minor m vs)
      → (v : V) × In v vs × (int_of_uint (major v) ≡ m) × (int_of_uint (minor v) ≡ b)
  In-minors_of m b [] h = absurd h
  In-minors_of m b (v ∷ vs) h = elim (Bool-cases (eq_ℤ (int_of_uint (major v)) m)) [
    | inl e ↦
        elim (rw e at h)
          as (λ _.
            (w : V) × In w (v ∷ vs) × (int_of_uint (major w) ≡ m) × (int_of_uint (minor w) ≡ b)) [
              | inl q ↦ (v, inl refl, (eq_ℤ_iff _ m).0 e, q)
              | inr r ↦ let (w, l, x, y) = In-minors_of m b vs r in (w, inr l, x, y)
            ]
    | inr e ↦ let (w, l, x, y) = In-minors_of m b vs (rw e at h) in (w, inr l, x, y)
  ]

  pub minors_of_first :
      (v : V) (vs : List V)
      → In (int_of_uint (minor v)) (minors_of major minor (int_of_uint (major v)) (v ∷ vs))
  minors_of_first v vs = let k = int_of_uint (major v) in rw ((eq_ℤ_iff k k).1 refl) (inl refl)

  pub minors_of-In :
      (v : V) (vs : List V)
      → In v vs
      → In (int_of_uint (minor v)) (minors_of major minor (int_of_uint (major v)) vs)
  minors_of-In v [] h = absurd h
  minors_of-In v (w ∷ vs) (inl e) = rw e (minors_of_first v vs)
  minors_of-In v (w ∷ vs) (inr m) =
      elim (Bool-cases (eq_ℤ (int_of_uint (major w)) (int_of_uint (major v)))) [
        | inl e ↦ rw e (inr (minors_of-In v vs m))
        | inr e ↦ rw e (minors_of-In v vs m)
      ]
