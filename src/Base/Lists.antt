-- ===== src/Base/Lists.antt =====
-- Lists measured by native numbers, under the library's names, and predicates over lists.
use Prim.Native.Nat.{◌<◌, ℕ, zero, suc, ◌+◌, ◌-◌}
use mathlib.Core.Path.{◌≡◌, refl, ap, subst, sym, ◌∙◌}
use mathlib.Core.Logic.{◌⊎◌, inl, inr}
use mathlib.Core.Bool.{Bool, true}
use mathlib.Core.List.{List, [], ◌∷◌, ◌++◌, append_assoc}
use mathlib.Core.Option.{Option, none, some}
use native.Mathlib.Omega.{arith}
use delorean.Base.Tests.{◌==◌, if◌then◌else◌, Bool-cases}

module _ {ℓ} {A : Type ℓ} where
  abbrev pub length : List A → ℕ
  length [] = 0
  length (x ∷ xs) = suc (length xs)

  abbrev pub get_elem? : List A → ℕ → Option A
  get_elem? [] i = none
  get_elem? (x ∷ xs) zero = some x
  get_elem? (x ∷ xs) (suc i) = get_elem? xs i

  abbrev pub drop : ℕ → List A → List A
  drop zero xs = xs
  drop (suc n) [] = []
  drop (suc n) (x ∷ xs) = drop n xs

  pub length-append : (xs ys : List A) → length (xs ++ ys) ≡ length xs + length ys
  length-append [] ys = omega arith
  length-append (x ∷ xs) ys = omega (arith, length-append xs ys)

  pub length-drop : (n : ℕ) (xs : List A) → length (drop n xs) ≡ length xs - n
  length-drop zero xs = omega arith
  length-drop (suc n) [] = omega arith
  length-drop (suc n) (x ∷ xs) = omega (arith, length-drop n xs)

  -- Every element has the property.
  abbrev pub All {κ} : (A → Type κ) → List A → Type κ
  All P [] = Unit
  All P (x ∷ xs) = P x × All P xs

  -- Each element has the property, after those that come before it.
  abbrev pub Throughout {κ} : (List A → A → Type κ) → List A → List A → Type κ
  Throughout P before [] = Unit
  Throughout P before (x ∷ xs) = P before x × Throughout P (before ++ x ∷ []) xs

  pub All-append {κ} : (P : A → Type κ) (xs ys : List A) → All P xs → All P ys → All P (xs ++ ys)
  All-append P [] ys _ h = h
  All-append P (x ∷ xs) ys (px, hx) h = (px, All-append P xs ys hx h)

  append-nil : (xs : List A) → xs ++ [] ≡ xs
  append-nil [] = refl
  append-nil (x ∷ xs) = ap (λ l. x ∷ l) (append-nil xs)

  pub Throughout-append {κ} :
      (P : List A → A → Type κ) (before xs ys : List A)
      → Throughout P before xs
      → Throughout P (before ++ xs) ys
      → Throughout P before (xs ++ ys)
  Throughout-append P before [] ys h g = subst (λ l. Throughout P l ys) (append-nil before) g
  Throughout-append P before (x ∷ xs) ys (p, h) g = (
    p,
    Throughout-append P (before ++ x ∷ []) xs ys h
        (subst (λ l. Throughout P l ys) (sym (append_assoc before (x ∷ []) xs)) g),
  )

  -- A property that depends on no earlier element.
  pub Throughout-All {κ} :
      (P : List A → A → Type κ) (before xs : List A)
      → All (λ x. (seen : List A) → P seen x) xs
      → Throughout P before xs
  Throughout-All P before [] h = tt
  Throughout-All P before (x ∷ xs) (p, h) = (p before, Throughout-All P (before ++ x ∷ []) xs h)

  pub All-map {κ μ} :
      {P : A → Type κ} {Q : A → Type μ} (xs : List A) → ((x : A) → P x → Q x) → All P xs → All Q xs
  All-map [] g h = tt
  All-map (x ∷ xs) g (p, h) = (g x p, All-map xs g h)

  -- The elements that pass a test, in their order.
  abbrev pub keep : (A → Bool) → List A → List A
  keep p [] = []
  keep p (x ∷ xs) = if p x then x ∷ keep p xs else keep p xs

module _ {A : Type 0} where
  -- `a` stands in the list.
  abbrev pub In : A → List A → Type 0
  In a [] = ⊥
  In a (x ∷ xs) = (x ≡ a) ⊎ In a xs

  pub In-append_left : (a : A) (xs ys : List A) → In a xs → In a (xs ++ ys)
  In-append_left a [] ys h = absurd h
  In-append_left a (x ∷ xs) ys (inl e) = inl e
  In-append_left a (x ∷ xs) ys (inr h) = inr (In-append_left a xs ys h)

  pub In-append_right : (a : A) (xs ys : List A) → In a ys → In a (xs ++ ys)
  In-append_right a [] ys h = h
  In-append_right a (x ∷ xs) ys h = inr (In-append_right a xs ys h)

  pub In-append : (a : A) (xs ys : List A) → In a (xs ++ ys) → In a xs ⊎ In a ys
  In-append a [] ys h = inr h
  In-append a (x ∷ xs) ys (inl e) = inl (inl e)
  In-append a (x ∷ xs) ys (inr h) = elim (In-append a xs ys h) [
    | inl l ↦ inl (inr l)
    | inr r ↦ inr r
  ]

  pub All-at {κ} : (P : A → Type κ) (xs : List A) (a : A) → All P xs → In a xs → P a
  All-at P [] a h m = absurd m
  All-at P (x ∷ xs) a (px, h) (inl e) = rw (← e) px
  All-at P (x ∷ xs) a (px, h) (inr m) = All-at P xs a h m

  pub All-from {κ} : (P : A → Type κ) (xs : List A) → ((a : A) → In a xs → P a) → All P xs
  All-from P [] h = tt
  All-from P (x ∷ xs) h = (h x (inl refl), All-from P xs (λ a m. h a (inr m)))

  pub In-keep : (p : A → Bool) (a : A) (xs : List A) → In a (keep p xs) → In a xs × (p a ≡ true)
  In-keep p a [] h = absurd h
  In-keep p a (x ∷ xs) h = elim (Bool-cases (p x)) [
    | inl e ↦ elim (rw e at h) as (λ _. In a (x ∷ xs) × (p a ≡ true)) [
      | inl q ↦ (inl q, rw (← q) e)
      | inr m ↦ let (l, r) = In-keep p a xs m in (inr l, r)
    ]
    | inr e ↦ let (l, r) = In-keep p a xs (rw e at h) in (inr l, r)
  ]

  pub In-keep_of : (p : A → Bool) (a : A) (xs : List A) → In a xs → p a ≡ true → In a (keep p xs)
  In-keep_of p a [] h t = absurd h
  In-keep_of p a (x ∷ xs) (inl q) t = rw (ap p q ∙ t) (inl q)
  In-keep_of p a (x ∷ xs) (inr m) t = elim (Bool-cases (p x)) [
    | inl e ↦ rw e (inr (In-keep_of p a xs m t))
    | inr e ↦ rw e (In-keep_of p a xs m t)
  ]

  -- A property of all elements by their positions.
  pub All-get :
      (P : A → Type 0) (xs : List A)
      → ((i : ℕ) → i < length xs → (x : A) → get_elem? xs i ≡ some x → P x)
      → All P xs
  All-get P [] h = tt
  All-get P (x ∷ xs) h =
      (h 0 (omega arith) x refl, All-get P xs (λ i b y e. h (suc i) (omega arith) y e))

  pub get_elem?-All :
      (P : A → Type 0) (xs : List A) (i : ℕ) (x : A) → All P xs → get_elem? xs i ≡ some x → P x
  get_elem?-All P [] i x h e = cc e
  get_elem?-All P (y ∷ xs) zero x (p, h) e = subst P (cc e) p
  get_elem?-All P (y ∷ xs) (suc i) x (p, h) e = get_elem?-All P xs i x h e

  pub get_elem?-below : (xs : List A) (i : ℕ) → i < length xs → (x : A) × (get_elem? xs i ≡ some x)
  get_elem?-below [] i b = absurd (omega arith)
  get_elem?-below (x ∷ xs) zero b = (x, refl)
  get_elem?-below (x ∷ xs) (suc i) b = get_elem?-below xs i (omega arith)

  pub get_elem?-In : (xs : List A) (i : ℕ) (x : A) → get_elem? xs i ≡ some x → In x xs
  get_elem?-In [] i x e = cc e
  get_elem?-In (y ∷ xs) zero x e = inl (cc e)
  get_elem?-In (y ∷ xs) (suc i) x e = inr (get_elem?-In xs i x e)

-- To split on an optional value and keep the equation.
pub Option-cases {ℓ} : {A : Type ℓ} (o : Option A) → (o ≡ none) ⊎ ((a : A) × (o ≡ some a))
Option-cases none = inl refl
Option-cases (some a) = inr (a, refl)

module _ {ℓ} {A : Type ℓ} where
  -- A write out of bounds changes nothing.
  abbrev pub set : List A → ℕ → A → List A
  set [] i v = []
  set (x ∷ xs) zero v = v ∷ xs
  set (x ∷ xs) (suc i) v = x ∷ set xs i v

  abbrev pub replicate : ℕ → A → List A
  replicate zero a = []
  replicate (suc n) a = a ∷ replicate n a

  pub length-set : (xs : List A) (i : ℕ) (v : A) → length (set xs i v) ≡ length xs
  length-set [] i v = refl
  length-set (x ∷ xs) zero v = refl
  length-set (x ∷ xs) (suc i) v = ap suc (length-set xs i v)

  pub length-replicate : (n : ℕ) (a : A) → length (replicate n a) ≡ n
  length-replicate zero a = refl
  length-replicate (suc n) a = ap suc (length-replicate n a)

  pub get_elem?-set :
      (xs : List A) (i j : ℕ) (v : A)
      → i < length xs
      → get_elem? (set xs i v) j ≡ (if i == j then some v else get_elem? xs j)
  get_elem?-set [] i j v h = absurd (omega arith)
  get_elem?-set (x ∷ xs) zero zero v h = ground arith
  get_elem?-set (x ∷ xs) zero (suc j) v h = ground arith
  get_elem?-set (x ∷ xs) (suc i) zero v h = ground arith
  get_elem?-set (x ∷ xs) (suc i) (suc j) v h = ground (arith, get_elem?-set xs i j v)
