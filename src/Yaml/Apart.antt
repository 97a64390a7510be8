-- ===== src/Yaml/Apart.antt =====
-- When two paths into a tree (pkg/utils/yaml.go) part.
use delorean.Base.{
  ℕ, suc, List, [], ◌∷◌, true, false, Option, none, some, Text, text_eq, text_eq_iff, ◌≡◌, refl, ap,
  sym, ◌∙◌, ◌⊎◌, inl, inr, arith,
}
use delorean.Base.Int.{ℤ, pos}
use delorean.Yaml.{is_key}

pub is_key-other :
    (k : Option Text) (key other : Text)
    → is_key k key ≡ true
    → text_eq key other ≡ false
    → is_key k other ≡ false
is_key-other none key other e h = refl
is_key-other (some a) key other e h = ap (λ x. text_eq x other) ((text_eq_iff a key).0 e) ∙ h

module _ (parse_int : Text → Option ℤ) where
  -- The two keys differ, also as indices.
  abbrev pub IsOther : Text → Text → Type 0
  IsOther key other =
      (text_eq key other ≡ false)
      × ((i : ℤ) → parse_int key ≡ some i → parse_int other ≡ some i → ⊥)

  -- The two paths part at some key.
  abbrev pub IsApart : Text → List Text → Text → List Text → Type 0
  IsApart key [] other path = IsOther key other
  IsApart key (next ∷ rest) other [] = IsOther key other
  IsApart key (next ∷ rest) other (further ∷ path) =
      IsOther key other ⊎ ((key ≡ other) × IsApart next rest further path)

  -- Of two indices of a sequence: the paths go to other elements, or part further on.
  abbrev pub IsApartAt : ℕ → List Text → ℕ → List Text → Type 0
  IsApartAt i [] j path = i ≡ j → ⊥
  IsApartAt i (next ∷ rest) j [] = i ≡ j → ⊥
  IsApartAt i (next ∷ rest) j (further ∷ path) =
      (i ≡ j → ⊥) ⊎ ((i ≡ j) × IsApart next rest further path)

  other_index :
      (key other : Text) (i j : ℕ)
      → IsOther key other
      → parse_int key ≡ some (pos i)
      → parse_int other ≡ some (pos j)
      → i ≡ j
      → ⊥
  other_index key other i j (_, h) p q e = h (pos i) p (q ∙ ap (λ n. some (pos n)) (sym e))

  pub apart_at :
      (key : Text) (path : List Text) (other : Text) (away : List Text) (i j : ℕ)
      → parse_int key ≡ some (pos i)
      → parse_int other ≡ some (pos j)
      → IsApart key path other away
      → IsApartAt i path j away
  apart_at key [] other away i j p q h = other_index key other i j h p q
  apart_at key (next ∷ rest) other [] i j p q h = other_index key other i j h p q
  apart_at key (next ∷ rest) other (further ∷ away) i j p q (inl h) =
      inl (other_index key other i j h p q)
  apart_at key (next ∷ rest) other (further ∷ away) i j p q (inr (e, h)) =
      let same : some (pos i) ≡ some (pos j) = sym p ∙ ap parse_int e ∙ q in inr (cc same, h)

  -- The element after one that is skipped.
  pub apart_suc :
      (i : ℕ) (path : List Text) (j : ℕ) (away : List Text)
      → IsApartAt (suc i) path (suc j) away
      → IsApartAt i path j away
  apart_suc i [] j away h = λ e. h (ap suc e)
  apart_suc i (next ∷ rest) j [] h = λ e. h (ap suc e)
  apart_suc i (next ∷ rest) j (further ∷ away) (inl h) = inl (λ e. h (ap suc e))
  apart_suc i (next ∷ rest) j (further ∷ away) (inr (e, h)) = inr (omega arith, h)
