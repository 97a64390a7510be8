-- ===== src/Base/Maps.antt =====
-- Go maps with string keys, as association lists in the order of an iteration.
use mathlib.Core.Path.{◌≡◌, refl}
use mathlib.Core.List.{List, [], ◌∷◌}
use mathlib.Core.Option.{Option, none, some}
use native.Mathlib.Omega.{arith}
use delorean.Base.Tests.{if◌then◌else◌}
use delorean.Base.Texts.{Text, text_eq, text_eq_iff}

abbrev pub Map : Type 0 → Type 0
Map V = List (Text × V)

module _ {V : Type 0} where
  unfoldable pub get : Text → Map V → Option V
  get key [] = none
  get key ((name, value) ∷ rest) = if text_eq name key then some value else get key rest

  unfoldable pub put : Text → V → Map V → Map V
  put key value [] = (key, value) ∷ []
  put key value ((name, old) ∷ rest) =
      if text_eq name key then (key, value) ∷ rest else (name, old) ∷ put key value rest

  pub get-put :
      (key other : Text) (value : V) (rest : Map V)
      → get other (put key value rest) ≡ (if text_eq key other then some value else get other rest)
  unfolding get put
  get-put key other value [] = refl
  get-put key other value ((name, old) ∷ rest) = ground (
    arith,
    text_eq_iff name key,
    text_eq_iff name other,
    text_eq_iff key other,
    get-put key other value rest,
  )
