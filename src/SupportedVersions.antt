-- ===== src/SupportedVersions.antt =====
-- cmd/getSupportedVersions.go: the versions that are supported, from the bundles of an operator:
-- those not newer than production, of the newest major streams, and of these the newest minor
-- streams with all their patches.
-- A version is a value of the package blang/semver, which is a parameter of the model: `major` and `minor` are
-- its fields (uint64), `make` parses a folder's name and `string` prints.
pub mod Sorting
pub mod Top
pub mod Majors
pub mod Streams
pub mod Loops
pub mod Pipeline
mod Examples
use delorean.Base.{
  ℕ, List, [], ◌∷◌, ◌++◌, Bool, true, false, not, Option, none, some, length, drop, ltb, leb, ◌==◌,
  ◌&&◌, ◌-◌, Text, if◌then◌else◌, Result, ok, err, panic, or_panic, ◌>>=◌,
}
use delorean.Base.Int.{ℤ, pos, negsuc, ltb_ℤ, eq_ℤ, int_of_uint}

pub data SupportedError : Type 0 where
  all_newer : SupportedError
  empty_list : SupportedError
  empty_map : SupportedError
  empty_patch_list : SupportedError
  -- an error of `semver.Make`, or of what reads the repository
  bad_version : Text → SupportedError
  io : SupportedError

unfoldable pub contains : List ℤ → ℤ → Bool
contains [] value = false
contains (i ∷ input_list) value = if eq_ℤ i value then true else contains input_list value

-- `sort.Ints`
pub insert_int : ℤ → List ℤ → List ℤ
insert_int x [] = x ∷ []
insert_int x (y ∷ ys) = if ltb_ℤ y x then y ∷ insert_int x ys else x ∷ y ∷ ys

unfoldable pub sort_ints : List ℤ → List ℤ
unfolding insert_int
sort_ints [] = []
sort_ints (x ∷ xs) = insert_int x (sort_ints xs)

-- `if len(s) > n { s = s[len(s)-n:] }`; with a negative n the slice is out of range.
unfoldable pub keep_last : List ℤ → ℤ → Option (List ℤ)
keep_last s (pos n) = if ltb n (length s) then some (drop (length s - n) s) else some s
keep_last s (negsuc n) = none

-- `map[int][]int`
unfoldable pub lookup : ℤ → List (ℤ × List ℤ) → Option (List ℤ)
lookup key [] = none
lookup key ((number, slice) ∷ rest) = if eq_ℤ number key then some slice else lookup key rest

unfoldable pub insert : ℤ → List ℤ → List (ℤ × List ℤ) → List (ℤ × List ℤ)
insert key slice [] = (key, slice) ∷ []
insert key slice ((number, old) ∷ rest) =
    if eq_ℤ number key then (key, slice) ∷ rest else (number, old) ∷ insert key slice rest

-- `if !exists { result[k] = []int{} }`
with_key : ℤ → List (ℤ × List ℤ) → List (ℤ × List ℤ)
with_key k m = elim (lookup k m) [ none ↦ insert k [] m | some l ↦ m ]

-- A read of a missing key gives the empty slice.
abbrev pub or_nil : Option (List ℤ) → List ℤ
or_nil none = []
or_nil (some l) = l

abbrev pub or_err : {A : Type 0} → SupportedError → List A → Result SupportedError (List A)
or_err e [] = err e
or_err e (x ∷ xs) = ok (x ∷ xs)

module _ {V : Type 0} (make : Text → Option V) where
  unfoldable pub get_semver_values : List Text → List V → Result SupportedError (List V)
  get_semver_values [] values = ok values
  get_semver_values (bundle ∷ bundles) values = elim (make bundle) [
    | none ↦ err (bad_version bundle)
    | some value ↦ get_semver_values bundles (values ++ value ∷ [])
  ]

-- The error of `getMajorVersions` is overwritten before it is read: its list, then nil, is
-- what goes on.
major_or_nil : Result SupportedError (List ℤ) → Result SupportedError (List ℤ)
major_or_nil (ok l) = ok l
major_or_nil (err e) = ok []
major_or_nil panic = panic

module _ {V : Type 0} (major minor : V → ℕ) where
  pub trim_loop : List V → V → List V → List V
  trim_loop [] production result = result
  trim_loop (v ∷ versions) production result =
      let older = if ltb (major v) (major production) then result ++ v ∷ [] else result in
      let same =
        if major v == major production && leb (minor v) (minor production)
        then older ++ v ∷ []
        else older in
      trim_loop versions production same

  unfoldable pub trim_semver_versions : List V → V → Result SupportedError (List V)
  unfolding trim_loop
  trim_semver_versions versions production = or_err all_newer (trim_loop versions production [])

  major_loop : List V → List ℤ → List ℤ
  major_loop [] result = result
  major_loop (v ∷ versions) result = major_loop versions (
      if contains result (int_of_uint (major v))
      then result
      else result ++ int_of_uint (major v) ∷ [])

  unfoldable pub get_major_versions : List V → ℤ → Result SupportedError (List ℤ)
  unfolding major_loop
  get_major_versions versions supported = do
    result ← or_panic (keep_last (sort_ints (major_loop versions [])) supported)
    or_err empty_list result

  -- One round of the loop of `getMinorVersions`.
  minor_step : V → List ℤ → ℤ → List (ℤ × List ℤ) → Result SupportedError (List (ℤ × List ℤ))
  minor_step v majors supported result =
      let m = int_of_uint (major v) in
      let i = int_of_uint (minor v) in
      if contains majors m
      then (let result = with_key m result in
          let minors = or_nil (lookup m result) in
          if contains minors i then ok result else do
            last ← or_panic (keep_last (sort_ints (minors ++ i ∷ [])) supported)
            ok (insert m last result))
      else ok result

  minor_loop : List V → List ℤ → ℤ → List (ℤ × List ℤ) → Result SupportedError (List (ℤ × List ℤ))
  minor_loop [] majors supported result = ok result
  minor_loop (v ∷ versions) majors supported result = do
    next ← minor_step v majors supported result
    minor_loop versions majors supported next

  unfoldable pub get_minor_versions :
      List V → List ℤ → ℤ → Result SupportedError (List (ℤ × List ℤ))
  unfolding minor_step minor_loop with_key
  get_minor_versions versions majors supported = do
    result ← minor_loop versions majors supported []
    or_err empty_map result

  module _ (string : V → Text) where
    pub patch_loop : List V → List (ℤ × List ℤ) → List Text → List Text
    patch_loop [] supported result = result
    patch_loop (v ∷ versions) supported result =
        patch_loop versions supported (elim (lookup (int_of_uint (major v)) supported) [
          | none ↦ result
          | some minors ↦
              if contains minors (int_of_uint (minor v)) then result ++ string v ∷ [] else result
        ])

    unfoldable pub get_patch_versions :
        List V → List (ℤ × List ℤ) → Result SupportedError (List Text)
    unfolding patch_loop
    get_patch_versions versions supported =
        or_err empty_patch_list (patch_loop versions supported [])

    -- `run`, from what it has read: the production version and the names of the bundle folders.
    unfoldable pub run :
        (Text → Option V)
        → Result SupportedError V
        → Result SupportedError (List Text)
        → ℤ
        → ℤ
        → Result SupportedError (List Text)
    unfolding major_or_nil
    run make read_production read_bundles majors minors = do
      production ← read_production
      bundles ← read_bundles
      all ← get_semver_values make bundles []
      versions ← trim_semver_versions all production
      major_versions ← major_or_nil (get_major_versions versions majors)
      minor_versions ← get_minor_versions versions major_versions minors
      get_patch_versions versions minor_versions
