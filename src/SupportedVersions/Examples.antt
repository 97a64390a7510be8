-- ===== src/SupportedVersions/Examples.antt =====
-- The selection of supported versions at concrete inputs. A version is a pair of its major and its
-- minor number, and its text is these two bytes.
use delorean.Base.{
  ℕ, List, [], ◌∷◌, ◌≡◌, ◌≢◌, refl, Option, none, some, Text, ok, err, keep, map, arith,
}
use delorean.Base.Int.{ℤ, pos, int_of_uint}
use delorean.SupportedVersions.{
  run, get_major_versions, get_minor_versions, get_semver_values, trim_semver_versions,
  get_patch_versions, lookup, insert, contains, sort_ints, keep_last, empty_list, empty_map,
}
use delorean.SupportedVersions.Top.{IsTop}
use delorean.SupportedVersions.Streams.{counted, Entry, get_minor_versions-Entry}
use delorean.SupportedVersions.Majors.{majors_of, get_major_versions-IsTop}
use delorean.SupportedVersions.Loops.{not_newer, in_streams}
use delorean.SupportedVersions.Pipeline.{Selection, run-Selection, run_no_majors}

abbrev Version : Type 0
Version = ℕ × ℕ

abbrev major : Version → ℕ
major v = v.0

abbrev minor : Version → ℕ
minor v = v.1

abbrev string : Version → Text
string v = v.0 ∷ v.1 ∷ []

abbrev make : Text → Option Version
make (a ∷ b ∷ []) = some (a, b)
make _ = none

abbrev folders : List Text
folders =
    (1 ∷ 3 ∷ []) ∷ (2 ∷ 1 ∷ []) ∷ (2 ∷ 4 ∷ []) ∷ (2 ∷ 2 ∷ []) ∷ (2 ∷ 4 ∷ []) ∷ (3 ∷ 0 ∷ []) ∷ []

abbrev all : List Version
all = (1, 3) ∷ (2, 1) ∷ (2, 4) ∷ (2, 2) ∷ (2, 4) ∷ (3, 0) ∷ []

-- The newest major stream up to 2.4 is 2, and its two newest minor streams are 2 and 4.
run_prints :
    run major minor string make (ok (2, 4)) (ok folders) (pos 1) (pos 2)
    ≡ ok ((2 ∷ 4 ∷ []) ∷ (2 ∷ 2 ∷ []) ∷ (2 ∷ 4 ∷ []) ∷ [])
unfolding run get_semver_values trim_semver_versions get_major_versions get_minor_versions
    get_patch_versions sort_ints keep_last lookup insert contains int_of_uint
run_prints = refl

run-Selection_example :
    (streams : List (ℤ × List ℤ)) × Selection major minor 1 2
      (keep (not_newer major minor (2, 4)) all)
      streams
    × (run major minor string make (ok (2, 4)) (ok folders) (pos 1) (pos 2)
        ≡ ok (
            map string
              (keep (in_streams major minor streams) (keep (not_newer major minor (2, 4)) all))))
run-Selection_example =
    run-Selection major minor string make (2, 4) folders all 1 2 refl (λ e. cc e) (omega arith)
      (omega arith)

get_major_versions-IsTop_example :
    (l : List ℤ) × (get_major_versions major minor all (pos 2) ≡ ok l)
    × IsTop 2 (majors_of major minor all) l
get_major_versions-IsTop_example =
    get_major_versions-IsTop major minor 2 all (λ e. cc e) (omega arith)

some_minor : counted major minor (int_of_uint 2 ∷ []) (int_of_uint 2) all ≢ []
unfolding contains int_of_uint
some_minor e = cc e

get_minor_versions-Entry_example :
    (r : List (ℤ × List ℤ)) × (get_minor_versions major minor all (int_of_uint 2 ∷ []) (pos 2)
      ≡ ok r)
    × ((k : ℤ) → Entry 2 (counted major minor (int_of_uint 2 ∷ []) k all) (lookup k r))
get_minor_versions-Entry_example =
    get_minor_versions-Entry major minor 2 all (int_of_uint 2 ∷ []) (int_of_uint 2) some_minor

run_no_majors_example :
    (get_major_versions major minor (keep (not_newer major minor (2, 4)) all) (pos 0)
      ≡ err empty_list)
    × (run major minor string make (ok (2, 4)) (ok folders) (pos 0) (pos 2) ≡ err empty_map)
run_no_majors_example =
    run_no_majors major minor string make (2, 4) folders all (pos 2) refl (λ e. cc e)
