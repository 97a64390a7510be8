-- ===== src/SupportedVersions/Pipeline.antt =====
-- `run` of cmd/getSupportedVersions.go as a whole: which versions are printed.
use delorean.Base.{
  drop, ℕ, suc, ◌-◌, ◌<◌, List, [], ◌∷◌, true, ◌≡◌, ◌≢◌, refl, length, In, keep, In-keep_of, arith,
  Option, some, map, ok, err, Text,
}
use delorean.Base.Int.{ℤ, pos, int_of_uint}
use delorean.SupportedVersions.{
  minor_step, empty_map, empty_list, minor_loop, keep_last, contains, trim_semver_versions,
  get_major_versions, lookup, get_minor_versions, get_patch_versions, run, all_newer,
  empty_patch_list,
}
use delorean.SupportedVersions.Sorting.{In→contains}
use delorean.SupportedVersions.Top.{IsTop, IsTop-ne-nil}
use delorean.SupportedVersions.Streams.{minors_of, counted, Entry, get_minor_versions-Entry}
use delorean.SupportedVersions.Majors.{majors_of, or_err-ok, get_major_versions-IsTop}
use delorean.SupportedVersions.Loops.{
  Entry-pick, In-map, In-map_of, In-minors_of, In-ne-nil, in_streams, minors_of-In, not_newer,
  patch_loop-keep, some_In, trim_loop-keep, values_loop,
}

module _ {V : Type 0} (major minor : V → ℕ) where
  -- What `run` selects from the versions that are not too new.
  pub record Selection (majors minors : ℕ) (kept : List V) (streams : List (ℤ × List ℤ))
      : Type 0 where
    pub major_streams : List ℤ
    pub newest_majors : IsTop majors (majors_of major minor kept) major_streams
    pub newest_minors :
        (k : ℤ) → Entry minors (counted major minor major_streams k kept) (lookup k streams)

  in_streams_of :
      (streams : List (ℤ × List ℤ)) (k c : ℤ) (l : List ℤ) (u : V)
      → lookup k streams ≡ some l
      → int_of_uint (major u) ≡ k
      → int_of_uint (minor u) ≡ c
      → In c l
      → in_streams major minor streams u ≡ true
  in_streams_of streams k c l u el eu fu m = ground (arith, In→contains l c m)

  -- With room for a major stream, a version belongs to a supported one.
  supported_version :
      (i : ℕ) (kept : List V) (majors : List ℤ)
      → 0 < i
      → kept ≢ []
      → IsTop i (majors_of major minor kept) majors
      → (w : V) × In w kept × (contains majors (int_of_uint (major w)) ≡ true)
  supported_version i kept majors hi some_kept top =
      let (v, m) = some_In kept some_kept in
      let (a, ma) = some_In majors (
        IsTop-ne-nil i (majors_of major minor kept) majors (int_of_uint (major v)) top
          (In-map_of (λ w. int_of_uint (major w)) v kept m) hi) in
      let (w, mw, ew) = In-map (λ w. int_of_uint (major w)) a kept (top.found a ma) in
      (w, mw, In→contains majors (int_of_uint (major w)) (rw ew ma))

  -- A selection with room for a stream selects a version.
  Selection-some :
      (i j : ℕ) (kept : List V) (streams : List (ℤ × List ℤ))
      → 0 < i
      → 0 < j
      → kept ≢ []
      → Selection i j kept streams
      → (v : V) × In v (keep (in_streams major minor streams) kept)
  Selection-some i j kept streams hi hj some_kept s =
      let (w, mw, supported) =
        supported_version i kept s.major_streams hi some_kept s.newest_majors in
      let k = int_of_uint (major w) in
      let (l, el, c, nl, nc) =
        Entry-pick j (minors_of major minor k kept) (int_of_uint (minor w)) (lookup k streams) hj
          (minors_of-In major minor w kept mw) (rw supported at (s.newest_minors k)) in
      let (u, mu, eu, fu) = In-minors_of major minor k c kept nc in
      (u, In-keep_of _ u kept mu (in_streams_of streams k c l u el eu fu nl))

  counted-ne-nil :
      (majors : List ℤ) (kept : List V) (w : V)
      → In w kept
      → contains majors (int_of_uint (major w)) ≡ true
      → counted major minor majors (int_of_uint (major w)) kept ≢ []
  counted-ne-nil majors kept w m e =
      rw e (In-ne-nil (int_of_uint (minor w)) _ (minors_of-In major minor w kept m))

  trim-keep :
      (all : List V) (production : V)
      → keep (not_newer major minor production) all ≢ []
      → trim_semver_versions major minor all production
        ≡ ok (keep (not_newer major minor production) all)
  unfolding trim_semver_versions
  trim-keep all production some_kept = rw trim_loop-keep (or_err-ok all_newer _ some_kept)

  patches-keep :
      (string : V → Text) (kept : List V) (streams : List (ℤ × List ℤ)) (v : V)
      → In v (keep (in_streams major minor streams) kept)
      → get_patch_versions major minor string kept streams
        ≡ ok (map string (keep (in_streams major minor streams) kept))
  unfolding get_patch_versions
  patches-keep string kept streams v m =
      rw patch_loop-keep
        (or_err-ok empty_patch_list _ (In-ne-nil (string v) _ (In-map_of string v _ m)))

  -- If every folder's name is a version, some version is not newer than production, and both limits are at least 1, then
  -- `run` succeeds. It prints, in the order of the folders, the versions whose major and minor
  -- number are those of a selected stream: the newest `i` major streams of the versions not newer than
  -- production, and of each the newest `j` minor streams.
  pub run-Selection :
      (string : V → Text) (make : Text → Option V) (production : V) (bundles : List Text)
      (all : List V) (i j : ℕ)
      → map make bundles ≡ map some all
      → keep (not_newer major minor production) all ≢ []
      → 0 < i
      → 0 < j
      → (streams : List (ℤ × List ℤ)) × Selection i j
          (keep (not_newer major minor production) all)
          streams
        × (run major minor string make (ok production) (ok bundles) (pos i) (pos j)
            ≡ ok (
                map string (
                  keep
                    (in_streams major minor streams)
                    (keep (not_newer major minor production) all))))
  unfolding run
  run-Selection string make production bundles all i j parsed some_kept hi hj =
      let kept = keep (not_newer major minor production) all in
      let (majors, made, top) = get_major_versions-IsTop major minor i kept some_kept hi in
      let (w, mw, supported) = supported_version i kept majors hi some_kept top in
      let (streams, found, entries) =
        get_minor_versions-Entry major minor j kept majors (int_of_uint (major w))
          (counted-ne-nil majors kept w mw supported) in
      let selection : Selection i j kept streams = record {
        major_streams = majors;
        newest_majors = top;
        newest_minors = entries;
      } in
      let (v, m) = Selection-some i j kept streams hi hj some_kept selection in
      (
        streams,
        selection,
        rw (values_loop make bundles all [] parsed, trim-keep all production some_kept, made, found)
            (patches-keep string kept streams v m),
      )

drop_all : (s : List ℤ) → drop (length s) s ≡ []
drop_all [] = refl
drop_all (x ∷ s) = drop_all s

keep_last_none : (s : List ℤ) → keep_last s (pos 0) ≡ some []
unfolding keep_last
keep_last_none [] = refl
keep_last_none (x ∷ s) =
    let e : suc (length s) - 0 ≡ suc (length s) = omega arith in rw e (ground (arith, drop_all s))

module _ {V : Type 0} (major minor : V → ℕ) where
  no_minors : (versions : List V) (j : ℤ) → minor_loop major minor versions [] j [] ≡ ok []
  unfolding minor_loop minor_step contains
  no_minors [] j = refl
  no_minors (v ∷ versions) j = no_minors versions j

  -- If the bundles and the production version can be read, all folders parse and some version is not newer than
  -- production, then with a limit of no major streams `getMajorVersions` fails with the empty-list error and `run` with
  -- the empty-map error of `getMinorVersions`.
  pub run_no_majors :
      (string : V → Text) (make : Text → Option V) (production : V) (bundles : List Text)
      (all : List V) (j : ℤ)
      → map make bundles ≡ map some all
      → keep (not_newer major minor production) all ≢ []
      → (get_major_versions major minor (keep (not_newer major minor production) all) (pos 0)
          ≡ err empty_list)
        × (run major minor string make (ok production) (ok bundles) (pos 0) j ≡ err empty_map)
  unfolding run get_major_versions get_minor_versions
  run_no_majors string make production bundles all j parsed some_kept = (
    rw keep_last_none,
    rw (
      values_loop make bundles all [] parsed,
      trim-keep major minor all production some_kept,
      keep_last_none,
      no_minors,
    ),
  )
