-- ===== src/Csv/Current.antt =====
-- Which CSV is the current one of a package (pkg/utils/csv.go, GetCurrentCSV).
use delorean.Base.{none, List, [], ◌∷◌, ◌++◌, true, In, some, Text, Result, ok, err, panic, ◌≡◌}
use delorean.Csv.Bundles.{
  FileInfo, PackageManifest, PackageFiles, read_csv_from_bundle_directory, get_package_manifest,
  current_csv_name_in,
}

-- A value that is returned has the property, and there is no panic.
abbrev pub Answers : {E A : Type 0} → (A → Type 0) → Result E A → Type 0
Answers P (ok a) = P a
Answers P (err e) = Unit
Answers P panic = ⊥

-- A value that is returned has the property, and a panic has its reason.
abbrev pub AnswersUnless : {E A : Type 0} → Type 0 → (A → Type 0) → Result E A → Type 0
AnswersUnless Reason P (ok a) = P a
AnswersUnless Reason P (err e) = Unit
AnswersUnless Reason P panic = Reason

module _ {NamedCsv : Type 0} (fs : PackageFiles NamedCsv) where
  -- The CSV is that of a directory.
  abbrev pub IsCsvOf : List Text → NamedCsv × List Text → Type 0
  IsCsvOf dir found = read_csv_from_bundle_directory fs dir ≡ ok found

  -- It is that of a bundle in the list, and has the name.
  abbrev pub IsBundleOf : List Text → Text → List FileInfo → NamedCsv × List Text → Type 0
  IsBundleOf package_dir current bundles found =
      (fs.get_name found.0 ≡ current)
      × ((bundle : FileInfo) × In bundle bundles
          × (bundle.is_dir ≡ true)
          × IsCsvOf (package_dir ++ (bundle.name ∷ [])) found)

  -- Of the package's bundles, one that has the name which the default channel gives.
  abbrev pub IsCurrentIn : List Text → NamedCsv × List Text → Type 0
  IsCurrentIn package_dir found =
      (manifest : PackageManifest) × (manifest_file : List Text) × (bundles : List FileInfo)
      × (get_package_manifest fs package_dir ≡ ok (some manifest, manifest_file))
      × (fs.read_dir package_dir ≡ some bundles)
      × IsBundleOf package_dir (current_csv_name_in fs manifest manifest.channels) bundles found

  -- The package's manifest is nil: its file is an empty document.
  abbrev pub HasNilManifest : List Text → Type 0
  HasNilManifest package_dir =
      (manifest_file : List Text) × (get_package_manifest fs package_dir ≡ ok (none, manifest_file))
