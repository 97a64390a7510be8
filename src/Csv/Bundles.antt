-- ===== src/Csv/Bundles.antt =====
-- pkg/utils/csv.go: the CSV of a bundle and the current one of a package. The directories, the parsing of
-- files and the registry's default channel are the parameter.
use delorean.Base.{
  List, [], ◌∷◌, ◌++◌, Bool, true, false, ◌||◌, not, Option, none, some, Text, codes, text_eq,
  contains_text, keep, if◌then◌else◌, Result, ok, err, panic, ◌>>=◌,
}

abbrev PathParts : Type 0
PathParts = List Text

pub record FileInfo : Type 0 where
  pub name : Text
  pub is_dir : Bool

pub record Channel : Type 0 where
  pub name : Text
  pub current_csv_name : Text

pub record PackageManifest : Type 0 where
  pub channels : List Channel
  pub default_channel_name : Text

pub data BundleError : Type 0 where
  cannot_read_dir : PathParts → BundleError
  cannot_parse : PathParts → BundleError
  no_csv : PathParts → BundleError
  no_package : PathParts → BundleError
  no_current : PathParts → BundleError
  cannot_write : PathParts → BundleError
  not_processed : BundleError

-- A CSV is known by what the functions here ask of it, its name.
pub record PackageFiles (NamedCsv : Type 0) : Type 0 where
  pub read_dir : PathParts → Option (List FileInfo)
  pub new_csv : PathParts → Option NamedCsv
  pub get_name : NamedCsv → Text
  -- the files of a directory whose names end in .package.yaml
  pub glob : PathParts → Option (List PathParts)
  -- An empty document, or `null`, is read as the nil manifest, `some none`, and no error.
  pub read_manifest : PathParts → Option (Option PackageManifest)
  pub is_default_channel : Channel → PackageManifest → Bool
  pub is_missing : PathParts → Bool
  pub write_yaml : NamedCsv → PathParts → Bool

abbrev pub or_error : {A : Type 0} → BundleError → Option A → Result BundleError A
or_error e none = err e
or_error e (some a) = ok a

abbrev pub is_csv_file : Text → Bool
is_csv_file file =
    contains_text file (codes ".clusterserviceversion.yaml")
    || contains_text file (codes ".csv.yaml")

module _ {NamedCsv : Type 0} (fs : PackageFiles NamedCsv) where
  -- The first file that has the name of one must be a CSV.
  unfoldable pub first_csv : PathParts → List FileInfo → Result BundleError (NamedCsv × PathParts)
  first_csv bundle_dir [] = err (no_csv bundle_dir)
  first_csv bundle_dir (file ∷ files) = elim (is_csv_file file.name) [
    | true ↦ (do
      csv ←
          or_error (cannot_parse (bundle_dir ++ (file.name ∷ [])))
            (fs.new_csv (bundle_dir ++ (file.name ∷ [])))
      ok (csv, bundle_dir ++ (file.name ∷ [])))
    | false ↦ first_csv bundle_dir files
  ]

  -- `ReadCSVFromBundleDirectory`
  unfoldable pub read_csv_from_bundle_directory :
      PathParts → Result BundleError (NamedCsv × PathParts)
  read_csv_from_bundle_directory bundle_dir = do
    dir_content ← or_error (cannot_read_dir bundle_dir) (fs.read_dir bundle_dir)
    first_csv bundle_dir (keep (λ (f : FileInfo). not f.is_dir) dir_content)

  -- `GetPackageManifest`: the manifest may be nil.
  unfoldable pub get_package_manifest :
      PathParts → Result BundleError (Option PackageManifest × PathParts)
  get_package_manifest package_dir = do
    found ← or_error (cannot_read_dir package_dir) (fs.glob package_dir)
    elim found [
      | [] ↦ err (no_package package_dir)
      | file ∷ _ ↦ (do
        manifest ← or_error (cannot_parse file) (fs.read_manifest file)
        ok (manifest, file))
    ]

  -- The loop over the channels: without a default channel the name stays empty.
  unfoldable pub current_csv_name_in : PackageManifest → List Channel → Text
  current_csv_name_in manifest [] = []
  current_csv_name_in manifest (channel ∷ rest) =
      if fs.is_default_channel channel manifest
      then channel.current_csv_name
      else current_csv_name_in manifest rest

  -- A bundle whose CSV has the name ends the search.
  abbrev pub if_named :
      Text
      → Result BundleError (NamedCsv × PathParts)
      → Result BundleError (NamedCsv × PathParts)
      → Result BundleError (NamedCsv × PathParts)
  if_named current panic others = panic
  if_named current (err e) others = err e
  if_named current (ok (csv, file)) others =
      if text_eq (fs.get_name csv) current then ok (csv, file) else others

  abbrev pub if_dir :
      Bool
      → Result BundleError (NamedCsv × PathParts)
      → Result BundleError (NamedCsv × PathParts)
      → Result BundleError (NamedCsv × PathParts)
  if_dir true bundle others = bundle
  if_dir false bundle others = others

  -- The loop over the bundles of a package, each of which must have a CSV.
  unfoldable pub bundle_loop :
      PathParts → Text → List FileInfo → Result BundleError (NamedCsv × PathParts)
  bundle_loop package_dir current [] = err (no_current package_dir)
  bundle_loop package_dir current (bundle ∷ rest) =
      let others = bundle_loop package_dir current rest in
      if_dir bundle.is_dir
        (if_named current (read_csv_from_bundle_directory (package_dir ++ (bundle.name ∷ [])))
          others)
        others

  -- `pkgManifest.Channels` panics if the manifest is nil.
  unfoldable pub current_csv_name : Option PackageManifest → Result BundleError Text
  unfolding current_csv_name_in
  current_csv_name none = panic
  current_csv_name (some manifest) = ok (current_csv_name_in manifest manifest.channels)

  unfoldable pub current_in_package : PathParts → Result BundleError (NamedCsv × PathParts)
  current_in_package package_dir = do
    (manifest, _) ← get_package_manifest package_dir
    current ← current_csv_name manifest
    bundle_dirs ← or_error (cannot_read_dir package_dir) (fs.read_dir package_dir)
    bundle_loop package_dir current bundle_dirs

  abbrev pub or_in_package :
      Result BundleError (NamedCsv × PathParts)
      → Result BundleError (NamedCsv × PathParts)
      → Result BundleError (NamedCsv × PathParts)
  or_in_package panic in_package = panic
  or_in_package (err e) in_package = in_package
  or_in_package (ok found) in_package = ok found

  -- `GetCurrentCSV`: the directory may be a bundle itself; why it is none does not matter.
  unfoldable pub get_current_csv : PathParts → Result BundleError (NamedCsv × PathParts)
  get_current_csv package_dir =
      or_in_package (read_csv_from_bundle_directory package_dir) (current_in_package package_dir)

  -- `VerifyManifestDirs`
  unfoldable pub verify_manifest_dirs : List PathParts → Result BundleError (Unit {0})
  verify_manifest_dirs [] = ok tt
  verify_manifest_dirs (dir ∷ dirs) = elim (fs.is_missing dir) [
    | true ↦ err (cannot_read_dir dir)
    | false ↦ (do _ ← get_current_csv dir; verify_manifest_dirs dirs)
  ]

  -- `ProcessCurrentCSV` with a function: what the function makes of the CSV is written in its place.
  unfoldable pub process_current_csv :
      PathParts → (NamedCsv → Option NamedCsv) → Result BundleError (NamedCsv × PathParts)
  process_current_csv package_dir process_func = do
    (csv, file) ← get_current_csv package_dir
    processed ← or_error not_processed (process_func csv)
    elim (fs.write_yaml processed file) [
      | true ↦ ok (processed, file)
      | false ↦ err (cannot_write file)
    ]
