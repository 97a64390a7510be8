-- ===== src/Csv/PackageExamples.antt =====
-- A package of two bundles.
use delorean.Base.{
  panic, contains_text, List, [], ◌∷◌, true, false, Option, none, some, Text, codes, text_eq, ok,
  ◌≡◌, refl,
}
use delorean.Csv.Bundles.{
  current_csv_name, current_csv_name_in, bundle_loop, get_package_manifest, current_in_package,
  first_csv, read_csv_from_bundle_directory, FileInfo, PackageManifest, PackageFiles,
  get_current_csv,
}

abbrev csv_file : Text
csv_file = codes "op.clusterserviceversion.yaml"

abbrev manifest : PackageManifest
manifest = record {
  channels =
      record { name = codes "beta"; current_csv_name = codes "1" }
      ∷ record { name = codes "stable"; current_csv_name = codes "2" }
      ∷ [];
  default_channel_name = codes "stable";
}

abbrev names_in : List Text → Option (List FileInfo)
names_in (dir ∷ []) =
    some
      (record { name = codes "1"; is_dir = true } ∷ record { name = codes "2"; is_dir = true } ∷ [])
names_in _ = some (record { name = csv_file; is_dir = false } ∷ [])

-- A CSV has the name of its directory.
abbrev csv_in : List Text → Option Text
csv_in (dir ∷ bundle ∷ file ∷ []) = some bundle
csv_in _ = none

abbrev operators : PackageFiles Text
operators = record {
  read_dir = names_in;
  new_csv = csv_in;
  get_name = λ name. name;
  glob = λ dir. some ((codes "op.package.yaml" ∷ []) ∷ []);
  read_manifest = λ _. some (some manifest);
  is_default_channel = λ channel m. text_eq channel.name m.default_channel_name;
  is_missing = λ _. false;
  write_yaml = λ _ _. true;
}

abbrev directory : List Text
directory = codes "op" ∷ []

-- The manifest is an empty document.
abbrev nil_manifest : PackageFiles Text
nil_manifest = record operators { read_manifest = λ _. some none }

panics_on_nil : get_current_csv nil_manifest directory ≡ panic
unfolding get_current_csv read_csv_from_bundle_directory first_csv current_in_package
    get_package_manifest contains_text current_csv_name
panics_on_nil = refl

finds : get_current_csv operators directory ≡ ok (codes "2", codes "op" ∷ codes "2" ∷ csv_file ∷ [])
unfolding get_current_csv read_csv_from_bundle_directory first_csv current_in_package
    get_package_manifest bundle_loop contains_text text_eq current_csv_name current_csv_name_in
finds = refl
