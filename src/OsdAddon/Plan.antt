-- ===== src/OsdAddon/Plan.antt =====
-- What cmd/osdAddonRelease.go does to write a release's files, as plans.
use delorean.Base.{[], ◌∷◌, ◌++◌, Bool, Bool-cases, false, Text, codes, ok, ◌≡◌, refl, inl, inr}
use delorean.Base.Traces.{then-done, then-value, bind-value, act}
use delorean.Base.Plans.{
  Plan, nothing, ended, one, ◌⊳◌, planned, Rules, Follows, Follows-act, Follows-then,
  Follows-planned, Follows-done, Follows-stop,
}
use delorean.Git.{Action, copy_directory, remove}
use delorean.OsdAddon.{
  ReleaseChannel, OsdAddonReleaseCmd, AddonAction, git, write_image_set, write_csv,
  write_annotations, create_merge_request, unread, Presence, present, absent, unknown, AddonWorld,
  get_dest_addon_image_set_path,
}
use delorean.OsdAddon.Manifest.{updated_csv, updated_annotations}
use delorean.OsdAddon.Command.{
  in_git, reading, perform_git, relative_destination, bundle_source, bundle_destination,
  tests_directory, remove_tests, copy_the_olm_bundles, get_addon_image_set, copy_addon_image_set,
  csv_path, csv_file, metadata_file, update_the_csv_manifest,
}

-- No failure is tolerated, and Git's actions are those of its own world.
abbrev pub addon_allows : AddonWorld → AddonAction → Bool
addon_allows w (git a) = w.git_world.allows a
addon_allows w (write_image_set path image_set) = w.allows (write_image_set path image_set)
addon_allows w (write_csv path csv) = w.allows (write_csv path csv)
addon_allows w (write_annotations path annotations) = w.allows (write_annotations path annotations)
addon_allows w (create_merge_request project mr) = w.allows (create_merge_request project mr)

abbrev pub addon_rules : AddonWorld → Rules AddonAction
addon_rules w = record { allows = addon_allows w; tolerates = λ _. false }

abbrev pub tests_plan : AddonAction → Presence → Plan AddonAction
tests_plan removal present = one removal
tests_plan removal absent = nothing
tests_plan removal unknown = ended

module _ (w : AddonWorld) (c : OsdAddonReleaseCmd) (channel : ReleaseChannel) where
  -- The bundle without its Dockerfile and, if it has some, its tests.
  unfoldable pub bundle_plan : Plan AddonAction
  bundle_plan =
      one (git (copy_directory (bundle_source c channel) (bundle_destination c channel)))
      ⊳ one (git (remove (bundle_destination c channel ++ (codes "/bundle.Dockerfile" ∷ []))))
      ⊳ tests_plan (git (remove (tests_directory c channel))) (w.stat (tests_directory c channel))
      ⊳ nothing

  -- The CSV and its annotations, if both can be read and updated.
  unfoldable pub csv_plan : Plan AddonAction
  csv_plan =
      planned (reading (unread (csv_path c channel)) (w.read_csv (csv_file c channel))) (λ csv.
        planned
          (reading (unread (codes "annotations")) (w.read_annotations (metadata_file c channel)))
          (λ annotations. planned (updated_csv c.addon_config channel csv) (λ new_csv.
            one (write_csv (csv_file c channel) new_csv)
            ⊳ one (
                write_annotations (metadata_file c channel)
                  (updated_annotations c.addon_config channel annotations))
            ⊳ nothing)))

  -- The image set of the stage under the release's name, if it can be read.
  unfoldable pub image_set_plan : Plan AddonAction
  image_set_plan = planned (get_addon_image_set w c channel) (λ image_set.
      one (
        write_image_set (c.managed_tenants_dir ∷ get_dest_addon_image_set_path c channel ∷ [])
          image_set)
      ⊳ nothing)

  pub perform_git-Follows : (a : Action) → Follows (addon_rules w) (one (git a)) (perform_git w a)
  unfolding Follows one in_git act
  perform_git-Follows a = elim (Bool-cases (w.git_world.allows a)) [
    | inl e ↦ rw e (refl, refl, (e, tt))
    | inr e ↦ rw e (inr ([], git a, [], refl, refl, tt, e))
  ]

  remove_tests-Follows :
      (p : Presence)
      → Follows
          (addon_rules w)
          (tests_plan (git (remove (tests_directory c channel))) p)
          (remove_tests w c channel p)
  unfolding remove_tests
  remove_tests-Follows present = perform_git-Follows _
  remove_tests-Follows absent = Follows-done _ _ tt
  remove_tests-Follows unknown = Follows-stop _ _ _

  pub copy_the_olm_bundles-Follows :
      Follows (addon_rules w) bundle_plan (copy_the_olm_bundles w c channel)
  unfolding copy_the_olm_bundles bundle_plan
  copy_the_olm_bundles-Follows = Follows-then _ _ _ _ _ (perform_git-Follows _) (
      Follows-then _ _ _ _ _ (perform_git-Follows _)
        (Follows-then _ _ _ _ _ (remove_tests-Follows _) (Follows-done _ _ _)))

  pub update_the_csv_manifest-Follows :
      Follows (addon_rules w) csv_plan (update_the_csv_manifest w c channel)
  unfolding update_the_csv_manifest csv_plan
  update_the_csv_manifest-Follows = Follows-planned _ _ _ _ (λ csv.
      Follows-planned _ _ _ _ (λ annotations.
        Follows-planned _ _ _ _ (λ new_csv.
          Follows-act _ _ _ _ _ refl (Follows-act _ _ _ _ _ refl (Follows-done _ _ _)))))

  pub copy_addon_image_set-Follows :
      Follows (addon_rules w) image_set_plan (copy_addon_image_set w c channel)
  unfolding copy_addon_image_set image_set_plan
  copy_addon_image_set-Follows =
      Follows-planned _ _ _ _ (λ image_set. Follows-act _ _ _ _ _ refl (Follows-done _ _ _))

  pub bundle_value :
      (d : Text) → (copy_the_olm_bundles w c channel).1 ≡ ok d → d ≡ relative_destination c channel
  unfolding copy_the_olm_bundles
  bundle_value d e =
      let (_, f) = then-value _ _ d e in let (_, g) = then-value _ _ d f in then-done _ _ d g

  pub image_set_value :
      (d : Text)
      → (copy_addon_image_set w c channel).1 ≡ ok d
      → d ≡ get_dest_addon_image_set_path c channel
  unfolding copy_addon_image_set
  image_set_value d e =
      let (image_set, _, f) = bind-value ([], get_addon_image_set w c channel) _ d e in
      then-done _ _ d f
