-- ===== src/Reports/Buckets.antt =====
-- `cleanupObjectsForBucket` and `run` of cmd/cleanupReports.go as a whole.
use delorean.Base.{
  Throughout-All, Throughout-append, Throughout, All-get, get_elem?-below, get_elem?-In, ℕ, ◌<◌,
  List, [], ◌∷◌, Bool, true, some, Text, ◌≡◌, refl, sym, ◌∙◌, ◌↔◌, inl, inr, In, All, All-at,
  All-from, Bool-cases, arith, subst, get_elem?, length,
}
use delorean.Parallel.{success, failure}
use delorean.Reports.{
  CleanupConfig, S3Error, S3, S3Call, copy_call, delete_call, archive_folder_name, in_folder,
  select, copy_objects, delete_objects, cleanup_objects_for_bucket, cleanup_task,
}
use delorean.Parallel.{
  parallel_limit, Steps, IsDone, Pool, returned, Returned, results, error, ids_from, task_error,
  context_error,
}
use delorean.Parallel.Answer.{ids_from-In, parallel_limit-IsCorrect, IsCorrect, Filled}
use delorean.Reports.Moved.{
  copy_loop-called, IsArchived, IsSafe, In-select, select-In, In-copy_loop, copy_loop-In,
  copy_loop-All,
}

module _ (s3 : S3) (config : CleanupConfig) where
  In-copy_objects :
      (k folder : Text) (objects : List Text)
      → In k (copy_objects s3 config.bucket folder objects).1
      → In k objects × (s3.copy_object config.bucket k (in_folder folder k) ≡ true)
  unfolding copy_objects
  In-copy_objects k folder [] m = absurd m
  In-copy_objects k folder (o ∷ objects) m =
      elim (In-copy_loop s3 config k folder (o ∷ objects) [] [] m) [ inl z ↦ absurd z | inr r ↦ r ]

  copy_objects-In :
      (k folder : Text) (objects : List Text)
      → In k objects
      → s3.copy_object config.bucket k (in_folder folder k) ≡ true
      → In k (copy_objects s3 config.bucket folder objects).1
  unfolding copy_objects
  copy_objects-In k folder [] m t = absurd m
  copy_objects-In k folder (o ∷ objects) m t =
      copy_loop-In s3 config k folder (o ∷ objects) [] [] m t

  copy_objects-All :
      (P : S3Call → Type 0) (folder : Text) (objects : List Text)
      → All (λ o. P (copy_call config.bucket o (in_folder folder o))) objects
      → All P (copy_objects s3 config.bucket folder objects).0
  unfolding copy_objects
  copy_objects-All P folder [] g = tt
  copy_objects-All P folder (o ∷ objects) g =
      copy_loop-All s3 config P folder (o ∷ objects) [] [] tt g

  copy_objects-called :
      (k folder : Text) (objects : List Text)
      → In k (copy_objects s3 config.bucket folder objects).1
      → In
          (copy_call config.bucket k (in_folder folder k))
          (copy_objects s3 config.bucket folder objects).0
  unfolding copy_objects
  copy_objects-called k folder [] m = absurd m
  copy_objects-called k folder (o ∷ objects) m =
      copy_loop-called s3 config k folder (o ∷ objects) [] [] (λ z. absurd z) m

  delete_objects-Throughout :
      (P : List S3Call → S3Call → Type 0) (before : List S3Call) (keys : List Text)
      → P before (delete_call config.bucket keys)
      → Throughout P before (delete_objects s3 config.bucket keys).0
  unfolding delete_objects
  delete_objects-Throughout P before [] p = tt
  delete_objects-Throughout P before (k ∷ keys) p = (p, tt)

  module _ (objects : List Text) where
    -- The keys to delete are those of archived reports.
    In-moved :
        (k : Text)
        → In k
            (copy_objects s3 config.bucket archive_folder_name
              (select s3 config.bucket objects config.tags [])).1
        → IsArchived s3 config objects k
    In-moved k m =
        let (i, t) = In-copy_objects k archive_folder_name _ m in
        elim (In-select s3 config k objects [] i) [
          | inl z ↦ absurd z
          | inr (l, tagged) ↦ (l, tagged, t)
        ]

    moved-In :
        (k : Text)
        → IsArchived s3 config objects k
        → In k
            (copy_objects s3 config.bucket archive_folder_name
              (select s3 config.bucket objects config.tags [])).1
    moved-In k (l, tagged, t) =
        copy_objects-In k archive_folder_name _ (select-In s3 config k objects [] l tagged) t

    copies-IsSafe :
        All
          (λ c. (before : List S3Call) → IsSafe s3 config objects before c)
          (copy_objects s3 config.bucket archive_folder_name
            (select s3 config.bucket objects config.tags [])).0
    copies-IsSafe = copy_objects-All _ archive_folder_name _ (
        All-from _ (select s3 config.bucket objects config.tags []) (λ o m before.
          elim (In-select s3 config o objects [] m)
            as (λ _.
              IsSafe s3 config objects before
                (copy_call config.bucket o (in_folder archive_folder_name o))) [
                  | inl z ↦ absurd z
                  | inr (l, tagged) ↦ (refl, l, tagged, refl)
                ]))

    -- Whatever S3 answers, if the bucket is listed, only tagged reports of it are copied, each to the archive, and only
    -- reports are deleted whose copy to the archive has been asked for before and has been made.
    pub cleanup_objects_for_bucket-IsSafe :
        s3.list_objects config.bucket ≡ some objects
        → Throughout (IsSafe s3 config objects) [] (cleanup_objects_for_bucket s3 config).0
    unfolding cleanup_objects_for_bucket
    cleanup_objects_for_bucket-IsSafe e =
        let copies =
          copy_objects s3 config.bucket archive_folder_name
            (select s3 config.bucket objects config.tags []) in
        rw (e, cleanup_objects_for_bucket)
          (Throughout-append (IsSafe s3 config objects) [] copies.0 _
            (Throughout-All (IsSafe s3 config objects) [] copies.0 copies-IsSafe)
            (delete_objects-Throughout (IsSafe s3 config objects) copies.0 copies.1 (
              refl,
              All-from _ copies.1 (λ k m. (
                In-moved k m,
                copy_objects-called k archive_folder_name
                    (select s3 config.bucket objects config.tags []) m,
              )),
            )))

    -- The reports that are reported as moved are exactly the archived ones.
    pub cleanup_objects_for_bucket-IsArchived :
        (moved : List Text) (k : Text)
        → s3.list_objects config.bucket ≡ some objects
        → (cleanup_objects_for_bucket s3 config).1 ≡ success moved
        → In k moved ↔ IsArchived s3 config objects k
    unfolding cleanup_objects_for_bucket
    cleanup_objects_for_bucket-IsArchived moved k e h =
        let copied =
          (copy_objects s3 config.bucket archive_folder_name
            (select s3 config.bucket objects config.tags [])).1 in
        elim (Bool-cases (delete_objects s3 config.bucket copied).1) [
          | inr q ↦ cc (rw (e, q, cleanup_objects_for_bucket) at h)
          | inl q ↦
              let same : copied ≡ moved = cc (rw (e, q, cleanup_objects_for_bucket) at h) in
              (λ m. In-moved k (subst (In k) (sym same) m), λ r. subst (In k) same (moved-In k r))
        ]

-- What the answer of the command means for the buckets: all have been cleaned, or one failed, or the caller gave up.
abbrev pub IsReported : S3 → List CleanupConfig → Bool → Returned (List Text) S3Error → Type 0
IsReported s3 configs given_up (results xs) =
    All (λ config. (moved : List Text) × ((cleanup_objects_for_bucket s3 config).1 ≡ success moved))
      configs
IsReported s3 configs given_up (error (task_error e)) =
    (config : CleanupConfig) × In config configs
    × ((cleanup_objects_for_bucket s3 config).1 ≡ failure e)
IsReported s3 configs given_up (error context_error) = given_up ≡ true

module _ (s3 : S3) (configs : List CleanupConfig) where
  cleanup_task-at :
      (i : ℕ) (config : CleanupConfig)
      → get_elem? configs i ≡ some config
      → cleanup_task s3 configs i ≡ (cleanup_objects_for_bucket s3 config).1
  unfolding cleanup_task
  cleanup_task-at i config e = rw (e, cleanup_task) refl

  IsReported-IsCorrect :
      (given_up : Bool) (r : Returned (List Text) S3Error)
      → IsCorrect (cleanup_task s3 configs) (length configs) given_up r
      → IsReported s3 configs given_up r
  IsReported-IsCorrect given_up (results xs) (n, filled) = All-get _ configs (λ i b config e.
      let (moved, done, place) =
        All-at (Filled (cleanup_task s3 configs) xs) (ids_from 0 (length configs)) i filled
          (ids_from-In 0 (length configs) i (omega arith) (omega arith)) in
      (moved, sym (cleanup_task-at i config e) ∙ done))
  IsReported-IsCorrect given_up (error (task_error x)) (i, b, failed) =
      let (config, e) = get_elem?-below configs i b in
      (config, get_elem?-In configs i config e, sym (cleanup_task-at i config e) ∙ failed)
  IsReported-IsCorrect given_up (error context_error) c = c

-- However the buckets' clean-ups are scheduled, once `run` is done with at least one bucket: without an error all
-- buckets have been cleaned, and an error is one of a bucket or the caller's own cancellation.
pub run-IsReported :
    (s3 : S3) (configs : List CleanupConfig) (k : ℕ) (s : Pool (List Text) S3Error)
    → 0 < length configs
    → Steps (cleanup_task s3 configs) (parallel_limit (length configs) (length configs)) k s
    → IsDone s
    → IsReported s3 configs s.caller_cancelled (returned (length configs) s)
run-IsReported s3 configs k s p steps d = IsReported-IsCorrect s3 configs s.caller_cancelled _ (
    parallel_limit-IsCorrect (cleanup_task s3 configs) (length configs) (length configs) k s p steps
      d)
