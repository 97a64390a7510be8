-- ===== src/Reports.antt =====
-- cmd/cleanupReports.go: reports with the required tags are copied to the folder `archive` of their
-- bucket and then deleted. S3 is a parameter. Besides a value the functions return the calls that
-- change a bucket, in their order.
pub mod Moved
pub mod Buckets
mod Examples
use delorean.Base.{
  ℕ, List, [], ◌∷◌, ◌++◌, Bool, true, false, ◌&&◌, Option, none, some, Text, codes, text_eq,
  if◌then◌else◌, get_elem?, length, Result, ok, err, panic,
}
use delorean.Parallel.{Outcome, success, failure}

pub record ObjectTag : Type 0 where
  pub key : Text
  pub value : Text

pub record CleanupConfig : Type 0 where
  pub bucket : Text
  pub tags : List ObjectTag

pub data S3Error : Type 0 where
  list_failed delete_failed : Text → S3Error

-- `none` and `false` are calls that failed. An object stands for its key.
pub record S3 : Type 0 where
  pub list_objects : Text → Option (List Text)
  pub object_tagging : Text → Text → Option (List ObjectTag)
  pub copy_object : Text → Text → Text → Bool
  pub delete : Text → List Text → Bool

pub data S3Call : Type 0 where
  copy_call : Text → Text → Text → S3Call
  delete_call : Text → List Text → S3Call

abbrev pub archive_folder_name : Text
archive_folder_name = codes "archive"

-- `fmt.Sprintf("%s/%s", toFolder, *o.Key)`
abbrev pub in_folder : Text → Text → Text
in_folder to_folder object = to_folder ++ (codes "/" ++ object)

-- cmd/reportPortalImport.go
unfoldable pub has_tag : List ObjectTag → Text → Text → Bool
has_tag [] key val = false
has_tag (t ∷ tags) key val =
    let rest = has_tag tags key val in
    if text_eq t.key key && text_eq t.value val then true else rest

-- The loop with `break` at the first tag that is missing.
has_all_tags : List ObjectTag → List ObjectTag → Bool
has_all_tags found [] = true
has_all_tags found (tag ∷ tags) =
    let rest = has_all_tags found tags in if has_tag found tag.key tag.value then rest else false

module _ (s3 : S3) (bucket : Text) where
  -- `none` is an error.
  pub should_cleanup : Text → List ObjectTag → Option Bool
  unfolding has_all_tags
  should_cleanup object tags = elim (s3.object_tagging bucket object) [
    | none ↦ none
    | some found ↦ some (has_all_tags found tags)
  ]

  -- The loop that fills `toCopy`: objects with an error are skipped.
  pub select : List Text → List ObjectTag → List Text → List Text
  unfolding should_cleanup
  select [] tags to_copy = to_copy
  select (o ∷ objects) tags to_copy = select objects tags (elim (should_cleanup o tags) [
    | none ↦ to_copy
    | some true ↦ to_copy ++ o ∷ []
    | some false ↦ to_copy
  ])

  pub copy_loop : Text → List Text → List S3Call → List Text → List S3Call × List Text
  copy_loop to_folder [] calls copied = (calls, copied)
  copy_loop to_folder (o ∷ objects) calls copied =
      copy_loop to_folder objects (calls ++ copy_call bucket o (in_folder to_folder o) ∷ [])
        (if s3.copy_object bucket o (in_folder to_folder o) then copied ++ o ∷ [] else copied)

  pub copy_objects : Text → List Text → List S3Call × List Text
  unfolding copy_loop
  copy_objects to_folder [] = ([], [])
  copy_objects to_folder (o ∷ objects) = copy_loop to_folder (o ∷ objects) [] []

  pub delete_objects : List Text → List S3Call × Bool
  delete_objects [] = ([], true)
  delete_objects (o ∷ to_delete) =
      (delete_call bucket (o ∷ to_delete) ∷ [], s3.delete bucket (o ∷ to_delete))

unfoldable pub cleanup_objects_for_bucket :
    S3 → CleanupConfig → List S3Call × Outcome (List Text) S3Error
unfolding select copy_objects delete_objects
cleanup_objects_for_bucket s3 config = elim (s3.list_objects config.bucket) [
  | none ↦ ([], failure (list_failed config.bucket))
  | some objects ↦
      let (copies, copied) =
        copy_objects s3 config.bucket archive_folder_name
          (select s3 config.bucket objects config.tags []) in
      let (deletes, done) = delete_objects s3 config.bucket copied in
      (copies ++ deletes, if done then success copied else failure (delete_failed config.bucket))
]

-- The task of `run` for the i-th bucket; there is none beyond the last.
unfoldable pub cleanup_task : S3 → List CleanupConfig → ℕ → Outcome (List Text) S3Error
cleanup_task s3 configs i = elim (get_elem? configs i) [
  | none ↦ failure (list_failed [])
  | some config ↦ (cleanup_objects_for_bucket s3 config).1
]
