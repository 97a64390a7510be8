-- ===== src/Reports/Examples.antt =====
-- A bucket with a processed report, one without the tag, and one whose copy fails.
use delorean.Base.{
  Throughout, List, [], ◌∷◌, true, false, not, none, some, Text, codes, text_eq, if◌then◌else◌, ◌≡◌,
  refl, ◌↔◌, In, arith,
}
use delorean.Parallel.{success}
use delorean.Reports.{
  ObjectTag, CleanupConfig, S3Error, S3, copy_call, delete_call, has_tag,
  cleanup_objects_for_bucket, cleanup_task,
}
use delorean.Parallel.{parallel_limit, Steps, Pool, returned, here, next, feed, take, send, stop}
use delorean.Reports.Moved.{IsArchived, IsSafe}
use delorean.Reports.Buckets.{
  cleanup_objects_for_bucket-IsSafe, cleanup_objects_for_bucket-IsArchived, IsReported,
  run-IsReported,
}

abbrev uploaded : ObjectTag
uploaded = record { key = codes "rp"; value = codes "true" }

abbrev config : CleanupConfig
config = record { bucket = codes "reports"; tags = uploaded ∷ [] }

abbrev listed : List Text
listed = codes "a" ∷ codes "b" ∷ codes "c" ∷ []

abbrev s3 : S3
s3 = record {
  list_objects = λ bucket. some listed;
  object_tagging = λ bucket k. if text_eq k (codes "b") then some [] else some (uploaded ∷ []);
  copy_object = λ bucket from to. not (text_eq from (codes "c"));
  delete = λ bucket keys. true;
}

moved_one : (cleanup_objects_for_bucket s3 config).1 ≡ success (codes "a" ∷ [])
unfolding cleanup_objects_for_bucket has_tag text_eq
moved_one = refl

calls_of_bucket :
    (cleanup_objects_for_bucket s3 config).0
    ≡ copy_call (codes "reports") (codes "a") (codes "archive/a")
      ∷ copy_call (codes "reports") (codes "c") (codes "archive/c")
      ∷ delete_call (codes "reports") (codes "a" ∷ [])
      ∷ []
unfolding cleanup_objects_for_bucket has_tag text_eq
calls_of_bucket = refl

cleanup_objects_for_bucket-IsSafe_example :
    Throughout (IsSafe s3 config listed) [] (cleanup_objects_for_bucket s3 config).0
cleanup_objects_for_bucket-IsSafe_example = cleanup_objects_for_bucket-IsSafe s3 config listed refl

cleanup_objects_for_bucket-IsArchived_example :
    In (codes "a") (codes "a" ∷ []) ↔ IsArchived s3 config listed (codes "a")
cleanup_objects_for_bucket-IsArchived_example =
    cleanup_objects_for_bucket-IsArchived s3 config listed (codes "a" ∷ []) (codes "a") refl
      moved_one

abbrev finished : Pool (List Text) S3Error
finished = record {
  unsent = [];
  capacity = 1;
  tasks_chan = [];
  idle = 0;
  running = [];
  results_chan = (0, codes "a" ∷ []) ∷ [];
  group_error = none;
  caller_cancelled = false;
  cancelled = false;
}

task_succeeds : cleanup_task s3 (config ∷ []) 0 ≡ success (codes "a" ∷ [])
unfolding cleanup_task
task_succeeds = moved_one

finished-Steps : Steps (cleanup_task s3 (config ∷ [])) (parallel_limit 1 1) 4 finished
finished-Steps =
    next
      (next (next (next here (feed _ 0 [] refl (omega arith))) (take _ 0 [] 0 refl refl))
        (send _ [] 0 [] (codes "a" ∷ []) refl task_succeeds (omega arith)))
      (stop _ 0 refl refl refl)

run-IsReported_example : IsReported s3 (config ∷ []) false (returned 1 finished)
run-IsReported_example =
    run-IsReported s3 (config ∷ []) 4 finished (omega arith) finished-Steps
      (record { all_sent = refl; none_idle = refl; none_running = refl })
