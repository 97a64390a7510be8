-- ===== src/Parallel/Examples.antt =====
-- A run of two tasks by one goroutine, of which the second fails, and one in which both succeed.
use delorean.Base.{
  ℕ, zero, suc, ◌+◌, ◌*◌, ◌≤◌, [], ◌∷◌, Bool, true, false, none, some, ◌≡◌, refl, length, arith,
}
use delorean.Parallel.{
  Outcome, success, failure, Pool, min_int, feed, take, send, stop, Steps, here, next, IsDone,
  collect, results, returned, parallel_limit,
}
use delorean.Parallel.Answer.{IsCorrect, parallel_limit-IsCorrect, parallel_limit_bounded}
use delorean.Parallel.Progress.{parallel_limit_finishes, parallel_limit_ends}

abbrev tens : ℕ → Outcome ℕ Bool
tens i = success (10 + i)

abbrev last_fails : ℕ → Outcome ℕ Bool
last_fails zero = success 10
last_fails (suc i) = failure true

abbrev both_done : Pool ℕ Bool
both_done = record {
  unsent = [];
  capacity = 2;
  tasks_chan = [];
  idle = 0;
  running = [];
  results_chan = (0, 10) ∷ (1, 11) ∷ [];
  group_error = none;
  caller_cancelled = false;
  cancelled = false;
}

abbrev first_running : Pool ℕ Bool
first_running = record {
  unsent = 1 ∷ [];
  capacity = 2;
  tasks_chan = [];
  idle = 0;
  running = 0 ∷ [];
  results_chan = [];
  group_error = none;
  caller_cancelled = false;
  cancelled = false;
}

first-Steps : Steps tens (parallel_limit 2 1) 2 first_running
first-Steps = next (next here (feed _ 0 (1 ∷ []) refl (omega arith))) (take _ 0 [] 0 refl refl)

failing-Steps : Steps last_fails (parallel_limit 2 1) 2 first_running
failing-Steps = next (next here (feed _ 0 (1 ∷ []) refl (omega arith))) (take _ 0 [] 0 refl refl)

both-Steps : Steps tens (parallel_limit 2 1) 7 both_done
both-Steps =
    next
      (next
        (next
          (next (next first-Steps (send _ [] 0 [] 10 refl refl (omega arith)))
            (feed _ 1 [] refl (omega arith)))
          (take _ 1 [] 0 refl refl))
        (send _ [] 1 [] 11 refl refl (omega arith)))
      (stop _ 0 refl refl refl)

both_IsDone : IsDone both_done
both_IsDone = record { all_sent = refl; none_idle = refl; none_running = refl }

parallel_limit-IsCorrect_example : IsCorrect tens 2 false (returned 2 both_done)
parallel_limit-IsCorrect_example =
    parallel_limit-IsCorrect tens 2 1 7 both_done (omega arith) both-Steps both_IsDone

parallel_limit_bounded_example :
    (length first_running.running ≤ 1) × (length first_running.running ≤ 2)
parallel_limit_bounded_example = parallel_limit_bounded tens 2 1 2 first_running first-Steps

parallel_limit_ends_example : 7 ≤ 4 * 2 + min_int 1 2 + 1
parallel_limit_ends_example = parallel_limit_ends tens 2 1 7 both_done both-Steps

parallel_limit_finishes_example :
    (m : ℕ) × (t : Pool ℕ Bool) × Steps last_fails first_running m t × IsDone t
parallel_limit_finishes_example =
    parallel_limit_finishes last_fails 2 1 2 first_running failing-Steps

-- The results of the run above.
both_results : returned 2 both_done ≡ results (some 10 ∷ some 11 ∷ [])
unfolding collect returned
both_results = refl

-- With a limit of 0 nothing runs, and the caller gets results without an error.
limit_zero :
    returned {A = ℕ} {E = Bool} 2
      (record (parallel_limit 2 0) { unsent = []; tasks_chan = 0 ∷ 1 ∷ [] })
    ≡ results (none ∷ none ∷ [])
unfolding collect returned
limit_zero = refl
