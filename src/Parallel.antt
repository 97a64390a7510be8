-- ===== src/Parallel.antt =====
-- pkg/utils/concurrency.go: `ParallelLimit` runs tasks on a bounded number of goroutines.
-- A state holds the channels and the goroutines, and a step is one communication or one finished
-- task; the scheduler is free to choose among the steps. A task runs at most once, so what it returns
-- is a function of its number. A panic of a task ends the program and is not modelled.
pub mod Correct
pub mod Answer
pub mod Progress
mod Examples
use delorean.Base.{
  ℕ, zero, suc, List, [], ◌∷◌, ◌++◌, Bool, true, false, Option, none, some, ◌≡◌, set, replicate,
  ltb, if◌then◌else◌, length, ◌<◌,
}

-- What a task returns.
pub data Outcome (A E : Type 0) : Type 0 where
  success : A → Outcome A E
  failure : E → Outcome A E

-- `g.Wait` returns an error of a task, or `ctx.Err()`.
pub data PoolError (E : Type 0) : Type 0 where
  task_error : E → PoolError E
  context_error : PoolError E

abbrev pub min_int : ℕ → ℕ → ℕ
min_int a b = if ltb a b then a else b

pub record Pool (A E : Type 0) : Type 0 where
  -- the tasks that the caller has still to send, then it closes the channel
  pub unsent : List ℕ
  -- `numberOfTasks`, the capacity of both channels
  pub capacity : ℕ
  -- the buffer of `tasksChan`
  pub tasks_chan : List ℕ
  -- the goroutines that wait for a task, and the tasks that the others run
  pub idle : ℕ
  pub running : List ℕ
  -- the buffer of `resultsChan`
  pub results_chan : List (ℕ × A)
  -- the first error of the group
  pub group_error : Option (PoolError E)
  -- the caller's context, and the group's
  pub caller_cancelled : Bool
  pub cancelled : Bool

abbrev pub first_error : {E : Type 0} → Option (PoolError E) → PoolError E → Option (PoolError E)
first_error none e = some e
first_error (some old) e = some old

abbrev pub start : {A E : Type 0} → List ℕ → ℕ → Pool A E
start ids limit = record {
  unsent = ids;
  capacity = length ids;
  tasks_chan = [];
  idle = limit;
  running = [];
  results_chan = [];
  group_error = none;
  caller_cancelled = false;
  cancelled = false;
}

module _ {A E : Type 0} (outcome : ℕ → Outcome A E) where
  pub data Step : Pool A E → Pool A E → Type 0 where
    -- `tasksChan <- idt`, which waits while the buffer is full
    feed :
        (s : Pool A E) (i : ℕ) (rest : List ℕ)
        → s.unsent ≡ i ∷ rest
        → length s.tasks_chan < s.capacity
        → Step s (record s { unsent = rest; tasks_chan = s.tasks_chan ++ i ∷ [] })
    -- `t := range tasksChan`
    take :
        (s : Pool A E) (i : ℕ) (rest : List ℕ) (k : ℕ)
        → s.tasks_chan ≡ i ∷ rest
        → s.idle ≡ suc k
        → Step s (record s { tasks_chan = rest; idle = k; running = i ∷ s.running })
    -- the task succeeded, and `resultsChan <- r` was selected, for which the buffer has room
    send :
        (s : Pool A E) (before : List ℕ) (i : ℕ) (after : List ℕ) (a : A)
        → s.running ≡ before ++ i ∷ after
        → outcome i ≡ success a
        → length s.results_chan < s.capacity
        → Step s (record s {
          running = before ++ after;
          idle = suc s.idle;
          results_chan = s.results_chan ++ (i, a) ∷ [];
        })
    -- the task succeeded, and `<-ctx.Done()` was selected
    give_up :
        (s : Pool A E) (before : List ℕ) (i : ℕ) (after : List ℕ) (a : A)
        → s.running ≡ before ++ i ∷ after
        → outcome i ≡ success a
        → s.cancelled ≡ true
        → Step s (record s {
          running = before ++ after;
          group_error = first_error s.group_error context_error;
        })
    -- the task failed: the goroutine ends, and the first error cancels the group's context
    fail :
        (s : Pool A E) (before : List ℕ) (i : ℕ) (after : List ℕ) (e : E)
        → s.running ≡ before ++ i ∷ after
        → outcome i ≡ failure e
        → Step s (record s {
          running = before ++ after;
          group_error = first_error s.group_error (task_error e);
          cancelled = true;
        })
    -- `tasksChan` is closed and empty: the goroutine ends
    stop :
        (s : Pool A E) (k : ℕ)
        → s.unsent ≡ []
        → s.tasks_chan ≡ []
        → s.idle ≡ suc k
        → Step s (record s { idle = k })
    -- somebody cancels the caller's context
    cancel :
        (s : Pool A E)
        → s.caller_cancelled ≡ false
        → Step s (record s { caller_cancelled = true; cancelled = true })

  -- `Steps n s t`: n steps lead from s to t.
  pub data Steps (s : Pool A E) : ℕ → Pool A E → Type 0 where
    here : Steps s zero s
    next : {n : ℕ} {t u : Pool A E} → Steps s n t → Step t u → Steps s (suc n) u

-- All tasks are sent and all goroutines have ended: `g.Wait` and the loop over the results return.
pub record IsDone {A E : Type 0} (s : Pool A E) : Type 0 where
  pub all_sent : s.unsent ≡ []
  pub none_idle : s.idle ≡ 0
  pub none_running : s.running ≡ []

module _ {A : Type 0} where
  -- `for r := range resultsChan { results[r.id] = r.r }`
  unfoldable pub collect : List (ℕ × A) → List (Option A) → List (Option A)
  collect [] results = results
  collect ((i, a) ∷ rs) results = collect rs (set results i (some a))

-- What `ParallelLimit` returns.
pub data Returned (A E : Type 0) : Type 0 where
  results : List (Option A) → Returned A E
  error : PoolError E → Returned A E

-- `if err := g.Wait(); err != nil { return nil, err }`
abbrev pub wait : {A E : Type 0} → Option (PoolError E) → List (Option A) → Returned A E
wait none xs = results xs
wait (some e) xs = error e

-- The end of `ParallelLimit` for `n` tasks, from the state in which it is done.
unfoldable pub returned : {A E : Type 0} → ℕ → Pool A E → Returned A E
returned n s = wait s.group_error (collect s.results_chan (replicate n none))

-- `for i, t := range tasks`: the numbers of the tasks.
abbrev pub ids_from : ℕ → ℕ → List ℕ
ids_from i zero = []
ids_from i (suc n) = i ∷ ids_from (suc i) n

-- The state when the goroutines have been started.
abbrev pub parallel_limit : {A E : Type 0} → ℕ → ℕ → Pool A E
parallel_limit n limit = start (ids_from 0 n) (min_int limit n)
