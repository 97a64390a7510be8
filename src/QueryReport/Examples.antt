-- ===== src/QueryReport/Examples.antt =====
-- A report of one query.
use delorean.Base.{
  arith, text_eq, replace_all, ℕ, [], ◌∷◌, false, none, some, Text, codes, ok, ◌≡◌, refl,
}
use delorean.Parallel.{collect, returned, Pool, Steps, here, next, feed, take, send, stop, success}
use delorean.QueryReport.{
  all_results, query_prom, QueryOpts, QueryResult, QueryReportCmd, PrometheusService, QueryError,
  parse_query_range_query, query_task, started, process_queries,
}
use delorean.QueryReport.Answered.{IsAnswered, process_queries-IsAnswered}

abbrev opts : QueryOpts
opts = record { query_type = codes "query"; name = codes "up"; query = codes "up[$range]" }

abbrev report : QueryReportCmd ℕ
report = record {
  queries = opts ∷ [];
  range_start = 0;
  range_end = 60;
  milliseconds = codes "60000";
  seconds = codes "60";
}

-- The value of a query is its text.
abbrev echo : PrometheusService ℕ Text
echo = record { query = λ q. some q; query_range = λ q start end. none }

abbrev answer : QueryResult Text
answer = record { value = codes "up[60000]"; name = codes "up"; query = codes "up[$range]" }

filled_in : parse_query_range_query echo report (codes "rate(x[$duration])") ≡ codes "rate(x[60s])"
unfolding parse_query_range_query replace_all
filled_in = refl

abbrev finished : Pool (QueryResult Text) QueryError
finished = record {
  unsent = [];
  capacity = 1;
  tasks_chan = [];
  idle = 0;
  running = [];
  results_chan = (0, answer) ∷ [];
  group_error = none;
  caller_cancelled = false;
  cancelled = false;
}

task_succeeds : query_task echo report 0 ≡ success answer
unfolding query_task query_prom text_eq parse_query_range_query replace_all
task_succeeds = refl

finished-Steps : Steps (query_task echo report) (started echo report) 4 finished
finished-Steps =
    next
      (next (next (next here (feed _ 0 [] refl (omega arith))) (take _ 0 [] 0 refl refl))
        (send _ [] 0 [] answer refl task_succeeds (omega arith)))
      (stop _ 0 refl refl refl)

returns : process_queries echo report finished ≡ ok (answer ∷ [])
unfolding process_queries returned all_results collect
returns = refl

process_queries-IsAnswered_example :
    IsAnswered echo report false (process_queries echo report finished)
process_queries-IsAnswered_example =
    process_queries-IsAnswered echo report 4 finished finished-Steps
      (record { all_sent = refl; none_idle = refl; none_running = refl })
