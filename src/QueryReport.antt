-- ===== src/QueryReport.antt =====
-- cmd/queryReport.go: the queries of a report, which run as tasks of ParallelLimit. Prometheus is the
-- parameter; the texts of the queries' duration, which strconv and fmt make, belong to the command.
pub mod Answered
mod Examples
use delorean.Base.{
  ℕ, List, [], ◌∷◌, Option, none, some, Text, codes, text_eq, replace_all, ◌++◌, get_elem?, length,
  if◌then◌else◌, Result, ok, err, panic,
}
use delorean.Parallel.{
  Outcome, success, failure, PoolError, Pool, Returned, results, error, parallel_limit, returned,
}

pub record QueryOpts : Type 0 where
  pub query_type : Text
  pub name : Text
  pub query : Text

-- A result with the value that Prometheus gave.
pub record QueryResult (Value : Type 0) : Type 0 where
  pub value : Value
  pub name : Text
  pub query : Text

pub record QueryReportCmd (Time : Type 0) : Type 0 where
  pub queries : List QueryOpts
  pub range_start : Time
  pub range_end : Time
  -- the duration of the range, in milliseconds and in rounded seconds
  pub milliseconds : Text
  pub seconds : Text

pub record PrometheusService (Time Value : Type 0) : Type 0 where
  pub query : Text → Option Value
  pub query_range : Text → (from_time : Time) → (to_time : Time) → Option Value

pub data QueryError : Type 0 where
  not_answered : Text → QueryError
  unsupported_type : Text → QueryError
  no_query : ℕ → QueryError

abbrev pub prom_query_type : Text
prom_query_type = codes "query"

abbrev pub prom_query_range_type : Text
prom_query_range_type = codes "query_range"

abbrev pub default_workers : ℕ
default_workers = 5

module _ {Time Value : Type 0} (prom : PrometheusService Time Value) (c : QueryReportCmd Time) where
  -- `parseQueryRangeQuery`
  unfoldable pub parse_query_range_query : Text → Text
  parse_query_range_query query =
      replace_all (replace_all query (codes "$range") c.milliseconds) (codes "$duration")
        (c.seconds ++ codes "s")

  abbrev pub answer : Text → Option Value → Outcome Value QueryError
  answer query none = failure (not_answered query)
  answer query (some value) = success value

  -- `queryProm`
  unfoldable pub query_prom : QueryOpts → Outcome Value QueryError
  query_prom opts =
      if text_eq opts.query_type prom_query_type
      then answer opts.query (prom.query (parse_query_range_query opts.query))
      else if text_eq opts.query_type prom_query_range_type
      then answer opts.query
          (prom.query_range (parse_query_range_query opts.query) c.range_start c.range_end)
      else failure (unsupported_type opts.query_type)

  abbrev pub query_result :
      QueryOpts → Outcome Value QueryError → Outcome (QueryResult Value) QueryError
  query_result q (success value) =
      success (record { value = value; name = q.name; query = q.query })
  query_result q (failure e) = failure e

  -- The task of a query, by its number.
  unfoldable pub query_task : ℕ → Outcome (QueryResult Value) QueryError
  query_task i = elim (get_elem? c.queries i) [
    | none ↦ failure (no_query i)
    | some q ↦ query_result q (query_prom q)
  ]

  -- `r.(queryResult)`: a result that is missing panics.
  unfoldable pub all_results :
      List (Option (QueryResult Value)) → Result (PoolError QueryError) (List (QueryResult Value))
  all_results [] = ok []
  all_results (none ∷ rest) = panic
  all_results (some r ∷ rest) = elim (all_results rest) [
    | ok rs ↦ ok (r ∷ rs)
    | err e ↦ err e
    | panic ↦ panic
  ]

  abbrev pub from_pool :
      Returned (QueryResult Value) QueryError
      → Result (PoolError QueryError) (List (QueryResult Value))
  from_pool (results xs) = all_results xs
  from_pool (error e) = err e

  -- The state in which `processQueries` starts its tasks.
  abbrev pub started : Pool (QueryResult Value) QueryError
  started = parallel_limit (length c.queries) default_workers

  -- What `processQueries` returns from the state in which all tasks are done.
  unfoldable pub process_queries :
      Pool (QueryResult Value) QueryError → Result (PoolError QueryError) (List (QueryResult Value))
  process_queries s = from_pool (returned (length c.queries) s)
