-- ===== src/QueryReport/Answered.antt =====
-- What processQueries of cmd/queryReport.go returns, by what ParallelLimit guarantees.
use delorean.Base.{
  ℕ, zero, suc, ◌<◌, List, [], ◌∷◌, Bool, true, Option, none, some, ◌≡◌, refl, ap, sym, subst, ◌∙◌,
  In, All-at, get_elem?, get_elem?-below, get_elem?-In, length, Result, ok, err, panic, arith,
}
use delorean.Parallel.{
  Outcome, success, failure, PoolError, task_error, context_error, Pool, Returned, results, error,
  returned, Steps, IsDone, ids_from,
}
use delorean.Parallel.Answer.{ids_from-In, parallel_limit-IsCorrect, IsCorrect, Filled}
use delorean.QueryReport.{
  QueryOpts, QueryResult, QueryReportCmd, PrometheusService, QueryError, query_prom, query_result,
  query_task, all_results, from_pool, started, process_queries, default_workers,
}

below_of : {A : Type 0} (xs : List A) (i : ℕ) (x : A) → get_elem? xs i ≡ some x → i < length xs
below_of [] i x e = cc e
below_of (y ∷ xs) zero x e = omega arith
below_of (y ∷ xs) (suc i) x e = omega (arith, below_of xs i x e)

module _ {Time Value : Type 0} (prom : PrometheusService Time Value) (c : QueryReportCmd Time) where
  -- The result at a query's place is its own: its name, its query and the value that Prometheus gave.
  abbrev pub IsResultAt : List (QueryResult Value) → ℕ → QueryOpts → Type 0
  IsResultAt rs i q =
      (value : Value) × (query_prom prom c q ≡ success value)
      × (get_elem? rs i ≡ some (record { value = value; name = q.name; query = q.query }))

  abbrev pub IsAnswered : Bool → Result (PoolError QueryError) (List (QueryResult Value)) → Type 0
  IsAnswered given_up (ok rs) =
      (length rs ≡ length c.queries)
      × ((i : ℕ) (q : QueryOpts) → get_elem? c.queries i ≡ some q → IsResultAt rs i q)
  IsAnswered given_up (err (task_error e)) =
      (q : QueryOpts) × In q c.queries × (query_prom prom c q ≡ failure e)
  IsAnswered given_up (err context_error) = given_up ≡ true
  IsAnswered given_up panic = ⊥

  place :
      (x : QueryResult Value) (xs : List (Option (QueryResult Value)))
      (rs : List (QueryResult Value))
      → ((i : ℕ) (r : QueryResult Value) → get_elem? xs i ≡ some (some r) → get_elem? rs i ≡ some r)
      → (i : ℕ) (r : QueryResult Value) → get_elem? (some x ∷ xs) i ≡ some (some r)
      → get_elem? (x ∷ rs) i ≡ some r
  place x xs rs at zero r e = cc e
  place x xs rs at (suc i) r e = at i r e

  all_there :
      (xs : List (Option (QueryResult Value)))
      → ((i : ℕ) → i < length xs → (r : QueryResult Value) × (get_elem? xs i ≡ some (some r)))
      → (rs : List (QueryResult Value)) × (all_results prom c xs ≡ ok rs)
        × (length rs ≡ length xs)
        × ((i : ℕ) (r : QueryResult Value)
            → get_elem? xs i ≡ some (some r)
            → get_elem? rs i ≡ some r)
  unfolding all_results
  all_there [] h = ([], refl, refl, λ i r e. cc e)
  all_there (none ∷ xs) h = let (r, e) = h 0 (omega arith) in cc e
  all_there (some x ∷ xs) h =
      let (rs, e, n, at) = all_there xs (λ i b. h (suc i) (omega arith)) in
      (x ∷ rs, rw e refl, ap suc n, place x xs rs at)

  query_task-at :
      (i : ℕ) (q : QueryOpts)
      → get_elem? c.queries i ≡ some q
      → query_task prom c i ≡ query_result prom c q (query_prom prom c q)
  unfolding query_task
  query_task-at i q e = rw (e, query_task) refl

  result-success :
      (q : QueryOpts) (o : Outcome Value QueryError) (r : QueryResult Value)
      → query_result prom c q o ≡ success r
      → (value : Value) × (o ≡ success value)
        × (r ≡ record { value = value; name = q.name; query = q.query })
  result-success q (success value) r e = (value, refl, cc e)
  result-success q (failure x) r e = cc e

  result-failure :
      (q : QueryOpts) (o : Outcome Value QueryError) (x : QueryError)
      → query_result prom c q o ≡ failure x
      → o ≡ failure x
  result-failure q (success value) x e = cc e
  result-failure q (failure y) x e = let same : y ≡ x = cc e in ap failure same

  IsAnswered-IsCorrect :
      (given_up : Bool) (r : Returned (QueryResult Value) QueryError)
      → IsCorrect (query_task prom c) (length c.queries) given_up r
      → IsAnswered given_up (from_pool prom c r)
  IsAnswered-IsCorrect given_up (results xs) (n, filled) =
      let at_place = λ (i : ℕ) (b : i < length c.queries).
        All-at (Filled (query_task prom c) xs) (ids_from 0 (length c.queries)) i filled
          (ids_from-In 0 (length c.queries) i (omega arith) (omega arith)) in
      let (rs, e, m, at) =
        all_there xs (λ i b. let (r, _, p) = at_place i (omega arith) in (r, p)) in
      subst (IsAnswered given_up) (sym e) (
        m ∙ n,
        λ i q p.
            let (r, t, u) = at_place i (below_of c.queries i q p) in
            let (value, done, w) =
              result-success q (query_prom prom c q) r (sym (query_task-at i q p) ∙ t) in
            (value, done, at i r u ∙ ap some w),
      )
  IsAnswered-IsCorrect given_up (error (task_error x)) (i, b, failed) =
      let (q, e) = get_elem?-below c.queries i b in
      (
        q,
        get_elem?-In c.queries i q e,
        result-failure q (query_prom prom c q) x (sym (query_task-at i q e) ∙ failed),
      )
  IsAnswered-IsCorrect given_up (error context_error) h = h

  -- However the queries are scheduled, once they are done: what is returned without an error are the results in the
  -- order of the configuration, each with its name, its query and the value that Prometheus gave; an error is one of a
  -- query or the caller's own cancellation; and there is no panic.
  pub process_queries-IsAnswered :
      (k : ℕ) (s : Pool (QueryResult Value) QueryError)
      → Steps (query_task prom c) (started prom c) k s
      → IsDone s
      → IsAnswered s.caller_cancelled (process_queries prom c s)
  unfolding process_queries
  process_queries-IsAnswered k s steps d =
      IsAnswered-IsCorrect s.caller_cancelled (returned (length c.queries) s) (
        parallel_limit-IsCorrect (query_task prom c) (length c.queries) default_workers k s
          (omega arith) steps d)
