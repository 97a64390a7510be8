-- ===== src/Parallel/Answer.antt =====
-- The value of `ParallelLimit` of pkg/utils/concurrency.go once all goroutines have ended.
use delorean.Base.{
  ℕ, zero, suc, ◌+◌, ◌<◌, ◌≤◌, List, [], ◌∷◌, Bool, Option, none, some, ◌≡◌, ◌≢◌, refl, sym, ap,
  ◌∙◌, ◌⊎◌, inl, inr, set, replicate, ◌==◌, length, get_elem?, In, All, subst, Bool-cases,
  Option-cases, arith, length-set, length-replicate,
}
use delorean.Parallel.{
  Outcome, success, Pool, min_int, start, Steps, here, next, IsDone, collect, Returned, results,
  error, returned, wait, ids_from, parallel_limit,
}
use delorean.Parallel.Correct.{IsCause, IsSound, IsSound-Step}

pub ids_from-In : (k n i : ℕ) → k ≤ i → i < k + n → In i (ids_from k n)
ids_from-In k zero i h b = absurd (omega arith)
ids_from-In k (suc n) i h b = elim (Bool-cases (k == i)) [
  | inl e ↦ inl (ground arith)
  | inr e ↦ inr (ids_from-In (suc k) n i (ground arith) (omega arith))
]

In-ids_from : (k n i : ℕ) → In i (ids_from k n) → i < k + n
In-ids_from k zero i m = absurd m
In-ids_from k (suc n) i (inl e) = omega arith
In-ids_from k (suc n) i (inr m) = omega (arith, In-ids_from (suc k) n i m)

All-ids_from :
    {P : ℕ → Type 0} (k n : ℕ) → ((i : ℕ) → k ≤ i → i < k + n → P i) → All P (ids_from k n)
All-ids_from k zero h = tt
All-ids_from k (suc n) h = (
  h k (omega arith) (omega arith),
  All-ids_from (suc k) n (λ i l u. h i (omega arith) (omega arith)),
)

module _ {A : Type 0} where
  set-same : (xs : List A) (i : ℕ) (v : A) → i < length xs → get_elem? (set xs i v) i ≡ some v
  set-same [] i v h = absurd (omega arith)
  set-same (x ∷ xs) zero v h = refl
  set-same (x ∷ xs) (suc i) v h = set-same xs i v (omega arith)

  set-other : (xs : List A) (i j : ℕ) (v : A) → i ≢ j → get_elem? (set xs i v) j ≡ get_elem? xs j
  set-other [] i j v h = refl
  set-other (x ∷ xs) zero zero v h = absurd (h refl)
  set-other (x ∷ xs) zero (suc j) v h = refl
  set-other (x ∷ xs) (suc i) zero v h = refl
  set-other (x ∷ xs) (suc i) (suc j) v h = set-other xs i j v (λ e. h (ap suc e))

  length-collect : (rs : List (ℕ × A)) (xs : List (Option A)) → length (collect rs xs) ≡ length xs
  unfolding collect
  length-collect [] xs = refl
  length-collect ((i, a) ∷ rs) xs = length-collect rs (set xs i (some a)) ∙ length-set xs i (some a)

module _ {A E : Type 0} (outcome : ℕ → Outcome A E) (j : ℕ) (v : A)
    (ok : outcome j ≡ success v) where
  collect-get :
      (rs : List (ℕ × A)) (xs : List (Option A))
      → j < length xs
      → ((a : A) → In (j, a) rs → outcome j ≡ success a)
      → (get_elem? xs j ≡ some (some v)) ⊎ ((a : A) × In (j, a) rs)
      → get_elem? (collect rs xs) j ≡ some (some v)
  unfolding collect
  collect-get [] xs b h (inl e) = e
  collect-get [] xs b h (inr (a, m)) = absurd m
  collect-get ((i, a) ∷ rs) xs b h c = elim (Bool-cases (i == j)) [
    | inl q ↦
        let same : i ≡ j = ground arith in
        let value : a ≡ v = cc (ok, h a (inl (ap (λ x. (x, a)) same))) in
        collect-get rs (set xs i (some a)) (omega (arith, length-set xs i (some a)))
          (λ y m. h y (inr m))
          (inl (
            subst (λ x. get_elem? (set xs x (some a)) j ≡ some (some v)) (sym same)
              (set-same xs j (some a) b ∙ ap (λ x. some (some x)) value)))
    | inr q ↦
        let other : i ≢ j = λ e. ground arith in
        collect-get rs (set xs i (some a)) (omega (arith, length-set xs i (some a)))
          (λ y m. h y (inr m))
          (elim c [
            | inl e ↦ inl (set-other xs i j (some a) other ∙ e)
            | inr (y, inl e) ↦ absurd (other (ap (λ r. r.0) e))
            | inr (y, inr m) ↦ inr (y, m)
          ])
  ]

module _ {A E : Type 0} (outcome : ℕ → Outcome A E) (n w : ℕ) where
  IsSound-start : IsSound outcome n w (start (ids_from 0 n) w)
  IsSound-start = record {
    placed = λ g i b. inl (ids_from-In 0 n i (omega arith) (omega arith));
    unsent_below = λ i m. omega (arith, In-ids_from 0 n i m);
    chan_below = λ i m. absurd m;
    running_below = λ i m. absurd m;
    truthful = λ i a m. absurd m;
    caused = λ e q. cc q;
    told = λ q. cc q;
    bounded = omega arith;
    staffed = λ g. inl (omega arith);
  }

  IsSound-Steps :
      (s : Pool A E) {k : ℕ} (t : Pool A E)
      → IsSound outcome n w s
      → Steps outcome s k t
      → IsSound outcome n w t
  IsSound-Steps s _ h here = h
  IsSound-Steps s t h (next {n = m} {t = u} steps step) =
      IsSound-Step outcome n w u t (IsSound-Steps s u h steps) step

  -- Without an error every task has left its result, if there was a goroutine to run it.
  all_results :
      (s : Pool A E)
      → IsSound outcome n w s
      → IsDone s
      → 0 < w
      → s.group_error ≡ none
      → (i : ℕ) → i < n
      → (a : A) × In (i, a) s.results_chan
  all_results s h d p g i b =
      let empty = elim (h.staffed g) as (λ _. s.tasks_chan ≡ []) [
        | inl q ↦ absurd (omega (arith, q, p, d.none_idle, ap length d.none_running))
        | inr (u, c) ↦ c
      ] in
      elim (h.placed g i b) [
        | inl m ↦ absurd (subst (In i) d.all_sent m)
        | inr (inl m) ↦ absurd (subst (In i) empty m)
        | inr (inr (inl m)) ↦ absurd (subst (In i) d.none_running m)
        | inr (inr (inr r)) ↦ r
      ]

-- The result of task `i` is at its place.
abbrev pub Filled : {A E : Type 0} → (ℕ → Outcome A E) → List (Option A) → ℕ → Type 0
Filled {A} outcome xs i = (a : A) × (outcome i ≡ success a) × (get_elem? xs i ≡ some (some a))

-- What the caller may rely on: all results in order, or a genuine cause.
abbrev pub IsCorrect : {A E : Type 0} → (ℕ → Outcome A E) → ℕ → Bool → Returned A E → Type 0
IsCorrect outcome n given_up (results xs) = (length xs ≡ n) × All (Filled outcome xs) (ids_from 0 n)
IsCorrect outcome n given_up (error e) = IsCause outcome n given_up e

module _ {A E : Type 0} (outcome : ℕ → Outcome A E) (n w : ℕ) (s : Pool A E)
    (h : IsSound outcome n w s) where
  returned_results :
      IsDone s
      → (0 < n → 0 < w)
      → s.group_error ≡ none
      → IsCorrect outcome n s.caller_cancelled (returned n s)
  unfolding returned
  returned_results d p g =
      subst
        (λ o.
          IsCorrect outcome n s.caller_cancelled
            (wait o (collect s.results_chan (replicate n none))))
        (sym g)
        (
          length-collect s.results_chan (replicate n none) ∙ length-replicate n none,
          All-ids_from 0 n (λ i _ b.
              let (a, m) = all_results outcome n w s h d (p (omega arith)) g i (omega arith) in
              let ok = h.truthful i a m in
              (
                a,
                ok,
                collect-get outcome i a ok s.results_chan (replicate n none)
                    (omega (arith, length-replicate {A = Option A} n none)) (h.truthful i)
                    (inr (a, m)),
              )),
        )

-- However the goroutines are scheduled: with a positive limit, once all have ended, the n results stand in the order
-- of the tasks and each is what its task returned; or the error is one that a task returned, or the context's after
-- the caller cancelled it.
pub parallel_limit-IsCorrect :
    {A E : Type 0} (outcome : ℕ → Outcome A E) (n limit k : ℕ) (s : Pool A E)
    → 0 < limit
    → Steps outcome (parallel_limit n limit) k s
    → IsDone s
    → IsCorrect outcome n s.caller_cancelled (returned n s)
unfolding returned
parallel_limit-IsCorrect outcome n limit k s p steps d =
    let h =
      IsSound-Steps outcome n (min_int limit n) _ s (IsSound-start outcome n (min_int limit n))
        steps in
    elim (Option-cases s.group_error) [
      | inl g ↦ returned_results outcome n (min_int limit n) s h d (λ q. ground arith) g
      | inr (e, g) ↦
          subst
            (λ o.
              IsCorrect outcome n s.caller_cancelled
                (wait o (collect s.results_chan (replicate n none))))
            (sym g) (h.caused e g)
    ]

-- At no time do more than `limit` tasks run, or more than there are.
pub parallel_limit_bounded :
    {A E : Type 0} (outcome : ℕ → Outcome A E) (n limit k : ℕ) (s : Pool A E)
    → Steps outcome (parallel_limit n limit) k s
    → (length s.running ≤ limit) × (length s.running ≤ n)
parallel_limit_bounded outcome n limit k s steps =
    let h =
      IsSound-Steps outcome n (min_int limit n) _ s (IsSound-start outcome n (min_int limit n))
        steps in
    let b = h.bounded in (ground arith, ground arith)
