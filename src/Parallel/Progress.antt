-- ===== src/Parallel/Progress.antt =====
-- `ParallelLimit` of pkg/utils/concurrency.go never waits for ever, and its goroutines end.
use delorean.Base.{
  ℕ, zero, suc, ◌+◌, ◌*◌, ◌≤◌, List, [], ◌∷◌, ◌≡◌, refl, ap, ◌⊎◌, inl, inr, if◌then◌else◌, length,
  arith, length-append,
}
use delorean.Parallel.{
  Outcome, success, failure, Pool, min_int, Step, feed, take, send, give_up, fail, stop, cancel,
  Steps, here, next, IsDone, ids_from, parallel_limit,
}
use delorean.Parallel.Correct.{length-remove}

-- What is left to be sent, in the channels or running fits into each channel.
abbrev Fits : {A E : Type 0} → Pool A E → Type 0
Fits s =
    length s.unsent + length s.tasks_chan + length s.running + length s.results_chan ≤ s.capacity

module _ {A E : Type 0} (outcome : ℕ → Outcome A E) where
  Fits-Step : (s t : Pool A E) → Fits s → Step outcome s t → Fits t
  Fits-Step s _ h (feed _ i rest e room) =
      omega (arith, ap length e, length-append s.tasks_chan (i ∷ []))
  Fits-Step s _ h (take _ i rest k e idle) = omega (arith, ap length e)
  Fits-Step s _ h (send _ before i after a e ok room) =
      omega (
        arith,
        ap length e,
        length-remove before i after,
        length-append s.results_chan ((i, a) ∷ []),
      )
  Fits-Step s _ h (give_up _ before i after a e ok c) =
      omega (arith, ap length e, length-remove before i after)
  Fits-Step s _ h (fail _ before i after x e ko) =
      omega (arith, ap length e, length-remove before i after)
  Fits-Step s _ h (stop _ k u c idle) = h
  Fits-Step s _ h (cancel _ c) = h

  Fits-Steps : (s : Pool A E) {k : ℕ} (t : Pool A E) → Fits s → Steps outcome s k t → Fits t
  Fits-Steps s _ h here = h
  Fits-Steps s t h (next {n = m} {t = u} steps step) = Fits-Step u t (Fits-Steps s u h steps) step

module _ {A E : Type 0} (outcome : ℕ → Outcome A E) (s : Pool A E) (fits : Fits s) where
  -- A task that runs ends.
  progress_running :
      (i : ℕ) (after : List ℕ) (o : Outcome A E)
      → outcome i ≡ o
      → s.running ≡ i ∷ after
      → (t : Pool A E) × Step outcome s t
  progress_running i after (success a) e r =
      (_, send s [] i after a r e (omega (arith, ap length r)))
  progress_running i after (failure x) e r = (_, fail s [] i after x r e)

  progress_cases :
      (unsent tasks_chan running : List ℕ) (idle : ℕ)
      → s.unsent ≡ unsent
      → s.tasks_chan ≡ tasks_chan
      → s.running ≡ running
      → s.idle ≡ idle
      → IsDone s ⊎ ((t : Pool A E) × Step outcome s t)
  progress_cases (i ∷ rest) _ _ _ u c r w = inr (_, feed s i rest u (omega (arith, ap length u)))
  progress_cases [] [] _ (suc k) u c r w = inr (_, stop s k u c w)
  progress_cases [] (i ∷ rest) _ (suc k) u c r w = inr (_, take s i rest k c w)
  progress_cases [] _ (i ∷ after) zero u c r w = inr (progress_running i after (outcome i) refl r)
  progress_cases [] _ [] zero u c r w =
      inl (record { all_sent = u; none_idle = w; none_running = r })

  -- Whatever is not done can go on.
  progress : IsDone s ⊎ ((t : Pool A E) × Step outcome s t)
  progress = progress_cases s.unsent s.tasks_chan s.running s.idle refl refl refl refl

-- The steps that are left at most.
abbrev pub remaining : {A E : Type 0} → Pool A E → ℕ
remaining s =
    4 * length s.unsent
    + 3 * length s.tasks_chan
    + 2 * length s.running
    + s.idle
    + (if s.caller_cancelled then 0 else 1)

module _ {A E : Type 0} (outcome : ℕ → Outcome A E) where
  -- Each step is one of them.
  remaining-Step : (s t : Pool A E) → Step outcome s t → suc (remaining t) ≤ remaining s
  remaining-Step s _ (feed _ i rest e room) =
      omega (arith, ap length e, length-append s.tasks_chan (i ∷ []))
  remaining-Step s _ (take _ i rest k e idle) = omega (arith, ap length e, idle)
  remaining-Step s _ (send _ before i after a e ok room) =
      omega (arith, ap length e, length-remove before i after)
  remaining-Step s _ (give_up _ before i after a e ok c) =
      omega (arith, ap length e, length-remove before i after)
  remaining-Step s _ (fail _ before i after x e ko) =
      omega (arith, ap length e, length-remove before i after)
  remaining-Step s _ (stop _ k u c idle) = omega (arith, idle)
  remaining-Step s _ (cancel _ c) = rw c (omega arith)

  remaining-Steps :
      (s : Pool A E) {k : ℕ} (t : Pool A E) → Steps outcome s k t → k + remaining t ≤ remaining s
  remaining-Steps s _ here = omega arith
  remaining-Steps s t (next {n = m} {t = u} steps step) =
      omega (arith, remaining-Steps s u steps, remaining-Step u t step)

  -- From every state in which all fits, the run can be brought to its end.
  finish :
      (fuel : ℕ) (start_state s : Pool A E) (k : ℕ)
      → remaining s ≤ fuel
      → Fits s
      → Steps outcome start_state k s
      → (m : ℕ) × (t : Pool A E) × Steps outcome start_state m t × IsDone t
  finish zero start_state s k b fits steps = elim (progress outcome s fits) [
    | inl d ↦ (k, s, steps, d)
    | inr (t, step) ↦ absurd (omega (arith, remaining-Step s t step))
  ]
  finish (suc fuel) start_state s k b fits steps = elim (progress outcome s fits) [
    | inl d ↦ (k, s, steps, d)
    | inr (t, step) ↦
        finish fuel start_state t (suc k) (omega (arith, remaining-Step s t step))
          (Fits-Step outcome s t fits step) (next steps step)
  ]

length-ids_from : (i n : ℕ) → length (ids_from i n) ≡ n
length-ids_from i zero = refl
length-ids_from i (suc n) = ap suc (length-ids_from (suc i) n)

-- However the goroutines are scheduled, a run of n tasks takes at most 4n + min(limit, n) + 1 steps.
pub parallel_limit_ends :
    {A E : Type 0} (outcome : ℕ → Outcome A E) (n limit k : ℕ) (s : Pool A E)
    → Steps outcome (parallel_limit n limit) k s
    → k ≤ 4 * n + min_int limit n + 1
parallel_limit_ends outcome n limit k s steps =
    omega (arith, remaining-Steps outcome (parallel_limit n limit) s steps, length-ids_from 0 n)

-- There is no deadlock although a full channel makes its sender wait: from every state that ParallelLimit reaches,
-- some steps lead to one in which all goroutines have ended.
pub parallel_limit_finishes :
    {A E : Type 0} (outcome : ℕ → Outcome A E) (n limit k : ℕ) (s : Pool A E)
    → Steps outcome (parallel_limit n limit) k s
    → (m : ℕ) × (t : Pool A E) × Steps outcome s m t × IsDone t
parallel_limit_finishes outcome n limit k s steps =
    let fits = Fits-Steps outcome (parallel_limit n limit) s (omega arith) steps in
    finish outcome (remaining s) s s 0 (omega arith) fits here
