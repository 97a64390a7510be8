-- ===== src/Parallel/Correct.antt =====
-- What `ParallelLimit` of pkg/utils/concurrency.go returns, in whatever order the goroutines run.
use delorean.Base.{
  ℕ, suc, ◌+◌, ◌<◌, ◌≤◌, List, [], ◌∷◌, ◌++◌, Bool, true, Option, none, some, ◌≡◌, ◌≢◌, refl, sym,
  ap, ◌⊎◌, inl, inr, length, In, In-append_left, In-append_right, In-append, subst, arith,
}
use delorean.Parallel.{
  Outcome, success, failure, PoolError, task_error, context_error, Pool, first_error, Step, feed,
  take, send, give_up, fail, stop, cancel,
}

-- A task is still to be sent or taken, runs, or has left its result.
abbrev pub Placed : {A E : Type 0} → ℕ → Pool A E → Type 0
Placed {A} i s =
    In i s.unsent ⊎ (In i s.tasks_chan ⊎ (In i s.running ⊎ ((a : A) × In (i, a) s.results_chan)))

-- What an error of the group means: a task failed with it, or the caller gave up.
abbrev pub IsCause : {A E : Type 0} → (ℕ → Outcome A E) → ℕ → Bool → PoolError E → Type 0
IsCause outcome n given_up (task_error e) = (i : ℕ) × (i < n) × (outcome i ≡ failure e)
IsCause outcome n given_up context_error = given_up ≡ true

-- What every reachable state of a run of `n` tasks by `w` goroutines has.
pub record IsSound {A E : Type 0} (outcome : ℕ → Outcome A E) (n w : ℕ) (s : Pool A E)
    : Type 0 where
  pub placed : s.group_error ≡ none → (i : ℕ) → i < n → Placed i s
  pub unsent_below : (i : ℕ) → In i s.unsent → i < n
  pub chan_below : (i : ℕ) → In i s.tasks_chan → i < n
  pub running_below : (i : ℕ) → In i s.running → i < n
  pub truthful : (i : ℕ) (a : A) → In (i, a) s.results_chan → outcome i ≡ success a
  pub caused : (e : PoolError E) → s.group_error ≡ some e → IsCause outcome n s.caller_cancelled e
  pub told : s.cancelled ≡ true → (s.group_error ≢ none) ⊎ (s.caller_cancelled ≡ true)
  pub bounded : s.idle + length s.running ≤ w
  pub staffed :
      s.group_error ≡ none
      → (s.idle + length s.running ≡ w) ⊎ ((s.unsent ≡ []) × (s.tasks_chan ≡ []))

pub length-remove :
    (before : List ℕ) (i : ℕ) (after : List ℕ)
    → length (before ++ i ∷ after) ≡ suc (length (before ++ after))
length-remove [] i after = refl
length-remove (b ∷ before) i after = ap suc (length-remove before i after)

In-remove :
    (before : List ℕ) (i j : ℕ) (after : List ℕ)
    → In j (before ++ i ∷ after)
    → (i ≡ j) ⊎ In j (before ++ after)
In-remove [] i j after h = h
In-remove (b ∷ before) i j after (inl e) = inr (inl e)
In-remove (b ∷ before) i j after (inr h) = elim (In-remove before i j after h) [
  | inl e ↦ inl e
  | inr m ↦ inr (inr m)
]

In-remaining :
    (before : List ℕ) (i j : ℕ) (after : List ℕ)
    → In j (before ++ after)
    → In j (before ++ i ∷ after)
In-remaining [] i j after h = inr h
In-remaining (b ∷ before) i j after (inl e) = inl e
In-remaining (b ∷ before) i j after (inr h) = inr (In-remaining before i j after h)

first_error-ne-none :
    {E : Type 0} (o : Option (PoolError E)) (e : PoolError E) → first_error o e ≢ none
first_error-ne-none none e q = cc q
first_error-ne-none (some x) e q = cc q

first_error-cases :
    {E : Type 0} (o : Option (PoolError E)) (e e' : PoolError E)
    → first_error o e ≡ some e'
    → (o ≡ some e') ⊎ ((o ≡ none) × (e ≡ e'))
first_error-cases none e e' q = inr (refl, cc q)
first_error-cases (some x) e e' q = inl q

IsCause-cancel :
    {A E : Type 0} (outcome : ℕ → Outcome A E) (n : ℕ) (c : Bool) (e : PoolError E)
    → IsCause outcome n c e
    → IsCause outcome n true e
IsCause-cancel outcome n c (task_error e) h = h
IsCause-cancel outcome n c context_error h = refl

module _ {A E : Type 0} (outcome : ℕ → Outcome A E) (n w : ℕ) where
  Placed-feed :
      (s : Pool A E) (i : ℕ) (rest : List ℕ) (j : ℕ)
      → s.unsent ≡ i ∷ rest
      → Placed j s
      → Placed j (record s { unsent = rest; tasks_chan = s.tasks_chan ++ i ∷ [] })
  Placed-feed s i rest j e (inl m) =
      elim (subst (In j) e m)
        as (λ _. Placed j (record s { unsent = rest; tasks_chan = s.tasks_chan ++ i ∷ [] })) [
          | inl q ↦ inr (inl (In-append_right j s.tasks_chan (i ∷ []) (inl q)))
          | inr m' ↦ inl m'
        ]
  Placed-feed s i rest j e (inr (inl m)) = inr (inl (In-append_left j s.tasks_chan (i ∷ []) m))
  Placed-feed s i rest j e (inr (inr h)) = inr (inr h)

  Placed-take :
      (s : Pool A E) (i : ℕ) (rest : List ℕ) (k j : ℕ)
      → s.tasks_chan ≡ i ∷ rest
      → Placed j s
      → Placed j (record s { tasks_chan = rest; idle = k; running = i ∷ s.running })
  Placed-take s i rest k j e (inl m) = inl m
  Placed-take s i rest k j e (inr (inl m)) =
      elim (subst (In j) e m)
        as (λ _. Placed j (record s { tasks_chan = rest; idle = k; running = i ∷ s.running })) [
          | inl q ↦ inr (inr (inl (inl q)))
          | inr m' ↦ inr (inl m')
        ]
  Placed-take s i rest k j e (inr (inr (inl m))) = inr (inr (inl (inr m)))
  Placed-take s i rest k j e (inr (inr (inr r))) = inr (inr (inr r))

  Placed-send :
      (s : Pool A E) (before : List ℕ) (i : ℕ) (after : List ℕ) (a : A) (j : ℕ)
      → s.running ≡ before ++ i ∷ after
      → Placed j s
      → Placed j (record s {
        running = before ++ after;
        idle = suc s.idle;
        results_chan = s.results_chan ++ (i, a) ∷ [];
      })
  Placed-send s before i after a j e (inl m) = inl m
  Placed-send s before i after a j e (inr (inl m)) = inr (inl m)
  Placed-send s before i after a j e (inr (inr (inl m))) =
      elim (In-remove before i j after (subst (In j) e m))
        as (λ _. Placed j (record s {
          running = before ++ after;
          idle = suc s.idle;
          results_chan = s.results_chan ++ (i, a) ∷ [];
        })) [
          | inl q ↦ inr (
              inr (
                inr (
                  a,
                  In-append_right (j, a) s.results_chan ((i, a) ∷ []) (inl (ap (λ x. (x, a)) q)),
                )))
          | inr m' ↦ inr (inr (inl m'))
        ]
  Placed-send s before i after a j e (inr (inr (inr (b, m)))) =
      inr (inr (inr (b, In-append_left (j, b) s.results_chan ((i, a) ∷ []) m)))

  -- A communication or the end of a task preserves it.
  pub IsSound-Step :
      (s t : Pool A E) → IsSound outcome n w s → Step outcome s t → IsSound outcome n w t
  IsSound-Step s _ h (feed _ i rest e room) = record {
    running_below = h.running_below;
    truthful = h.truthful;
    caused = h.caused;
    told = h.told;
    bounded = h.bounded;
    placed = λ g j b. Placed-feed s i rest j e (h.placed g j b);
    unsent_below = λ j m. h.unsent_below j (subst (In j) (sym e) (inr m));
    chan_below = λ j m. elim (In-append j s.tasks_chan (i ∷ []) m) [
      | inl l ↦ h.chan_below j l
      | inr (inl q) ↦ h.unsent_below j (subst (In j) (sym e) (inl q))
      | inr (inr z) ↦ absurd z
    ];
    staffed = λ g. elim (h.staffed g) [ inl q ↦ inl q | inr (u, c) ↦ cc (e, u) ];
  }
  IsSound-Step s _ h (take _ i rest k e idle) = record {
    unsent_below = h.unsent_below;
    truthful = h.truthful;
    caused = h.caused;
    told = h.told;
    placed = λ g j b. Placed-take s i rest k j e (h.placed g j b);
    chan_below = λ j m. h.chan_below j (subst (In j) (sym e) (inr m));
    running_below = λ j m. elim m [
      | inl q ↦ h.chan_below j (subst (In j) (sym e) (inl q))
      | inr r ↦ h.running_below j r
    ];
    bounded = omega (arith, h.bounded, idle);
    staffed =
        λ g. elim (h.staffed g) [ inl q ↦ inl (omega (arith, q, idle)) | inr (u, c) ↦ cc (e, c) ];
  }
  IsSound-Step s _ h (send _ before i after a e ok room) = record {
    unsent_below = h.unsent_below;
    chan_below = h.chan_below;
    caused = h.caused;
    told = h.told;
    placed = λ g j b. Placed-send s before i after a j e (h.placed g j b);
    running_below =
        λ j m. h.running_below j (subst (In j) (sym e) (In-remaining before i j after m));
    truthful = λ j b m. elim (In-append (j, b) s.results_chan ((i, a) ∷ []) m) [
      | inl l ↦ h.truthful j b l
      | inr (inl q) ↦ cc (ok, ap (λ r. r.0) q, ap (λ r. r.1) q)
      | inr (inr z) ↦ absurd z
    ];
    bounded = omega (arith, h.bounded, ap length e, length-remove before i after);
    staffed = λ g. elim (h.staffed g) [
      | inl q ↦ inl (omega (arith, q, ap length e, length-remove before i after))
      | inr r ↦ inr r
    ];
  }
  IsSound-Step s _ h (give_up _ before i after a e ok done) = record {
    unsent_below = h.unsent_below;
    chan_below = h.chan_below;
    truthful = h.truthful;
    placed = λ g. absurd (first_error-ne-none s.group_error context_error g);
    running_below =
        λ j m. h.running_below j (subst (In j) (sym e) (In-remaining before i j after m));
    caused = λ x q. elim (first_error-cases s.group_error context_error x q) [
      | inl old ↦ h.caused x old
      | inr (fresh, same) ↦ elim (h.told done) [
        | inl some_error ↦ absurd (some_error fresh)
        | inr c ↦ subst (IsCause outcome n s.caller_cancelled) same c
      ]
    ];
    told = λ q. inl (first_error-ne-none s.group_error context_error);
    bounded = omega (arith, h.bounded, ap length e, length-remove before i after);
    staffed = λ g. absurd (first_error-ne-none s.group_error context_error g);
  }
  IsSound-Step s _ h (fail _ before i after x e ko) = record {
    unsent_below = h.unsent_below;
    chan_below = h.chan_below;
    truthful = h.truthful;
    placed = λ g. absurd (first_error-ne-none s.group_error (task_error x) g);
    running_below =
        λ j m. h.running_below j (subst (In j) (sym e) (In-remaining before i j after m));
    caused = λ y q. elim (first_error-cases s.group_error (task_error x) y q) [
      | inl old ↦ h.caused y old
      | inr (fresh, same) ↦ subst (IsCause outcome n s.caller_cancelled) same (
        i,
        h.running_below i (subst (In i) (sym e) (In-append_right i before (i ∷ after) (inl refl))),
        ko,
      )
    ];
    told = λ q. inl (first_error-ne-none s.group_error (task_error x));
    bounded = omega (arith, h.bounded, ap length e, length-remove before i after);
    staffed = λ g. absurd (first_error-ne-none s.group_error (task_error x) g);
  }
  IsSound-Step s _ h (stop _ k u c idle) = record {
    placed = h.placed;
    unsent_below = h.unsent_below;
    chan_below = h.chan_below;
    running_below = h.running_below;
    truthful = h.truthful;
    caused = h.caused;
    told = h.told;
    bounded = omega (arith, h.bounded, idle);
    staffed = λ g. inr (u, c);
  }
  IsSound-Step s _ h (cancel _ c) = record {
    placed = h.placed;
    unsent_below = h.unsent_below;
    chan_below = h.chan_below;
    running_below = h.running_below;
    truthful = h.truthful;
    bounded = h.bounded;
    staffed = h.staffed;
    caused = λ e q. IsCause-cancel outcome n s.caller_cancelled e (h.caused e q);
    told = λ q. inr refl;
  }
