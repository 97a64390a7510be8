-- ===== src/Base/History.antt =====
-- What holds of each action of a program, given the actions that came before it: from its plan.
use mathlib.Core.Path.{◌≡◌, refl, sym, subst}
use mathlib.Core.Logic.{inl, inr}
use mathlib.Core.Bool.{Bool, true, false}
use mathlib.Core.List.{List, [], ◌∷◌, ◌++◌}
use delorean.Base.Tests.{if◌then◌else◌}
use delorean.Base.Lists.{All, All-append, Throughout, Throughout-append}
use delorean.Base.Results.{Result, ok, err, panic}
use delorean.Base.Traces.{Traced}
use delorean.Base.Plans.{Plan, nothing, ended, one, ◌⊳◌, planned, Rules, Passes, Follows}

-- What holds throughout the parts of a plan, after what came before, holds throughout the plan.
module _ {C : Type 0} (P : List C → C → Type 0) (before : List C) where
  pub Throughout-one : (c : C) → P before c → Throughout P before (one c).0
  unfolding one
  Throughout-one c p = (p, tt)

  pub Throughout-nothing : Throughout P before nothing.0
  unfolding nothing
  Throughout-nothing = tt

  pub Throughout-ended : Throughout P before ended.0
  unfolding ended
  Throughout-ended = tt

  pub Throughout-sequence :
      (first later : Plan C)
      → Throughout P before first.0
      → (first.1 ≡ true → Throughout P (before ++ first.0) later.0)
      → Throughout P before (first ⊳ later).0
  unfolding ◌⊳◌
  Throughout-sequence (cs, true) (more, complete) h g =
      Throughout-append P before cs more h (g refl)
  Throughout-sequence (cs, false) later h g = h

  pub Throughout-planned :
      {E A : Type 0} (answer : Result E A) (plan : A → Plan C)
      → ((a : A) → answer ≡ ok a → Throughout P before (plan a).0)
      → Throughout P before (planned answer plan).0
  unfolding planned ended
  Throughout-planned (ok a) plan h = h a refl
  Throughout-planned (err e) plan h = tt
  Throughout-planned panic plan h = tt

  pub Throughout-if :
      (b : Bool) (left right : Plan C)
      → (b ≡ true → Throughout P before left.0)
      → (b ≡ false → Throughout P before right.0)
      → Throughout P before (if b then left else right).0
  Throughout-if true left right f g = f refl
  Throughout-if false left right f g = g refl

-- What holds throughout a plan holds of the actions of a program that follows it; and what comes before an action has
-- succeeded or may fail.
module _ {C : Type 0} (r : Rules C) (P : List C → C → Type 0) where
  abbrev pub AfterAll : List C → C → Type 0
  AfterAll before c = P before c × All (Passes r) before

  pub Throughout-passed :
      (before cs : List C)
      → All (Passes r) before
      → All (Passes r) cs
      → Throughout P before cs
      → Throughout AfterAll before cs
  Throughout-passed before [] b h t = tt
  Throughout-passed before (c ∷ cs) b (g, h) (p, t) = (
    (p, b),
    Throughout-passed (before ++ c ∷ []) cs (All-append (Passes r) before (c ∷ []) b (g, tt)) h t,
  )

  Throughout-stopped :
      (before cs : List C) (c : C) (rest : List C)
      → All (Passes r) before
      → All (Passes r) cs
      → Throughout P before (cs ++ c ∷ rest)
      → Throughout AfterAll before (cs ++ c ∷ [])
  Throughout-stopped before [] c rest b h (p, t) = ((p, b), tt)
  Throughout-stopped before (d ∷ cs) c rest b (g, h) (p, t) = (
    (p, b),
    Throughout-stopped (before ++ d ∷ []) cs c rest
        (All-append (Passes r) before (d ∷ []) b (g, tt)) h t,
  )

  all_done :
      (cs taken : List C)
      → taken ≡ cs
      → All (Passes r) taken
      → Throughout P [] cs
      → Throughout AfterAll [] taken
  all_done cs taken e h t = Throughout-passed [] taken tt h (subst (Throughout P []) (sym e) t)

  pub Follows-Throughout :
      {E A : Type 0} (plan : Plan C) (t : Traced C E A)
      → Follows r plan t
      → Throughout P [] plan.0
      → Throughout AfterAll [] t.0
  unfolding Follows
  Follows-Throughout (cs, complete) (taken, ok a) (b, e, h) t = all_done cs taken e h t
  Follows-Throughout (cs, complete) (taken, err x) (inl (b, e, h)) t = all_done cs taken e h t
  Follows-Throughout (cs, complete) (taken, err x) (inr (before, c, rest, e, p, h, f)) t =
      subst (Throughout AfterAll []) (sym e)
        (Throughout-stopped [] before c rest tt h (subst (Throughout P []) p t))
  Follows-Throughout (cs, complete) (taken, panic) (b, e, h) t = all_done cs taken e h t
