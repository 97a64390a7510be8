-- ===== src/Base/Plans.antt =====
-- Plans: what a program that acts on the world is to do, and what it means that it follows its plan. A plan
-- is the actions in their order, and whether they are all: `false` stands for a program that has to stop
-- behind them, since something cannot be read or a check fails.
use mathlib.Core.Path.{◌≡◌, refl, ap, sym, ◌∙◌}
use mathlib.Core.Logic.{◌⊎◌, inl, inr}
use mathlib.Core.Bool.{Bool, true, false, ◌||◌}
use mathlib.Core.List.{List, [], ◌∷◌, ◌++◌, append_assoc}
use delorean.Base.Tests.{if◌then◌else◌}
use delorean.Base.Lists.{All, All-append}
use delorean.Base.Results.{Result, ok, err, panic}
use delorean.Base.Traces.{Traced, ◌>>=◌, ◌>>◌, after, done, stop, act, attempt}

abbrev pub Plan : Type 0 → Type 0
Plan C = List C × Bool

module _ {C : Type 0} where
  infixr 5 ◌⊳◌
  -- Nothing more is to be done.
  unfoldable pub nothing : Plan C
  nothing = ([], true)

  -- Nothing more can be done.
  unfoldable pub ended : Plan C
  ended = ([], false)

  unfoldable pub one : C → Plan C
  one c = (c ∷ [], true)

  -- One plan and then another, if the first does not end.
  unfoldable pub ◌⊳◌ : Plan C → Plan C → Plan C
  (cs, true) ⊳ (more, complete) = (cs ++ more, complete)
  (cs, false) ⊳ later = (cs, false)

  -- What depends on something that is read.
  unfoldable pub planned : {E A : Type 0} → Result E A → (A → Plan C) → Plan C
  planned (ok a) plan = plan a
  planned (err e) plan = ended
  planned panic plan = ended

-- Which actions succeed, and for which a failure is no error.
pub record Rules (C : Type 0) : Type 0 where
  pub allows : C → Bool
  pub tolerates : C → Bool

module _ {C : Type 0} (r : Rules C) where
  abbrev pub Passes : C → Type 0
  Passes c = r.tolerates c || r.allows c ≡ true

  -- All of a plan that has to stop has been done.
  abbrev pub Ended : Plan C → List C → Type 0
  Ended (cs, complete) taken = (complete ≡ false) × (taken ≡ cs) × All Passes taken

  -- An action of the plan has failed; it is the last one.
  abbrev pub Stopped : Plan C → List C → Type 0
  Stopped (cs, complete) taken =
      (before : List C) × (c : C) × (rest : List C) × (taken ≡ before ++ c ∷ [])
      × (cs ≡ before ++ c ∷ rest)
      × All Passes before
      × (r.tolerates c || r.allows c ≡ false)

  -- A program follows a plan: it returns a value if all actions of a complete plan have been taken and none has failed;
  -- otherwise it stops at once, with an error behind the first action that fails, or where the plan has to stop.
  unfoldable pub Follows : {E A : Type 0} → Plan C → Traced C E A → Type 0
  Follows (cs, complete) (taken, ok a) = (complete ≡ true) × (taken ≡ cs) × All Passes taken
  Follows plan (taken, err e) = Ended plan taken ⊎ Stopped plan taken
  Follows plan (taken, panic) = Ended plan taken

  Stopped-more :
      (cs more taken : List C) (a b : Bool) → Stopped (cs, a) taken → Stopped (cs ++ more, b) taken
  Stopped-more cs more taken a b (before, c, rest, t, p, passed, fails) = (
    before,
    c,
    rest ++ more,
    t,
    ap (λ l. l ++ more) p ∙ append_assoc before (c ∷ rest) more,
    passed,
    fails,
  )

module _ {C E : Type 0} (r : Rules C) where
  pub Follows-after :
      {A : Type 0} (taken cs : List C) (plan : Plan C) (t : Traced C E A)
      → taken ≡ cs
      → All (Passes r) taken
      → Follows r plan t
      → Follows r ((cs, true) ⊳ plan) (after taken t)
  unfolding Follows after ◌⊳◌
  Follows-after taken cs (ds, complete) (more, ok a) e passed (b, f, g) =
      (b, ap (λ l. l ++ more) e ∙ ap (λ l. cs ++ l) f, All-append (Passes r) taken more passed g)
  Follows-after taken cs (ds, complete) (more, err x) e passed (inl (b, f, g)) =
      inl
        (b, ap (λ l. l ++ more) e ∙ ap (λ l. cs ++ l) f, All-append (Passes r) taken more passed g)
  Follows-after taken cs (ds, complete) (more, err x) e passed
        (inr (before, c, rest, f, p, g, fails)) =
      inr (
        taken ++ before,
        c,
        rest,
        ap (λ l. taken ++ l) f ∙ sym (append_assoc taken before (c ∷ [])),
        ap (λ l. cs ++ l) p
            ∙ ap (λ l. l ++ (before ++ c ∷ rest)) (sym e)
            ∙ sym (append_assoc taken before (c ∷ rest)),
        All-append (Passes r) taken before passed g,
        fails,
      )
  Follows-after taken cs (ds, complete) (more, panic) e passed (b, f, g) =
      (b, ap (λ l. l ++ more) e ∙ ap (λ l. cs ++ l) f, All-append (Passes r) taken more passed g)

  -- A plan is followed step by step.
  pub Follows-bind :
      {A B : Type 0} (first later : Plan C) (m : Traced C E A) (next : A → Traced C E B)
      → Follows r first m
      → ((a : A) → m.1 ≡ ok a → Follows r later (next a))
      → Follows r (first ⊳ later) (m >>= next)
  unfolding Follows ◌>>=◌ ◌⊳◌
  Follows-bind (cs, true) later (taken, ok a) next (b, f, g) h =
      Follows-after taken cs later (next a) f g (h a refl)
  Follows-bind (cs, false) later (taken, ok a) next (b, f, g) h = cc b
  Follows-bind (cs, true) (ds, d) (taken, err e) next (inl (b, f, g)) h = cc b
  Follows-bind (cs, true) (ds, d) (taken, err e) next (inr s) h =
      inr (Stopped-more r cs ds taken true d s)
  Follows-bind (cs, false) later (taken, err e) next f h = f
  Follows-bind (cs, true) (ds, d) (taken, panic) next (b, f, g) h = cc b
  Follows-bind (cs, false) later (taken, panic) next f h = f

  -- A part with its own plan, and then the rest.
  pub Follows-then :
      {A B : Type 0} (first later : Plan C) (m : Traced C E A) (next : Traced C E B)
      → Follows r first m
      → Follows r later next
      → Follows r (first ⊳ later) (m >> next)
  unfolding ◌>>◌
  Follows-then first later m next f g = Follows-bind first later m (λ _. next) f (λ _ _. g)

  act-Follows :
      (c : C) (e : E) (allowed : Bool)
      → r.allows c ≡ allowed
      → r.tolerates c ≡ false
      → Follows r (one c) (act c allowed e)
  unfolding Follows act one
  act-Follows c e true a t = (refl, refl, (rw (a, t) refl, tt))
  act-Follows c e false a t = inr ([], c, [], refl, refl, tt, rw (a, t) refl)

  pub Follows-act_alone :
      (c : C) (e : E) → r.tolerates c ≡ false → Follows r (one c) (act c (r.allows c) e)
  Follows-act_alone c e t = act-Follows c e (r.allows c) refl t

  -- One action, and then the rest of the plan.
  pub Follows-act :
      {B : Type 0} (c : C) (e : E) (plan : Plan C) (next : Traced C E B)
      → r.tolerates c ≡ false
      → Follows r plan next
      → Follows r (one c ⊳ plan) (act c (r.allows c) e >> next)
  Follows-act c e plan next t f =
      Follows-then (one c) plan (act c (r.allows c) e) next (Follows-act_alone c e t) f

  -- What follows depends on whether the attempt succeeds.
  pub Follows-attempt :
      {B : Type 0} (c : C) (plan : Bool → Plan C) (next : Bool → Traced C E B)
      → r.tolerates c || r.allows c ≡ true
      → ((b : Bool) → Follows r (plan b) (next b))
      → Follows r (one c ⊳ plan (r.allows c)) (attempt c (r.allows c) >>= next)
  unfolding attempt ◌>>=◌ one
  Follows-attempt c plan next t f =
      Follows-after (c ∷ []) (c ∷ []) (plan (r.allows c)) (next (r.allows c)) refl (t, tt)
        (f (r.allows c))

  pub Follows-if :
      {A : Type 0} (b : Bool) (left right : Plan C) (then_run else_run : Traced C E A)
      → Follows r left then_run
      → Follows r right else_run
      → Follows r (if b then left else right) (if b then then_run else else_run)
  Follows-if true left right then_run else_run f g = f
  Follows-if false left right then_run else_run f g = g

  after_nothing :
      {A : Type 0} (plan : Plan C) (t : Traced C E A)
      → Follows r plan t
      → Follows r plan (after [] t)
  unfolding after
  after_nothing plan (taken, answer) f = f

  -- What is read decides; what cannot be read ends the plan.
  pub Follows-planned :
      {A B : Type 0} (answer : Result E A) (plan : A → Plan C) (next : A → Traced C E B)
      → ((a : A) → Follows r (plan a) (next a))
      → Follows r (planned answer plan) (([], answer) >>= next)
  unfolding Follows planned ended ◌>>=◌
  Follows-planned (ok a) plan next f = after_nothing (plan a) (next a) (f a)
  Follows-planned (err e) plan next f = inl (refl, refl, tt)
  Follows-planned panic plan next f = (refl, refl, tt)

  -- What is read is not used.
  pub Follows-check :
      {A B : Type 0} (answer : Result E A) (plan : Plan C) (next : Traced C E B)
      → Follows r plan next
      → Follows r (planned answer (λ _. plan)) (([], answer) >> next)
  unfolding ◌>>◌
  Follows-check answer plan next f = Follows-planned answer (λ _. plan) (λ _. next) (λ _. f)

pub Follows-done :
    {C : Type 0} (r : Rules C) (E : Type 0) {A : Type 0} (a : A)
    → Follows r nothing (done {C = C} {E = E} a)
unfolding Follows done nothing
Follows-done r E a = (refl, refl, tt)

-- A program that stops follows a plan that ends.
pub Follows-stop :
    {C E : Type 0} (r : Rules C) (A : Type 0) (e : E) → Follows r ended (stop {C = C} {A = A} e)
unfolding Follows stop ended
Follows-stop r A e = inl (refl, refl, tt)
