-- ===== src/Base/Traces.antt =====
-- A program that acts on the world: the actions that it took, in their order, and what it returned.
use mathlib.Core.Path.{◌≡◌, refl}
use mathlib.Core.Bool.{Bool, true, false}
use mathlib.Core.List.{List, [], ◌∷◌, ◌++◌}
use delorean.Base.Tests.{if◌then◌else◌}
use delorean.Base.Results.{Result, ok, err, panic}

abbrev pub Traced : Type 0 → Type 0 → Type 0 → Type 0
Traced C E A = List C × Result E A

module _ {C E : Type 0} where
  -- Actions that came before.
  unfoldable pub after : {A : Type 0} → List C → Traced C E A → Traced C E A
  after done (more, r) = (done ++ more, r)

  infixl 5 ◌>>=◌ ◌>>◌
  -- What follows runs on a value alone.
  unfoldable pub ◌>>=◌ : {A B : Type 0} → Traced C E A → (A → Traced C E B) → Traced C E B
  unfolding after
  (done, ok a) >>= next = after done (next a)
  (done, err e) >>= next = (done, err e)
  (done, panic) >>= next = (done, panic)

  unfoldable pub ◌>>◌ : {A B : Type 0} → Traced C E A → Traced C E B → Traced C E B
  unfolding ◌>>=◌
  m >> next = m >>= (λ _. next)

  unfoldable pub done : {A : Type 0} → A → Traced C E A
  done a = ([], ok a)

  unfoldable pub stop : {A : Type 0} → E → Traced C E A
  stop e = ([], err e)

  -- An action that the world allows or refuses.
  unfoldable pub act : C → Bool → E → Traced C E (Unit {0})
  act c allowed e = (c ∷ [], if allowed then ok tt else err e)

  -- An action whose failure the program handles itself.
  unfoldable pub attempt : C → Bool → Traced C E Bool
  attempt c allowed = (c ∷ [], ok allowed)

  -- What is returned at the end was returned by the last part, from what the first part returned.
  pub bind-value :
      {A B : Type 0} (m : Traced C E A) (next : A → Traced C E B) (b : B)
      → (m >>= next).1 ≡ ok b
      → (a : A) × (m.1 ≡ ok a) × ((next a).1 ≡ ok b)
  unfolding ◌>>=◌ after
  bind-value (taken, ok a) next b e = (a, refl, e)
  bind-value (taken, err x) next b e = cc e
  bind-value (taken, panic) next b e = cc e

  pub then-value :
      {A B : Type 0} (m : Traced C E A) (next : Traced C E B) (b : B)
      → (m >> next).1 ≡ ok b
      → ((a : A) × (m.1 ≡ ok a)) × (next.1 ≡ ok b)
  unfolding ◌>>◌
  then-value m next b e = let (a, p, f) = bind-value m (λ _. next) b e in ((a, p), f)

  pub then-done : {A B : Type 0} (m : Traced C E A) (v b : B) → (m >> done v).1 ≡ ok b → b ≡ v
  unfolding done
  then-done m v b e = let (_, f) = then-value m (done v) b e in cc f

module _ {C E A : Type 0} where
  -- A value that is returned is this one.
  unfoldable pub Returns : A → Traced C E A → Type 0
  Returns v (taken, ok a) = a ≡ v
  Returns v (taken, err e) = Unit
  Returns v (taken, panic) = Unit

  Returns-after :
      (taken : List C) (v : A) (t : Traced C E A) → Returns v t → Returns v (after taken t)
  unfolding Returns after
  Returns-after taken v (more, ok a) h = h
  Returns-after taken v (more, err e) h = tt
  Returns-after taken v (more, panic) h = tt

  pub Returns-bind :
      {B : Type 0} (v : A) (m : Traced C E B) (next : B → Traced C E A)
      → ((b : B) → Returns v (next b))
      → Returns v (m >>= next)
  unfolding Returns ◌>>=◌
  Returns-bind v (taken, ok b) next h = Returns-after taken v (next b) (h b)
  Returns-bind v (taken, err e) next h = tt
  Returns-bind v (taken, panic) next h = tt

  pub Returns-then :
      {B : Type 0} (v : A) (m : Traced C E B) (next : Traced C E A)
      → Returns v next
      → Returns v (m >> next)
  unfolding ◌>>◌
  Returns-then v m next h = Returns-bind v m (λ _. next) (λ _. h)

  pub Returns-attempt :
      (v : A) (c : C) (allowed : Bool) (next : Bool → Traced C E A)
      → Returns v (next allowed)
      → Returns v (attempt c allowed >>= next)
  unfolding attempt ◌>>=◌
  Returns-attempt v c allowed next h = Returns-after (c ∷ []) v (next allowed) h

  pub Returns-if :
      (v : A) (b : Bool) (then_run else_run : Traced C E A)
      → Returns v then_run
      → Returns v else_run
      → Returns v (if b then then_run else else_run)
  Returns-if v true then_run else_run f g = f
  Returns-if v false then_run else_run f g = g

pub Returns-done : (C E : Type 0) {A : Type 0} (v : A) → Returns {C = C} {E = E} v (done v)
unfolding Returns done
Returns-done C E v = refl
