-- ===== src/Base/Texts.antt =====
-- Go strings as lists of bytes, and what the program uses of the package `strings`.
use Prim.Native.Nat.{ℕ, zero, suc, ◌-◌}
use Prim.Native.Char.{code}
use Prim.Native.String.{String}
use mathlib.Core.Path.{◌≡◌, refl, ap, ap₂, sym, ◌∙◌}
use mathlib.Core.Logic.{◌↔◌, ◌≢◌, inl, inr}
use mathlib.Core.Bool.{Bool, true, false, ◌&&◌}
use mathlib.Core.Option.{Option, none, some}
use mathlib.Core.List.{List, [], ◌∷◌, ◌++◌}
use native.Mathlib.Omega.{arith}
use delorean.Base.Tests.{ltb, ◌==◌, if◌then◌else◌, Bool-cases, ==_iff}
use delorean.Base.Lists.{Option-cases, length}

abbrev pub Text : Type 0
Text = List ℕ

-- The bytes of a literal.
abbrev pub codes : String → Text
codes String.[] = []
codes (String.◌∷◌ c s) = code c ∷ codes s

unfoldable pub text_eq : Text → Text → Bool
text_eq [] [] = true
text_eq [] (d ∷ t) = false
text_eq (c ∷ s) [] = false
text_eq (c ∷ s) (d ∷ t) = c == d && text_eq s t

pub text_eq_refl : (s : Text) → text_eq s s ≡ true
unfolding text_eq
text_eq_refl [] = refl
text_eq_refl (c ∷ s) = ground (arith, text_eq_refl s)

pub text_eq→eq : (s t : Text) → text_eq s t ≡ true → s ≡ t
unfolding text_eq
text_eq→eq [] [] h = refl
text_eq→eq [] (d ∷ t) h = cc
text_eq→eq (c ∷ s) [] h = cc
text_eq→eq (c ∷ s) (d ∷ t) h = ground (arith, text_eq→eq s t)

pub text_eq_iff : (s t : Text) → (text_eq s t ≡ true) ↔ (s ≡ t)
text_eq_iff s t = (text_eq→eq s t, λ e. rw e (text_eq_refl t))

-- `stringInSlice` and `strings.Split`, `strings.Join`.
prepend : ℕ → List Text → List Text
prepend c [] = (c ∷ []) ∷ []
prepend c (p ∷ ps) = (c ∷ p) ∷ ps

-- `strings.Split` at a separator of one byte: there is always a part.
unfoldable pub split : Text → ℕ → List Text
unfolding prepend
split [] sep = [] ∷ []
split (c ∷ s) sep = let rest = split s sep in if c == sep then [] ∷ rest else prepend c rest

unfoldable pub join : List Text → Text → Text
join [] sep = []
join (p ∷ []) sep = p
join (p ∷ q ∷ ps) sep = p ++ (sep ++ join (q ∷ ps) sep)

prepend-ne-nil : (c : ℕ) (ps : List Text) → prepend c ps ≢ []
unfolding prepend
prepend-ne-nil c [] h = cc
prepend-ne-nil c (p ∷ ps) h = cc

pub split-ne-nil : (s : Text) (sep : ℕ) → split s sep ≢ []
unfolding split
split-ne-nil [] sep = λ h. cc
split-ne-nil (c ∷ s) sep = elim (Bool-cases (c == sep)) [
  | inl e ↦ rw e (λ h. cc)
  | inr e ↦ rw e (prepend-ne-nil c (split s sep))
]

join-prepend :
    (c : ℕ) (ps : List Text) (sep : Text) → ps ≢ [] → join (prepend c ps) sep ≡ c ∷ join ps sep
unfolding join prepend
join-prepend c [] sep h = absurd (h refl)
join-prepend c (p ∷ []) sep h = refl
join-prepend c (p ∷ q ∷ ps) sep h = refl

join-nil : (ps : List Text) (sep : Text) → ps ≢ [] → join ([] ∷ ps) sep ≡ sep ++ join ps sep
unfolding join
join-nil [] sep h = absurd (h refl)
join-nil (p ∷ ps) sep h = refl

pub join-split : (s : Text) (sep : ℕ) → join (split s sep) (sep ∷ []) ≡ s
unfolding split
join-split [] sep = unfold join in refl
join-split (c ∷ s) sep = elim (Bool-cases (c == sep)) [
  | inl e ↦
      rw e
        (join-nil _ _ (split-ne-nil s sep) ∙ ap₂ ◌∷◌ (sym ((==_iff c sep).0 e)) (join-split s sep))
  | inr e ↦ rw e (join-prepend c _ _ (split-ne-nil s sep) ∙ ap (λ t. c ∷ t) (join-split s sep))
]

-- How often a byte stands in a text.
abbrev pub count : ℕ → Text → ℕ
count b [] = 0
count b (c ∷ s) = if c == b then suc (count b s) else count b s

length-prepend : (c : ℕ) (ps : List Text) → ps ≢ [] → length (prepend c ps) ≡ length ps
unfolding prepend
length-prepend c [] h = absurd (h refl)
length-prepend c (p ∷ ps) h = refl

-- A separator more is a part more.
pub length-split : (s : Text) (sep : ℕ) → length (split s sep) ≡ suc (count sep s)
unfolding split
length-split [] sep = refl
length-split (c ∷ s) sep = elim (Bool-cases (c == sep)) [
  | inl e ↦ rw e (ap suc (length-split s sep))
  | inr e ↦ rw e (length-prepend c _ (split-ne-nil s sep) ∙ length-split s sep)
]

-- A common prefix may be taken off an equation.
pub append_cancel : (p s t : Text) → p ++ s ≡ p ++ t → s ≡ t
append_cancel [] s t h = h
append_cancel (c ∷ p) s t h = append_cancel p s t (cc h)

-- A text without the separator is one part.
pub split_whole : (s : Text) (sep : ℕ) → count sep s ≡ 0 → split s sep ≡ s ∷ []
unfolding split prepend
split_whole [] sep h = refl
split_whole (c ∷ s) sep h = ground (arith, split_whole s sep)

-- What follows a prefix.
strip : Text → Text → Option Text
strip [] s = some s
strip (p ∷ prefix) [] = none
strip (p ∷ prefix) (c ∷ s) = if p == c then strip prefix s else none

-- What stands before and after the first occurrence of a text.
unfoldable pub cut : Text → Text → Option (Text × Text)
unfolding strip
cut [] part = elim (strip part []) [ none ↦ none | some rest ↦ some ([], rest) ]
cut (c ∷ s) part = elim (strip part (c ∷ s)) [
  | some rest ↦ some ([], rest)
  | none ↦ elim (cut s part) [ none ↦ none | some (before, after) ↦ some (c ∷ before, after) ]
]

-- `strings.Contains`
unfoldable pub contains_text : Text → Text → Bool
unfolding cut
contains_text s part = elim (cut s part) [ none ↦ false | some _ ↦ true ]

-- `strings.Replace(s, old, new, 1)`
unfoldable pub replace_first : Text → Text → Text → Text
unfolding cut
replace_first s old new = elim (cut s old) [
  | none ↦ s
  | some (before, after) ↦ before ++ (new ++ after)
]

-- `strings.Replace(s, old, new, -1)` for a text `old` that is not empty; the first argument is how many bytes of a
-- match are still to be passed over.
replace_from : ℕ → Text → Text → Text → Text
unfolding strip
replace_from skip [] old new = []
replace_from (suc skip) (c ∷ s) old new = replace_from skip s old new
replace_from zero (c ∷ s) old new = elim (strip old (c ∷ s)) [
  | none ↦ c ∷ replace_from zero s old new
  | some _ ↦ new ++ replace_from (length old - 1) s old new
]

unfoldable pub replace_all : Text → Text → Text → Text
unfolding replace_from
replace_all s old new = replace_from 0 s old new

-- `<` on strings
unfoldable pub text_lt : Text → Text → Bool
text_lt s [] = false
text_lt [] (d ∷ t) = true
text_lt (c ∷ s) (d ∷ t) =
    let rest = text_lt s t in if ltb c d then true else if c == d then rest else false

pub text_lt_asym : (s t : Text) → text_lt s t ≡ true → text_lt t s ≡ false
unfolding text_lt
text_lt_asym s [] h = cc
text_lt_asym [] (d ∷ t) h = refl
text_lt_asym (c ∷ s) (d ∷ t) h = ground (arith, text_lt_asym s t)

-- The order is total, so that "not less" is transitive.
pub text_lt_trans : (s t u : Text) → text_lt s t ≡ false → text_lt t u ≡ false → text_lt s u ≡ false
unfolding text_lt
text_lt_trans s t [] h k = refl
text_lt_trans s [] (e ∷ u) h k = cc
text_lt_trans [] (d ∷ t) (e ∷ u) h k = cc
text_lt_trans (c ∷ s) (d ∷ t) (e ∷ u) h k = ground (arith, text_lt_trans s t u)

pub text_lt_irrefl : (s : Text) → text_lt s s ≡ false
text_lt_irrefl s = elim (Bool-cases (text_lt s s)) [ inl e ↦ text_lt_asym s s e | inr e ↦ e ]

strip_append : (part s : Text) → strip part (part ++ s) ≡ some s
unfolding strip
strip_append [] s = refl
strip_append (c ∷ part) s = ground (arith, strip_append part s)

cut-strip : (s part rest : Text) → strip part s ≡ some rest → cut s part ≢ none
unfolding cut
cut-strip [] part rest e h = cc (rw (e, cut) at h)
cut-strip (c ∷ s) part rest e h = cc (rw (e, cut) at h)

cut-later : (c : ℕ) (s part : Text) → cut s part ≢ none → cut (c ∷ s) part ≢ none
unfolding cut
cut-later c s part more h = elim (Option-cases (strip part (c ∷ s))) [
  | inr (rest, e) ↦ cut-strip (c ∷ s) part rest e h
  | inl e ↦ elim (Option-cases (cut s part)) [
    | inl q ↦ more q
    | inr (p, q) ↦ cc (rw (e, q, cut) at h)
  ]
]

cut-ne-none : (before part after : Text) → cut (before ++ (part ++ after)) part ≢ none
cut-ne-none [] part after = cut-strip (part ++ after) part after (strip_append part after)
cut-ne-none (b ∷ before) part after =
    cut-later b (before ++ (part ++ after)) part (cut-ne-none before part after)

-- A text contains each of its parts.
pub contains_text_append :
    (before part after : Text) → contains_text (before ++ (part ++ after)) part ≡ true
unfolding contains_text
contains_text_append before part after =
    elim (Option-cases (cut (before ++ (part ++ after)) part)) [
      | inl e ↦ absurd (cut-ne-none before part after e)
      | inr (p, e) ↦ rw (e, contains_text) refl
    ]

-- `strings.Split(s, sep)[1]` for a separator that is not empty: what stands after the first, up to the next.
unfoldable pub second_part : Text → Text → Option Text
second_part s sep = elim (cut s sep) [
  | none ↦ none
  | some (_, rest) ↦ elim (cut rest sep) [ none ↦ some rest | some (second, _) ↦ some second ]
]
