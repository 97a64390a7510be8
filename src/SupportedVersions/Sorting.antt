-- ===== src/SupportedVersions/Sorting.antt =====
-- `sort.Ints` and the tests on slices that the selection of streams uses: ascending slices, and
-- what an insertion, a sort and a cut at the front make of them.
use delorean.Base.{
  ℕ, zero, suc, List, [], ◌∷◌, ◌++◌, true, false, ◌≡◌, refl, ◌⊎◌, inl, inr, length, drop, In, All,
  Bool-cases, arith,
}
use delorean.Base.Int.{ℤ, ltb_ℤ, eq_ℤ, eq_ℤ_iff, ◌<ℤ◌}
use delorean.SupportedVersions.{contains, insert_int, sort_ints}

-- Each number is smaller than all behind it.
abbrev pub IsAscending : List ℤ → Type 0
IsAscending [] = Unit
IsAscending (x ∷ xs) = All (λ y. x <ℤ y) xs × IsAscending xs

pub In-insert : (a x : ℤ) (xs : List ℤ) → In a (insert_int x xs) → (x ≡ a) ⊎ In a xs
unfolding insert_int
In-insert a x [] h = h
In-insert a x (y ∷ ys) h = ground (arith, In-insert a x ys)

pub In-insert_self : (x : ℤ) (xs : List ℤ) → In x (insert_int x xs)
unfolding insert_int
In-insert_self x [] = inl refl
In-insert_self x (y ∷ ys) = ground (arith, In-insert_self x ys)

pub In-insert_of : (a x : ℤ) (xs : List ℤ) → In a xs → In a (insert_int x xs)
unfolding insert_int
In-insert_of a x [] h = absurd h
In-insert_of a x (y ∷ ys) h = ground (arith, In-insert_of a x ys)

pub length-insert : (x : ℤ) (xs : List ℤ) → length (insert_int x xs) ≡ suc (length xs)
unfolding insert_int
length-insert x [] = refl
length-insert x (y ∷ ys) = ground (arith, length-insert x ys)

above-insert :
    (a x : ℤ) (xs : List ℤ) → a <ℤ x → All (λ y. a <ℤ y) xs → All (λ y. a <ℤ y) (insert_int x xs)
unfolding insert_int
above-insert a x [] h k = (h, tt)
above-insert a x (y ∷ ys) h k = ground (arith, above-insert a x ys h k.1)

above_trans : (a x : ℤ) (xs : List ℤ) → a <ℤ x → All (λ y. x <ℤ y) xs → All (λ y. a <ℤ y) xs
above_trans a x [] h k = tt
above_trans a x (y ∷ ys) h k = (omega arith, above_trans a x ys h k.1)

pub contains→In : (l : List ℤ) (x : ℤ) → contains l x ≡ true → In x l
unfolding contains
contains→In [] x h = cc
contains→In (y ∷ ys) x h = elim (Bool-cases (eq_ℤ y x)) [
  | inl e ↦ inl ((eq_ℤ_iff y x).0 e)
  | inr e ↦ inr (contains→In ys x (rw e at h))
]

pub In→contains : (l : List ℤ) (x : ℤ) → In x l → contains l x ≡ true
unfolding contains
In→contains [] x h = absurd h
In→contains (y ∷ ys) x (inl e) = rw ((eq_ℤ_iff y x).1 e)
In→contains (y ∷ ys) x (inr m) = elim (Bool-cases (eq_ℤ y x)) [
  | inl e ↦ rw e
  | inr e ↦ rw e (In→contains ys x m)
]

ne_le→lt : (x y : ℤ) → eq_ℤ y x ≡ false → ltb_ℤ y x ≡ false → x <ℤ y
ne_le→lt x y h k = ground arith

-- A number that is not yet there may be inserted.
pub insert-IsAscending :
    (x : ℤ) (xs : List ℤ) → contains xs x ≡ false → IsAscending xs → IsAscending (insert_int x xs)
unfolding insert_int contains
insert-IsAscending x [] h k = (tt, tt)
insert-IsAscending x (y ∷ ys) h (above, k) = elim (Bool-cases (eq_ℤ y x)) [
  | inl e ↦ absurd (ground arith)
  | inr e ↦ elim (Bool-cases (ltb_ℤ y x)) [
    | inl lt ↦
        rw lt (above-insert y x ys (ground arith) above, insert-IsAscending x ys (rw e at h) k)
    | inr ge ↦ rw ge ((ne_le→lt x y e ge, above_trans x y ys (ne_le→lt x y e ge) above), (above, k))
  ]
]

-- Sorting does not depend on the order of the slice.
insert_comm :
    (a b : ℤ) (xs : List ℤ) → insert_int a (insert_int b xs) ≡ insert_int b (insert_int a xs)
unfolding insert_int
insert_comm a b [] = ground arith
insert_comm a b (y ∷ ys) = ground (arith, insert_comm a b ys)

pub sort-append : (xs : List ℤ) (x : ℤ) → sort_ints (xs ++ x ∷ []) ≡ insert_int x (sort_ints xs)
unfolding sort_ints
sort-append [] x = refl
sort-append (y ∷ ys) x = rw (sort-append ys x) (insert_comm y x (sort_ints ys))

insert_first : (x : ℤ) (xs : List ℤ) → All (λ y. x <ℤ y) xs → insert_int x xs ≡ x ∷ xs
unfolding insert_int
insert_first x [] h = refl
insert_first x (y ∷ ys) h = ground arith

-- An ascending slice is left as it is.
pub sort_ascending : (xs : List ℤ) → IsAscending xs → sort_ints xs ≡ xs
unfolding sort_ints
sort_ascending [] h = refl
sort_ascending (x ∷ xs) (above, h) = rw (sort_ascending xs h) (insert_first x xs above)

pub drop-IsAscending : (n : ℕ) (xs : List ℤ) → IsAscending xs → IsAscending (drop n xs)
drop-IsAscending zero xs h = h
drop-IsAscending (suc n) [] h = tt
drop-IsAscending (suc n) (x ∷ xs) h = drop-IsAscending n xs h.1

pub In-drop : (a : ℤ) (n : ℕ) (xs : List ℤ) → In a (drop n xs) → In a xs
In-drop a zero xs h = h
In-drop a (suc n) [] h = h
In-drop a (suc n) (x ∷ xs) h = inr (In-drop a n xs h)

above-drop : (a : ℤ) (n : ℕ) (xs : List ℤ) → All (λ y. a <ℤ y) xs → All (λ y. a <ℤ y) (drop n xs)
above-drop a zero xs h = h
above-drop a (suc n) [] h = tt
above-drop a (suc n) (x ∷ xs) h = above-drop a n xs h.1

-- What is cut off the front of an ascending slice is smaller than all that is left.
pub drop_below :
    (a : ℤ) (n : ℕ) (xs : List ℤ)
    → IsAscending xs
    → In a xs
    → In a (drop n xs) ⊎ All (λ y. a <ℤ y) (drop n xs)
drop_below a zero xs h m = inl m
drop_below a (suc n) [] h m = absurd m
drop_below a (suc n) (x ∷ xs) (above, h) (inl e) = inr (above-drop a n xs (rw (← e) above))
drop_below a (suc n) (x ∷ xs) (above, h) (inr m) = drop_below a n xs h m

-- The smallest number is cut off after an insertion: what was below all stays below all.
pub above-drop-insert :
    (a x : ℤ) (xs : List ℤ) → All (λ y. a <ℤ y) xs → All (λ y. a <ℤ y) (drop 1 (insert_int x xs))
unfolding insert_int
above-drop-insert a x [] h = tt
above-drop-insert a x (y ∷ ys) h = elim (Bool-cases (ltb_ℤ y x)) [
  | inl e ↦ rw e (above-insert a x ys (ground arith) h.1)
  | inr e ↦ rw e h
]
