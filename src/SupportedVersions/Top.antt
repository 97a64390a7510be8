-- ===== src/SupportedVersions/Top.antt =====
-- The newest streams: the greatest numbers of a list, stated without any sorting, and what keeps them while
-- a slice grows.
use delorean.Base.{
  ℕ, suc, ◌-◌, ◌<◌, ◌≤◌, List, [], ◌∷◌, ◌++◌, false, ◌≡◌, ◌≢◌, ap, ◌∙◌, ◌⊎◌, inl, inr, length,
  length-drop, drop, In, All, In-append, In-append_left, In-append_right, Bool-cases, arith, some,
  ltb,
}
use delorean.Base.Int.{ℤ, pos, ◌<ℤ◌}
use delorean.SupportedVersions.{contains, insert_int, sort_ints, keep_last}
use delorean.SupportedVersions.Sorting.{
  IsAscending, In-insert, In-insert_self, In-insert_of, length-insert, insert-IsAscending,
  sort-append, sort_ascending, drop-IsAscending, In-drop, drop_below, above-drop-insert,
}

-- `l` holds the `n` greatest numbers of `seen`, or all of them if there are fewer, in ascending order, each once.
pub record IsTop (n : ℕ) (seen l : List ℤ) : Type 0 where
  pub ascending : IsAscending l
  pub found : (a : ℤ) → In a l → In a seen
  pub few : length l ≤ n
  pub greatest : (a : ℤ) → In a seen → In a l ⊎ ((length l ≡ n) × All (λ y. a <ℤ y) l)

pub IsTop-nil : (n : ℕ) → IsTop n [] []
IsTop-nil n = record {
  ascending = tt;
  found = λ a h. h;
  few = omega arith;
  greatest = λ a h. absurd h;
}

-- A number that is seen again changes nothing.
pub IsTop-again :
    (n : ℕ) (seen l : List ℤ) (x : ℤ) → In x l → IsTop n seen l → IsTop n (seen ++ x ∷ []) l
IsTop-again n seen l x m t = record {
  ascending = t.ascending;
  found = λ a h. In-append_left a seen _ (t.found a h);
  few = t.few;
  greatest = λ a h. elim (In-append a seen (x ∷ []) h) [
    | inl s ↦ t.greatest a s
    | inr (inl e) ↦ inl (rw (← e) m)
    | inr (inr z) ↦ absurd z
  ];
}

module _ (n : ℕ) (seen l : List ℤ) (x : ℤ) (new : contains l x ≡ false) (t : IsTop n seen l) where
  inserted : (a : ℤ) → In a (insert_int x l) → In a (seen ++ x ∷ [])
  inserted a h = elim (In-insert a x l h) [
    | inl e ↦ In-append_right a seen _ (inl e)
    | inr m ↦ In-append_left a seen _ (t.found a m)
  ]

  -- There is room for the new number.
  IsTop-room : length l < n → IsTop n (seen ++ x ∷ []) (insert_int x l)
  IsTop-room room = record {
    ascending = insert-IsAscending x l new t.ascending;
    found = inserted;
    few = rw length-insert room;
    greatest = λ a h. elim (In-append a seen (x ∷ []) h) [
      | inl s ↦ elim (t.greatest a s) [
        | inl m ↦ inl (In-insert_of a x l m)
        | inr (full, _) ↦ absurd (omega arith)
      ]
      | inr (inl e) ↦ inl (rw (← e) (In-insert_self x l))
      | inr (inr z) ↦ absurd z
    ];
  }

  full_length : length l ≡ n → length (drop 1 (insert_int x l)) ≡ n
  full_length full = length-drop 1 (insert_int x l) ∙ rw length-insert (omega arith)

  cut :
      length l ≡ n
      → (a : ℤ) → In a (insert_int x l)
      → In a (drop 1 (insert_int x l))
        ⊎ ((length (drop 1 (insert_int x l)) ≡ n) × All (λ y. a <ℤ y) (drop 1 (insert_int x l)))
  cut full a m = elim (drop_below a 1 _ (insert-IsAscending x l new t.ascending) m) [
    | inl k ↦ inl k
    | inr below ↦ inr (full_length full, below)
  ]

  -- There is no room: the smallest number goes.
  IsTop-full : length l ≡ n → IsTop n (seen ++ x ∷ []) (drop 1 (insert_int x l))
  IsTop-full full = record {
    ascending = drop-IsAscending 1 _ (insert-IsAscending x l new t.ascending);
    found = λ a h. inserted a (In-drop a 1 _ h);
    few = rw (full_length full) (omega arith);
    greatest = λ a h. elim (In-append a seen (x ∷ []) h) [
      | inl s ↦ elim (t.greatest a s) [
        | inl m ↦ cut full a (In-insert_of a x l m)
        | inr (_, below) ↦ inr (full_length full, above-drop-insert a x l below)
      ]
      | inr (inl e) ↦ cut full a (rw (← e) (In-insert_self x l))
      | inr (inr z) ↦ absurd z
    ];
  }

  -- One round of the loop of `getMinorVersions` at a number that its slice does not hold.
  pub keep_last-IsTop :
      (r : List ℤ) × (keep_last (sort_ints (l ++ x ∷ [])) (pos n) ≡ some r)
      × IsTop n (seen ++ x ∷ []) r
  unfolding keep_last
  keep_last-IsTop =
      rw (sort-append l x, sort_ascending l t.ascending, length-insert)
        (elim (Bool-cases (ltb n (suc (length l)))) [
          | inl e ↦
              let full : length l ≡ n = ground (arith, t.few) in
              let one : suc (length l) - n ≡ 1 = omega (arith, full) in
              (
                drop 1 (insert_int x l),
                rw e (ap (λ k. some (drop k (insert_int x l))) one),
                IsTop-full full,
              )
          | inr e ↦ (insert_int x l, rw e, IsTop-room (ground arith))
        ])

-- Cutting the front off an ascending slice of all numbers keeps the greatest.
pub keep_last-all :
    (n : ℕ) (seen s : List ℤ)
    → IsAscending s
    → ((a : ℤ) → In a s → In a seen)
    → ((a : ℤ) → In a seen → In a s)
    → (r : List ℤ) × (keep_last s (pos n) ≡ some r) × IsTop n seen r
unfolding keep_last
keep_last-all n seen s up sound complete = elim (Bool-cases (ltb n (length s))) [
  | inr e ↦ (
    s,
    rw e,
    record {
      ascending = up;
      found = sound;
      few = ground arith;
      greatest = λ a h. inl (complete a h);
    },
  )
  | inl e ↦
      let k = length s - n in
      let exact : length (drop k s) ≡ n = length-drop k s ∙ ground arith in
      (
        drop k s,
        rw e,
        record {
          ascending = drop-IsAscending k s up;
          found = λ a h. sound a (In-drop a k s h);
          few = rw exact (omega arith);
          greatest = λ a h. elim (drop_below a k s up (complete a h)) [
            | inl m ↦ inl m
            | inr below ↦ inr (exact, below)
          ];
        },
      )
]

pub IsTop-ne-nil : (n : ℕ) (seen l : List ℤ) (a : ℤ) → IsTop n seen l → In a seen → 0 < n → l ≢ []
IsTop-ne-nil n seen [] a t m room = elim (t.greatest a m) [
  | inl z ↦ absurd z
  | inr (full, _) ↦ absurd (omega arith)
]
IsTop-ne-nil n seen (x ∷ l) a t m room = λ e. cc
