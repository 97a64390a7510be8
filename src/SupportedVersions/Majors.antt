-- ===== src/SupportedVersions/Majors.antt =====
-- `getMajorVersions` returns the newest major streams.
use delorean.Base.{
  ℕ, ◌<◌, List, [], ◌∷◌, ◌++◌, false, ◌≡◌, ◌≢◌, refl, inl, inr, if◌then◌else◌, In, In-append,
  In-append_left, In-append_right, Bool-cases, arith, map, append_assoc, append-nil, ok,
}
use delorean.Base.Int.{ℤ, pos, int_of_uint}
use delorean.SupportedVersions.{
  or_err, empty_list, SupportedError, contains, sort_ints, major_loop, get_major_versions,
}
use delorean.SupportedVersions.Sorting.{
  IsAscending, In-insert, In-insert_self, In-insert_of, contains→In, In→contains,
  insert-IsAscending, sort-append,
}
use delorean.SupportedVersions.Top.{IsTop-ne-nil, IsTop, keep_last-all}

-- `l`, sorted, holds the numbers of `seen`, each once.
record Collected (seen l : List ℤ) : Type 0 where
  ascending : IsAscending (sort_ints l)
  sound : (a : ℤ) → In a (sort_ints l) → In a seen
  complete : (a : ℤ) → In a seen → In a (sort_ints l)

sort-In : (a : ℤ) (l : List ℤ) → In a l → In a (sort_ints l)
unfolding sort_ints
sort-In a [] h = h
sort-In a (x ∷ l) (inl e) = rw (← e) (In-insert_self x (sort_ints l))
sort-In a (x ∷ l) (inr m) = In-insert_of a x (sort_ints l) (sort-In a l m)

In-sort : (a : ℤ) (l : List ℤ) → In a (sort_ints l) → In a l
unfolding sort_ints
In-sort a [] h = h
In-sort a (x ∷ l) h = elim (In-insert a x (sort_ints l) h) [
  | inl e ↦ inl e
  | inr m ↦ inr (In-sort a l m)
]

contains-sort : (l : List ℤ) (x : ℤ) → contains l x ≡ false → contains (sort_ints l) x ≡ false
contains-sort l x h = elim (Bool-cases (contains (sort_ints l) x)) [
  | inr e ↦ e
  | inl e ↦ absurd (ground (arith, In→contains l x (In-sort x l (contains→In (sort_ints l) x e))))
]

Collected-nil : Collected [] []
unfolding sort_ints
Collected-nil = record { ascending = tt; sound = λ a h. h; complete = λ a h. h }

pub or_err-ok : {A : Type 0} (e : SupportedError) (l : List A) → l ≢ [] → or_err e l ≡ ok l
or_err-ok e [] h = absurd (h refl)
or_err-ok e (x ∷ l) h = refl

Collected-step :
    (seen l : List ℤ) (x : ℤ)
    → Collected seen l
    → Collected (seen ++ x ∷ []) (if contains l x then l else l ++ x ∷ [])
Collected-step seen l x c = elim (Bool-cases (contains l x)) [
  | inl e ↦ rw e (record {
    ascending = c.ascending;
    sound = λ a h. In-append_left a seen _ (c.sound a h);
    complete = λ a h. elim (In-append a seen _ h) [
      | inl s ↦ c.complete a s
      | inr (inl q) ↦ rw (← q) (sort-In x l (contains→In l x e))
      | inr (inr z) ↦ absurd z
    ];
  })
  | inr e ↦ rw e (record {
    ascending = rw sort-append (insert-IsAscending x _ (contains-sort l x e) c.ascending);
    sound = λ a h. elim (In-insert a x _ (rw sort-append at h)) [
      | inl q ↦ In-append_right a seen _ (inl q)
      | inr m ↦ In-append_left a seen _ (c.sound a m)
    ];
    complete = λ a h. rw sort-append (elim (In-append a seen _ h) [
      | inl s ↦ In-insert_of a x _ (c.complete a s)
      | inr (inl q) ↦ rw (← q) (In-insert_self x _)
      | inr (inr z) ↦ absurd z
    ]);
  })
]

module _ {V : Type 0} (major minor : V → ℕ) where
  -- The major numbers of the versions, as `int`s.
  abbrev pub majors_of : List V → List ℤ
  majors_of = map (λ v. int_of_uint (major v))

  Collected-loop :
      (vs : List V) (seen l : List ℤ)
      → Collected seen l
      → Collected (seen ++ majors_of vs) (major_loop major minor vs l)
  unfolding major_loop
  Collected-loop [] seen l c = rw append-nil c
  Collected-loop (v ∷ vs) seen l c =
      let x = int_of_uint (major v) in
      rw (← append_assoc seen (x ∷ []) (majors_of vs))
        (Collected-loop vs (seen ++ x ∷ []) _ (Collected-step seen l x c))

  -- The newest `n` major streams are found, and no error is returned, if there is a version and `n` is not 0.
  pub get_major_versions-IsTop :
      (n : ℕ) (versions : List V)
      → versions ≢ []
      → 0 < n
      → (l : List ℤ) × (get_major_versions major minor versions (pos n) ≡ ok l)
        × IsTop n (majors_of versions) l
  unfolding get_major_versions
  get_major_versions-IsTop n [] some_version room = absurd (some_version refl)
  get_major_versions-IsTop n (v ∷ vs) some_version room =
      let c = Collected-loop (v ∷ vs) [] [] Collected-nil in
      let (r, cut, top) = keep_last-all n (majors_of (v ∷ vs)) _ c.ascending c.sound c.complete in
      (r, rw cut (or_err-ok empty_list r (IsTop-ne-nil n _ r _ top (inl refl) room)), top)
