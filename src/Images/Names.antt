-- ===== src/Images/Names.antt =====
-- The names that BuildDeloreanImage makes (pkg/utils/images.go).
use delorean.Base.{
  some, none, Option, panic, subst, suc, List, [], ◌∷◌, ◌++◌, false, ◌≡◌, refl, ap, ◌↔◌, inl, inr,
  Option-cases, Text, codes, text_eq, split, cut, count, length, length-split, ◌≤◌, ok, arith, ◌∙◌,
  sym,
}
use delorean.Images.{
  digest, Indexed, strip_sha_or_tag, tagged, build_delorean_image, renamed_image, delorean_registry,
}

-- The name among Delorean's images, from what stands around the first digest and between the colons.
abbrev pub delorean_name : Option (Text × Text) → List Text → Text
delorean_name (some (before, rest)) parts =
    delorean_registry ++ (codes ":" ++ (before ++ (codes "_" ++ digest rest)))
delorean_name none [] = delorean_registry
delorean_name none (tag ∷ []) = delorean_registry ++ (codes ":" ++ (tag ++ codes "_latest"))
delorean_name none (before ∷ tag ∷ more) =
    delorean_registry ++ (codes ":" ++ (before ++ (codes "_" ++ tag)))

-- What is made of the parts after the host: a name if there are two, and otherwise a panic.
abbrev pub IsRenamed : List Text → Indexed Text → Type 0
IsRenamed (second ∷ third ∷ more) r =
    r
    ≡ ok (
        delorean_name (cut (second ++ (codes "-" ++ third)) (codes "@sha256:"))
          (split (second ++ (codes "-" ++ third)) b':'))
IsRenamed _ r = r ≡ panic

tagged-delorean_name :
    (name : Text) (parts : List Text)
    → split name b':' ≡ parts
    → tagged (split (delorean_registry ++ (codes ":" ++ name)) b':') ≡ ok (delorean_name none parts)
unfolding split tagged
tagged-delorean_name name [] e = absurd (omega (arith, length-split name b':', ap length e))
tagged-delorean_name name (a ∷ []) e = rw e refl
tagged-delorean_name name (a ∷ b ∷ more) e = rw e refl

strip_sha_or_tag-delorean_name :
    (name : Text)
    → strip_sha_or_tag (delorean_registry ++ (codes ":" ++ name))
      ≡ ok (delorean_name (cut name (codes "@sha256:")) (split name b':'))
unfolding strip_sha_or_tag cut
strip_sha_or_tag-delorean_name name = elim (Option-cases (cut name (codes "@sha256:"))) [
  | inl e ↦ rw e (tagged-delorean_name name (split name b':') refl)
  | inr ((before, rest), e) ↦ rw e refl
]

renamed_image-IsRenamed :
    (host : Text) (rest : List Text) → IsRenamed rest (renamed_image (host ∷ rest))
unfolding renamed_image
renamed_image-IsRenamed host [] = refl
renamed_image-IsRenamed host (second ∷ []) = refl
renamed_image-IsRenamed host (second ∷ third ∷ more) =
    strip_sha_or_tag-delorean_name (second ++ (codes "-" ++ third))

IsRenamed-panic :
    (rest : List Text) (r : Indexed Text) → IsRenamed rest r → (r ≡ panic) ↔ (length rest ≤ 1)
IsRenamed-panic [] r h = (λ _. omega arith, λ _. h)
IsRenamed-panic (second ∷ []) r h = (λ _. omega arith, λ _. h)
IsRenamed-panic (second ∷ third ∷ more) r h = (λ e. cc (sym h ∙ e), λ n. absurd (omega arith))

-- An image of another registry than quay.io that has two slashes is renamed to one of Delorean's, by its second and
-- third parts and what their digest or tag says: the text up to the digest, with the digest; with one tag, the name with
-- it; with none, the name as the latest. BuildDeloreanImage panics if and only if there are fewer slashes.
pub build_delorean_image-IsRenamed :
    (image host : Text) (rest : List Text)
    → split image b'/' ≡ host ∷ rest
    → text_eq host (codes "quay.io") ≡ false
    → IsRenamed rest (build_delorean_image image)
      × ((build_delorean_image image ≡ panic) ↔ (count b'/' image ≤ 1))
unfolding build_delorean_image
build_delorean_image-IsRenamed image host rest e h =
    let same : build_delorean_image image ≡ renamed_image (host ∷ rest) =
      rw (e, h, build_delorean_image) refl in
    let parts : suc (count b'/' image) ≡ length (host ∷ rest) =
      sym (length-split image b'/') ∙ ap length e in
    let named = subst (IsRenamed rest) (sym same) (renamed_image-IsRenamed host rest) in
    let panics = IsRenamed-panic rest (build_delorean_image image) named in
    (named, (λ p. let few = panics.0 p in omega arith, λ n. panics.1 (omega arith)))
