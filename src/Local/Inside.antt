-- ===== src/Local/Inside.antt =====
-- When sanitizePath accepts a path, and where the path then leads.
use mathlib.Core.List.{reverse, reverse-cons, reverse-append, reverse-reverse}
use mathlib.Core.Path.{subst}
use pot_play_storage.Prelude.{
  ◌≡◌, ◌≢◌, refl, sym, ap, ◌∙◌, ◌⊎◌, ◌↔◌, inl, inr, Bool, true, false, ◌||◌, not, List, [], ◌∷◌,
  ◌++◌, Bytes, Bytes-discrete, codes, if◌then◌else◌, All, arith, Bool-cases, append-nil,
  append_assoc,
}
use pot_play_storage.Strings.{has_prefix, contains}
use pot_play_storage.Strings.Laws.{has_prefix-append}
use pot_play_storage.Errors.{ok, err}
use pot_play_storage.Paths.{split, join_segments, is_rooted, render, join, abs, steps, place}
use pot_play_storage.Paths.Laws.{walk-plain}
use pot_play_storage.Paths.Segments.{IsStep}
use pot_play_storage.Paths.Places.{place-join, abs-place}
use pot_play_storage.Paths.Relative.{steps-IsStep}
use pot_play_storage.Local.{
  clean_path, is_system, is_inside, check_inside, absolute, sanitize_path, outside,
}
use pot_play_storage.Local.Names.{contains-split, clean_path-relative}

absolute_lem : (d p : Bytes) → absolute (ok d) p ≡ ok (abs d p)
unfolding absolute abs
absolute_lem d p = ground arith

join_segments-append :
    (r : Bytes) (rs : List Bytes) (x : Bytes) (xs : List Bytes)
    → join_segments ((r ∷ rs) ++ (x ∷ xs))
      ≡ join_segments (r ∷ rs) ++ (b'/' ∷ join_segments (x ∷ xs))
unfolding join_segments
join_segments-append r [] x xs = refl
join_segments-append r (q ∷ rs) x xs =
    ap (λ (t : Bytes). r ++ (b'/' ∷ t)) (join_segments-append q rs x xs)
    ∙ sym (append_assoc r (b'/' ∷ join_segments (q ∷ rs)) (b'/' ∷ join_segments (x ∷ xs)))

abbrev is_none {ℓ} : {A : Type ℓ} → List A → Bool
is_none [] = true
is_none (x ∷ xs) = false

-- Below the root no other place is inside.
root_inside :
    (x : Bytes) (xs : List Bytes)
    → IsStep x
    → is_inside (render true (x ∷ xs)) (render true []) ≡ false
unfolding render join_segments has_prefix Bytes-discrete
root_inside [] xs h = absurd (ground arith)
root_inside (c ∷ x) [] h = ground arith
root_inside (c ∷ x) (y ∷ xs) h = ground arith

below_inside :
    (r : Bytes) (rs : List Bytes) (x : Bytes) (xs : List Bytes)
    → is_inside (render true ((r ∷ rs) ++ (x ∷ xs))) (render true (r ∷ rs)) ≡ true
unfolding render
below_inside r rs x xs =
    let base = b'/' ∷ join_segments (r ∷ rs) in
    let e : b'/' ∷ join_segments ((r ∷ rs) ++ (x ∷ xs))
        ≡ (base ++ codes "/") ++ join_segments (x ∷ xs) =
      ap (λ (t : Bytes). b'/' ∷ t) (join_segments-append r rs x xs)
      ∙ sym (append_assoc base (codes "/") (join_segments (x ∷ xs))) in
    subst (λ (t : Bytes). is_inside t base ≡ true) (sym e)
      (let h = has_prefix-append (base ++ codes "/") (join_segments (x ∷ xs)) in ground arith)

is_inside-render :
    (rs xs : List Bytes)
    → All IsStep xs
    → is_inside (render true (rs ++ xs)) (render true rs) ≡ (not (is_none rs) || is_none xs)
is_inside-render rs [] h = ground (arith, append-nil rs)
is_inside-render [] (x ∷ xs) h = root_inside x xs h.0
is_inside-render (r ∷ rs) (x ∷ xs) h = below_inside r rs x xs

-- A relative path without ".." leads down from the base.
pub place-below :
    (d base c : Bytes)
    → is_rooted c ≡ false
    → contains c (codes "..") ≡ false
    → place d (join base c) ≡ reverse (steps c) ++ place d base
place-below d base c relative h =
    place-join d base c relative ∙ walk-plain true (place d base) (split c) (contains-split c h)

-- The last test of sanitizePath.
inside_lem :
    (d base c : Bytes)
    → is_rooted d ≡ true
    → is_rooted c ≡ false
    → contains c (codes "..") ≡ false
    → is_inside (abs d (join base c)) (abs d base)
      ≡ (not (is_none (reverse (place d base))) || is_none (steps c))
inside_lem d base c rooted relative h =
    ap (λ (t : Bytes). is_inside t (abs d base))
      (abs-place d (join base c) rooted
        ∙ ap (λ (t : List Bytes). render true (reverse t)) (place-below d base c relative h)
        ∙ ap (render true) (
            reverse-append (reverse (steps c)) (place d base)
            ∙ ap (λ (t : List Bytes). reverse (place d base) ++ t) (reverse-reverse (steps c))))
    ∙ ap (is_inside (render true (reverse (place d base) ++ steps c))) (abs-place d base rooted)
    ∙ is_inside-render (reverse (place d base)) (steps c) (steps-IsStep c)

-- The base is not the root of the file system.
abbrev pub HasDepth : Bytes → Bytes → Type 0
HasDepth d base = place d base ≢ []

is_none-append : (xs : List Bytes) (x : Bytes) → is_none (xs ++ (x ∷ [])) ≡ false
is_none-append [] x = refl
is_none-append (y ∷ xs) x = refl

is_none-reverse : (xs : List Bytes) → is_none (reverse xs) ≡ is_none xs
is_none-reverse [] = refl
is_none-reverse (x ∷ xs) = ap is_none (reverse-cons x xs) ∙ is_none-append (reverse xs) x

-- sanitizePath, without its last test on texts.
abbrev pub Accepted : Bytes → Bytes → Bytes → Type 0
Accepted d base c =
    (contains c (codes "..") ≡ false) × (is_system c ≡ false) × (HasDepth d base ⊎ (steps c ≡ []))

abbrev fits : Bytes → Bytes → Bytes → Bool
fits d base c = not (is_none (place d base)) || is_none (steps c)

sanitized_lem :
    (base d p : Bytes)
    → is_rooted d ≡ true
    → contains (clean_path p) (codes "..") ≡ false
    → is_system (clean_path p) ≡ false
    → sanitize_path base (ok d) p
      ≡ (if fits d base (clean_path p) then ok (clean_path p) else err (outside p))
unfolding sanitize_path check_inside
sanitized_lem base d p rooted h g =
    let e = inside_lem d base (clean_path p) rooted (clean_path-relative p) h in
    let f = is_none-reverse (place d base) in
    ground (arith, absolute_lem d base, absolute_lem d (join base (clean_path p)))

refused_lem :
    (base d p c : Bytes)
    → sanitize_path base (ok d) p ≡ ok c
    → (contains (clean_path p) (codes "..") ≡ false) × (is_system (clean_path p) ≡ false)
unfolding sanitize_path
refused_lem base d p c h = ground arith

is_none-true {ℓ} : {A : Type ℓ} (xs : List A) → is_none xs ≡ true → xs ≡ []
is_none-true [] h = refl
is_none-true (x ∷ xs) h = absurd (ground arith)

is_none-false {ℓ} : {A : Type ℓ} (xs : List A) → is_none xs ≡ false → xs ≢ []
is_none-false [] h = absurd (ground arith)
is_none-false (x ∷ xs) h = λ e. ground arith

fits_iff : (d base c : Bytes) → (fits d base c ≡ true) ↔ (HasDepth d base ⊎ (steps c ≡ []))
fits_iff d base c = elim (Bool-cases (is_none (place d base))) [
  | inl flat ↦ (
    λ h. inr (is_none-true (steps c) (ground arith)),
    elim [
      | inl deep ↦ absurd (deep (is_none-true (place d base) flat))
      | inr e ↦ ap (λ (t : List Bytes). not (is_none (place d base)) || is_none t) e ∙ ground arith
    ],
  )
  | inr deep ↦ (λ h. inl (is_none-false (place d base) deep), λ h. ground arith)
]

-- sanitizePath accepts exactly the paths whose cleaned text has no "..", does not begin with a
-- system directory and, if the base is the root, is the base itself; it gives the cleaned text.
pub sanitize_path-Accepted :
    (base d p c : Bytes)
    → is_rooted d ≡ true
    → (sanitize_path base (ok d) p ≡ ok c) ↔ ((c ≡ clean_path p) × Accepted d base c)
sanitize_path-Accepted base d p c rooted = (
  (λ h.
      let (x, y) = refused_lem base d p c h in
      let e = sanitized_lem base d p rooted x y in
      let same : c ≡ clean_path p = ground arith in
      let fit : fits d base (clean_path p) ≡ true = ground arith in
      (same, subst (Accepted d base) (sym same) (x, y, (fits_iff d base (clean_path p)).0 fit))),
  (λ (same, accepted).
      let (x, y, z) = subst (Accepted d base) same accepted in
      let fit = (fits_iff d base (clean_path p)).1 z in
      sanitized_lem base d p rooted x y ∙ ground arith),
)
