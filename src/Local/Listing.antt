-- ===== src/Local/Listing.antt =====
-- What List gives: the files of the walk, each as the path that leads to it from the base.
use mathlib.Core.List.{reverse}
use mathlib.Core.Path.{subst}
use pot_play_storage.Prelude.{
  ◌≡◌, ◌≢◌, refl, sym, ap, ◌∙◌, inl, inr, Bool-cases, true, false, ◌||◌, List, [], ◌∷◌, ◌++◌, map,
  Option, some, Bytes, codes, if◌then◌else◌, All, arith,
}
use pot_play_storage.Errors.{Result, Result-cases, ok}
use pot_play_storage.Paths.{split, is_rooted, render, join, steps, place, rel}
use pot_play_storage.Paths.Laws.{walk-plain}
use pot_play_storage.Paths.Places.{walk-render, is_rooted-render, steps_of-plain, place-join}
use pot_play_storage.Paths.Relative.{IsDown, rel-join, steps-IsStep, steps_of-All}
use pot_play_storage.Local.{Os, Visit, listed, sanitize_path, sanitized, local_storage}
use pot_play_storage.Local.FileSystem.{IsFileSystem}
use pot_play_storage.Local.Names.{clean_path-relative, contains-split}
use pot_play_storage.Local.Inside.{sanitize_path-Accepted}

-- The visits of files that could be visited.
unfoldable pub files_of : List Visit → List Visit
files_of [] = []
files_of (v ∷ visits) =
    let rest = files_of visits in if v.failed || v.is_dir then rest else v ∷ rest

-- A visit of a path down from the base.
abbrev pub IsBelow : Bytes → Visit → Type 0
IsBelow base v = (c : Bytes) × (v.path ≡ join base c) × IsDown c

-- The steps of a path lead where the path leads.
place-steps :
    (cwd base c : Bytes)
    → IsDown c
    → place cwd (join base (render false (steps c))) ≡ place cwd (join base c)
place-steps cwd base c h =
    let at = place cwd base in
    place-join cwd base (render false (steps c)) (is_rooted-render false (steps c) (steps-IsStep c))
    ∙ walk-render true false at (steps c) (steps-IsStep c)
    ∙ walk-plain true at (steps c) (steps_of-All (λ x. x ≢ codes "..") (split c) h.1)
    ∙ ap (λ (xs : List Bytes). reverse xs ++ at) (steps_of-plain (steps c) (steps-IsStep c))
    ∙ sym (walk-plain true at (split c) h.1)
    ∙ sym (place-join cwd base c h.0)

rel-place :
    (cwd base : Bytes) (v : Visit)
    → IsBelow base v
    → (q : Bytes) × (rel base v.path ≡ some q) × (place cwd (join base q) ≡ place cwd v.path)
rel-place cwd base v (c, e, down) = (
  render false (steps c),
  ap (rel base) e ∙ rel-join base c down,
  place-steps cwd base c down ∙ ap (place cwd) (sym e),
)

module _ (cwd base : Bytes) where
  abbrev pub places : List Bytes → List (List Bytes)
  places = map (λ q. place cwd (join base q))

  abbrev pub visited_places : List Visit → List (List Bytes)
  visited_places = map (λ v. place cwd v.path)

  listed-places :
      (visits : List Visit)
      → All (IsBelow base) visits
      → places (listed base visits) ≡ visited_places (files_of visits)
  unfolding files_of
  listed-places [] h = refl
  listed-places (v ∷ visits) h = elim (Bool-cases (v.failed || v.is_dir)) [
    | inl skipped ↦ rw (skipped, listed, files_of) (listed-places visits h.1)
    | inr file ↦
        let (q, found, same) = rel-place cwd base v h.0 in
        rw (file, found, listed, files_of)
          (ap (λ (x : List Bytes). x ∷ places (listed base visits)) same
            ∙ ap (λ (xs : List (List Bytes)). place cwd v.path ∷ xs) (listed-places visits h.1))
  ]

module _ (O : Os) (cwd : Bytes) (files : O.State → List Bytes → Option Bytes) (base : Bytes)
    (F : IsFileSystem O cwd files) where
  -- The paths that List gives lead, in the order of the walk, to the places of the files of the walk
  -- from the accepted prefix, and none of these is left out. The file system is one as the code
  -- relies on it, and every visit of a walk that starts down from the base is of a path down from
  -- the base.
  pub list-places :
      (prefix : Bytes) (s : O.State) (names : List Bytes)
      → ((c : Bytes) → IsDown c → All (IsBelow base) (O.walk (join base c) s))
      → ((local_storage O base).list prefix s).0 ≡ ok names
      → (c : Bytes) × (sanitize_path base O.getwd prefix ≡ ok c)
        × (places cwd base names ≡ visited_places cwd base (files_of (O.walk (join base c) s)))
  list-places prefix s names below h = elim (Result-cases (sanitize_path base O.getwd prefix)) [
    | inl (c, e) ↦
        let e' = subst (λ (g : Result Bytes). sanitize_path base g prefix ≡ ok c) F.getwd_ok e in
        let (same, accepted) = (sanitize_path-Accepted base cwd prefix c F.getwd_rooted).0 e' in
        let down : IsDown c = (
          subst (λ (t : Bytes). is_rooted t ≡ false) (sym same) (clean_path-relative prefix),
          contains-split c accepted.0,
        ) in
        let given : ok (listed base (O.walk (join base c) s)) ≡ ok names = rw (e, sanitized) at h in
        let shown : listed base (O.walk (join base c) s) ≡ names = ground arith in
        (
          c,
          e,
          ap (places cwd base) (sym shown)
              ∙ listed-places cwd base (O.walk (join base c) s) (below c down),
        )
    | inr (e, failed) ↦ absurd (ground arith)
  ]
