-- ===== src/Local/Confined.antt =====
-- No path leads a method of the local store out of the base directory.
use mathlib.Core.List.{reverse}
use mathlib.Core.Path.{subst}
use pot_play_storage.Prelude.{
  ◌≡◌, ◌≢◌, refl, sym, ◌∙◌, inl, inr, false, List, ◌++◌, Option, some, Bytes, arith,
}
use pot_play_storage.Prelude.Int.{ℤ}
use pot_play_storage.Errors.{Result, Result-cases, ok}
use pot_play_storage.Paths.{is_rooted, join, steps, place}
use pot_play_storage.Backend.{StorageBackend}
use pot_play_storage.Local.{Os, sanitize_path, sanitized, local_storage}
use pot_play_storage.Local.Names.{clean_path-relative}
use pot_play_storage.Local.Inside.{sanitize_path-Accepted, place-below}
use pot_play_storage.Local.FileSystem.{
  IsFileSystem, put_at_other, open_at_ok, open_at_keeps, remove_at_other,
}

-- The place `x` is not in the directory at the place `base`.
abbrev pub IsOutside : List Bytes → List Bytes → Type 0
IsOutside base x = (below : List Bytes) → below ++ base ≢ x

module _ (O : Os) (cwd : Bytes) (files : O.State → List Bytes → Option Bytes) (base : Bytes)
    (F : IsFileSystem O cwd files) where
  abbrev store : StorageBackend
  store = local_storage O base

  -- Where an accepted path leads.
  accepted-place :
      (p c : Bytes)
      → sanitize_path base O.getwd p ≡ ok c
      → place cwd (join base c) ≡ reverse (steps c) ++ place cwd base
  accepted-place p c h =
      let e = subst (λ (g : Result Bytes). sanitize_path base g p ≡ ok c) F.getwd_ok h in
      let (same, accepted) = (sanitize_path-Accepted base cwd p c F.getwd_rooted).0 e in
      place-below cwd base c
        (subst (λ (t : Bytes). is_rooted t ≡ false) (sym same) (clean_path-relative p)) accepted.0

  accepted-outside :
      (p c : Bytes) (x : List Bytes)
      → sanitize_path base O.getwd p ≡ ok c
      → IsOutside (place cwd base) x
      → place cwd (join base c) ≢ x
  accepted-outside p c x h out e = out (reverse (steps c)) (sym (accepted-place p c h) ∙ e)

  put-IsOutside :
      (path content : Bytes) (size : ℤ) (s : O.State) (x : List Bytes)
      → IsOutside (place cwd base) x
      → files (store.put path content size s).1 x ≡ files s x
  put-IsOutside path content size s x out = elim (Result-cases (sanitize_path base O.getwd path)) [
    | inl (c, e) ↦
        rw (e, sanitized)
          (put_at_other O cwd files F (join base c) content x s (accepted-outside path c x e out))
    | inr (e, failed) ↦ rw (failed, sanitized) refl
  ]

  delete-IsOutside :
      (path : Bytes) (s : O.State) (x : List Bytes)
      → IsOutside (place cwd base) x
      → files (store.delete path s).1 x ≡ files s x
  delete-IsOutside path s x out = elim (Result-cases (sanitize_path base O.getwd path)) [
    | inl (c, e) ↦
        rw (e, sanitized)
          (remove_at_other O cwd files F (join base c) x s (accepted-outside path c x e out))
    | inr (e, failed) ↦ rw (failed, sanitized) refl
  ]

  get-IsOutside :
      (path : Bytes) (s : O.State) (content : Bytes)
      → (store.get path s).0 ≡ ok content
      → (below : List Bytes) × (files s (below ++ place cwd base) ≡ some content)
  get-IsOutside path s content h = elim (Result-cases (sanitize_path base O.getwd path)) [
    | inl (c, e) ↦ (
      reverse (steps c),
      subst (λ (x : List Bytes). files s x ≡ some content) (accepted-place path c e)
          (open_at_ok O cwd files F (join base c) content s (rw (e, sanitized) at h)),
    )
    | inr (e, failed) ↦ absurd (ground arith)
  ]

  get_keeps_files :
      (path : Bytes) (s : O.State) (x : List Bytes) → files (store.get path s).1 x ≡ files s x
  get_keeps_files path s x = elim (Result-cases (sanitize_path base O.getwd path)) [
    | inl (c, e) ↦ rw (e, sanitized) (open_at_keeps O cwd files F (join base c) x s)
    | inr (e, failed) ↦ rw (failed, sanitized) refl
  ]

  -- Whatever path they are given, Put and Delete change no file outside the base directory, Get
  -- changes no file at all, and what it gives is the content of a file in the base directory. The
  -- file system is one as the code relies on it, without links.
  pub local_storage-IsOutside :
      (path content : Bytes) (size : ℤ) (s : O.State)
      → ((x : List Bytes)
          → IsOutside (place cwd base) x
          → (files (store.put path content size s).1 x ≡ files s x)
            × (files (store.delete path s).1 x ≡ files s x))
        × ((x : List Bytes) → files (store.get path s).1 x ≡ files s x)
        × ((read : Bytes)
            → (store.get path s).0 ≡ ok read
            → (below : List Bytes) × (files s (below ++ place cwd base) ≡ some read))
  local_storage-IsOutside path content size s = (
    (λ x out. (put-IsOutside path content size s x out, delete-IsOutside path s x out)),
    (λ x. get_keeps_files path s x),
    (λ read h. get-IsOutside path s read h),
  )
