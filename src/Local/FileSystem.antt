-- ===== src/Local/FileSystem.antt =====
-- The operations of the operating system as the local store relies on them, and what the steps of its
-- methods do to the files.
use mathlib.Core.List.{reverse, reverse-append, reverse-reverse}
use pot_play_storage.Prelude.{
  ◌≡◌, ◌≢◌, sym, ap, ◌∙◌, inl, inr, true, List, [], ◌∷◌, ◌++◌, Option, none, some, Bytes, arith,
  Option-cases, length,
}
use pot_play_storage.Prelude.Int.{ℤ, pos}
use pot_play_storage.Errors.{Result-cases, ok}
use pot_play_storage.Paths.{is_rooted, place, dir}
use pot_play_storage.Local.{Os, write, put_at, open_at, remove_at}

-- A file system as the code relies on it, in a working directory. A file is known by its place, so
-- there are no links. `files s x` is what the file at a place holds.
pub record IsFileSystem (O : Os) (cwd : Bytes) (files : O.State → List Bytes → Option Bytes)
    : Type 0 where
  pub getwd_ok : O.getwd ≡ ok cwd
  pub getwd_rooted : is_rooted cwd ≡ true
  pub mkdir_keeps :
      (p : Bytes) (x : List Bytes) (s : O.State) → files (O.mkdir_all p s).1 x ≡ files s x
  pub create_other :
      (p : Bytes) (x : List Bytes) (s : O.State)
      → place cwd p ≢ x
      → files (O.create p s).1 x ≡ files s x
  pub copy_ok :
      (p content : Bytes) (n : ℤ) (s : O.State)
      → (O.create p s).0 ≡ none
      → (O.copy p content (O.create p s).1).0 ≡ ok n
      → (files (O.copy p content (O.create p s).1).1 (place cwd p) ≡ some content)
        × (n ≡ pos (length content))
  pub copy_other :
      (p content : Bytes) (x : List Bytes) (s : O.State)
      → place cwd p ≢ x
      → files (O.copy p content s).1 x ≡ files s x
  pub open_ok :
      (p content : Bytes) (s : O.State)
      → (O.open_read p s).0 ≡ ok content
      → files s (place cwd p) ≡ some content
  pub open_keeps :
      (p : Bytes) (x : List Bytes) (s : O.State) → files (O.open_read p s).1 x ≡ files s x
  pub remove_ok :
      (p : Bytes) (s : O.State)
      → (O.remove p s).0 ≡ none
      → files (O.remove p s).1 (place cwd p) ≡ none
  pub remove_other :
      (p : Bytes) (x : List Bytes) (s : O.State)
      → place cwd p ≢ x
      → files (O.remove p s).1 x ≡ files s x

pub append-cancel {ℓ} : {A : Type ℓ} (zs xs ys : List A) → zs ++ xs ≡ zs ++ ys → xs ≡ ys
append-cancel [] xs ys e = e
append-cancel (z ∷ zs) xs ys e = append-cancel zs xs ys (ground arith)

pub reverse-cancel : (xs ys zs : List Bytes) → reverse xs ++ zs ≡ reverse ys ++ zs → xs ≡ ys
reverse-cancel xs ys zs e =
    let flip : (us : List Bytes) → reverse (reverse us ++ zs) ≡ reverse zs ++ us = λ us.
      reverse-append (reverse us) zs
      ∙ ap (λ (t : List Bytes). reverse zs ++ t) (reverse-reverse us) in
    append-cancel (reverse zs) xs ys (sym (flip xs) ∙ ap reverse e ∙ flip ys)

module _ (O : Os) (cwd : Bytes) (files : O.State → List Bytes → Option Bytes)
    (F : IsFileSystem O cwd files) where
  pub write_other :
      (full content : Bytes) (x : List Bytes) (s : O.State)
      → place cwd full ≢ x
      → files (write O full content s).1 x ≡ files s x
  write_other full content x s n = elim (Option-cases (O.create full s).0) [
    | inl made ↦
        rw (made, write)
          (F.copy_other full content x (O.create full s).1 n ∙ F.create_other full x s n)
    | inr (e, failed) ↦ rw (failed, write) (F.create_other full x s n)
  ]

  pub put_at_other :
      (full content : Bytes) (x : List Bytes) (s : O.State)
      → place cwd full ≢ x
      → files (put_at O full content s).1 x ≡ files s x
  put_at_other full content x s n = elim (Option-cases (O.mkdir_all (dir full) s).0) [
    | inl made ↦
        rw (made, put_at)
          (write_other full content x (O.mkdir_all (dir full) s).1 n ∙ F.mkdir_keeps (dir full) x s)
    | inr (e, failed) ↦ rw (failed, put_at) (F.mkdir_keeps (dir full) x s)
  ]

  pub write_ok :
      (full content : Bytes) (n : ℤ) (s : O.State)
      → (write O full content s).0 ≡ ok n
      → (files (write O full content s).1 (place cwd full) ≡ some content)
        × (n ≡ pos (length content))
  write_ok full content n s h = elim (Option-cases (O.create full s).0) [
    | inl made ↦ rw (made, write) (F.copy_ok full content n s made (rw (made, write) at h))
    | inr (e, failed) ↦ absurd (ground arith)
  ]

  pub put_at_ok :
      (full content : Bytes) (n : ℤ) (s : O.State)
      → (put_at O full content s).0 ≡ ok n
      → (files (put_at O full content s).1 (place cwd full) ≡ some content)
        × (n ≡ pos (length content))
  put_at_ok full content n s h = elim (Option-cases (O.mkdir_all (dir full) s).0) [
    | inl made ↦
        rw (made, put_at)
          (write_ok full content n (O.mkdir_all (dir full) s).1 (rw (made, put_at) at h))
    | inr (e, failed) ↦ absurd (ground arith)
  ]

  pub open_at_keeps :
      (full : Bytes) (x : List Bytes) (s : O.State) → files (open_at O full s).1 x ≡ files s x
  open_at_keeps full x s = elim (Result-cases (O.open_read full s).0) [
    | inl (content, opened) ↦ rw (opened, open_at) (F.open_keeps full x s)
    | inr (e, failed) ↦ rw (failed, open_at) (F.open_keeps full x s)
  ]

  pub open_at_ok :
      (full content : Bytes) (s : O.State)
      → (open_at O full s).0 ≡ ok content
      → files s (place cwd full) ≡ some content
  open_at_ok full content s h = elim (Result-cases (O.open_read full s).0) [
    | inl (c, opened) ↦ F.open_ok full content s (ground arith)
    | inr (e, failed) ↦ absurd (ground arith)
  ]

  pub remove_at_other :
      (full : Bytes) (x : List Bytes) (s : O.State)
      → place cwd full ≢ x
      → files (remove_at O full s).1 x ≡ files s x
  remove_at_other full x s n = elim (Option-cases (O.remove full s).0) [
    | inl removed ↦ rw (removed, remove_at) (F.remove_other full x s n)
    | inr (e, failed) ↦ rw (failed, remove_at) (F.remove_other full x s n)
  ]

  pub remove_at_ok :
      (full : Bytes) (s : O.State)
      → (remove_at O full s).0 ≡ ok tt
      → files (remove_at O full s).1 (place cwd full) ≡ none
  remove_at_ok full s h = elim (Option-cases (O.remove full s).0) [
    | inl removed ↦ rw (removed, remove_at) (F.remove_ok full s removed)
    | inr (e, failed) ↦ absurd (ground arith)
  ]
