-- ===== src/Local/Store.antt =====
-- The local store over a file system: it meets the laws that the service relies on.
use mathlib.Core.List.{reverse}
use mathlib.Core.Path.{subst}
use pot_play_storage.Prelude.{
  ◌≡◌, ◌≢◌, refl, sym, ap, ◌∙◌, inl, inr, Bool, true, false, List, ◌++◌, Option, none, some, Bytes,
  ◌==◌, ==_iff, if◌then◌else◌, arith, Bool-cases,
}
use pot_play_storage.Prelude.Int.{ℤ}
use pot_play_storage.Errors.{Result-cases, Result, ok, err}
use pot_play_storage.Paths.{is_rooted, render, join, steps, place}
use pot_play_storage.Backend.{StorageBackend, IsLawful}
use pot_play_storage.Local.{
  Os, sanitize_path, sanitized, clean_path, put_at, open_at, remove_at, local_storage,
}
use pot_play_storage.Local.Names.{clean_path-relative, clean_path-steps}
use pot_play_storage.Local.Inside.{sanitize_path-Accepted, place-below, Accepted}
use pot_play_storage.Local.FileSystem.{
  IsFileSystem, reverse-cancel, put_at_other, put_at_ok, open_at_ok, open_at_keeps, remove_at_other,
  remove_at_ok,
}

module _ (O : Os) (cwd : Bytes) (files : O.State → List Bytes → Option Bytes) (base : Bytes) where
  -- A path that the store takes as it is.
  abbrev pub is_name : Bytes → Bool
  is_name q = elim (sanitize_path base O.getwd q) [ ok c ↦ c == q | err e ↦ false ]

  -- What the store holds under a path.
  abbrev pub local_holds : O.State → Bytes → Option Bytes
  local_holds s q = if is_name q then files s (place cwd (join base q)) else none

  is_name-sanitize_path : (q : Bytes) → is_name q ≡ true → sanitize_path base O.getwd q ≡ ok q
  is_name-sanitize_path q h = elim (Result-cases (sanitize_path base O.getwd q)) [
    | inl (c, e) ↦ e ∙ ap ok ((==_iff c q).0 (ground arith))
    | inr (e, failed) ↦ absurd (ground arith)
  ]

  module _ (F : IsFileSystem O cwd files) where
    names-Accepted : (q : Bytes) → is_name q ≡ true → (q ≡ clean_path q) × Accepted cwd base q
    names-Accepted q h = (sanitize_path-Accepted base cwd q q F.getwd_rooted).0 (
        ap (λ (g : Result Bytes). sanitize_path base g q) (sym F.getwd_ok)
        ∙ is_name-sanitize_path q h)

    name-place :
        (q : Bytes)
        → is_name q ≡ true
        → place cwd (join base q) ≡ reverse (steps q) ++ place cwd base
    name-place q h =
        let same = (names-Accepted q h).0 in
        let plain = (names-Accepted q h).1.0 in
        place-below cwd base q
          (subst (λ (t : Bytes). is_rooted t ≡ false) (sym same) (clean_path-relative q)) plain

    -- Two names of one place are the same.
    name-injective :
        (p q : Bytes)
        → is_name p ≡ true
        → is_name q ≡ true
        → place cwd (join base p) ≡ place cwd (join base q)
        → p ≡ q
    name-injective p q hp hq e =
        clean_path-steps p (sym (names-Accepted p hp).0)
        ∙ ap (render false) (
            reverse-cancel (steps p) (steps q) (place cwd base)
              (sym (name-place p hp) ∙ e ∙ name-place q hq))
        ∙ sym (clean_path-steps q (sym (names-Accepted q hq).0))

    abbrev store : StorageBackend
    store = local_storage O base

    -- A change that keeps all places but a name's keeps what is held under other paths.
    held_other :
        (p q : Bytes) (s s' : O.State)
        → is_name p ≡ true
        → ((x : List Bytes) → place cwd (join base p) ≢ x → files s' x ≡ files s x)
        → p ≢ q
        → local_holds s' q ≡ local_holds s q
    held_other p q s s' hp keep n = elim (Bool-cases (is_name q)) [
      | inl hq ↦ rw hq (keep (place cwd (join base q)) (λ e. n (name-injective p q hp hq e)))
      | inr other ↦ rw other refl
    ]

    held_here :
        (p : Bytes) (s : O.State)
        → is_name p ≡ true
        → local_holds s p ≡ files s (place cwd (join base p))
    held_here p s h = rw h refl

    held_same :
        (q : Bytes) (s s' : O.State)
        → ((x : List Bytes) → files s' x ≡ files s x)
        → local_holds s' q ≡ local_holds s q
    held_same q s s' keep =
        ap (λ (t : Option Bytes). if is_name q then t else none) (keep (place cwd (join base q)))

    get_keeps : (p q : Bytes) (s : O.State) → local_holds (store.get p s).1 q ≡ local_holds s q
    get_keeps p q s = elim (Result-cases (sanitize_path base O.getwd p)) [
      | inl (c, e) ↦
          rw (e, sanitized)
            (held_same q s (open_at O (join base c) s).1
              (λ x. open_at_keeps O cwd files F (join base c) x s))
      | inr (e, failed) ↦ rw (failed, sanitized) refl
    ]

    put_other :
        (p content q : Bytes) (size : ℤ) (s : O.State)
        → is_name p ≡ true
        → p ≢ q
        → local_holds (store.put p content size s).1 q ≡ local_holds s q
    put_other p content q size s hp n =
        rw (is_name-sanitize_path p hp, sanitized)
          (held_other p q s (put_at O (join base p) content s).1 hp
            (λ x m. put_at_other O cwd files F (join base p) content x s m) n)

    put_here :
        (p content : Bytes) (size n : ℤ) (s : O.State)
        → is_name p ≡ true
        → (store.put p content size s).0 ≡ ok n
        → local_holds (store.put p content size s).1 p ≡ some content
    put_here p content size n s hp h =
        rw (is_name-sanitize_path p hp, sanitized)
          (held_here p (put_at O (join base p) content s).1 hp
            ∙ (put_at_ok O cwd files F (join base p) content n s
                (rw (is_name-sanitize_path p hp, sanitized) at h)).0)

    put_ok :
        (p content q : Bytes) (size n : ℤ) (s : O.State)
        → is_name p ≡ true
        → (store.put p content size s).0 ≡ ok n
        → local_holds (store.put p content size s).1 q
          ≡ (if p == q then some content else local_holds s q)
    put_ok p content q size n s hp h = elim (Bool-cases (p == q)) [
      | inl same ↦ rw same (
          subst (λ (t : Bytes). local_holds (store.put p content size s).1 t ≡ some content)
            ((==_iff p q).0 same) (put_here p content size n s hp h))
      | inr other ↦ rw other (put_other p content q size s hp (λ e. ground (arith, ==_iff p q)))
    ]

    delete_ok :
        (p : Bytes) (s : O.State)
        → is_name p ≡ true
        → (store.delete p s).0 ≡ ok tt
        → local_holds (store.delete p s).1 p ≡ none
    delete_ok p s hp h =
        rw (is_name-sanitize_path p hp, sanitized)
          (held_here p (remove_at O (join base p) s).1 hp
            ∙ remove_at_ok O cwd files F (join base p) s
                (rw (is_name-sanitize_path p hp, sanitized) at h))

    delete_other :
        (p q : Bytes) (s : O.State)
        → is_name p ≡ true
        → p ≢ q
        → local_holds (store.delete p s).1 q ≡ local_holds s q
    delete_other p q s hp n =
        rw (is_name-sanitize_path p hp, sanitized)
          (held_other p q s (remove_at O (join base p) s).1 hp
            (λ x m. remove_at_other O cwd files F (join base p) x s m) n)

    pub local_laws : IsLawful store local_holds
    local_laws = record {
      IsName = λ p. is_name p ≡ true;
      put_ok = put_ok;
      put_size = λ p content size n s hp h.
          (put_at_ok O cwd files F (join base p) content n s
            (rw (is_name-sanitize_path p hp, sanitized) at h)).1;
      put_other = put_other;
      get_ok = λ p content s hp h.
          held_here p s hp
          ∙ open_at_ok O cwd files F (join base p) content s
              (rw (is_name-sanitize_path p hp, sanitized) at h);
      get_keeps = get_keeps;
      delete_ok = delete_ok;
      delete_other = delete_other;
    }

    pub local_laws-IsName : (q : Bytes) → is_name q ≡ true → local_laws.IsName q
    unfolding local_laws
    local_laws-IsName q h = h

    -- The local store meets the laws of a store of bytes, for the paths that it takes as they are, on
    -- a file system as the code relies on it.
    pub local_storage-IsLawful :
        (L : IsLawful store local_holds) × ((q : Bytes) → is_name q ≡ true → L.IsName q)
    local_storage-IsLawful = (local_laws, local_laws-IsName)
