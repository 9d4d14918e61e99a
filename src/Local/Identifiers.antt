-- ===== src/Local/Identifiers.antt =====
-- Identifiers such as UUIDs as paths of the local store.
use mathlib.Core.List.{reverse}
use mathlib.Core.Path.{subst}
use pot_play_storage.Prelude.{
  ℕ, ◌≡◌, ◌≢◌, refl, sym, ap, inl, inr, true, false, List, [], ◌∷◌, Option, Bytes, Bytes-discrete,
  codes, ==_iff, nat_eq, arith, All, any, Bool-cases,
}
use pot_play_storage.Strings.{has_prefix, contains}
use pot_play_storage.Errors.{Result, ok}
use pot_play_storage.Paths.{is_rooted, walk, step, render, join_segments, clean, is_idle}
use pot_play_storage.Paths.Laws.{step-name}
use pot_play_storage.Paths.Segments.{NoSlash, split-whole}
use pot_play_storage.Environment.{Env}
use pot_play_storage.Service.State.{HasNames}
use pot_play_storage.Local.{Os, is_system, clean_path, sanitize_path, local_storage}
use pot_play_storage.Local.Names.{trim_prefix-relative}
use pot_play_storage.Local.Inside.{HasDepth, sanitize_path-Accepted}
use pot_play_storage.Local.Store.{local_laws, local_laws-IsName, is_name, local_holds}
use pot_play_storage.Local.FileSystem.{IsFileSystem}

-- A text of letters, digits and dashes: no slash, no dot.
abbrev pub IsIdentifier : Bytes → Type 0
IsIdentifier q = (q ≢ []) × NoSlash q × All (λ c. c ≢ b'.') q

no_up : (s : Bytes) → All (λ c. c ≢ b'.') s → contains s (codes "..") ≡ false
unfolding contains has_prefix
no_up [] h = refl
no_up (c ∷ s) h = ground (arith, no_up s h.1)

no_directory : (s p : Bytes) → NoSlash s → any (nat_eq b'/') p ≡ true → has_prefix s p ≡ false
unfolding has_prefix
no_directory s [] h e = absurd (ground arith)
no_directory [] (c ∷ p) h e = refl
no_directory (b ∷ s) (c ∷ p) h e = elim (Bool-cases (nat_eq b'/' c)) [
  | inl slash ↦ ground arith
  | inr other ↦ ground (arith, no_directory s p h.1 (ground arith))
]

not_system : (s : Bytes) → NoSlash s → is_system s ≡ false
unfolding is_system
not_system s h =
    rw
      (
        no_directory s (codes "etc/") h refl,
        no_directory s (codes "var/") h refl,
        no_directory s (codes "usr/") h refl,
        no_directory s (codes "home/") h refl,
        no_directory s (codes "root/") h refl,
        no_directory s (codes "sys/") h refl,
        no_directory s (codes "proc/") h refl,
      )
      refl

identifier-is_rooted : (q : Bytes) → IsIdentifier q → is_rooted q ≡ false
unfolding is_rooted
identifier-is_rooted [] h = absurd (h.0 refl)
identifier-is_rooted (c ∷ q) h = ground arith

identifier-is_idle : (q : Bytes) → IsIdentifier q → is_idle q ≡ false
unfolding Bytes-discrete
identifier-is_idle [] h = absurd (h.0 refl)
identifier-is_idle (c ∷ q) h = ground (arith, ==_iff (c ∷ q) (codes "."))

no_parent : (q : Bytes) → All (λ c. c ≢ b'.') q → q ≢ codes ".."
no_parent [] h e = ground arith
no_parent (c ∷ q) h e = ground arith

identifier-clean : (q : Bytes) → IsIdentifier q → clean q ≡ q
unfolding clean walk step render join_segments
identifier-clean q h =
    rw (identifier-is_rooted q h, split-whole q h.1)
      (ap (λ (t : List Bytes). render false (reverse t))
        (step-name false [] q (identifier-is_idle q h) (no_parent q h.2)))

identifier-clean_path : (q : Bytes) → IsIdentifier q → clean_path q ≡ q
identifier-clean_path q h =
    rw (identifier-clean q h) (trim_prefix-relative q (identifier-is_rooted q h))

module _ (O : Os) (cwd : Bytes) (files : O.State → List Bytes → Option Bytes) (base : Bytes)
    (F : IsFileSystem O cwd files) (deep : HasDepth cwd base) where
  -- sanitizePath takes an identifier as it is, below a base that is not the root.
  pub sanitize_path-IsIdentifier :
      (q : Bytes) → IsIdentifier q → sanitize_path base O.getwd q ≡ ok q
  sanitize_path-IsIdentifier q h =
      subst (λ (g : Result Bytes). sanitize_path base g q ≡ ok q) (sym F.getwd_ok)
        ((sanitize_path-Accepted base cwd q q F.getwd_rooted).1
          (sym (identifier-clean_path q h), (no_up q h.2, not_system q h.1, inl deep)))

  pub identifier-is_name : (q : Bytes) → IsIdentifier q → is_name O cwd files base q ≡ true
  identifier-is_name q h = ground (arith, sanitize_path-IsIdentifier q h, (==_iff q q).1 refl)

  -- What the service needs of its identifiers.
  pub local_storage-HasNames :
      (E : Env)
      → ((n : ℕ) → IsIdentifier (E.uuid n))
      → HasNames E
          (local_storage O base)
          (local_holds O cwd files base)
          (local_laws O cwd files base F)
  local_storage-HasNames E ids n =
      local_laws-IsName O cwd files base F (E.uuid n) (identifier-is_name (E.uuid n) (ids n))
