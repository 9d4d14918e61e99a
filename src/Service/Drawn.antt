-- ===== src/Service/Drawn.antt =====
-- Identifiers in the tables that have been drawn.
use mathlib.Core.Path.{subst}
use pot_play_storage.Prelude.{
  ℕ, ◌<◌, ◌≤◌, ◌≡◌, sym, ◌∙◌, inl, inr, Bytes, some, arith, Bool-cases, ◌==◌,
}
use pot_play_storage.Model.{Storage, File}
use pot_play_storage.Environment.{Env}
use pot_play_storage.Database.{FileRow, Db, find_storage, find_file}
use pot_play_storage.Repository.{create_storage, create_file_reference}
use pot_play_storage.Repository.Calls.{Repo}
use pot_play_storage.Repository.Statements.{create_storage_cases, create_file_reference_cases}
use pot_play_storage.Repository.Kept.{IsKept}

module _ (E : Env) where
  -- One of the first k identifiers.
  abbrev pub IsDrawn : ℕ → Bytes → Type 0
  IsDrawn k b = (n : ℕ) × (n < k) × (b ≡ E.uuid n)

  pub record IsIssued (k : ℕ) (db : Db) : Type 0 where
    pub paths :
        (h : Bytes) (s : Storage) → find_storage h db.storage ≡ some s → IsDrawn k s.storage_path
    pub ids : (j : Bytes) (f : FileRow) → find_file j db.files ≡ some f → IsDrawn k j

  pub IsDrawn-later : (k m : ℕ) (b : Bytes) → k ≤ m → IsDrawn k b → IsDrawn m b
  IsDrawn-later k m b le (n, l, e) = (n, omega arith, e)

  pub IsIssued-later : (k m : ℕ) (db : Db) → k ≤ m → IsIssued k db → IsIssued m db
  IsIssued-later k m db le c = record {
    paths = λ h s e. IsDrawn-later k m s.storage_path le (c.paths h s e);
    ids = λ j f e. IsDrawn-later k m j le (c.ids j f e);
  }

  pub kept-IsIssued : (k : ℕ) (db db' : Db) → IsKept db db' → IsIssued k db → IsIssued k db'
  kept-IsIssued k db db' kept c = record {
    paths = λ h s e.
        let (old, was, same) = kept.rows h s e in
        let (n, l, drawn) = c.paths h old was in (n, l, sym same ∙ drawn);
    ids = λ j f e. c.ids j f (kept.files j f e);
  }

  pub create_storage-IsIssued :
      (k : ℕ) (s : Storage) (r : Repo)
      → IsDrawn k s.storage_path
      → IsIssued k r.db
      → IsIssued k (create_storage E s r).1.db
  unfolding find_storage
  create_storage-IsIssued k s r (n, l, drawn) c = elim (create_storage_cases E s r) [
    | inr (_, _, left) ↦ subst (IsIssued k) (sym left) c
    | inl (_, left, _, _) ↦ subst (IsIssued k) (sym left) (record {
      paths = λ h t e. elim (Bool-cases (s.hash == h)) [
        | inl same ↦ (n, l, ground arith)
        | inr other ↦ c.paths h t (ground arith)
      ];
      ids = c.ids;
    })
  ]

  pub create_file-IsIssued :
      (k : ℕ) (file : File) (r : Repo)
      → IsDrawn k file.id
      → IsIssued k r.db
      → IsIssued k (create_file_reference E file r).1.db
  unfolding find_file
  create_file-IsIssued k file r (n, l, drawn) c = elim (create_file_reference_cases E file r) [
    | inr (_, _, left) ↦ subst (IsIssued k) (sym left) c
    | inl (_, left, _, _) ↦ subst (IsIssued k) (sym left) (record {
      paths = c.paths;
      ids = λ j f e. elim (Bool-cases (file.id == j)) [
        | inl same ↦ (n, l, ground arith)
        | inr other ↦ c.ids j f (ground arith)
      ];
    })
  ]
