-- ===== src/Service/Runs.antt =====
-- Sequences of calls: the worlds that clients can reach, one call after the other.
use pot_play_storage.Prelude.{
  ℕ, ◌+◌, ◌≤◌, ◌≡◌, sym, Bytes, [], Option, some, arith, Option-cases, inl, inr,
}
use mathlib.Core.Path.{subst}
use pot_play_storage.Prelude.Int.{pos}
use pot_play_storage.Model.{Storage, FileHeader}
use pot_play_storage.Environment.{Env}
use pot_play_storage.Database.{FileRow, Db, find_storage, find_file, references}
use pot_play_storage.Database.Laws.{references-pos}
use pot_play_storage.Database.Covered.{Counts}
use pot_play_storage.Backend.{StorageBackend}
use pot_play_storage.Repository.{list, read_list}
use pot_play_storage.Repository.Laws.{db-get_by_id}
use pot_play_storage.Repository.Covered.{IsSound}
use pot_play_storage.Service.{World, upload, download, delete, list_files}
use pot_play_storage.Service.Sound.{upload-IsSound, delete-IsSound}

module _ (E : Env) (S : StorageBackend) where
  -- `Runs w v`: some calls take the world w to the world v.
  pub data Runs (w : World S) : World S → Type 0 where
    stop : Runs w w
    upload_next :
        (content : Bytes) (header : FileHeader) (v : World S)
        → Runs w v
        → Runs w (upload E S content header v).1
    download_next : (id : Bytes) (v : World S) → Runs w v → Runs w (download E S id v).1
    delete_next : (id : Bytes) (v : World S) → Runs w v → Runs w (delete E S id v).1
    list_next : (v : World S) → Runs w v → Runs w (list_files E S v).1

  pub db-download : (id : Bytes) (w : World S) → (download E S id w).1.repo.db ≡ w.repo.db
  unfolding download
  db-download id w = ground (arith, db-get_by_id E id w.repo)

  pub db-list_files : (w : World S) → (list_files E S w).1.repo.db ≡ w.repo.db
  unfolding list_files list read_list
  db-list_files w = ground arith

  run-IsSound : (w v : World S) → Runs w v → IsSound w.repo.db → IsSound v.repo.db
  run-IsSound w _ stop c = c
  run-IsSound w _ (upload_next content header v r) c =
      upload-IsSound E S content header v (run-IsSound w v r c)
  run-IsSound w _ (download_next id v r) c =
      subst IsSound (sym (db-download id v)) (run-IsSound w v r c)
  run-IsSound w _ (delete_next id v r) c = delete-IsSound E S id v (run-IsSound w v r c)
  run-IsSound w _ (list_next v r) c = subst IsSound (sym (db-list_files v)) (run-IsSound w v r c)

  empty-IsSound : IsSound (record { storage = []; files = [] })
  unfolding find_file find_storage references Counts
  empty-IsSound = record { new_rows = λ j f e. absurd (ground arith); covered = λ h. ground arith }

  row_counted :
      (db : Db) (j : Bytes) (f : FileRow)
      → IsSound db
      → find_file j db.files ≡ some f
      → (s : Storage) × (n : ℕ) × (find_storage f.storage_hash db.storage ≡ some s)
        × (s.reference_count ≡ pos n)
        × (references f.storage_hash db.files ≤ n)
  unfolding Counts
  row_counted db j f c there = elim (Option-cases (find_storage f.storage_hash db.storage)) [
    | inl absent ↦
        absurd (ground (arith, c.covered f.storage_hash, references-pos j db.files {f = f} there))
    | inr (s, stored) ↦
        let (n, single, enough) =
          subst (λ (o : Option Storage). Counts o (references f.storage_hash db.files + 0)) stored
            (c.covered f.storage_hash) in
        (s, n, stored, single, omega arith)
  ]

  -- In every world that uploads, downloads, deletions and listings reach from empty tables, each
  -- file has the row of its content, and the row counts at least as many references as there are
  -- files of that content. This is so whatever statements, cache calls and store calls fail, for
  -- every store, whatever it does, and for every sequence of identifiers.
  pub run_keeps_contents :
      (w v : World S)
      → Runs w v
      → w.repo.db ≡ record { storage = []; files = [] }
      → (j : Bytes) (f : FileRow) → find_file j v.repo.db.files ≡ some f
      → (s : Storage) × (n : ℕ) × (find_storage f.storage_hash v.repo.db.storage ≡ some s)
        × (s.reference_count ≡ pos n)
        × (references f.storage_hash v.repo.db.files ≤ n)
  run_keeps_contents w v r empty j f there =
      row_counted v.repo.db j f (run-IsSound w v r (subst IsSound (sym empty) empty-IsSound)) there
