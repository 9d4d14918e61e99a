-- ===== src/Service/Outcomes.antt =====
-- What the parts of an upload leave, when every statement is carried out: all of it, or nothing.
use pot_play_storage.Prelude.{ℕ, suc, ◌≡◌, ◌⊎◌, inl, inr, Bytes, ◌∷◌, none, some, true, arith}
use pot_play_storage.Prelude.Int.{ℤ, inc}
use pot_play_storage.Model.{Storage, File, FileHeader}
use pot_play_storage.Errors.{Error, ok, err}
use pot_play_storage.Environment.{Env, IsUp}
use pot_play_storage.Database.{find_storage, find_file, in_integer, recount}
use pot_play_storage.Database.Laws.{find_storage-replace}
use pot_play_storage.Database.Counts.{IsFreePath, with_content, with_reference}
use pot_play_storage.Backend.{StorageBackend}
use pot_play_storage.Repository.{create_storage, increment_storage_ref, new_row}
use pot_play_storage.Repository.Statements.{
  create_storage_cases, create_file_reference_up, increment_cases,
}
use pot_play_storage.Service.{
  World, reference_to, storage_record, finish_reference, add_reference, finish_content, add_content,
}

module _ (E : Env) (S : StorageBackend) (up : IsUp E) where
  finish_reference_lem :
      (file : File) (sum : Bytes) (w : World S) (s : Storage)
      → find_storage file.storage_hash w.repo.db.storage ≡ some s
      → find_file file.id w.repo.db.files ≡ none
      → ((finish_reference E S file sum w).0 ≡ ok file)
        × ((finish_reference E S file sum w).1.repo.db
            ≡ record w.repo.db { files = new_row E file ∷ w.repo.db.files })
        × ((finish_reference E S file sum w).1.blobs ≡ w.blobs)
  unfolding finish_reference
  finish_reference_lem file sum w s stored fresh =
      let (res, left) =
        create_file_reference_up E file w.repo s (up w.repo.statements) fresh stored in
      (ground arith, ground arith, ground arith)

  finish_content_lem :
      (file : File) (sum path : Bytes) (w : World S) (s : Storage)
      → find_storage file.storage_hash w.repo.db.storage ≡ some s
      → find_file file.id w.repo.db.files ≡ none
      → ((finish_content E S file sum path w).0 ≡ ok file)
        × ((finish_content E S file sum path w).1.repo.db
            ≡ record w.repo.db { files = new_row E file ∷ w.repo.db.files })
        × ((finish_content E S file sum path w).1.blobs ≡ w.blobs)
  unfolding finish_content
  finish_content_lem file sum path w s stored fresh =
      let (res, left) =
        create_file_reference_up E file w.repo s (up w.repo.statements) fresh stored in
      (ground arith, ground arith, ground arith)

  -- The file that an upload of new content makes, and the row of it.
  abbrev pub content_record : Bytes → Bytes → ℤ → FileHeader → World S → Storage
  content_record path sum size header w = storage_record E S sum size header path (E.now w.instants)

  abbrev pub content_file : Bytes → Bytes → ℤ → FileHeader → World S → File
  content_file path sum size header w =
      reference_to E S (content_record path sum size header w) (E.uuid w.uuids) (E.now w.instants)
        header sum

  -- The content is stored for a new file, or nothing is and the bytes are deleted again.
  pub add_content_cases :
      (path sum : Bytes) (size : ℤ) (header : FileHeader) (w : World S)
      → find_file (E.uuid w.uuids) w.repo.db.files ≡ none
      → (let out = add_content E S path sum size header w in
          let s = content_record path sum size header w in
          let file = content_file path sum size header w in
          ((out.0 ≡ ok file)
            × (out.1.repo.db ≡ with_content s (new_row E file) w.repo.db)
            × (out.1.blobs ≡ w.blobs)
            × (find_storage sum w.repo.db.storage ≡ none)
            × IsFreePath path w.repo.db)
          ⊎ ((e : Error) × (out.0 ≡ err e)
              × (out.1.repo.db ≡ w.repo.db)
              × (out.1.blobs ≡ (S.delete path w.blobs).1)))
  unfolding add_content find_storage
  add_content_cases path sum size header w fresh =
      elim (create_storage_cases E (content_record path sum size header w) w.repo) [
        | inr (e, res, left) ↦ inr (e, ground arith, ground arith, ground arith)
        | inl (res, left, new, free) ↦
            let s = content_record path sum size header w in
            let file = content_file path sum size header w in
            let w' : World S = record w {
              repo = (create_storage E s w.repo).1;
              uuids = suc w.uuids;
              instants = suc w.instants;
            } in
            let (done, after, kept) =
              finish_content_lem file sum path w' s (ground arith) (ground arith) in
            inl (ground arith, ground arith, ground arith, new, free)
      ]

  pub add_reference_cases :
      (path sum : Bytes) (existing : Storage) (header : FileHeader) (w : World S)
      → find_file (E.uuid w.uuids) w.repo.db.files ≡ none
      → find_storage sum w.repo.db.storage ≡ some existing
      → (let out = add_reference E S path sum existing header w in
          let file = reference_to E S existing (E.uuid w.uuids) (E.now w.instants) header sum in
          ((out.0 ≡ ok file)
            × ((now : ℕ) × (out.1.repo.db ≡ with_reference existing now (new_row E file) w.repo.db))
            × (out.1.blobs ≡ (S.delete path w.blobs).1)
            × (in_integer (inc existing.reference_count) ≡ true))
          ⊎ ((e : Error) × (out.0 ≡ err e)
              × (out.1.repo.db ≡ w.repo.db)
              × (out.1.blobs ≡ (S.delete path w.blobs).1)))
  unfolding add_reference find_storage
  add_reference_cases path sum existing header w fresh stored =
      elim (increment_cases E sum w.repo existing stored) [
        | inr (e, res, left) ↦ inr (e, ground arith, ground arith, ground arith)
        | inl (res, (now, left), in_range) ↦
            let file = reference_to E S existing (E.uuid w.uuids) (E.now w.instants) header sum in
            let w' : World S = record w {
              repo = (increment_storage_ref E sum w.repo).1;
              blobs = (S.delete path w.blobs).1;
              uuids = suc w.uuids;
              instants = suc w.instants;
            } in
            let (done, after, kept) =
              finish_reference_lem file sum w' (recount (inc existing.reference_count) now existing)
                (ground (
                  arith,
                  find_storage-replace sum sum (inc existing.reference_count) now w.repo.db.storage,
                ))
                (ground arith) in
            inl (ground arith, (now, ground arith), ground arith, in_range)
      ]
