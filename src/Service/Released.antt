-- ===== src/Service/Released.antt =====
-- What a release of a content and a deletion leave in the tables and the store.
use pot_play_storage.Prelude.{
  ℕ, zero, suc, ◌≡◌, ◌<◌, refl, ap, ◌∙◌, ◌⊎◌, inl, inr, Bytes, some, true, arith,
}
use pot_play_storage.Prelude.Int.{pos, dec, is_zero}
use pot_play_storage.Model.{Storage}
use pot_play_storage.Errors.{Error, Result, ok, err}
use pot_play_storage.Environment.{Env, IsUp}
use pot_play_storage.Database.{
  FileRow, Db, references, find_storage, find_file, in_integer, recount, replace_storage,
  remove_storage, remove_file,
}
use pot_play_storage.Database.Laws.{find_storage-replace}
use pot_play_storage.Database.Counts.{with_count}
use pot_play_storage.Database.Removals.{without_reference, without_content}
use pot_play_storage.Backend.{StorageBackend}
use pot_play_storage.Repository.{get_storage_by_hash, decrement_storage_ref}
use pot_play_storage.Repository.Laws.{db-get_storage_by_hash, get_storage_by_hash_up}
use pot_play_storage.Repository.Statements.{decrement_up, delete_storage_last}
use pot_play_storage.Service.{World, clean_up, release}

-- What is left after the last reference has gone.
module _ (E : Env) (S : StorageBackend) (up : IsUp E) where
  clean_up_lem :
      (hash : Bytes) (w : World S) (s : Storage)
      → find_storage hash w.repo.db.storage ≡ some s
      → is_zero s.reference_count ≡ true
      → references hash w.repo.db.files ≡ 0
      → ((clean_up E S hash w).repo.db
          ≡ record w.repo.db { storage = remove_storage hash w.repo.db.storage })
        × ((clean_up E S hash w).blobs ≡ (S.delete s.storage_path w.blobs).1)
  unfolding clean_up
  clean_up_lem hash w s there last unused =
      let r = (get_storage_by_hash E hash w.repo).1 in
      let same = db-get_storage_by_hash E hash w.repo in
      (
        ground (
          arith,
          get_storage_by_hash_up E hash w.repo s (up w.repo.statements) there,
          same,
          delete_storage_last E hash r s (ap (λ (d : Db). find_storage hash d.storage) same ∙ there)
              (up r.statements) last (ap (λ (d : Db). references hash d.files) same ∙ unused),
        ),
        ground (arith, get_storage_by_hash_up E hash w.repo s (up w.repo.statements) there),
      )

  -- The count falls by one, and the content goes with the last reference.
  pub release_cases :
      (hash : Bytes) (w : World S) (s : Storage) (n : ℕ)
      → find_storage hash w.repo.db.storage ≡ some s
      → dec s.reference_count ≡ pos n
      → in_integer (dec s.reference_count) ≡ true
      → references hash w.repo.db.files ≡ n
      → (now : ℕ) × (((0 < n)
            × ((release E S hash w).repo.db ≡ with_count hash (dec s.reference_count) now w.repo.db)
            × ((release E S hash w).blobs ≡ w.blobs))
          ⊎ ((n ≡ 0)
              × ((release E S hash w).repo.db ≡ record w.repo.db {
                storage =
                    remove_storage hash
                      (replace_storage hash (dec s.reference_count) now w.repo.db.storage);
              })
              × ((release E S hash w).blobs ≡ (S.delete s.storage_path w.blobs).1)))
  unfolding release
  release_cases hash w s (suc n) there down fits count =
      let (res, (now, left)) = decrement_up E hash w.repo s there (up w.repo.statements) fits in
      (now, inl (omega arith, ground arith, ground arith))
  release_cases hash w s zero there down fits count =
      let (res, (now, left)) = decrement_up E hash w.repo s there (up w.repo.statements) fits in
      let w' : World S = record w { repo = (decrement_storage_ref E hash w.repo).1 } in
      let (db, blobs) =
        clean_up_lem hash w' (recount (dec s.reference_count) now s)
          (ground
            (arith, find_storage-replace hash hash (dec s.reference_count) now w.repo.db.storage))
          (ground arith) (ground arith) in
      (now, inr (refl, ground arith, ground arith))

-- What a successful deletion of a file has done: its row is gone, and its content's record has one
-- reference less, or is gone with the bytes if that was the last.
module _ (E : Env) (S : StorageBackend) where
  pub record Removed (id : Bytes) (w out : World S) : Type 0 where
    pub file : FileRow
    pub record_of : Storage
    pub now : ℕ
    pub same_id : file.id ≡ id
    pub there : find_file file.id w.repo.db.files ≡ some file
    pub stored : find_storage file.storage_hash w.repo.db.storage ≡ some record_of
    pub left :
        ((0 < references file.storage_hash (remove_file file.id w.repo.db.files))
          × (out.repo.db ≡ without_reference file record_of now w.repo.db)
          × (out.blobs ≡ w.blobs))
        ⊎ ((references file.storage_hash (remove_file file.id w.repo.db.files) ≡ 0)
            × (out.repo.db ≡ without_content file record_of now w.repo.db)
            × (out.blobs ≡ (S.delete record_of.storage_path w.blobs).1))

  -- A deletion that succeeded has removed the file whose identifier the text spells. One that failed
  -- has left the tables and the store alone.
  abbrev pub DeleteOutcome : (id : Bytes) → World S → Result (Unit {0}) × World S → Type 0
  DeleteOutcome id w out =
      ((out.0 ≡ ok tt) × ((u : Bytes) × (E.read_uuid id ≡ some u) × Removed u w out.1))
      ⊎ ((e : Error) × (out.0 ≡ err e) × (out.1.repo.db ≡ w.repo.db) × (out.1.blobs ≡ w.blobs))
