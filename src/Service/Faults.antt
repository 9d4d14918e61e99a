-- ===== src/Service/Faults.antt =====
-- What failing statements leave behind: two ways to lose a content.
use pot_play_storage.Prelude.{
  suc, ◌≡◌, ◌≢◌, ap, ◌∙◌, inl, inr, Bytes, [], Option, none, some, arith, false,
}
use pot_play_storage.Prelude.Int.{pos, is_zero}
use pot_play_storage.Model.{Storage, File}
use pot_play_storage.Errors.{Error, ok, err}
use pot_play_storage.Environment.{Env}
use pot_play_storage.Database.{FileRow, Db, find_storage, find_file, delete_file}
use pot_play_storage.Database.Laws.{find_file-remove}
use pot_play_storage.Backend.{StorageBackend, IsLawful}
use pot_play_storage.Repository.{
  create_file_reference, get_storage_by_hash, get_storage_hash_by_file_id, delete_by_id,
}
use pot_play_storage.Repository.Laws.{
  get_storage_by_hash_up, db-get_storage_by_hash, decrement_down, statements-get_storage_hash,
  delete_by_id_up, get_storage_hash_up, db-get_storage_hash,
}
use pot_play_storage.Repository.Statements.{create_file_reference_cases, delete_storage_counted}
use pot_play_storage.Service.{World, finish_content, clean_up, release, delete}
use pot_play_storage.Service.State.{content_of}

module _ (E : Env) (S : StorageBackend) (holds : S.State → Bytes → Option Bytes)
    (L : IsLawful S holds) where
  -- If the file of a new content, whose row is there with the count one, cannot be created, the
  -- row stays, for only rows with the count zero are deleted, and the bytes under its path go.
  -- This is so in every schedule of faults in which the store, which is lawful and has the path as
  -- a name, carries out the Delete.
  pub finish_content_dangling :
      (file : File) (sum : Bytes) (w : World S) (s : Storage) (e : Error)
      → find_storage sum w.repo.db.storage ≡ some s
      → s.reference_count ≡ pos 1
      → L.IsName s.storage_path
      → (create_file_reference E file w.repo).0 ≡ err e
      → (S.delete s.storage_path w.blobs).0 ≡ ok tt
      → (let out = finish_content E S file sum s.storage_path w in
          (out.0 ≡ err e)
          × (find_storage sum out.1.repo.db.storage ≡ some s)
          × (holds out.1.blobs s.storage_path ≡ none))
  unfolding finish_content
  finish_content_dangling file sum w s e there one named failed deleted =
      elim (create_file_reference_cases E file w.repo) [
        | inl (res, _, _, _) ↦ absurd (ground arith)
        | inr (e', res, left) ↦
            let r = (create_file_reference E file w.repo).1 in
            let still = ap (λ (d : Db). find_storage sum d.storage) left ∙ there in
            let kept = delete_storage_counted E sum r s still (ground arith) in
            (
              ground arith,
              ground arith,
              ground (arith, L.delete_ok s.storage_path w.blobs named deleted),
            )
      ]

module _ (E : Env) (S : StorageBackend) where
  -- The clean-up of a content that is still counted deletes its bytes alone.
  clean_up_counted :
      (hash : Bytes) (w : World S) (s : Storage)
      → find_storage hash w.repo.db.storage ≡ some s
      → is_zero s.reference_count ≡ false
      → E.db_fault w.repo.statements ≡ none
      → ((clean_up E S hash w).repo.db ≡ w.repo.db)
        × ((clean_up E S hash w).blobs ≡ (S.delete s.storage_path w.blobs).1)
  unfolding clean_up
  clean_up_counted hash w s there counted up =
      let r = (get_storage_by_hash E hash w.repo).1 in
      let same = db-get_storage_by_hash E hash w.repo in
      let found = get_storage_by_hash_up E hash w.repo s up there in
      (
        ground (
          arith,
          found,
          same,
          delete_storage_counted E hash r s
              (ap (λ (d : Db). find_storage hash d.storage) same ∙ there) counted,
        ),
        ground (arith, found),
      )

  release_failed :
      (hash : Bytes) (w : World S) (s : Storage) (e : Error)
      → find_storage hash w.repo.db.storage ≡ some s
      → is_zero s.reference_count ≡ false
      → E.db_fault w.repo.statements ≡ some e
      → E.db_fault (suc w.repo.statements) ≡ none
      → ((release E S hash w).repo.db ≡ w.repo.db)
        × ((release E S hash w).blobs ≡ (S.delete s.storage_path w.blobs).1)
  unfolding release
  release_failed hash w s e there counted down up =
      let failed = decrement_down E hash w.repo e down in
      let w' : World S = record w { repo = record w.repo { statements = suc w.repo.statements } } in
      let (db, blobs) = clean_up_counted hash w' s there counted up in (ground arith, ground arith)

  delete_failed :
      (w : World S) (f : FileRow) (id u : Bytes) (s : Storage) (e : Error)
      → E.read_uuid id ≡ some u
      → find_file u w.repo.db.files ≡ some f
      → f.storage_hash ≢ []
      → find_storage f.storage_hash w.repo.db.storage ≡ some s
      → is_zero s.reference_count ≡ false
      → E.db_fault w.repo.statements ≡ none
      → E.db_fault (suc w.repo.statements) ≡ none
      → E.db_fault (suc (suc w.repo.statements)) ≡ some e
      → E.db_fault (suc (suc (suc w.repo.statements))) ≡ none
      → ((delete E S id w).0 ≡ ok tt)
        × ((delete E S id w).1.repo.db ≡ delete_file u w.repo.db)
        × ((delete E S id w).1.blobs ≡ (S.delete s.storage_path w.blobs).1)
  unfolding delete delete_file
  delete_failed w f id u s e reads there named stored counted up up1 down up3 =
      let r1 = (get_storage_hash_by_file_id E id w.repo).1 in
      let hash = get_storage_hash_up E id u w.repo f up reads there named in
      let same = db-get_storage_hash E id w.repo in
      let one = statements-get_storage_hash E id u w.repo f up reads there named in
      let (gone, after, two) = delete_by_id_up E id u r1 (ap E.db_fault one ∙ up1) reads in
      let w2 : World S = record w { repo = (delete_by_id E id r1).1 } in
      let count : w2.repo.statements ≡ suc (suc w.repo.statements) = two ∙ ap suc one in
      let tables : w2.repo.db ≡ delete_file u w.repo.db = after ∙ ap (delete_file u) same in
      let (db, blobs) =
        release_failed f.storage_hash w2 s e
          (ap (λ (d : Db). find_storage f.storage_hash d.storage) tables ∙ stored) counted
          (ap E.db_fault count ∙ down) (ap E.db_fault (ap suc count) ∙ up3) in
      (ground arith, ground arith, ground arith)

module _ (E : Env) (S : StorageBackend) (holds : S.State → Bytes → Option Bytes)
    (L : IsLawful S holds) where
  -- If two files have one content, whose row has a count other than zero and a hash that is not
  -- empty, and of the statements of a deletion of the first, by a text that spells its identifier, the decrement fails while the one
  -- before it, the first one and the one after it do not, the row's path is a name of the lawful
  -- store, and the store carries out its Delete, then the deletion reports success, the second
  -- file keeps its row and loses its content: the failed decrement is taken for a count of zero,
  -- and the shared bytes are deleted.
  pub delete_loses :
      (w : World S) (f g : FileRow) (id u j : Bytes) (s : Storage) (e : Error)
      → E.read_uuid id ≡ some u
      → find_file u w.repo.db.files ≡ some f
      → find_file j w.repo.db.files ≡ some g
      → u ≢ j
      → g.storage_hash ≡ f.storage_hash
      → f.storage_hash ≢ []
      → find_storage f.storage_hash w.repo.db.storage ≡ some s
      → is_zero s.reference_count ≡ false
      → L.IsName s.storage_path
      → (S.delete s.storage_path w.blobs).0 ≡ ok tt
      → E.db_fault w.repo.statements ≡ none
      → E.db_fault (suc w.repo.statements) ≡ none
      → E.db_fault (suc (suc w.repo.statements)) ≡ some e
      → E.db_fault (suc (suc (suc w.repo.statements))) ≡ none
      → ((delete E S id w).0 ≡ ok tt)
        × (find_file j (delete E S id w).1.repo.db.files ≡ some g)
        × (content_of E S holds (delete E S id w).1 j ≡ none)
  unfolding content_of delete_file
  delete_loses w f g id u j s e reads there other differ same named stored counted name deleted up
        up1 down up3 =
      let (done, db, blobs) =
        delete_failed E S w f id u s e reads there named stored counted up up1 down up3 in
      let left = find_file-remove u j w.repo.db.files in
      (
        done,
        ground (arith, left),
        ground (arith, left, L.delete_ok s.storage_path w.blobs name deleted),
      )
