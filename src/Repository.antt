-- ===== src/Repository.antt =====
-- internal/repository/file.go: FileRepository over the database and the cache. A call takes the
-- repository's state to its result and the new state; the logger is left out.
pub mod Calls
pub mod Rows
pub mod Statements
pub mod Laws
pub mod Covered
pub mod Kept
pub mod Listing
use pot_play_storage.Prelude.{
  ℕ, suc, Bytes, codes, ◌++◌, List, [], ◌∷◌, Option, none, some, Bool, true, false, ◌==◌, leb, take,
  if◌then◌else◌,
}
use pot_play_storage.Prelude.Int.{ℤ, pos, inc, dec}
use pot_play_storage.Model.{Storage, File}
use pot_play_storage.Model.Encoding.{
  Json, marshal_file, marshal_files, unmarshal_file, unmarshal_files,
}
use pot_play_storage.Errors.{Error, external, Result, ok, err}
use pot_play_storage.Environment.{Env}
use pot_play_storage.Database.{
  FileRow, Db, no_rows, find_storage, find_file, insert_storage, update_count, delete_unreferenced,
  insert_file, delete_file,
}
use pot_play_storage.Repository.Rows.{
  joined, null_scan, legacy, join_all, join_by_id, newest_first, legacy_files, found,
  first_with_hash, first_with_checksum,
}
use pot_play_storage.Repository.Calls.{
  Repo, Call, cached, uncached, file_key, list_key, tick, settle, no_result, exec, query, at_uuid,
  cache_get, cache_set, cache_del,
}

module _ (E : Env) where
  unfoldable pub get_storage_by_hash : Bytes → Call Storage
  unfolding query found
  get_storage_by_hash hash = query E λ db. found (find_storage hash db.storage)

  unfoldable pub create_storage : Storage → Call (Unit {0})
  unfolding exec
  create_storage s = exec E λ now db. no_result (insert_storage s db)

  count_updated : Result (Option ℤ × Db) → Result (Unit {0} × Db)
  count_updated (err e) = err e
  count_updated (ok (n, db)) = ok (tt, db)

  -- An update of no row is no error.
  unfoldable pub increment_storage_ref : Bytes → Call (Unit {0})
  unfolding exec count_updated
  increment_storage_ref hash = exec E λ now db. count_updated (update_count inc hash now db)

  count_returned : Result (Option ℤ × Db) → Result (ℤ × Db)
  count_returned (err e) = err e
  count_returned (ok (none, db)) = err no_rows
  count_returned (ok (some n, db)) = ok (n, db)

  -- RETURNING reference_count: no row is an error of Scan.
  unfoldable pub decrement_storage_ref : Bytes → Call ℤ
  unfolding exec count_returned
  decrement_storage_ref hash = exec E λ now db. count_returned (update_count dec hash now db)

  unfoldable pub delete_storage : Bytes → Call (Unit {0})
  unfolding exec
  delete_storage hash = exec E λ now db. no_result (delete_unreferenced hash db)

  -- if err == nil { r.cache.Del(ctx, "file_list") }; return err
  invalidate_list : Result (Unit {0}) × Repo → Result (Unit {0}) × Repo
  unfolding cache_del
  invalidate_list (ok u, r) = (ok u, cache_del E list_key r)
  invalidate_list (err e, r) = (err e, r)

  -- The identifier of a file that is created comes from uuid.NewString, so it is the value's text.
  abbrev pub new_row : File → FileRow
  new_row file = record {
    id = file.id;
    name = file.name;
    storage_hash = file.storage_hash;
    created_at = file.created_at;
    size = none;
    content_type = none;
    storage_path = none;
    checksum = none;
  }

  unfoldable pub create_file_reference : File → Call (Unit {0})
  unfolding exec invalidate_list
  create_file_reference file r =
      invalidate_list
        (exec E (λ now db. no_result (insert_file (some file.storage_hash) (new_row file) db)) r)

  abbrev legacy_row : File → FileRow
  legacy_row file = record (new_row file) {
    size = some file.size;
    content_type = some file.content_type;
    storage_path = some file.storage_path;
    checksum = some file.checksum;
  }

  -- Without a hash the statement names no storage_hash.
  unfoldable pub create : File → Call (Unit {0})
  unfolding create_file_reference
  create file r =
      if file.storage_hash == []
      then invalidate_list (exec E (λ now db. no_result (insert_file none (legacy_row file) db)) r)
      else create_file_reference file r

  -- json.Unmarshal of what the cache gave.
  decoded : {A : Type 0} → (Json → Option A) → Option Json → Option A
  decoded unmarshal none = none
  decoded unmarshal (some j) = unmarshal j

  legacy_by_id : Bytes → Db → Result File
  unfolding legacy
  legacy_by_id id db = elim (find_file id db.files) [ none ↦ err no_rows | some f ↦ legacy f ]

  -- What is read is put into the cache.
  remember : Bytes → Result File × Repo → Result File × Repo
  unfolding cache_set
  remember id (err e, r) = (err e, r)
  remember id (ok file, r) = (ok file, cache_set E (file_key id) (marshal_file file) r)

  -- The second query, if the first one found no row or failed.
  or_legacy : Bytes → Result File × Repo → Result File × Repo
  unfolding query at_uuid legacy_by_id
  or_legacy id (ok file, r) = (ok file, r)
  or_legacy id (err e, r) = query E (λ db. at_uuid E id λ u. legacy_by_id u db) r

  unfoldable pub read_by_id : Bytes → Call File
  unfolding or_legacy remember query at_uuid found
  read_by_id id r =
      remember id (or_legacy id (query E (λ db. at_uuid E id λ u. found (join_by_id u db)) r))

  unfoldable pub get_by_id : Bytes → Call File
  unfolding cache_get decoded read_by_id
  get_by_id id r =
      let (val, r') = cache_get E (file_key id) r in
      elim (decoded unmarshal_file val) [ some file ↦ (ok file, r') | none ↦ read_by_id id r' ]

  first_joined : Bytes → Db → Option File
  first_joined hash db = elim (first_with_hash hash db.files) [
    | none ↦ none
    | some f ↦ elim (find_storage hash db.storage) [ none ↦ none | some s ↦ some (joined f s) ]
  ]

  unfoldable pub get_by_storage_hash : Bytes → Call File
  unfolding query found first_joined first_with_hash
  get_by_storage_hash hash = query E λ db. found (first_joined hash db)

  legacy_by_checksum : Bytes → Db → Result File
  unfolding legacy first_with_checksum
  legacy_by_checksum sum db = elim (first_with_checksum sum db.files) [
    | none ↦ err no_rows
    | some f ↦ legacy f
  ]

  unfoldable pub get_by_checksum : Bytes → Call File
  unfolding get_by_storage_hash legacy_by_checksum query
  get_by_checksum sum r =
      let (res, r') = get_by_storage_hash sum r in
      elim res [ ok file ↦ (ok file, r') | err e ↦ query E (legacy_by_checksum sum) r' ]

  hash_column : Bytes → Db → Result Bytes
  hash_column id db = elim (find_file id db.files) [
    | none ↦ err no_rows
    | some f ↦ ok f.storage_hash
  ]

  checksum_column : Bytes → Db → Result Bytes
  checksum_column id db = elim (find_file id db.files) [
    | none ↦ err no_rows
    | some f ↦ elim f.checksum [ none ↦ err null_scan | some c ↦ ok c ]
  ]

  -- err == nil && storageHash != ""
  is_hash : Result Bytes → Bool
  is_hash (err e) = false
  is_hash (ok h) = if h == [] then false else true

  unfoldable pub get_storage_hash_by_file_id : Bytes → Call Bytes
  unfolding query at_uuid hash_column checksum_column is_hash
  get_storage_hash_by_file_id id r =
      let (res, r') = query E (λ db. at_uuid E id λ u. hash_column u db) r in
      if is_hash res then (res, r') else query E (λ db. at_uuid E id λ u. checksum_column u db) r'

  -- Both keys are dropped, whether the statement failed or not.
  unfoldable pub delete_by_id : Bytes → Call (Unit {0})
  unfolding exec at_uuid cache_del
  delete_by_id id r =
      let (res, r') = exec E (λ now db. at_uuid E id λ u. ok (tt, delete_file u db)) r in
      (res, cache_del E list_key (cache_del E (file_key id) r'))

  -- The listing is put into the cache.
  remember_list : Result (List File) × Repo → Result (List File) × Repo
  unfolding cache_set
  remember_list (err e, r) = (err e, r)
  remember_list (ok files, r) = (ok files, cache_set E list_key (marshal_files files) r)

  unfoldable pub list_joined : Db → List File
  unfolding join_all newest_first
  list_joined db = newest_first (λ (f : File). f.created_at) (join_all db.files db.storage)

  -- for rows.Next() over the rows of a statement: it ends at an error too, and rows.Err() is not read.
  unfoldable pub rows_read : {A : Type 0} → ℕ → List A → List A
  rows_read n rows = elim (E.rows_cut n) [ none ↦ rows | some k ↦ take k rows ]

  list_legacy : ℕ → Db → Result (List File)
  unfolding legacy_files newest_first rows_read
  list_legacy n db =
      legacy_files (rows_read n (newest_first (λ (f : FileRow). f.created_at) db.files))

  unfoldable pub read_list : Call (List File)
  unfolding remember_list query list_joined list_legacy rows_read
  read_list r =
      let (res, r') = query E (λ db. ok (rows_read r.statements (list_joined db))) r in
      remember_list
        (elim res [ ok files ↦ (ok files, r') | err e ↦ query E (list_legacy r'.statements) r' ])

  unfoldable pub list : Call (List File)
  unfolding cache_get decoded read_list
  list r =
      let (val, r') = cache_get E list_key r in
      elim (decoded unmarshal_files val) [ some files ↦ (ok files, r') | none ↦ read_list r' ]
