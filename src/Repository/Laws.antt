-- ===== src/Repository/Laws.antt =====
-- What each call leaves in the database, with every statement carried out or not.
use pot_play_storage.Prelude.{suc, ◌≡◌, ◌≢◌, inl, inr, Bytes, [], none, some, arith, Option-cases}
use pot_play_storage.Model.{Storage}
use pot_play_storage.Errors.{Error, ok, err}
use pot_play_storage.Environment.{Env}
use pot_play_storage.Database.{FileRow, find_storage, find_file, delete_file}
use pot_play_storage.Repository.{
  get_storage_by_hash, decrement_storage_ref, get_storage_hash_by_file_id, delete_by_id, get_by_id,
  read_by_id,
}
use pot_play_storage.Repository.Calls.{Repo, exec, at_uuid, cache_del, cached, file_key}
use pot_play_storage.Repository.Rows.{join_by_id, joined}

module _ (E : Env) where
  pub db-get_storage_by_hash :
      (hash : Bytes) (r : Repo) → (get_storage_by_hash E hash r).1.db ≡ r.db
  unfolding get_storage_by_hash
  db-get_storage_by_hash hash r = ground arith

  pub get_storage_by_hash_ok :
      (hash : Bytes) (r : Repo) (s : Storage)
      → (get_storage_by_hash E hash r).0 ≡ ok s
      → find_storage hash r.db.storage ≡ some s
  unfolding get_storage_by_hash
  get_storage_by_hash_ok hash r s e = ground arith

  pub get_storage_by_hash_up :
      (hash : Bytes) (r : Repo) (s : Storage)
      → E.db_fault r.statements ≡ none
      → find_storage hash r.db.storage ≡ some s
      → (get_storage_by_hash E hash r).0 ≡ ok s
  unfolding get_storage_by_hash
  get_storage_by_hash_up hash r s up there = ground arith

  pub db-get_storage_hash :
      (id : Bytes) (r : Repo) → (get_storage_hash_by_file_id E id r).1.db ≡ r.db
  unfolding get_storage_hash_by_file_id at_uuid
  db-get_storage_hash id r = ground arith

  -- A file with a hash gives that hash, if the statement is carried out.
  pub get_storage_hash_up :
      (id u : Bytes) (r : Repo) (f : FileRow)
      → E.db_fault r.statements ≡ none
      → E.read_uuid id ≡ some u
      → find_file u r.db.files ≡ some f
      → f.storage_hash ≢ []
      → (get_storage_hash_by_file_id E id r).0 ≡ ok f.storage_hash
  unfolding get_storage_hash_by_file_id at_uuid
  get_storage_hash_up id u r f up reads there named = ground arith

  -- No hash is found for a file that is not there.
  pub get_storage_hash_ok :
      (id : Bytes) (r : Repo) (hash : Bytes)
      → (get_storage_hash_by_file_id E id r).0 ≡ ok hash
      → (u : Bytes) × (f : FileRow) × (E.read_uuid id ≡ some u) × (find_file u r.db.files ≡ some f)
  unfolding get_storage_hash_by_file_id at_uuid
  get_storage_hash_ok id r hash e = elim (Option-cases (E.read_uuid id)) [
    | inl refused ↦ absurd (ground arith)
    | inr (u, reads) ↦ elim (Option-cases (find_file u r.db.files)) [
      | inl absent ↦ absurd (ground arith)
      | inr (f, there) ↦ (u, f, reads, there)
    ]
  ]

  pub db-get_by_id : (id : Bytes) (r : Repo) → (get_by_id E id r).1.db ≡ r.db
  unfolding get_by_id read_by_id at_uuid
  db-get_by_id id r = ground arith

  -- A file that the cache does not give is read from the joined tables.
  pub get_by_id_up :
      (id u : Bytes) (r : Repo) (f : FileRow) (s : Storage)
      → E.db_fault r.statements ≡ none
      → cached (file_key id) r.cache ≡ none
      → E.read_uuid id ≡ some u
      → find_file u r.db.files ≡ some f
      → find_storage f.storage_hash r.db.storage ≡ some s
      → (get_by_id E id r).0 ≡ ok (joined f s)
  unfolding get_by_id read_by_id join_by_id at_uuid
  get_by_id_up id u r f s up miss reads there stored = ground arith

  pub decrement_down :
      (hash : Bytes) (r : Repo) (e : Error)
      → E.db_fault r.statements ≡ some e
      → decrement_storage_ref E hash r ≡ (err e, record r { statements = suc r.statements })
  unfolding decrement_storage_ref
  decrement_down hash r e down = ground arith

  -- A file with a hash takes one statement.
  pub statements-get_storage_hash :
      (id u : Bytes) (r : Repo) (f : FileRow)
      → E.db_fault r.statements ≡ none
      → E.read_uuid id ≡ some u
      → find_file u r.db.files ≡ some f
      → f.storage_hash ≢ []
      → (get_storage_hash_by_file_id E id r).1.statements ≡ suc r.statements
  unfolding get_storage_hash_by_file_id at_uuid
  statements-get_storage_hash id u r f up reads there named = ground arith

  pub delete_by_id_up :
      (id u : Bytes) (r : Repo)
      → E.db_fault r.statements ≡ none
      → E.read_uuid id ≡ some u
      → ((delete_by_id E id r).0 ≡ ok tt)
        × ((delete_by_id E id r).1.db ≡ delete_file u r.db)
        × ((delete_by_id E id r).1.statements ≡ suc r.statements)
  unfolding delete_by_id cache_del exec at_uuid
  delete_by_id_up id u r up reads = (ground arith, ground arith, ground arith)
