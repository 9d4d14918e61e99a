-- ===== src/Repository/Statements.antt =====
-- What the statements of the repository that change a table do, and when they fail.
use pot_play_storage.Prelude.{
  ℕ, ◌≡◌, ◌⊎◌, inl, inr, Bytes, ◌∷◌, Option, none, some, true, false, arith, Bool-cases,
  Option-cases, ◌∙◌,
}
use pot_play_storage.Prelude.Int.{ℤ, inc, dec, is_zero}
use pot_play_storage.Model.{Storage, File}
use pot_play_storage.Errors.{Result-cases, Error, Result, ok, err}
use pot_play_storage.Environment.{Env}
use pot_play_storage.Database.{
  Db, invalid_uuid, find_storage, find_file, in_integer, references, insert_storage, update_count,
  remove_storage, insert_file, delete_file,
}
use pot_play_storage.Database.Counts.{IsFreePath, with_count}
use pot_play_storage.Database.Statements.{
  insert_storage-ok, insert_file-ok, insert_file_new, update_count_found, update_count_overflow,
  delete_unreferenced_counted, delete_unreferenced_last,
}
use pot_play_storage.Repository.{
  new_row, create_storage, increment_storage_ref, decrement_storage_ref, delete_storage,
  create_file_reference, delete_by_id, count_updated, count_returned,
}
use pot_play_storage.Repository.Calls.{Repo, exec, at_uuid, cache_del, no_result}

module _ (E : Env) where
  -- A call that failed has left the database as it was.
  abbrev pub Failed : {A : Type 0} → Result A × Repo → Repo → Type 0
  Failed out r = (e : Error) × (out.0 ≡ err e) × (out.1.db ≡ r.db)

  pub exec_cases :
      {A : Type 0} (statement : ℕ → Db → Result (A × Db)) (r : Repo)
      → ((a : A) × (db : Db) × (statement (E.timestamp r.statements) r.db ≡ ok (a, db))
          × ((exec E statement r).0 ≡ ok a)
          × ((exec E statement r).1.db ≡ db))
        ⊎ Failed (exec E statement r) r
  unfolding exec
  exec_cases statement r = elim (Option-cases (E.db_fault r.statements)) [
    | inr (e, down) ↦ inr (e, ground arith, ground arith)
    | inl up ↦ elim (Result-cases (statement (E.timestamp r.statements) r.db)) [
      | inl ((a, db), done) ↦ inl (a, db, done, ground arith, ground arith)
      | inr (e, refused) ↦ inr (e, ground arith, ground arith)
    ]
  ]

  -- A statement that is sent and accepted is carried out.
  pub exec_up :
      {A : Type 0} (statement : ℕ → Db → Result (A × Db)) (r : Repo) (a : A) (db : Db)
      → E.db_fault r.statements ≡ none
      → statement (E.timestamp r.statements) r.db ≡ ok (a, db)
      → ((exec E statement r).0 ≡ ok a) × ((exec E statement r).1.db ≡ db)
  unfolding exec
  exec_up statement r a db up done = ground arith

  pub create_storage_cases :
      (s : Storage) (r : Repo)
      → (((create_storage E s r).0 ≡ ok tt)
          × ((create_storage E s r).1.db ≡ record r.db { storage = s ∷ r.db.storage })
          × (find_storage s.hash r.db.storage ≡ none)
          × IsFreePath s.storage_path r.db)
        ⊎ Failed (create_storage E s r) r
  unfolding create_storage
  create_storage_cases s r = elim (exec_cases (λ now db. no_result (insert_storage s db)) r) [
    | inr failed ↦ inr failed
    | inl (u, db, done, res, left) ↦
        let (after, new, free) = insert_storage-ok s r.db db (ground arith) in
        inl (res, left ∙ after, new, free)
  ]

  pub create_file_reference_cases :
      (file : File) (r : Repo)
      → (((create_file_reference E file r).0 ≡ ok tt)
          × ((create_file_reference E file r).1.db
              ≡ record r.db { files = new_row E file ∷ r.db.files })
          × (find_file file.id r.db.files ≡ none)
          × ((s : Storage) × (find_storage file.storage_hash r.db.storage ≡ some s)))
        ⊎ Failed (create_file_reference E file r) r
  unfolding create_file_reference cache_del
  create_file_reference_cases file r =
      elim (exec_cases
        (λ now db. no_result (insert_file (some file.storage_hash) (new_row E file) db)) r) [
          | inr (e, res, left) ↦ inr (e, ground arith, ground arith)
          | inl (u, db, done, res, left) ↦
              let (after, new, there) = insert_file-ok (new_row E file) r.db db (ground arith) in
              inl (ground arith, ground arith, new, there)
        ]

  -- A file with a new identifier and a stored content is created, if the statement is carried out.
  pub create_file_reference_up :
      (file : File) (r : Repo) (s : Storage)
      → E.db_fault r.statements ≡ none
      → find_file file.id r.db.files ≡ none
      → find_storage file.storage_hash r.db.storage ≡ some s
      → ((create_file_reference E file r).0 ≡ ok tt)
        × ((create_file_reference E file r).1.db
            ≡ record r.db { files = new_row E file ∷ r.db.files })
  unfolding create_file_reference cache_del exec
  create_file_reference_up file r s up new there =
      ground (arith, insert_file_new (new_row E file) r.db s new there)

  module _ (hash : Bytes) (r : Repo) (s : Storage)
      (there : find_storage hash r.db.storage ≡ some s) where
    -- A count that changed has changed as asked.
    pub count_cases :
        (change : ℤ → ℤ) (now : ℕ) {n : Option ℤ} {db : Db}
        → update_count change hash now r.db ≡ ok (n, db)
        → (n ≡ some (change s.reference_count))
          × (db ≡ with_count hash (change s.reference_count) now r.db)
          × (in_integer (change s.reference_count) ≡ true)
    count_cases change now {n} {db} e = elim (Bool-cases (in_integer (change s.reference_count))) [
      | inl fits ↦ ground (arith, update_count_found change hash now r.db s)
      | inr over ↦ absurd (ground (arith, update_count_overflow change hash now r.db s))
    ]

    pub increment_cases :
        (((increment_storage_ref E hash r).0 ≡ ok tt)
          × ((now : ℕ) × ((increment_storage_ref E hash r).1.db
                ≡ with_count hash (inc s.reference_count) now r.db))
          × (in_integer (inc s.reference_count) ≡ true))
        ⊎ Failed (increment_storage_ref E hash r) r
    unfolding increment_storage_ref
    increment_cases =
        elim (exec_cases (λ now db. count_updated E (update_count inc hash now db)) r) [
          | inr failed ↦ inr failed
          | inl (u, db, done, res, left) ↦
              let (x, e) =
                counted (update_count inc hash (E.timestamp r.statements) r.db) db done in
              let (_, after, fits) = count_cases inc _ {n = x} {db = db} e in
              inl (res, (E.timestamp r.statements, left ∙ after), fits)
        ]
      where
        counted :
            (y : Result (Option ℤ × Db)) (db : Db)
            → count_updated E y ≡ ok (tt, db)
            → (n : Option ℤ) × (y ≡ ok (n, db))
        counted (ok (n, d)) db e = (n, ground arith)
        counted (err x) db e = absurd (ground arith)

    pub decrement_cases :
        (((decrement_storage_ref E hash r).0 ≡ ok (dec s.reference_count))
          × ((now : ℕ) × ((decrement_storage_ref E hash r).1.db
                ≡ with_count hash (dec s.reference_count) now r.db)))
        ⊎ Failed (decrement_storage_ref E hash r) r
    unfolding decrement_storage_ref
    decrement_cases =
        elim (exec_cases (λ now db. count_returned E (update_count dec hash now db)) r) [
          | inr failed ↦ inr failed
          | inl (n, db, done, res, left) ↦
              let e = counted (update_count dec hash (E.timestamp r.statements) r.db) n db done in
              let (same, after, fits) = count_cases dec _ {n = some n} {db = db} e in
              inl (ground arith, (E.timestamp r.statements, left ∙ after))
        ]
      where
        counted :
            (y : Result (Option ℤ × Db)) (n : ℤ) (db : Db)
            → count_returned E y ≡ ok (n, db)
            → y ≡ ok (some n, db)
        counted (ok (some m, d)) n db e = ground arith
        counted (ok (none, d)) n db e = absurd (ground arith)
        counted (err x) n db e = absurd (ground arith)

    pub decrement_up :
        E.db_fault r.statements ≡ none
        → in_integer (dec s.reference_count) ≡ true
        → ((decrement_storage_ref E hash r).0 ≡ ok (dec s.reference_count))
          × ((now : ℕ) × ((decrement_storage_ref E hash r).1.db
                ≡ with_count hash (dec s.reference_count) now r.db))
    unfolding decrement_storage_ref exec count_returned
    decrement_up up fits = (
      ground (arith, update_count_found dec hash (E.timestamp r.statements) r.db s),
      (
        E.timestamp r.statements,
        ground (arith, update_count_found dec hash (E.timestamp r.statements) r.db s),
      ),
    )

    -- A record whose count is not zero is not deleted.
    pub delete_storage_counted :
        is_zero s.reference_count ≡ false → (delete_storage E hash r).1.db ≡ r.db
    unfolding delete_storage exec
    delete_storage_counted some_left = ground (arith, delete_unreferenced_counted hash r.db s)

    pub delete_storage_last :
        E.db_fault r.statements ≡ none
        → is_zero s.reference_count ≡ true
        → references hash r.db.files ≡ 0
        → (delete_storage E hash r).1.db
          ≡ record r.db { storage = remove_storage hash r.db.storage }
    unfolding delete_storage exec
    delete_storage_last up zero_count free = ground (arith, delete_unreferenced_last hash r.db s)

  pub delete_by_id_cases :
      (id : Bytes) (r : Repo)
      → ((u : Bytes) × (E.read_uuid id ≡ some u)
          × ((delete_by_id E id r).0 ≡ ok tt)
          × ((delete_by_id E id r).1.db ≡ delete_file u r.db))
        ⊎ Failed (delete_by_id E id r) r
  unfolding delete_by_id cache_del exec at_uuid
  delete_by_id_cases id r = elim (Option-cases (E.db_fault r.statements)) [
    | inl up ↦ elim (Option-cases (E.read_uuid id)) [
      | inl refused ↦ inr (invalid_uuid, ground arith, ground arith)
      | inr (u, reads) ↦ inl (u, reads, ground arith, ground arith)
    ]
    | inr (e, down) ↦ inr (e, ground arith, ground arith)
  ]
