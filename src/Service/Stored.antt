-- ===== src/Service/Stored.antt =====
-- What a successful upload has done: it stored a new content, or referred to one that was there.
use mathlib.Core.Path.{subst}
use pot_play_storage.Prelude.{
  ℕ, suc, ◌≡◌, sym, ap, ◌∙◌, ◌⊎◌, inl, inr, Bytes, none, some, arith, Option-cases,
}
use pot_play_storage.Prelude.Int.{ℤ}
use pot_play_storage.Model.{Storage, File, FileHeader}
use pot_play_storage.Errors.{Result-cases, Result, ok}
use pot_play_storage.Environment.{Env, IsUp}
use pot_play_storage.Database.{Db, find_storage, find_file}
use pot_play_storage.Database.Counts.{with_content, with_reference}
use pot_play_storage.Validator.{validate_file}
use pot_play_storage.Backend.{StorageBackend}
use pot_play_storage.Repository.{get_storage_by_hash, new_row}
use pot_play_storage.Repository.Laws.{db-get_storage_by_hash, get_storage_by_hash_ok}
use pot_play_storage.Service.{
  World, storage_record, reference_to, add_reference, add_content, deduplicate, store_content,
  upload,
}
use pot_play_storage.Service.Outcomes.{
  add_content_cases, add_reference_cases, content_record, content_file,
}

module _ (E : Env) (S : StorageBackend) where
  -- The tables and the store after a new content has been stored.
  pub record StoredNew (path content : Bytes) (header : FileHeader) (db : Db) (blobs : S.State)
      (file : File) (out : World S) : Type 0 where
    pub size : ℤ
    pub now : ℕ
    pub tables :
        out.repo.db
        ≡ with_content
            (storage_record E S (E.checksum content) size header path now)
            (new_row E file)
            db
    pub bytes : out.blobs ≡ blobs
    pub is_new : find_storage (E.checksum content) db.storage ≡ none
    pub hash : file.storage_hash ≡ E.checksum content

  -- The tables and the store after a file has been added to a content that was stored.
  pub record StoredAgain (path content : Bytes) (header : FileHeader) (db : Db) (blobs : S.State)
      (file : File) (out : World S) : Type 0 where
    pub existing : Storage
    pub now : ℕ
    pub tables : out.repo.db ≡ with_reference existing now (new_row E file) db
    pub bytes : out.blobs ≡ (S.delete path blobs).1
    pub is_stored : find_storage (E.checksum content) db.storage ≡ some existing
    pub hash : file.storage_hash ≡ E.checksum content

  abbrev pub StoredFile :
      (path content : Bytes) → FileHeader → Db → S.State → File → World S → Type 0
  StoredFile path content header db blobs file out =
      (StoredNew path content header db blobs file out
        ⊎ StoredAgain path content header db blobs file out)

module _ (E : Env) (S : StorageBackend) (up : IsUp E) where
  abbrev Outcome :
      (path content : Bytes) → FileHeader → World S → File → Result File × World S → Type 0
  Outcome path content header w file out =
      (file.id ≡ E.uuid w.uuids)
      × (file.name ≡ header.name)
      × StoredFile E S path content header w.repo.db w.blobs file out.1

  module _ (path content : Bytes) (header : FileHeader) (w : World S) (file : File)
      (fresh : find_file (E.uuid w.uuids) w.repo.db.files ≡ none) where
    abbrev sum : Bytes
    sum = E.checksum content

    add_content_ok :
        (size : ℤ)
        → (add_content E S path sum size header w).0 ≡ ok file
        → Outcome path content header w file (add_content E S path sum size header w)
    add_content_ok size done = elim (add_content_cases E S up path sum size header w fresh) [
      | inr (e, failed, _, _) ↦ absurd (ground arith)
      | inl (res, db, blobs, absent, _) ↦
          let made = content_file E S up path sum size header w in
          let same : made ≡ file = ground arith in
          (
            ground arith,
            ground arith,
            inl (record {
              size = size;
              now = E.now w.instants;
              tables =
                  db
                  ∙ ap
                      (λ (f : File).
                        with_content (content_record E S up path sum size header w) (new_row E f)
                          w.repo.db)
                      same;
              bytes = blobs;
              is_new = absent;
              hash = ap (λ (f : File). f.storage_hash) (sym same);
            }),
          )
    ]

    add_reference_ok :
        (existing : Storage)
        → find_storage sum w.repo.db.storage ≡ some existing
        → (add_reference E S path sum existing header w).0 ≡ ok file
        → Outcome path content header w file (add_reference E S path sum existing header w)
    add_reference_ok existing stored done =
        elim (add_reference_cases E S up path sum existing header w fresh stored) [
          | inr (e, failed, _, _) ↦ absurd (ground arith)
          | inl (res, (now, db), blobs, _) ↦
              let made = reference_to E S existing (E.uuid w.uuids) (E.now w.instants) header sum in
              let same : made ≡ file = ground arith in
              (
                ground arith,
                ground arith,
                inr (record {
                  existing = existing;
                  now = now;
                  tables =
                      db
                      ∙ ap (λ (f : File). with_reference existing now (new_row E f) w.repo.db) same;
                  bytes = blobs;
                  is_stored = stored;
                  hash = ap (λ (f : File). f.storage_hash) (sym same);
                }),
              )
        ]

  -- The world after the lookup of the checksum has the same tables.
  module _ (path content : Bytes) (size : ℤ) (header : FileHeader) (w : World S) (file : File) where
    looked_up : World S
    looked_up = record w { repo = (get_storage_by_hash E (E.checksum content) w.repo).1 }

    same_tables : looked_up.repo.db ≡ w.repo.db
    unfolding looked_up
    same_tables = db-get_storage_by_hash E (E.checksum content) w.repo

    moved :
        (out : Result File × World S)
        → Outcome path content header looked_up file out
        → Outcome path content header w file out
    unfolding looked_up
    moved out (id, name, stored) = (
      id,
      name,
      subst (λ (d : Db). StoredFile E S path content header d w.blobs file out.1) same_tables
          stored,
    )

    deduplicate_ok :
        find_file (E.uuid w.uuids) w.repo.db.files ≡ none
        → (deduplicate E S path (E.checksum content) size header w).0 ≡ ok file
        → Outcome path content header w file
            (deduplicate E S path (E.checksum content) size header w)
    unfolding deduplicate looked_up
    deduplicate_ok fresh done =
        elim (Result-cases (get_storage_by_hash E (E.checksum content) w.repo).0) [
          | inl (s, e) ↦
              rw (e, deduplicate)
                (moved (add_reference E S path (E.checksum content) s header looked_up) (
                  add_reference_ok path content header looked_up file fresh1 s
                    (ap (λ (d : Db). find_storage (E.checksum content) d.storage) same_tables
                      ∙ get_storage_by_hash_ok E (E.checksum content) w.repo s e)
                    (rw (e, deduplicate) at done)))
          | inr (x, e) ↦
              rw (e, deduplicate)
                (moved (add_content E S path (E.checksum content) size header looked_up) (
                  add_content_ok path content header looked_up file fresh1 size
                    (rw (e, deduplicate) at done)))
        ]
      where
        fresh1 : find_file (E.uuid w.uuids) looked_up.repo.db.files ≡ none
        fresh1 = ap (λ (d : Db). find_file (E.uuid w.uuids) d.files) same_tables ∙ fresh

  -- The world after Put.
  abbrev put_world : World S → Bytes → FileHeader → World S
  put_world w content header = record w {
    uuids = suc w.uuids;
    blobs = (S.put (E.uuid w.uuids) content header.size w.blobs).1;
  }

  -- A successful upload has put its content under the new path, and has stored the new file.
  pub upload_ok :
      (content : Bytes) (header : FileHeader) (w : World S) (file : File)
      → find_file (E.uuid (suc w.uuids)) w.repo.db.files ≡ none
      → (upload E S content header w).0 ≡ ok file
      → (file.id ≡ E.uuid (suc w.uuids))
        × (file.name ≡ header.name)
        × (validate_file E.case_tables (some header) ≡ none)
        × ((n : ℤ) × ((S.put (E.uuid w.uuids) content header.size w.blobs).0 ≡ ok n))
        × StoredFile E S
            (E.uuid w.uuids)
            content
            header
            w.repo.db
            (S.put (E.uuid w.uuids) content header.size w.blobs).1
            file
            (upload E S content header w).1
  unfolding upload store_content
  upload_ok content header w file fresh done =
      elim (Option-cases (validate_file E.case_tables (some header))) [
        | inr (e, refused) ↦ absurd (ground arith)
        | inl accepted ↦
            elim (Result-cases (S.put (E.uuid w.uuids) content header.size w.blobs).0) [
              | inr (e, failed) ↦ absurd (ground arith)
              | inl (n, written) ↦
                  let (id, name, stored) =
                    deduplicate_ok (E.uuid w.uuids) content n header (put_world w content header)
                      file fresh (rw (accepted, written, upload, store_content) at done) in
                  (
                    id,
                    name,
                    accepted,
                    (n, written),
                    rw (accepted, written, upload, store_content) stored,
                  )
            ]
      ]
