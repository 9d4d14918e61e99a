-- ===== src/Repository/Covered.antt =====
-- What each call does to the counts, with its statement carried out or not.
use mathlib.Core.Path.{subst, ◌∙◌}
use pot_play_storage.Prelude.{
  ◌≡◌, sym, ap, ◌⊎◌, inl, inr, Bytes, none, some, arith, Bool-cases, Option-cases,
}
use pot_play_storage.Prelude.Int.{pos, dec, is_zero}
use pot_play_storage.Model.{Storage, File}
use pot_play_storage.Errors.{Error, ok, err}
use pot_play_storage.Environment.{Env}
use pot_play_storage.Database.{
  FileRow, Db, find_storage, find_file, delete_file, delete_unreferenced,
}
use pot_play_storage.Database.Laws.{find_file-remove}
use pot_play_storage.Database.Statements.{update_count_absent}
use pot_play_storage.Database.Covered.{
  IsCovered, nothing, one, unspared-IsCovered, new_content-IsCovered, new_reference-IsCovered,
  new_file-IsCovered, no_reference-IsCovered, no_file-IsCovered, no_content-IsCovered,
  references-unspared,
}
use pot_play_storage.Repository.{
  create_storage, increment_storage_ref, decrement_storage_ref, delete_storage,
  create_file_reference, get_storage_hash_by_file_id, delete_by_id, new_row, count_returned,
}
use pot_play_storage.Repository.Calls.{Repo, exec, at_uuid}
use pot_play_storage.Repository.Statements.{
  create_storage_cases, increment_cases, decrement_cases, create_file_reference_cases,
  delete_by_id_cases, delete_storage_last, delete_storage_counted,
}

-- No row has a legacy checksum, and no count is too low.
pub record IsSound (db : Db) : Type 0 where
  pub new_rows : (j : Bytes) (f : FileRow) → find_file j db.files ≡ some f → f.checksum ≡ none
  pub covered : IsCovered nothing db

-- The same, with a reference of one content to spare.
pub record IsSparing (hash : Bytes) (db : Db) : Type 0 where
  pub new_rows : (j : Bytes) (f : FileRow) → find_file j db.files ≡ some f → f.checksum ≡ none
  pub covered : IsCovered (one hash) db

pub IsSparing-IsSound : (hash : Bytes) (db : Db) → IsSparing hash db → IsSound db
IsSparing-IsSound hash db c = record {
  new_rows = c.new_rows;
  covered = unspared-IsCovered hash db c.covered;
}

module _ (E : Env) where
  pub create_storage-IsSparing :
      (s : Storage) (r : Repo)
      → IsSound r.db
      → s.reference_count ≡ pos 1
      → (((create_storage E s r).0 ≡ ok tt) × IsSparing s.hash (create_storage E s r).1.db)
        ⊎ ((e : Error) × ((create_storage E s r).0 ≡ err e) × IsSound (create_storage E s r).1.db)
  create_storage-IsSparing s r c single = elim (create_storage_cases E s r) [
    | inl (done, left, new, _) ↦ inl (
      done,
      subst (IsSparing s.hash) (sym left) (record {
        new_rows = c.new_rows;
        covered = new_content-IsCovered s r.db new single c.covered;
      }),
    )
    | inr (e, failed, left) ↦ inr (e, failed, subst IsSound (sym left) c)
  ]

  pub increment-IsSparing :
      (hash : Bytes) (r : Repo) (s : Storage)
      → find_storage hash r.db.storage ≡ some s
      → IsSound r.db
      → (((increment_storage_ref E hash r).0 ≡ ok tt)
          × IsSparing hash (increment_storage_ref E hash r).1.db)
        ⊎ ((e : Error) × ((increment_storage_ref E hash r).0 ≡ err e)
            × IsSound (increment_storage_ref E hash r).1.db)
  increment-IsSparing hash r s there c = elim (increment_cases E hash r s there) [
    | inl (done, (now, left), _) ↦ inl (
      done,
      subst (IsSparing hash) (sym left) (record {
        new_rows = c.new_rows;
        covered = new_reference-IsCovered hash s now r.db there c.covered;
      }),
    )
    | inr (e, failed, left) ↦ inr (e, failed, subst IsSound (sym left) c)
  ]

  pub create_file_reference-IsSound :
      (file : File) (r : Repo)
      → IsSparing file.storage_hash r.db
      → (((create_file_reference E file r).0 ≡ ok tt)
          × IsSound (create_file_reference E file r).1.db)
        ⊎ ((e : Error) × ((create_file_reference E file r).0 ≡ err e)
            × IsSparing file.storage_hash (create_file_reference E file r).1.db)
  unfolding find_file
  create_file_reference-IsSound file r c = elim (create_file_reference_cases E file r) [
    | inl (done, left, new, _) ↦ inl (
      done,
      subst IsSound (sym left) (record {
        new_rows = λ j f e. ground (arith, c.new_rows j f);
        covered = new_file-IsCovered (new_row E file) r.db c.covered;
      }),
    )
    | inr (e, failed, left) ↦ inr (e, failed, subst (IsSparing file.storage_hash) (sym left) c)
  ]

  -- A decrement of a content without a row fails.
  pub decrement_absent :
      (hash : Bytes) (r : Repo)
      → find_storage hash r.db.storage ≡ none
      → (decrement_storage_ref E hash r).1.db ≡ r.db
  unfolding decrement_storage_ref exec count_returned
  decrement_absent hash r absent =
      ground (arith, update_count_absent dec hash (E.timestamp r.statements) r.db absent)

  pub decrement-IsSound :
      (hash : Bytes) (r : Repo)
      → IsSparing hash r.db
      → IsSound (decrement_storage_ref E hash r).1.db
  decrement-IsSound hash r c = elim (Option-cases (find_storage hash r.db.storage)) [
    | inl absent ↦
        subst IsSound (sym (decrement_absent hash r absent)) (IsSparing-IsSound hash r.db c)
    | inr (s, there) ↦ elim (decrement_cases E hash r s there) [
      | inl (_, (now, left)) ↦ subst IsSound (sym left) (record {
        new_rows = c.new_rows;
        covered = no_reference-IsCovered hash s now r.db there c.covered;
      })
      | inr (e, _, left) ↦ subst IsSound (sym left) (IsSparing-IsSound hash r.db c)
    ]
  ]

  pub delete_storage_down :
      (hash : Bytes) (r : Repo) (e : Error)
      → E.db_fault r.statements ≡ some e
      → (delete_storage E hash r).1.db ≡ r.db
  unfolding delete_storage exec
  delete_storage_down hash r e down = ground arith

  pub delete_storage_absent :
      (hash : Bytes) (r : Repo)
      → find_storage hash r.db.storage ≡ none
      → (delete_storage E hash r).1.db ≡ r.db
  unfolding delete_storage exec delete_unreferenced
  delete_storage_absent hash r absent = ground arith

  pub delete_storage-IsSound :
      (hash : Bytes) (r : Repo) → IsSound r.db → IsSound (delete_storage E hash r).1.db
  delete_storage-IsSound hash r c = elim (Option-cases (E.db_fault r.statements)) [
    | inr (e, down) ↦ subst IsSound (sym (delete_storage_down hash r e down)) c
    | inl up ↦ elim (Option-cases (find_storage hash r.db.storage)) [
      | inl absent ↦ subst IsSound (sym (delete_storage_absent hash r absent)) c
      | inr (s, there) ↦ elim (Bool-cases (is_zero s.reference_count)) [
        | inr counted ↦ subst IsSound (sym (delete_storage_counted E hash r s there counted)) c
        | inl zero_count ↦
            let free = references-unspared hash r.db s c.covered there zero_count in
            subst IsSound (sym (delete_storage_last E hash r s there up zero_count free)) (record {
              new_rows = c.new_rows;
              covered = no_content-IsCovered hash r.db free c.covered;
            })
      ]
    ]
  ]

  pub delete_by_id-IsSparing :
      (id u : Bytes) (r : Repo) (f : FileRow)
      → E.read_uuid id ≡ some u
      → find_file u r.db.files ≡ some f
      → IsSound r.db
      → (((delete_by_id E id r).0 ≡ ok tt) × IsSparing f.storage_hash (delete_by_id E id r).1.db)
        ⊎ ((e : Error) × ((delete_by_id E id r).0 ≡ err e) × IsSound (delete_by_id E id r).1.db)
  unfolding delete_file
  delete_by_id-IsSparing id u r f reads there c = elim (delete_by_id_cases E id r) [
    | inl (v, read, done, left) ↦ inl (
      done,
      subst (IsSparing f.storage_hash)
          (sym (left ∙ ap (λ (x : Bytes). delete_file x r.db) (only v read)))
          (record {
            new_rows = λ j g e. ground (arith, c.new_rows j g, find_file-remove u j r.db.files);
            covered = no_file-IsCovered u r.db {f = f} there c.covered;
          }),
    )
    | inr (e, failed, left) ↦ inr (e, failed, subst IsSound (sym left) c)
  ]
    where
      only : (v : Bytes) → E.read_uuid id ≡ some v → v ≡ u
      only v read = ground arith

  -- The hash that is found for a file is that of its content.
  pub get_storage_hash-IsSound :
      (id : Bytes) (r : Repo) (hash : Bytes)
      → IsSound r.db
      → (get_storage_hash_by_file_id E id r).0 ≡ ok hash
      → (u : Bytes) × (f : FileRow) × (E.read_uuid id ≡ some u)
        × (find_file u r.db.files ≡ some f)
        × (f.storage_hash ≡ hash)
  unfolding get_storage_hash_by_file_id at_uuid
  get_storage_hash-IsSound id r hash c e = elim (Option-cases (E.read_uuid id)) [
    | inl refused ↦ absurd (ground arith)
    | inr (u, reads) ↦ elim (Option-cases (find_file u r.db.files)) [
      | inl absent ↦ absurd (ground arith)
      | inr (f, there) ↦ (u, f, reads, there, ground (arith, c.new_rows u f there))
    ]
  ]
