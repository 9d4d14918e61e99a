-- ===== src/Service/Sound.antt =====
-- Whatever fails, no count is too low: every reachable world keeps a reference for each file.
use mathlib.Core.Path.{subst}
use pot_play_storage.Errors.{Result-cases}
use pot_play_storage.Prelude.{
  ◌≡◌, refl, sym, ap, ◌∙◌, inl, inr, Bytes, some, Bool-cases, Option-cases,
}
use pot_play_storage.Prelude.Int.{ℤ, is_zero}
use pot_play_storage.Model.{Storage, File, FileHeader}
use pot_play_storage.Environment.{Env}
use pot_play_storage.Validator.{validate_file}
use pot_play_storage.Database.{Db, find_storage, find_file}
use pot_play_storage.Backend.{StorageBackend}
use pot_play_storage.Repository.{
  get_storage_by_hash, decrement_storage_ref, get_storage_hash_by_file_id, delete_by_id,
}
use pot_play_storage.Repository.Calls.{Repo}
use pot_play_storage.Repository.Laws.{
  db-get_storage_by_hash, get_storage_by_hash_ok, db-get_storage_hash,
}
use pot_play_storage.Repository.Covered.{
  IsSound, IsSparing, IsSparing-IsSound, create_storage-IsSparing, increment-IsSparing,
  create_file_reference-IsSound, decrement-IsSound, delete_storage-IsSound, delete_by_id-IsSparing,
  get_storage_hash-IsSound,
}
use pot_play_storage.Service.{
  World, storage_record, finish_reference, add_reference, finish_content, add_content, deduplicate,
  store_content, upload, clean_up, release, delete, new_count,
}

module _ (E : Env) (S : StorageBackend) where
  abbrev Sound : World S → Type 0
  Sound w = IsSound w.repo.db

  finish_reference-IsSound :
      (file : File) (w : World S)
      → IsSparing file.storage_hash w.repo.db
      → Sound (finish_reference E S file file.storage_hash w).1
  unfolding finish_reference
  finish_reference-IsSound file w c = elim (create_file_reference-IsSound E file w.repo c) [
    | inl (done, sound) ↦ rw (done, finish_reference) sound
    | inr (e, failed, sparing) ↦
        rw (failed, finish_reference) (decrement-IsSound E file.storage_hash _ sparing)
  ]

  add_reference-IsSound :
      (path sum : Bytes) (s : Storage) (header : FileHeader) (w : World S)
      → find_storage sum w.repo.db.storage ≡ some s
      → Sound w
      → Sound (add_reference E S path sum s header w).1
  unfolding add_reference
  add_reference-IsSound path sum s header w there c =
      elim (increment-IsSparing E sum w.repo s there c) [
        | inl (done, sparing) ↦ rw (done, add_reference) (finish_reference-IsSound _ _ sparing)
        | inr (e, failed, sound) ↦ rw (failed, add_reference) sound
      ]

  finish_content-IsSound :
      (file : File) (path : Bytes) (w : World S)
      → IsSparing file.storage_hash w.repo.db
      → Sound (finish_content E S file file.storage_hash path w).1
  unfolding finish_content
  finish_content-IsSound file path w c = elim (create_file_reference-IsSound E file w.repo c) [
    | inl (done, sound) ↦ rw (done, finish_content) sound
    | inr (e, failed, sparing) ↦
        rw (failed, finish_content)
          (delete_storage-IsSound E file.storage_hash _
            (IsSparing-IsSound file.storage_hash _ sparing))
  ]

  add_content-IsSound :
      (path sum : Bytes) (size : ℤ) (header : FileHeader) (w : World S)
      → Sound w
      → Sound (add_content E S path sum size header w).1
  unfolding add_content
  add_content-IsSound path sum size header w c =
      elim (create_storage-IsSparing E (storage_record E S sum size header path (E.now w.instants))
        w.repo c refl) [
          | inl (done, sparing) ↦ rw (done, add_content) (finish_content-IsSound _ path _ sparing)
          | inr (e, failed, sound) ↦ rw (failed, add_content) sound
        ]

  deduplicate-IsSound :
      (path sum : Bytes) (size : ℤ) (header : FileHeader) (w : World S)
      → Sound w
      → Sound (deduplicate E S path sum size header w).1
  unfolding deduplicate
  deduplicate-IsSound path sum size header w c =
      elim (Result-cases (get_storage_by_hash E sum w.repo).0) [
        | inl (s, found) ↦
            let there =
              ap (λ (d : Db). find_storage sum d.storage) same
              ∙ get_storage_by_hash_ok E sum w.repo s found in
            rw (found, deduplicate) (add_reference-IsSound path sum s header _ there kept)
        | inr (e, failed) ↦
            rw (failed, deduplicate) (add_content-IsSound path sum size header _ kept)
      ]
    where
      same : (get_storage_by_hash E sum w.repo).1.db ≡ w.repo.db
      same = db-get_storage_by_hash E sum w.repo

      kept : IsSound (get_storage_by_hash E sum w.repo).1.db
      kept = subst IsSound (sym same) c

  store_content-IsSound :
      (content : Bytes) (header : FileHeader) (w : World S)
      → Sound w
      → Sound (store_content E S content header w).1
  unfolding store_content
  store_content-IsSound content header w c =
      elim (Result-cases (S.put (E.uuid w.uuids) content header.size w.blobs).0) [
        | inl (size, done) ↦
            rw (done, store_content)
              (deduplicate-IsSound (E.uuid w.uuids) (E.checksum content) size header _ c)
        | inr (e, failed) ↦ rw (failed, store_content) c
      ]

  pub upload-IsSound :
      (content : Bytes) (header : FileHeader) (w : World S)
      → Sound w
      → Sound (upload E S content header w).1
  unfolding upload
  upload-IsSound content header w c =
      elim (Option-cases (validate_file E.case_tables (some header))) [
        | inl accepted ↦ rw (accepted, upload) (store_content-IsSound content header w c)
        | inr (e, refused) ↦ rw (refused, upload) c
      ]

  clean_up-IsSound : (hash : Bytes) (w : World S) → Sound w → Sound (clean_up E S hash w)
  unfolding clean_up
  clean_up-IsSound hash w c = elim (Result-cases (get_storage_by_hash E hash w.repo).0) [
    | inl (s, found) ↦ rw (found, clean_up) (delete_storage-IsSound E hash _ kept)
    | inr (e, failed) ↦ rw (failed, clean_up) kept
  ]
    where
      kept : IsSound (get_storage_by_hash E hash w.repo).1.db
      kept = subst IsSound (sym (db-get_storage_by_hash E hash w.repo)) c

  release-IsSound :
      (hash : Bytes) (w : World S) → IsSparing hash w.repo.db → Sound (release E S hash w)
  unfolding release
  release-IsSound hash w c =
      elim (Bool-cases (is_zero (new_count E S (decrement_storage_ref E hash w.repo).0))) [
        | inl last ↦
            rw (last, release) (clean_up-IsSound hash _ (decrement-IsSound E hash w.repo c))
        | inr left ↦ rw (left, release) (decrement-IsSound E hash w.repo c)
      ]

  pub delete-IsSound : (id : Bytes) (w : World S) → Sound w → Sound (delete E S id w).1
  unfolding delete
  delete-IsSound id w c = elim (Result-cases (get_storage_hash_by_file_id E id w.repo).0) [
    | inr (e, failed) ↦ rw (failed, delete) kept
    | inl (hash, found) ↦
        let (u, f, reads, there, same_hash) = get_storage_hash-IsSound E id w.repo hash c found in
        elim (delete_by_id-IsSparing E id u r f reads
          (ap (λ (d : Db). find_file u d.files) same ∙ there) kept) [
            | inr (e, failed, sound) ↦ rw (found, failed, delete) sound
            | inl (done, sparing) ↦
                rw (found, done, delete)
                  (release-IsSound hash _ (
                    subst (λ (h : Bytes). IsSparing h (delete_by_id E id r).1.db) same_hash
                      sparing))
          ]
  ]
    where
      r : Repo
      r = (get_storage_hash_by_file_id E id w.repo).1

      same : r.db ≡ w.repo.db
      same = db-get_storage_hash E id w.repo

      kept : IsSound r.db
      kept = subst IsSound (sym same) c
