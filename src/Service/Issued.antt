-- ===== src/Service/Issued.antt =====
-- Every path and every identifier in the tables has been drawn, whatever fails. So the next ones are
-- new, if no two draws are equal.
use mathlib.Core.Path.{subst}
use pot_play_storage.Errors.{Result-cases}
use pot_play_storage.Prelude.{
  ℕ, suc, ◌≡◌, refl, sym, ap, ◌∙◌, inl, inr, Bytes, Option, some, arith, Option-cases, Bool-cases,
}
use pot_play_storage.Prelude.Int.{ℤ, is_zero}
use pot_play_storage.Model.{Storage, File, FileHeader}
use pot_play_storage.Environment.{Env}
use pot_play_storage.Validator.{validate_file}
use pot_play_storage.Database.{Db, find_storage, find_file}
use pot_play_storage.Backend.{StorageBackend}
use pot_play_storage.Repository.{
  get_storage_by_hash, create_storage, increment_storage_ref, decrement_storage_ref,
  create_file_reference, get_storage_hash_by_file_id, delete_by_id,
}
use pot_play_storage.Repository.Laws.{
  db-get_storage_by_hash, get_storage_by_hash_ok, db-get_storage_hash,
}
use pot_play_storage.Repository.Kept.{
  increment-IsKept, decrement-IsKept, delete_storage-IsKept, delete_by_id-IsKept,
}
use pot_play_storage.Service.{
  World, storage_record, finish_reference, add_reference, finish_content, add_content, deduplicate,
  store_content, upload, clean_up, release, delete, new_count,
}
use pot_play_storage.Service.State.{HasFreshIds}
use pot_play_storage.Service.Drawn.{
  IsIssued, IsDrawn, IsIssued-later, kept-IsIssued, create_storage-IsIssued, create_file-IsIssued,
}

module _ (E : Env) (S : StorageBackend) where
  -- What holds of a world says how many identifiers it has drawn itself.
  abbrev pub Issued : World S → Type 0
  Issued w = IsIssued E w.uuids w.repo.db

  finish_reference-IsIssued :
      (file : File) (sum : Bytes) (w : World S)
      → IsDrawn E w.uuids file.id
      → Issued w
      → Issued (finish_reference E S file sum w).1
  unfolding finish_reference
  finish_reference-IsIssued file sum w drawn c =
      let made = create_file-IsIssued E w.uuids file w.repo drawn c in
      elim (Result-cases (create_file_reference E file w.repo).0) [
        | inl (_, done) ↦ rw (done, finish_reference) made
        | inr (e, failed) ↦
            rw (failed, finish_reference)
              (kept-IsIssued E w.uuids _ _ (decrement-IsKept E sum _) made)
      ]

  finish_content-IsIssued :
      (file : File) (sum path : Bytes) (w : World S)
      → IsDrawn E w.uuids file.id
      → Issued w
      → Issued (finish_content E S file sum path w).1
  unfolding finish_content
  finish_content-IsIssued file sum path w drawn c =
      let made = create_file-IsIssued E w.uuids file w.repo drawn c in
      elim (Result-cases (create_file_reference E file w.repo).0) [
        | inl (_, done) ↦ rw (done, finish_content) made
        | inr (e, failed) ↦
            rw (failed, finish_content)
              (kept-IsIssued E w.uuids _ _ (delete_storage-IsKept E sum _) made)
      ]

  add_reference-IsIssued :
      (path sum : Bytes) (s : Storage) (header : FileHeader) (w : World S)
      → find_storage sum w.repo.db.storage ≡ some s
      → Issued w
      → Issued (add_reference E S path sum s header w).1
  unfolding add_reference
  add_reference-IsIssued path sum s header w there c =
      let counted = kept-IsIssued E w.uuids _ _ (increment-IsKept E sum w.repo s there) c in
      elim (Result-cases (increment_storage_ref E sum w.repo).0) [
        | inl (_, done) ↦
            rw (done, add_reference)
              (finish_reference-IsIssued _ sum _ (w.uuids, omega arith, refl)
                (IsIssued-later E w.uuids (suc w.uuids) _ (omega arith) counted))
        | inr (e, failed) ↦ rw (failed, add_reference) counted
      ]

  add_content-IsIssued :
      (path sum : Bytes) (size : ℤ) (header : FileHeader) (w : World S)
      → IsDrawn E w.uuids path
      → Issued w
      → Issued (add_content E S path sum size header w).1
  unfolding add_content
  add_content-IsIssued path sum size header w drawn c =
      let s = storage_record E S sum size header path (E.now w.instants) in
      let made = create_storage-IsIssued E w.uuids s w.repo drawn c in
      elim (Result-cases (create_storage E s w.repo).0) [
        | inl (_, done) ↦
            rw (done, add_content)
              (finish_content-IsIssued _ sum path _ (w.uuids, omega arith, refl)
                (IsIssued-later E w.uuids (suc w.uuids) _ (omega arith) made))
        | inr (e, failed) ↦ rw (failed, add_content) made
      ]

  deduplicate-IsIssued :
      (path sum : Bytes) (size : ℤ) (header : FileHeader) (w : World S)
      → IsDrawn E w.uuids path
      → Issued w
      → Issued (deduplicate E S path sum size header w).1
  unfolding deduplicate
  deduplicate-IsIssued path sum size header w drawn c =
      let same = db-get_storage_by_hash E sum w.repo in
      let kept = subst (IsIssued E w.uuids) (sym same) c in
      elim (Result-cases (get_storage_by_hash E sum w.repo).0) [
        | inl (s, found) ↦
            let there =
              ap (λ (d : Db). find_storage sum d.storage) same
              ∙ get_storage_by_hash_ok E sum w.repo s found in
            rw (found, deduplicate) (add_reference-IsIssued path sum s header _ there kept)
        | inr (e, failed) ↦
            rw (failed, deduplicate) (add_content-IsIssued path sum size header _ drawn kept)
      ]

  store_content-IsIssued :
      (content : Bytes) (header : FileHeader) (w : World S)
      → Issued w
      → Issued (store_content E S content header w).1
  unfolding store_content
  store_content-IsIssued content header w c =
      let later = IsIssued-later E w.uuids (suc w.uuids) w.repo.db (omega arith) c in
      elim (Result-cases (S.put (E.uuid w.uuids) content header.size w.blobs).0) [
        | inl (size, done) ↦
            rw (done, store_content)
              (deduplicate-IsIssued (E.uuid w.uuids) (E.checksum content) size header _
                (w.uuids, omega arith, refl) later)
        | inr (e, failed) ↦ rw (failed, store_content) later
      ]

  pub upload-IsIssued :
      (content : Bytes) (header : FileHeader) (w : World S)
      → Issued w
      → Issued (upload E S content header w).1
  unfolding upload
  upload-IsIssued content header w c =
      elim (Option-cases (validate_file E.case_tables (some header))) [
        | inl accepted ↦ rw (accepted, upload) (store_content-IsIssued content header w c)
        | inr (e, refused) ↦ rw (refused, upload) c
      ]

  clean_up-IsIssued : (hash : Bytes) (w : World S) → Issued w → Issued (clean_up E S hash w)
  unfolding clean_up
  clean_up-IsIssued hash w c =
      let kept = subst (IsIssued E w.uuids) (sym (db-get_storage_by_hash E hash w.repo)) c in
      elim (Result-cases (get_storage_by_hash E hash w.repo).0) [
        | inl (s, found) ↦
            rw (found, clean_up) (kept-IsIssued E w.uuids _ _ (delete_storage-IsKept E hash _) kept)
        | inr (e, failed) ↦ rw (failed, clean_up) kept
      ]

  release-IsIssued : (hash : Bytes) (w : World S) → Issued w → Issued (release E S hash w)
  unfolding release
  release-IsIssued hash w c =
      let counted = kept-IsIssued E w.uuids _ _ (decrement-IsKept E hash w.repo) c in
      elim (Bool-cases (is_zero (new_count E S (decrement_storage_ref E hash w.repo).0))) [
        | inl last ↦ rw (last, release) (clean_up-IsIssued hash _ counted)
        | inr left ↦ rw (left, release) counted
      ]

  pub delete-IsIssued : (id : Bytes) (w : World S) → Issued w → Issued (delete E S id w).1
  unfolding delete
  delete-IsIssued id w c =
      let r = (get_storage_hash_by_file_id E id w.repo).1 in
      let kept = subst (IsIssued E w.uuids) (sym (db-get_storage_hash E id w.repo)) c in
      let gone = kept-IsIssued E w.uuids _ _ (delete_by_id-IsKept E id r) kept in
      elim (Result-cases (get_storage_hash_by_file_id E id w.repo).0) [
        | inr (e, failed) ↦ rw (failed, delete) kept
        | inl (hash, found) ↦ elim (Result-cases (delete_by_id E id r).0) [
          | inr (e, failed) ↦ rw (found, failed, delete) gone
          | inl (_, done) ↦ rw (found, done, delete) (release-IsIssued hash _ gone)
        ]
      ]

-- No identifier is drawn twice.
abbrev pub HasNewIds : Env → Type 0
HasNewIds E = (n m : ℕ) → E.uuid n ≡ E.uuid m → n ≡ m

module _ (E : Env) (S : StorageBackend) (holds : S.State → Bytes → Option Bytes) where
  pub IsIssued-HasFreshIds : (w : World S) → HasNewIds E → Issued E S w → HasFreshIds E S holds w
  IsIssued-HasFreshIds w new c = record {
    path = λ h s e p.
        let (n, l, drawn) = c.paths h s e in absurd (omega (arith, new n w.uuids (sym drawn ∙ p)));
    id = elim (Option-cases (find_file (E.uuid (suc w.uuids)) w.repo.db.files)) [
      | inl absent ↦ absent
      | inr (f, there) ↦
          let (n, l, drawn) = c.ids (E.uuid (suc w.uuids)) f there in
          absurd (omega (arith, new (suc w.uuids) n drawn))
    ];
  }
