-- ===== src/Service/Refused.antt =====
-- An upload that fails, with every statement carried out, shows no client anything.
use pot_play_storage.Prelude.{
  suc, ◌≡◌, ◌≢◌, refl, sym, ap, ◌∙◌, ◌⊎◌, inl, inr, Bytes, Option, none, some, arith, Option-cases,
}
use pot_play_storage.Prelude.Int.{ℤ}
use pot_play_storage.Model.{FileHeader}
use pot_play_storage.Errors.{Result-cases, Error, err}
use pot_play_storage.Environment.{Env, IsUp}
use pot_play_storage.Validator.{validate_file}
use pot_play_storage.Database.{Db, find_storage, find_file}
use pot_play_storage.Backend.{StorageBackend, IsLawful}
use pot_play_storage.Repository.{get_storage_by_hash}
use pot_play_storage.Repository.Laws.{db-get_storage_by_hash, get_storage_by_hash_ok}
use pot_play_storage.Service.{World, deduplicate, store_content, upload}
use pot_play_storage.Service.State.{HasFreshIds, content_of, HasNames}
use pot_play_storage.Service.Outcomes.{add_content_cases, add_reference_cases}

module _ (E : Env) (S : StorageBackend) (up : IsUp E) where
  -- The tables are as they were, and the store but for the path.
  abbrev Undone : Bytes → World S → World S → Type 0
  Undone path w out =
      (out.repo.db ≡ w.repo.db) × ((out.blobs ≡ w.blobs) ⊎ (out.blobs ≡ (S.delete path w.blobs).1))

  deduplicate_failed :
      (path sum : Bytes) (size : ℤ) (header : FileHeader) (w : World S) (e : Error)
      → find_file (E.uuid w.uuids) w.repo.db.files ≡ none
      → (deduplicate E S path sum size header w).0 ≡ err e
      → Undone path w (deduplicate E S path sum size header w).1
  unfolding deduplicate
  deduplicate_failed path sum size header w e fresh failed =
      elim (Result-cases (get_storage_by_hash E sum w.repo).0) [
        | inl (s, found) ↦
            let there =
              ap (λ (d : Db). find_storage sum d.storage) same
              ∙ get_storage_by_hash_ok E sum w.repo s found in
            elim (add_reference_cases E S up path sum s header looked fresh' there) [
              | inl (done, _, _, _) ↦ absurd (ground arith)
              | inr (_, _, left, blobs) ↦ rw (found, deduplicate) (left ∙ same, inr blobs)
            ]
        | inr (x, lost) ↦ elim (add_content_cases E S up path sum size header looked fresh') [
          | inl (done, _, _, _, _) ↦ absurd (ground arith)
          | inr (_, _, left, blobs) ↦ rw (lost, deduplicate) (left ∙ same, inr blobs)
        ]
      ]
    where
      looked : World S
      looked = record w { repo = (get_storage_by_hash E sum w.repo).1 }

      same : (get_storage_by_hash E sum w.repo).1.db ≡ w.repo.db
      same = db-get_storage_by_hash E sum w.repo

      fresh' : find_file (E.uuid w.uuids) (get_storage_by_hash E sum w.repo).1.db.files ≡ none
      fresh' = ap (λ (d : Db). find_file (E.uuid w.uuids) d.files) same ∙ fresh

module _ (E : Env) (S : StorageBackend) (holds : S.State → Bytes → Option Bytes) (up : IsUp E)
    (L : IsLawful S holds) (names : HasNames E S holds L) where
  -- Other paths keep what is stored under them.
  abbrev Elsewhere : Bytes → World S → World S → Type 0
  Elsewhere path w out =
      (out.repo.db ≡ w.repo.db) × ((q : Bytes) → path ≢ q → holds out.blobs q ≡ holds w.blobs q)

  Undone-Elsewhere :
      (path : Bytes) (w out : World S)
      → L.IsName path
      → Undone E S up path w out
      → Elsewhere path w out
  Undone-Elsewhere path w out named (db, inl same) =
      (db, λ q n. ap (λ (b : S.State). holds b q) same)
  Undone-Elsewhere path w out named (db, inr gone) =
      (db, λ q n. ap (λ (b : S.State). holds b q) gone ∙ L.delete_other path q w.blobs named n)

  store_content_failed :
      (content : Bytes) (header : FileHeader) (w : World S) (e : Error)
      → HasFreshIds E S holds w
      → (store_content E S content header w).0 ≡ err e
      → Elsewhere (E.uuid w.uuids) w (store_content E S content header w).1
  unfolding store_content
  store_content_failed content header w e fresh failed =
      elim (Result-cases (S.put (E.uuid w.uuids) content header.size w.blobs).0) [
        | inr (x, lost) ↦ rw (lost, store_content) (refl, put_keeps)
        | inl (size, put) ↦
            let (db, keeps) =
              Undone-Elsewhere (E.uuid w.uuids) put_world
                (deduplicate E S (E.uuid w.uuids) (E.checksum content) size header put_world).1
                (names w.uuids)
                (deduplicate_failed E S up (E.uuid w.uuids) (E.checksum content) size header
                  put_world e fresh.id (rw (put, store_content) at failed)) in
            rw (put, store_content) (db, λ q n. keeps q n ∙ put_keeps q n)
      ]
    where
      put_world : World S
      put_world = record w {
        uuids = suc w.uuids;
        blobs = (S.put (E.uuid w.uuids) content header.size w.blobs).1;
      }

      put_keeps :
          (q : Bytes)
          → E.uuid w.uuids ≢ q
          → holds (S.put (E.uuid w.uuids) content header.size w.blobs).1 q ≡ holds w.blobs q
      put_keeps q n = L.put_other (E.uuid w.uuids) content q header.size w.blobs (names w.uuids) n

  Elsewhere-content_of :
      (w out : World S) (j : Bytes)
      → HasFreshIds E S holds w
      → Elsewhere (E.uuid w.uuids) w out
      → content_of E S holds out j ≡ content_of E S holds w j
  unfolding content_of
  Elsewhere-content_of w out j fresh (db, keeps) =
      elim (Option-cases (find_file j w.repo.db.files)) [
        | inl absent ↦ ground arith
        | inr (f, there) ↦ elim (Option-cases (find_storage f.storage_hash w.repo.db.storage)) [
          | inl lost ↦ ground arith
          | inr (s, stored) ↦
              ground (arith, keeps s.storage_path (λ p. fresh.path f.storage_hash s stored (sym p)))
        ]
      ]

  -- After an upload that fails, every file has the content that it had, if every statement is
  -- carried out, the store is lawful and every identifier is a name of it and new identifiers are
  -- ahead.
  pub content_of-upload_failed :
      (content : Bytes) (header : FileHeader) (w : World S) (e : Error)
      → HasFreshIds E S holds w
      → (upload E S content header w).0 ≡ err e
      → (j : Bytes)
      → content_of E S holds (upload E S content header w).1 j ≡ content_of E S holds w j
  unfolding upload
  content_of-upload_failed content header w e fresh failed j =
      elim (Option-cases (validate_file E.case_tables (some header))) [
        | inr (x, refused) ↦ rw (refused, upload) refl
        | inl accepted ↦
            rw (accepted, upload)
              (Elsewhere-content_of w _ j fresh
                (store_content_failed content header w e fresh (rw (accepted, upload) at failed)))
      ]
