-- ===== src/Service/Upload.antt =====
-- Upload keeps the world consistent, when every statement is carried out.
use pot_play_storage.Errors.{Result-cases}
use pot_play_storage.Prelude.{
  ℕ, length, suc, ◌≡◌, refl, sym, ap, ◌∙◌, inl, inr, Bytes, ◌∷◌, Option, none, some, arith,
  Option-cases, ◌==◌, Bool-cases,
}
use mathlib.Core.Path.{subst}
use pot_play_storage.Prelude.Int.{ℤ, inc, pos}
use pot_play_storage.Model.{Storage, FileHeader}
use pot_play_storage.Environment.{Env, IsUp}
use pot_play_storage.Database.{FileRow, Db, find_storage, find_file}
use pot_play_storage.Database.Counts.{
  IsFreePath, with_content, with_content-IsCounted, with_reference-IsCounted,
}
use pot_play_storage.Validator.{validate_file}
use pot_play_storage.Backend.{StorageBackend, IsLawful}
use pot_play_storage.Repository.{get_storage_by_hash, new_row}
use pot_play_storage.Repository.Laws.{db-get_storage_by_hash, get_storage_by_hash_ok}
use pot_play_storage.Service.{
  World, reference_to, add_reference, add_content, deduplicate, store_content, upload,
}
use pot_play_storage.Service.Held.{recounted-IsHeld, elsewhere-IsHeld, IsConsistent-of}
use pot_play_storage.Service.State.{IsHeld, IsConsistent, HasFreshIds, HasNames}
use pot_play_storage.Service.Outcomes.{add_content_cases, add_reference_cases, content_file}

module _ (E : Env) (S : StorageBackend) (holds : S.State → Bytes → Option Bytes) (up : IsUp E)
    (L : IsLawful S holds) (names : HasNames E S holds L) where
  abbrev Consistent : World S → Type 0
  Consistent = IsConsistent E S holds

  abbrev FreshId : World S → Type 0
  FreshId w = find_file (E.uuid w.uuids) w.repo.db.files ≡ none

  -- After a Delete or a failed Put of a free path the rows have their contents.
  delete-IsHeld :
      (path : Bytes) (db : Db) (blobs : S.State)
      → L.IsName path
      → IsFreePath path db
      → IsHeld E S holds db blobs
      → IsHeld E S holds db (S.delete path blobs).1
  delete-IsHeld path db blobs named free =
      elsewhere-IsHeld E S holds path db blobs _ free (λ q n. L.delete_other path q blobs named n)

  added-IsHeld :
      (s : Storage) (row : FileRow) (content : Bytes) (db : Db) (blobs : S.State)
      → s.hash ≡ E.checksum content
      → holds blobs s.storage_path ≡ some content
      → s.size ≡ pos (length content)
      → (n : ℕ) × (s.storage_path ≡ E.uuid n)
      → IsHeld E S holds db blobs
      → IsHeld E S holds (with_content s row db) blobs
  unfolding find_storage
  added-IsHeld s row content db blobs sum there size (n, drawn) held h t e =
      elim (Bool-cases (s.hash == h)) [
        | inl same ↦ (content, ground arith, ground arith, ground arith, n, ground arith)
        | inr other ↦ held h t (ground arith)
      ]

  module _ (path content : Bytes) (size : ℤ) (header : FileHeader) (w : World S) (k : ℕ)
      (drawn : path ≡ E.uuid k) where
    abbrev sum : Bytes
    sum = E.checksum content

    named : L.IsName path
    named = subst L.IsName (sym drawn) (names k)

    new_row_of : FileRow
    new_row_of = new_row E (content_file E S up path sum size header w)

    add_content-Consistent :
        Consistent w
        → IsFreePath path w.repo.db
        → FreshId w
        → holds w.blobs path ≡ some content
        → size ≡ pos (length content)
        → Consistent (add_content E S path sum size header w).1
    unfolding new_row_of
    add_content-Consistent c free fresh there sized =
        elim (add_content_cases E S up path sum size header w fresh) [
          | inl (res, db, blobs, absent, _) ↦
              IsConsistent-of E S holds _ db blobs
                (with_content-IsCounted w.repo.db c.tables _ _ absent fresh free refl refl)
                (added-IsHeld _ new_row_of content w.repo.db w.blobs refl there sized (k, drawn)
                  c.held)
          | inr (e, res, db, blobs) ↦
              IsConsistent-of E S holds _ db blobs c.tables
                (delete-IsHeld path w.repo.db w.blobs named free c.held)
        ]

    add_reference-Consistent :
        (existing : Storage)
        → Consistent w
        → IsFreePath path w.repo.db
        → FreshId w
        → find_storage sum w.repo.db.storage ≡ some existing
        → Consistent (add_reference E S path sum existing header w).1
    add_reference-Consistent existing c free fresh stored =
        elim (add_reference_cases E S up path sum existing header w fresh stored) [
          | inl (res, (now, db), blobs, in_range) ↦
              IsConsistent-of E S holds _ db blobs
                (with_reference-IsCounted w.repo.db c.tables existing now _ stored fresh in_range)
                (recounted-IsHeld E S holds sum (inc existing.reference_count) now w.repo.db
                  (new_row E
                      (reference_to E S existing (E.uuid w.uuids) (E.now w.instants) header sum)
                    ∷ w.repo.db.files)
                  _ (delete-IsHeld path w.repo.db w.blobs named free c.held))
          | inr (e, res, db, blobs) ↦
              IsConsistent-of E S holds _ db blobs c.tables
                (delete-IsHeld path w.repo.db w.blobs named free c.held)
        ]

  -- The world after the lookup of the checksum.
  abbrev looked_up : Bytes → World S → World S
  looked_up hash w = record w { repo = (get_storage_by_hash E hash w.repo).1 }

  looked_up-Consistent : (hash : Bytes) (w : World S) → Consistent w → Consistent (looked_up hash w)
  looked_up-Consistent hash w c =
      IsConsistent-of E S holds _ (db-get_storage_by_hash E hash w.repo) refl c.tables c.held

  deduplicate-Consistent :
      (path content : Bytes) (size : ℤ) (header : FileHeader) (w : World S) (k : ℕ)
      → path ≡ E.uuid k
      → Consistent w
      → IsFreePath path w.repo.db
      → FreshId w
      → holds w.blobs path ≡ some content
      → size ≡ pos (length content)
      → Consistent (deduplicate E S path (E.checksum content) size header w).1
  unfolding deduplicate
  deduplicate-Consistent path content size header w k drawn c free fresh there sized =
      elim (Result-cases (get_storage_by_hash E (E.checksum content) w.repo).0) [
        | inl (s, e) ↦
            rw (e, deduplicate)
              (add_reference-Consistent path content size header w1 k drawn s c1 free1 fresh1 (
                ap (λ (d : Db). find_storage (E.checksum content) d.storage) same
                ∙ get_storage_by_hash_ok E (E.checksum content) w.repo s e))
        | inr (x, e) ↦
            rw (e, deduplicate)
              (add_content-Consistent path content size header w1 k drawn c1 free1 fresh1 there
                sized)
      ]
    where
      w1 : World S
      w1 = looked_up (E.checksum content) w

      same : w1.repo.db ≡ w.repo.db
      same = db-get_storage_by_hash E (E.checksum content) w.repo

      c1 : Consistent w1
      c1 = looked_up-Consistent (E.checksum content) w c

      free1 : IsFreePath path w1.repo.db
      free1 = subst (IsFreePath path) (sym same) free

      fresh1 : FreshId w1
      fresh1 = ap (λ (d : Db). find_file (E.uuid w.uuids) d.files) same ∙ fresh

  store_content-Consistent :
      (content : Bytes) (header : FileHeader) (w : World S)
      → Consistent w
      → HasFreshIds E S holds w
      → Consistent (store_content E S content header w).1
  unfolding store_content
  store_content-Consistent content header w c fresh =
      elim (Result-cases (S.put (E.uuid w.uuids) content header.size w.blobs).0) [
        | inl (size, e) ↦
            rw (e, store_content)
              (deduplicate-Consistent (E.uuid w.uuids) content size header w1 w.uuids refl c1
                fresh.path fresh.id
                (L.put_ok (E.uuid w.uuids) content (E.uuid w.uuids) header.size size w.blobs
                    (names w.uuids) e
                  ∙ ground arith)
                (L.put_size (E.uuid w.uuids) content header.size size w.blobs (names w.uuids) e))
        | inr (x, e) ↦ rw (e, store_content) c1
      ]
    where
      w1 : World S
      w1 = record w {
        uuids = suc w.uuids;
        blobs = (S.put (E.uuid w.uuids) content header.size w.blobs).1;
      }

      c1 : Consistent w1
      c1 = record {
        tables = c.tables;
        held =
            elsewhere-IsHeld E S holds (E.uuid w.uuids) w.repo.db w.blobs _ fresh.path
              (λ q n. L.put_other (E.uuid w.uuids) content q header.size w.blobs (names w.uuids) n)
              c.held;
      }

  -- If every database statement is carried out, the store is lawful and every identifier is a name
  -- of it and the next two identifiers are new, an upload, of whatever outcome, takes a consistent
  -- world to a consistent world.
  pub upload-IsConsistent :
      (content : Bytes) (header : FileHeader) (w : World S)
      → IsConsistent E S holds w
      → HasFreshIds E S holds w
      → IsConsistent E S holds (upload E S content header w).1
  unfolding upload
  upload-IsConsistent content header w c fresh =
      elim (Option-cases (validate_file E.case_tables (some header))) [
        | inl accepted ↦ rw (accepted, upload) (store_content-Consistent content header w c fresh)
        | inr (e, refused) ↦ rw (refused, upload) c
      ]
