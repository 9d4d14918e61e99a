-- ===== src/Service/History.antt =====
-- What clients see of a sequence of calls: the calls that succeeded, and nothing else.
use mathlib.Core.Path.{subst}
use pot_play_storage.Prelude.{
  ℕ, ◌≡◌, refl, sym, ap, ◌∙◌, inl, inr, Bytes, Option, none, some, arith, Option-cases, ◌==◌,
  if◌then◌else◌,
}
use pot_play_storage.Model.{File, FileHeader, get_storage_path}
use pot_play_storage.Errors.{Result-cases, Result, ok, err}
use pot_play_storage.Environment.{Env, IsUp}
use pot_play_storage.Database.{find_storage, find_file}
use pot_play_storage.Backend.{StorageBackend, IsLawful}
use pot_play_storage.Repository.{get_by_id}
use pot_play_storage.Service.{World, upload, download, delete, list_files}
use pot_play_storage.Service.State.{IsConsistent, HasChecksums, content_of, HasNames}
use pot_play_storage.Service.Held.{IsConsistent-of}
use pot_play_storage.Service.Upload.{upload-IsConsistent}
use pot_play_storage.Service.Delete.{delete-IsConsistent, delete_cases}
use pot_play_storage.Service.View.{content_of-upload, HasNoCollision}
use pot_play_storage.Service.Removal.{content_of-delete}
use pot_play_storage.Service.Refused.{content_of-upload_failed}
use pot_play_storage.Service.Issued.{
  Issued, HasNewIds, upload-IsIssued, delete-IsIssued, IsIssued-HasFreshIds,
}
use pot_play_storage.Service.Drawn.{IsIssued}
use pot_play_storage.Service.Runs.{
  Runs, stop, upload_next, download_next, delete_next, list_next, db-download, db-list_files,
}

-- A map from files to contents, and what a call's result does to it.
abbrev pub View : Type 0
View = Bytes → Option Bytes

abbrev pub uploaded : Bytes → Result File → View → View
uploaded content (ok file) m j = if file.id == j then some content else m j
uploaded content (err e) m j = m j

-- A deletion takes away the file whose identifier it was given, if it was given one.
abbrev pub taken_away : Option Bytes → View → View
taken_away (some u) m j = if u == j then none else m j
taken_away none m j = m j

abbrev pub deleted : Option Bytes → Result (Unit {0}) → View → View
deleted id (ok _) m j = taken_away id m j
deleted id (err e) m j = m j

module _ (E : Env) (S : StorageBackend) where
  -- The map after a sequence of calls: uploads and deletions that succeeded change it.
  unfoldable pub replay : (m : View) {w v : World S} → Runs E S w v → View
  replay m stop = m
  replay m (upload_next content header v r) =
      uploaded content (upload E S content header v).0 (replay m r)
  replay m (download_next id v r) = replay m r
  replay m (delete_next id v r) = deleted (E.read_uuid id) (delete E S id v).0 (replay m r)
  replay m (list_next v r) = replay m r

module _ (E : Env) (S : StorageBackend) (holds : S.State → Bytes → Option Bytes) (up : IsUp E)
    (L : IsLawful S holds) (names : HasNames E S holds L) (sums : HasChecksums E)
    (new : HasNewIds E) (alone : (c : Bytes) → HasNoCollision E c) where
  pub record IsWell (w : World S) : Type 0 where
    pub consistent : IsConsistent E S holds w
    pub issued : Issued E S w

  same_tables-IsWell :
      (w v : World S)
      → v.repo.db ≡ w.repo.db
      → v.uuids ≡ w.uuids
      → ((q : Bytes) → holds v.blobs q ≡ holds w.blobs q)
      → IsWell w
      → IsWell v
  same_tables-IsWell w v db drawn keeps c = record {
    consistent = IsConsistent-of E S holds v db refl c.consistent.tables (λ h s e.
        let (content, lies, sum, size, n, drawn) = c.consistent.held h s e in
        (content, keeps s.storage_path ∙ lies, sum, size, n, drawn));
    issued =
        subst (λ (k : ℕ). IsIssued E k v.repo.db) (sym drawn)
          (subst (IsIssued E w.uuids) (sym db) c.issued);
  }

  uuids-download : (id : Bytes) (w : World S) → (download E S id w).1.uuids ≡ w.uuids
  unfolding download
  uuids-download id w = ground arith

  -- A download moves no content.
  holds-download :
      (id : Bytes) (w : World S) (q : Bytes) → holds (download E S id w).1.blobs q ≡ holds w.blobs q
  unfolding download
  holds-download id w q = elim (Result-cases (get_by_id E id w.repo).0) [
    | inr (e, failed) ↦ rw (failed, download) refl
    | inl (file, found) ↦
        let keeps = L.get_keeps (get_storage_path file) q w.blobs in
        elim (Result-cases (S.get (get_storage_path file) w.blobs).0) [
          | inl (content, read) ↦ rw (found, read, download) keeps
          | inr (e, failed) ↦ rw (found, failed, download) keeps
        ]
  ]

  blobs-list_files :
      (w : World S)
      → ((list_files E S w).1.blobs ≡ w.blobs) × ((list_files E S w).1.uuids ≡ w.uuids)
  unfolding list_files
  blobs-list_files w = (refl, refl)

  pub run-IsWell : (w v : World S) → Runs E S w v → IsWell w → IsWell v
  run-IsWell w _ stop c = c
  run-IsWell w _ (upload_next content header v r) c =
      let d = run-IsWell w v r c in
      record {
        consistent =
            upload-IsConsistent E S holds up L names content header v d.consistent
              (IsIssued-HasFreshIds E S holds v new d.issued);
        issued = upload-IsIssued E S content header v d.issued;
      }
  run-IsWell w _ (download_next id v r) c =
      same_tables-IsWell v _ (db-download E S id v) (uuids-download id v) (holds-download id v)
        (run-IsWell w v r c)
  run-IsWell w _ (delete_next id v r) c =
      let d = run-IsWell w v r c in
      record {
        consistent = delete-IsConsistent E S holds up L names sums id v d.consistent;
        issued = delete-IsIssued E S id v d.issued;
      }
  run-IsWell w _ (list_next v r) c =
      let (kept, drawn) = blobs-list_files v in
      same_tables-IsWell v _ (db-list_files E S v) drawn (λ q. ap (λ (b : S.State). holds b q) kept)
        (run-IsWell w v r c)

  -- The content of a file is decided by the tables and what the store holds.
  content_of-same :
      (w v : World S) (j : Bytes)
      → v.repo.db ≡ w.repo.db
      → ((q : Bytes) → holds v.blobs q ≡ holds w.blobs q)
      → content_of E S holds v j ≡ content_of E S holds w j
  unfolding content_of
  content_of-same w v j db keeps = elim (Option-cases (find_file j w.repo.db.files)) [
    | inl absent ↦ ground arith
    | inr (f, there) ↦ elim (Option-cases (find_storage f.storage_hash w.repo.db.storage)) [
      | inl lost ↦ ground arith
      | inr (s, stored) ↦ ground (arith, keeps s.storage_path)
    ]
  ]

  pub upload_shows :
      (content : Bytes) (header : FileHeader) (w : World S) (j : Bytes)
      → IsWell w
      → content_of E S holds (upload E S content header w).1 j
        ≡ uploaded content (upload E S content header w).0 (content_of E S holds w) j
  upload_shows content header w j c =
      let fresh = IsIssued-HasFreshIds E S holds w new c.issued in
      elim (Result-cases (upload E S content header w).0) [
        | inl (file, done) ↦
            content_of-upload E S holds up L names content header w file c.consistent fresh
              (alone content) done j
            ∙ ap (λ (r : Result File). uploaded content r (content_of E S holds w) j) (sym done)
        | inr (e, failed) ↦
            content_of-upload_failed E S holds up L names content header w e fresh failed j
            ∙ ap (λ (r : Result File). uploaded content r (content_of E S holds w) j) (sym failed)
      ]

  pub delete_shows :
      (id : Bytes) (w : World S) (j : Bytes)
      → IsWell w
      → content_of E S holds (delete E S id w).1 j
        ≡ deleted (E.read_uuid id) (delete E S id w).0 (content_of E S holds w) j
  delete_shows id w j c = elim (delete_cases E S up holds sums id w c.consistent) [
    | inl (done, _) ↦
        let (u, reads, shown) =
          content_of-delete E S holds up L names sums id w c.consistent done in
        shown j
        ∙ ap (λ (o : Option Bytes). deleted o (ok tt) (content_of E S holds w) j) (sym reads)
        ∙ ap (λ (r : Result (Unit {0})). deleted (E.read_uuid id) r (content_of E S holds w) j)
            (sym done)
    | inr (e, failed, db, blobs) ↦
        content_of-same w _ j db (λ q. ap (λ (b : S.State). holds b q) blobs)
        ∙ ap (λ (r : Result (Unit {0})). deleted (E.read_uuid id) r (content_of E S holds w) j)
            (sym failed)
  ]

  pub download_shows :
      (id : Bytes) (w : World S) (j : Bytes)
      → content_of E S holds (download E S id w).1 j ≡ content_of E S holds w j
  download_shows id w j = content_of-same w _ j (db-download E S id w) (holds-download id w)

  pub list_shows :
      (w : World S) (j : Bytes)
      → content_of E S holds (list_files E S w).1 j ≡ content_of E S holds w j
  list_shows w j =
      content_of-same w _ j (db-list_files E S w)
        (λ q. ap (λ (b : S.State). holds b q) (blobs-list_files w).0)

  uploaded-ap :
      (content : Bytes) (r : Result File) (m k : View) (j : Bytes)
      → m j ≡ k j
      → uploaded content r m j ≡ uploaded content r k j
  uploaded-ap content (ok file) m k j e =
      ap (λ (o : Option Bytes). if file.id == j then some content else o) e
  uploaded-ap content (err x) m k j e = e

  deleted-ap :
      (id : Option Bytes) (r : Result (Unit {0})) (m k : View) (j : Bytes)
      → m j ≡ k j
      → deleted id r m j ≡ deleted id r k j
  deleted-ap (some u) (ok _) m k j e = ap (λ (o : Option Bytes). if u == j then none else o) e
  deleted-ap none (ok _) m k j e = e
  deleted-ap id (err x) m k j e = e

  -- After any sequence of uploads, downloads, deletions and listings, the content of each file is
  -- what the uploads and deletions that succeeded make of the contents at the start: an upload
  -- adds its content under the identifier of its file, a deletion takes away the file whose
  -- identifier the given text spells, and no other call changes anything. Every statement is carried out, the store is lawful and every
  -- identifier is a name of it, no identifier is drawn twice, checksums are not empty and have no
  -- collisions, and the start is consistent with its identifiers drawn.
  pub run-content_of :
      (w v : World S)
      → (r : Runs E S w v) → IsConsistent E S holds w
      → Issued E S w
      → (j : Bytes) → content_of E S holds v j ≡ replay E S (content_of E S holds w) r j
  unfolding replay
  run-content_of w v r c drawn j = shown v r
    where
      start : IsWell w
      start = record { consistent = c; issued = drawn }

      shown :
          (v : World S) (r : Runs E S w v)
          → content_of E S holds v j ≡ replay E S (content_of E S holds w) r j
      shown _ stop = refl
      shown _ (upload_next content header v r) =
          upload_shows content header v j (run-IsWell w v r start)
          ∙ uploaded-ap content (upload E S content header v).0 _ _ j (shown v r)
      shown _ (download_next id v r) = download_shows id v j ∙ shown v r
      shown _ (delete_next id v r) =
          delete_shows id v j (run-IsWell w v r start)
          ∙ deleted-ap (E.read_uuid id) (delete E S id v).0 _ _ j (shown v r)
      shown _ (list_next v r) = list_shows v j ∙ shown v r

  -- Every world that a sequence of uploads, downloads, deletions and listings reaches from a
  -- consistent world with its identifiers drawn is consistent, failing calls of the store and of
  -- the cache included, if every statement is carried out, the store is lawful and every
  -- identifier is a name of it, no identifier is drawn twice, and checksums are not empty and have
  -- no collisions.
  pub run-IsConsistent :
      (w v : World S)
      → Runs E S w v
      → IsConsistent E S holds w
      → Issued E S w
      → IsConsistent E S holds v
  run-IsConsistent w v r c drawn =
      (run-IsWell w v r (record { consistent = c; issued = drawn })).consistent
