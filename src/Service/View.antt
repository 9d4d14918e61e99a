-- ===== src/Service/View.antt =====
-- What a client sees: uploads and deletions change the content of the one file that they are about.
use mathlib.Core.Path.{subst₂}
use pot_play_storage.Prelude.{
  ℕ, ◌≡◌, ◌≢◌, refl, sym, ap, ◌∙◌, ◌⊎◌, inl, inr, Bytes, Option, none, some, arith, Option-cases,
  ◌==◌, if◌then◌else◌,
}
use pot_play_storage.Prelude.Int.{ℤ, inc}
use pot_play_storage.Model.{Storage, File, FileHeader}
use pot_play_storage.Errors.{ok}
use pot_play_storage.Environment.{Env, IsUp}
use pot_play_storage.Database.{FileRow, Db, find_storage, find_file}
use pot_play_storage.Database.Laws.{find_storage-replace, references-pos}
use pot_play_storage.Database.Counts.{IsCounted, IsFreePath, with_content, with_reference}
use pot_play_storage.Backend.{StorageBackend, IsLawful}
use pot_play_storage.Service.{World, upload}
use pot_play_storage.Service.Stored.{StoredNew, StoredAgain, upload_ok}
use pot_play_storage.Service.State.{IsConsistent, HasFreshIds, content_of, HasNames}

-- No other content has this checksum.
abbrev pub HasNoCollision : Env → Bytes → Type 0
HasNoCollision E content = (c : Bytes) → E.checksum c ≡ E.checksum content → c ≡ content

module _ (S : StorageBackend) (holds : S.State → Bytes → Option Bytes) where
  unfoldable pub row_content : Db → S.State → Option FileRow → Option Bytes
  row_content db blobs none = none
  row_content db blobs (some f) = elim (find_storage f.storage_hash db.storage) [
    | none ↦ none
    | some s ↦ holds blobs s.storage_path
  ]

  -- The content of a file, from the tables and the store.
  unfoldable pub content_at : Db → S.State → Bytes → Option Bytes
  unfolding row_content
  content_at db blobs id = row_content db blobs (find_file id db.files)

module _ (E : Env) (S : StorageBackend) (holds : S.State → Bytes → Option Bytes) where
  pub content_of-at :
      (w : World S) (id : Bytes)
      → content_of E S holds w id ≡ content_at S holds w.repo.db w.blobs id
  unfolding content_of content_at
  content_of-at w id = ground arith

  module _ (db : Db) (c : IsCounted db) (blobs blobs' : S.State) (path : Bytes)
      (free : IsFreePath path db)
      (keep : (q : Bytes) → path ≢ q → holds blobs' q ≡ holds blobs q) where
    -- A row of the tables keeps its content when a new one is stored under a free path.
    kept_new :
        (s : Storage) (f : FileRow) (row : FileRow) (j : Bytes)
        → find_storage s.hash db.storage ≡ none
        → find_file j db.files ≡ some f
        → row_content S holds (with_content s row db) blobs' (some f)
          ≡ row_content S holds db blobs (some f)
    unfolding row_content find_storage
    kept_new s f row j new there = elim (Option-cases (find_storage f.storage_hash db.storage)) [
      | inl lost ↦
          absurd
            (omega (arith, references-pos j db.files {f = f} there, c.owned f.storage_hash lost))
      | inr (t, stored) ↦
          ground (arith, keep t.storage_path (λ p. free f.storage_hash t stored (sym p)))
    ]

    kept_again :
        (s : Storage) (f : FileRow) (row : FileRow) (now : ℕ) (j : Bytes)
        → find_file j db.files ≡ some f
        → row_content S holds (with_reference s now row db) blobs' (some f)
          ≡ row_content S holds db blobs (some f)
    unfolding row_content
    kept_again s f row now j there = elim (Option-cases (find_storage f.storage_hash db.storage)) [
      | inl lost ↦
          absurd
            (omega (arith, references-pos j db.files {f = f} there, c.owned f.storage_hash lost))
      | inr (t, stored) ↦ ground (
        arith,
        keep t.storage_path (λ p. free f.storage_hash t stored (sym p)),
        find_storage-replace row.storage_hash f.storage_hash (inc s.reference_count) now db.storage,
      )
    ]

  module _ (L : IsLawful S holds) (names : HasNames E S holds L) (content : Bytes)
      (header : FileHeader) (w : World S) (file : File) (c : IsConsistent E S holds w)
      (fresh : HasFreshIds E S holds w) where
    abbrev path : Bytes
    path = E.uuid w.uuids

    abbrev put_blobs : S.State
    put_blobs = (S.put path content header.size w.blobs).1

    abbrev Shown : Db → S.State → (j : Bytes) → Type 0
    Shown db blobs j =
        content_at S holds db blobs j
        ≡ (if file.id == j then some content else content_at S holds w.repo.db w.blobs j)

    put_keeps : (q : Bytes) → path ≢ q → holds put_blobs q ≡ holds w.blobs q
    put_keeps q n = L.put_other path content q header.size w.blobs (names w.uuids) n

    Shown-new :
        (size n : ℤ) (s : Storage) (row : FileRow) (j : Bytes)
        → (S.put path content header.size w.blobs).0 ≡ ok n
        → s.storage_path ≡ path
        → row.id ≡ file.id
        → row.storage_hash ≡ s.hash
        → find_storage s.hash w.repo.db.storage ≡ none
        → Shown (with_content s row w.repo.db) put_blobs j
    unfolding content_at row_content find_storage find_file
    Shown-new size n s row j written at id same new =
        elim (Option-cases (find_file j w.repo.db.files)) [
          | inl absent ↦
              ground (arith, L.put_ok path content path header.size n w.blobs (names w.uuids))
          | inr (f, there) ↦ ground (
            arith,
            L.put_ok path content path header.size n w.blobs (names w.uuids),
            kept_new w.repo.db c.tables w.blobs put_blobs path fresh.path put_keeps s f row j new
                there,
          )
        ]

    delete_keeps : (q : Bytes) → path ≢ q → holds (S.delete path put_blobs).1 q ≡ holds w.blobs q
    delete_keeps q n = L.delete_other path q put_blobs (names w.uuids) n ∙ put_keeps q n

    -- What the store holds for a content with the checksum is the content.
    holds_existing :
        (existing : Storage)
        → HasNoCollision E content
        → find_storage (E.checksum content) w.repo.db.storage ≡ some existing
        → holds (S.delete path put_blobs).1 existing.storage_path ≡ some content
    holds_existing existing alone stored =
        let (old, lies, sum, _, _, _) = c.held (E.checksum content) existing stored in
        delete_keeps existing.storage_path
          (λ p. fresh.path (E.checksum content) existing stored (sym p))
        ∙ lies
        ∙ ap some (alone old sum)

    Shown-again :
        (existing : Storage) (now : ℕ) (row : FileRow) (j : Bytes)
        → HasNoCollision E content
        → row.id ≡ file.id
        → row.storage_hash ≡ E.checksum content
        → find_storage (E.checksum content) w.repo.db.storage ≡ some existing
        → Shown (with_reference existing now row w.repo.db) (S.delete path put_blobs).1 j
    unfolding content_at row_content find_file
    Shown-again existing now row j alone id same stored =
        let replaced =
          find_storage-replace row.storage_hash (E.checksum content) (inc existing.reference_count)
            now w.repo.db.storage in
        elim (Option-cases (find_file j w.repo.db.files)) [
          | inl absent ↦ ground (arith, holds_existing existing alone stored, replaced)
          | inr (f, there) ↦ ground (
            arith,
            holds_existing existing alone stored,
            replaced,
            kept_again w.repo.db c.tables w.blobs (S.delete path put_blobs).1 path fresh.path
                delete_keeps existing f row now j there,
          )
        ]

    Shown-at :
        (j : Bytes) {db : Db} {blobs : S.State}
        → (out : World S) → out.repo.db ≡ db
        → out.blobs ≡ blobs
        → Shown db blobs j
        → content_of E S holds out j
          ≡ (if file.id == j then some content else content_of E S holds w j)
    Shown-at j out e b shown =
        rw (content_of-at, content_of-at)
          (subst₂ (λ (d : Db) (s : S.State). Shown d s j) (sym e) (sym b) shown)

  -- After a successful upload its file has the uploaded content, and every other file has the
  -- content that it had. That holds for a new content and for one that was stored already, if
  -- every statement is carried out, the store is lawful and every identifier is a name of it, the
  -- world is consistent with new identifiers ahead, and no other content has the same checksum.
  pub content_of-upload :
      IsUp E
      → (L : IsLawful S holds) → HasNames E S holds L
      → (content : Bytes) (header : FileHeader) (w : World S) (file : File)
      → IsConsistent E S holds w
      → HasFreshIds E S holds w
      → HasNoCollision E content
      → (upload E S content header w).0 ≡ ok file
      → (j : Bytes)
      → content_of E S holds (upload E S content header w).1 j
        ≡ (if file.id == j then some content else content_of E S holds w j)
  content_of-upload up L names content header w file c fresh alone done j =
      let (id, name, accepted, (n, written), stored) =
        upload_ok E S up content header w file fresh.id done in
      finish n written stored
    where
      out : World S
      out = (upload E S content header w).1

      finish :
          (n : ℤ)
          → (S.put (E.uuid w.uuids) content header.size w.blobs).0 ≡ ok n
          → StoredNew E S
              (E.uuid w.uuids)
              content
              header
              w.repo.db
              (S.put (E.uuid w.uuids) content header.size w.blobs).1
              file
              out
            ⊎ StoredAgain E S
                (E.uuid w.uuids)
                content
                header
                w.repo.db
                (S.put (E.uuid w.uuids) content header.size w.blobs).1
                file
                out
          → content_of E S holds out j
            ≡ (if file.id == j then some content else content_of E S holds w j)
      finish n written (inl s) =
          Shown-at L names content header w file c fresh j out s.tables s.bytes (
            Shown-new L names content header w file c fresh s.size n _ _ j written refl refl s.hash
              s.is_new)
      finish n written (inr s) =
          Shown-at L names content header w file c fresh j out s.tables s.bytes (
            Shown-again L names content header w file c fresh s.existing s.now _ j alone refl s.hash
              s.is_stored)
