-- ===== src/Service/State.antt =====
-- The service's world is consistent: the tables agree, and every row of `storage` has its content
-- stored under its path. A client's view of it is the content of each file.
use pot_play_storage.Prelude.Int.{pos}
use pot_play_storage.Prelude.{ℕ, length, suc, ◌≡◌, ◌≢◌, Bytes, [], Option, none, some}
use pot_play_storage.Model.{Storage}
use pot_play_storage.Environment.{Env}
use pot_play_storage.Database.{Db, find_storage, find_file}
use pot_play_storage.Database.Counts.{IsCounted, IsFreePath}
use pot_play_storage.Backend.{StorageBackend, IsLawful}
use pot_play_storage.Service.{World}

module _ (E : Env) (S : StorageBackend) (holds : S.State → Bytes → Option Bytes) where
  -- Each row's content lies under its path, which has been drawn, and has the row's checksum and
  -- size.
  abbrev pub IsHeld : Db → S.State → Type 0
  IsHeld db blobs =
      (h : Bytes) (s : Storage)
      → find_storage h db.storage ≡ some s
      → (content : Bytes) × (holds blobs s.storage_path ≡ some content)
        × (E.checksum content ≡ h)
        × (s.size ≡ pos (length content))
        × (n : ℕ) × (s.storage_path ≡ E.uuid n)

  -- Every identifier is a name of the store.
  abbrev pub HasNames : IsLawful S holds → Type 0
  HasNames L = (n : ℕ) → L.IsName (E.uuid n)

  pub record IsConsistent (w : World S) : Type 0 where
    pub tables : IsCounted w.repo.db
    pub held : IsHeld w.repo.db w.blobs

  -- The content that a file stands for.
  unfoldable pub content_of : World S → Bytes → Option Bytes
  content_of w id = elim (find_file id w.repo.db.files) [
    | none ↦ none
    | some f ↦ elim (find_storage f.storage_hash w.repo.db.storage) [
      | none ↦ none
      | some s ↦ holds w.blobs s.storage_path
    ]
  ]

  -- The next identifiers are new: the path and the file's identifier.
  pub record HasFreshIds (w : World S) : Type 0 where
    pub path : IsFreePath (E.uuid w.uuids) w.repo.db
    pub id : find_file (E.uuid (suc w.uuids)) w.repo.db.files ≡ none

-- A checksum is never empty: SHA-256 in hexadecimal has 64 digits.
abbrev pub HasChecksums : Env → Type 0
HasChecksums E = (content : Bytes) → E.checksum content ≢ []
