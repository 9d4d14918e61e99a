-- ===== src/Service.antt =====
-- internal/service/storage.go: StorageService over a store and the repository. A method takes the
-- service's world to its result and the new world; the logger is left out.
pub mod State
pub mod Held
pub mod Outcomes
pub mod Upload
pub mod Released
pub mod Delete
pub mod Stored
pub mod View
pub mod Removal
pub mod Download
pub mod Faults
pub mod Sound
pub mod Drawn
pub mod Issued
pub mod Refused
pub mod History
pub mod Runs
use pot_play_storage.Prelude.{ℕ, suc, Bytes, List, none, some, if◌then◌else◌}
use pot_play_storage.Prelude.Int.{ℤ, pos, is_zero}
use pot_play_storage.Model.{Storage, File, FileHeader, get_storage_path}
use pot_play_storage.Errors.{Result, ok, err}
use pot_play_storage.Environment.{Env}
use pot_play_storage.Validator.{validate_file}
use pot_play_storage.Backend.{StorageBackend}
use pot_play_storage.Repository.{
  get_storage_by_hash, create_storage, increment_storage_ref, decrement_storage_ref, delete_storage,
  create_file_reference, get_by_id, get_storage_hash_by_file_id, delete_by_id, list,
}
use pot_play_storage.Repository.Calls.{Repo}

module _ (S : StorageBackend) where
  -- The counters say how many identifiers have been drawn and how often the clock was read.
  pub record World : Type 0 where
    pub repo : Repo
    pub blobs : S.State
    pub uuids : ℕ
    pub instants : ℕ

-- calculateFileHash, for what the reader gives
abbrev pub calculate_file_hash : Env → Result Bytes → Result Bytes
calculate_file_hash E (err e) = err e
calculate_file_hash E (ok content) = ok (E.checksum content)

module _ (E : Env) (S : StorageBackend) where
  abbrev pub Action : Type 0 → Type 0
  Action A = World S → Result A × World S

  abbrev pub on_repo : {A : Type 0} → (Repo → Result A × Repo) → Action A
  on_repo call w = let (res, r) = call w.repo in (res, record w { repo = r })

  abbrev pub on_blobs : {A : Type 0} → (S.State → Result A × S.State) → Action A
  on_blobs call w = let (res, b) = call w.blobs in (res, record w { blobs = b })

  -- The file record of an upload whose content is stored already.
  abbrev pub reference_to : Storage → Bytes → ℕ → FileHeader → Bytes → File
  reference_to existing id now header sum = record {
    id = id;
    name = header.name;
    storage_hash = sum;
    created_at = now;
    storage = some existing;
    size = existing.size;
    content_type = existing.content_type;
    storage_path = existing.storage_path;
    checksum = existing.hash;
  }

  -- storage.go, 75-86: the reference is taken back if the file cannot be created.
  finish_reference : File → Bytes → Action File
  finish_reference file sum w =
      let (res, w') = on_repo (create_file_reference E file) w in
      elim res [
        | ok _ ↦ (ok file, w')
        | err e ↦ (err e, (on_repo (decrement_storage_ref E sum) w').1)
      ]

  -- storage.go, 50-87: the new copy goes, and the content gets one more reference.
  unfoldable pub add_reference : Bytes → Bytes → Storage → FileHeader → Action File
  unfolding finish_reference
  add_reference path sum existing header w =
      let w1 = (on_blobs (S.delete path) w).1 in
      let (res, w2) = on_repo (increment_storage_ref E sum) w1 in
      elim res [
        | err e ↦ (err e, w2)
        | ok _ ↦
            finish_reference
              (reference_to existing (E.uuid w2.uuids) (E.now w2.instants) header sum) sum
              (record w2 { uuids = suc w2.uuids; instants = suc w2.instants })
      ]

  abbrev pub storage_record : Bytes → ℤ → FileHeader → Bytes → ℕ → Storage
  storage_record sum size header path now = record {
    hash = sum;
    size = size;
    content_type = header.content_type;
    storage_path = path;
    reference_count = pos 1;
    created_at = now;
    updated_at = now;
  }

  -- storage.go, 107-133: the record and the content are to go if the file cannot be created.
  unfoldable pub finish_content : File → Bytes → Bytes → Action File
  finish_content file sum path w =
      let (res, w1) = on_repo (create_file_reference E file) w in
      elim res [
        | ok _ ↦ (ok file, w1)
        | err e ↦
            let w2 = (on_repo (delete_storage E sum) w1).1 in
            (err e, (on_blobs (S.delete path) w2).1)
      ]

  -- storage.go, 90-133
  unfoldable pub add_content : Bytes → Bytes → ℤ → FileHeader → Action File
  unfolding finish_content
  add_content path sum size header w =
      let now = E.now w.instants in
      let w1 = record w { instants = suc w.instants } in
      let s = storage_record sum size header path now in
      let (res, w2) = on_repo (create_storage E s) w1 in
      elim res [
        | err e ↦ (err e, (on_blobs (S.delete path) w2).1)
        | ok _ ↦
            finish_content (reference_to s (E.uuid w2.uuids) now header sum) sum path
              (record w2 { uuids = suc w2.uuids })
      ]

  -- storage.go, 45-49: any error of the lookup counts as "not stored".
  deduplicate : Bytes → Bytes → ℤ → FileHeader → Action File
  unfolding add_reference add_content
  deduplicate path sum size header w =
      let (existing, w') = on_repo (get_storage_by_hash E sum) w in
      elim existing [
        | ok s ↦ add_reference path sum s header w'
        | err _ ↦ add_content path sum size header w'
      ]

  -- storage.go, 34-45
  store_content : Bytes → FileHeader → Action File
  unfolding deduplicate
  store_content content header w =
      let path = E.uuid w.uuids in
      let (res, w') =
        on_blobs (S.put path content header.size) (record w { uuids = suc w.uuids }) in
      elim res [
        | err e ↦ (err e, w')
        | ok size ↦ deduplicate path (E.checksum content) size header w'
      ]

  unfoldable pub upload : Bytes → FileHeader → Action File
  unfolding store_content
  upload content header w = elim (validate_file E.case_tables (some header)) [
    | some e ↦ (err e, w)
    | none ↦ store_content content header w
  ]

  unfoldable pub download : Bytes → Action (Bytes × File)
  unfolding get_storage_path
  download id w =
      let (res, w1) = on_repo (get_by_id E id) w in
      elim res [
        | err e ↦ (err e, w1)
        | ok file ↦
            let (content, w2) = on_blobs (S.get (get_storage_path file)) w1 in
            elim content [ err e ↦ (err e, w2) | ok c ↦ (ok (c, file), w2) ]
      ]

  -- storage.go, 177-203: what is left of a content without references goes. Errors are logged only.
  clean_up : Bytes → World S → World S
  clean_up hash w =
      let (res, w1) = on_repo (get_storage_by_hash E hash) w in
      elim res [
        | err _ ↦ w1
        | ok s ↦
            let w2 = (on_blobs (S.delete s.storage_path) w1).1 in
            (on_repo (delete_storage E hash) w2).1
      ]

  -- A failed decrement leaves newRefCount at its zero value.
  abbrev new_count : Result ℤ → ℤ
  new_count (ok n) = n
  new_count (err _) = pos 0

  -- storage.go, 164-205
  unfoldable pub release : Bytes → World S → World S
  unfolding clean_up
  release hash w =
      let (res, w') = on_repo (decrement_storage_ref E hash) w in
      if is_zero (new_count res) then clean_up hash w' else w'

  unfoldable pub delete : Bytes → Action (Unit {0})
  unfolding release
  delete id w =
      let (res, w1) = on_repo (get_storage_hash_by_file_id E id) w in
      elim res [
        | err e ↦ (err e, w1)
        | ok hash ↦
            let (deleted, w2) = on_repo (delete_by_id E id) w1 in
            elim deleted [ err e ↦ (err e, w2) | ok _ ↦ (ok tt, release hash w2) ]
      ]

  -- StorageService.List
  unfoldable pub list_files : Action (List File)
  list_files = on_repo (list E)
