-- ===== src/Service/Download.antt =====
-- What a download gives: the content of the file, but not from the cache.
use pot_play_storage.Prelude.{
  ℕ, suc, ◌≡◌, ap, ◌∙◌, inl, inr, Bytes, [], Option, none, some, arith, Option-cases, false, ==_iff,
}
use pot_play_storage.Model.{Storage, File, get_storage_path}
use pot_play_storage.Model.Json.{without_paths, unmarshal-marshal_file}
use pot_play_storage.Model.Encoding.{marshal_file}
use pot_play_storage.Errors.{Error, ok, err}
use pot_play_storage.Environment.{Env, IsUp}
use pot_play_storage.Database.{FileRow, find_storage, find_file}
use pot_play_storage.Database.Laws.{id-find_file}
use pot_play_storage.Backend.{StorageBackend, IsReadable}
use pot_play_storage.Repository.{get_by_id, read_by_id}
use pot_play_storage.Repository.Calls.{Repo, cached, file_key, cache_set, at_uuid}
use pot_play_storage.Repository.Rows.{joined}
use pot_play_storage.Repository.Laws.{get_by_id_up}
use pot_play_storage.Service.{World, download}
use pot_play_storage.Service.State.{content_of}

-- Every call of the cache is carried out.
abbrev pub IsCacheUp : Env → Type 0
IsCacheUp E = (n : ℕ) → E.cache_fault n ≡ false

module _ (E : Env) (S : StorageBackend) (holds : S.State → Bytes → Option Bytes) where
  -- What is read for such a file: its row of `files` with the row of `storage` whose path holds the
  -- content.
  abbrev pub Joined : World S → Bytes → Bytes → Bytes → Type 0
  Joined w id u content =
      (f : FileRow) × (s : Storage) × (find_file u w.repo.db.files ≡ some f)
      × (find_storage f.storage_hash w.repo.db.storage ≡ some s)
      × (holds w.blobs s.storage_path ≡ some content)
      × ((download E S id w).0 ≡ ok (content, joined f s))

  pub download-Joined :
      IsUp E
      → IsReadable S holds
      → (id u : Bytes) (w : World S) (content : Bytes) → cached (file_key id) w.repo.cache ≡ none
      → E.read_uuid id ≡ some u
      → content_of E S holds w u ≡ some content
      → Joined w id u content
  unfolding download content_of get_storage_path joined find_file
  download-Joined up R id u w content miss reads shown =
      elim (Option-cases (find_file u w.repo.db.files)) [
        | inl absent ↦ absurd (ground arith)
        | inr (f, there) ↦ elim (Option-cases (find_storage f.storage_hash w.repo.db.storage)) [
          | inl lost ↦ absurd (ground arith)
          | inr (s, stored) ↦
              let read =
                get_by_id_up E id u w.repo f s (up w.repo.statements) miss reads there stored in
              let lies : holds w.blobs s.storage_path ≡ some content = ground arith in
              (
                f,
                s,
                there,
                stored,
                lies,
                ground (arith, read, R.get_held s.storage_path content w.blobs),
              )
        ]
      ]

  -- A file that has a content is downloaded with that content, under its own identifier, by every
  -- text that spells the identifier and under which the cache has no entry, if every statement is carried out and the store finds what it holds.
  pub download-content_of :
      IsUp E
      → IsReadable S holds
      → (id u : Bytes) (w : World S) (content : Bytes) → cached (file_key id) w.repo.cache ≡ none
      → E.read_uuid id ≡ some u
      → content_of E S holds w u ≡ some content
      → (file : File) × ((download E S id w).0 ≡ ok (content, file)) × (file.id ≡ u)
  unfolding joined
  download-content_of up R id u w content miss reads shown =
      let (f, s, there, stored, lies, read) =
        download-Joined up R id u w content miss reads shown in
      (joined f s, read, id-find_file u w.repo.db.files there)

module _ (E : Env) where
  -- A cached file comes back without its paths.
  pub get_by_id-cached :
      (id : Bytes) (r : Repo) (file : File)
      → E.cache_fault r.cache_calls ≡ false
      → cached (file_key id) r.cache ≡ some (marshal_file file)
      → (get_by_id E id r).0 ≡ ok (without_paths file)
  unfolding get_by_id
  get_by_id-cached id r file up hit = ground (arith, unmarshal-marshal_file file)

  -- A file that is read from the tables is put into the cache.
  pub cached-get_by_id :
      (id : Bytes) (r : Repo) (file : File)
      → IsCacheUp E
      → cached (file_key id) r.cache ≡ none
      → (get_by_id E id r).0 ≡ ok file
      → cached (file_key id) (get_by_id E id r).1.cache ≡ some (marshal_file file)
  unfolding get_by_id read_by_id cached cache_set at_uuid
  cached-get_by_id id r file up miss e =
      ground (arith, up r.cache_calls, up (suc r.cache_calls), ==_iff (file_key id) (file_key id))

  get_storage_path-without_paths : (file : File) → get_storage_path (without_paths file) ≡ []
  unfolding get_storage_path
  get_storage_path-without_paths file = ground arith

module _ (E : Env) (S : StorageBackend) where
  download_repo :
      (id : Bytes) (w : World S) (content : Bytes) (file : File)
      → (download E S id w).0 ≡ ok (content, file)
      → ((get_by_id E id w.repo).0 ≡ ok file)
        × ((download E S id w).1.repo ≡ (get_by_id E id w.repo).1)
  unfolding download
  download_repo id w content file e = (ground arith, ground arith)

  download_path :
      (id : Bytes) (w : World S) (file : File) (path : Bytes) (e : Error)
      → (get_by_id E id w.repo).0 ≡ ok file
      → get_storage_path file ≡ path
      → (S.get path w.blobs).0 ≡ err e
      → (download E S id w).0 ≡ err e
  unfolding download
  download_path id w file path e found at refused =
      ground (arith, ap (λ (p : Bytes). (S.get p w.blobs).0) at)

  -- Right after a successful download of a file that was not in the cache, a second download asks
  -- the store for the empty path: if the store fails on that path, the download fails with the
  -- same error. This is so whenever every call of the cache is carried out, whatever the database
  -- does.
  pub download_again :
      (id : Bytes) (w : World S) (content : Bytes) (file : File) (e : Error)
      → IsCacheUp E
      → cached (file_key id) w.repo.cache ≡ none
      → (download E S id w).0 ≡ ok (content, file)
      → (S.get [] (download E S id w).1.blobs).0 ≡ err e
      → (download E S id (download E S id w).1).0 ≡ err e
  download_again id w content file e up miss first refused =
      let (found, repo) = download_repo id w content file first in
      let w' = (download E S id w).1 in
      let kept : cached (file_key id) w'.repo.cache ≡ some (marshal_file file) =
        ap (λ (r : Repo). cached (file_key id) r.cache) repo
        ∙ cached-get_by_id E id w.repo file up miss found in
      download_path id w' (without_paths file) [] e
        (get_by_id-cached E id w'.repo file (up w'.repo.cache_calls) kept)
        (get_storage_path-without_paths E file) refused
