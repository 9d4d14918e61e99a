-- ===== src/Repository/Listing.antt =====
-- List of internal/repository/file.go, twice: from the tables, and from the cache.
use pot_play_storage.Prelude.{ℕ, suc, ◌≡◌, List, none, some, false, arith, ==_iff, map}
use pot_play_storage.Model.{File}
use pot_play_storage.Model.Encoding.{marshal_files}
use pot_play_storage.Model.Json.{without_paths, unmarshal-marshal_files}
use pot_play_storage.Errors.{ok}
use pot_play_storage.Environment.{Env}
use pot_play_storage.Repository.{list, read_list}
use pot_play_storage.Repository.Calls.{Repo, cached, cache_get, cache_set, list_key}

module _ (E : Env) (up : (n : ℕ) → E.cache_fault n ≡ false) where
  cached-list :
      (r : Repo) (files : List File)
      → cached list_key r.cache ≡ none
      → (list E r).0 ≡ ok files
      → cached list_key (list E r).1.cache ≡ some (marshal_files files)
  unfolding list read_list cached cache_set cache_get
  cached-list r files miss e =
      ground (arith, up r.cache_calls, up (suc r.cache_calls), ==_iff list_key list_key)

  list-cached :
      (r : Repo) (files : List File)
      → cached list_key r.cache ≡ some (marshal_files files)
      → (list E r).0 ≡ ok (map without_paths files)
  unfolding list cache_get
  list-cached r files hit = ground (arith, up r.cache_calls, unmarshal-marshal_files files)

  -- A listing that succeeded without the cache is given again by the next one, from the cache, whole
  -- and in order and without the paths, if every call of the cache is carried out and whatever the
  -- database does.
  pub list_again :
      (r : Repo) (files : List File)
      → cached list_key r.cache ≡ none
      → (list E r).0 ≡ ok files
      → (list E (list E r).1).0 ≡ ok (map without_paths files)
  list_again r files miss first = list-cached (list E r).1 files (cached-list r files miss first)
