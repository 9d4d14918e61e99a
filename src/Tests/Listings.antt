-- ===== src/Tests/Listings.antt =====
-- The theorems on listings at two files.
use pot_play_storage.Prelude.{◌≡◌, refl, [], ◌∷◌, none, some, codes, map}
use pot_play_storage.Prelude.Int.{pos}
use pot_play_storage.Model.Json.{without_paths}
use pot_play_storage.Errors.{ok}
use pot_play_storage.Environment.{Env}
use pot_play_storage.Database.{FileRow}
use pot_play_storage.Repository.{list, read_list, list_joined, rows_read}
use pot_play_storage.Repository.Calls.{Repo, cache_get, query, cached}
use pot_play_storage.Repository.Listing.{list_again}
use pot_play_storage.Tests.{calm, first_record, stored_world}

abbrev second_row : FileRow
second_row = record {
  id = codes "second";
  name = codes "b.txt";
  storage_hash = codes "#hi";
  created_at = 5;
  size = none;
  content_type = none;
  storage_path = none;
  checksum = none;
}

-- Two files of one content, and nothing in the cache.
abbrev two_files : Repo
two_files = record stored_world.repo {
  db = record {
    storage = record first_record { reference_count = pos 2 } ∷ [];
    files = second_row ∷ stored_world.repo.db.files;
  };
  cache = [];
}

-- Every listing breaks off after its first row.
abbrev cut_short : Env
cut_short = record calm { rows_cut = λ n. some 1 }

list_again_example :
    (list calm (list calm two_files).1).0 ≡ ok (map without_paths (list_joined calm two_files.db))
unfolding list read_list rows_read cache_get query cached
list_again_example = list_again calm (λ n. refl) two_files (list_joined calm two_files.db) refl refl
