-- ===== src/Tests/Deletions.antt =====
-- The theorems on deletions, with working statements and with failing ones.
use pot_play_storage.Prelude.{
  ℕ, ◌≡◌, refl, ◌∷◌, [], some, none, Bytes, codes, Bytes-discrete, arith, nat_eq, ◌==◌,
  if◌then◌else◌,
}
use pot_play_storage.Prelude.Int.{pos}
use pot_play_storage.Errors.{ok, err, external}
use pot_play_storage.Environment.{Env}
use pot_play_storage.Database.{FileRow, find_storage, find_file, delete_file}
use pot_play_storage.Repository.{create_file_reference, get_storage_hash_by_file_id, delete_by_id}
use pot_play_storage.Repository.Calls.{exec, query, at_uuid, cache_del}
use pot_play_storage.Backend.Memory
use pot_play_storage.Backend.Memory.{memory, memory-IsLawful, memory-IsName}
use pot_play_storage.Service.{World, delete, finish_content}
use pot_play_storage.Service.State.{IsConsistent, content_of}
use pot_play_storage.Service.Delete.{delete-IsConsistent}
use pot_play_storage.Service.Removal.{content_of-delete}
use pot_play_storage.Service.Faults.{delete_loses, finish_content_dangling}
use pot_play_storage.Tests.{
  calm-HasNames, calm, calm-IsUp, calm-HasChecksums, hi, stored_world, stored_world-IsConsistent,
  first_file, first_record, spelt,
}

delete-IsConsistent_example :
    IsConsistent calm memory Memory.at (delete calm memory first_file.id stored_world).1
delete-IsConsistent_example =
    delete-IsConsistent calm memory Memory.at calm-IsUp memory-IsLawful calm-HasNames
      calm-HasChecksums first_file.id stored_world stored_world-IsConsistent

-- Another spelling of the identifier deletes the file too.
first_deletion : (delete calm memory (b'U' ∷ 1 ∷ []) stored_world).0 ≡ ok tt
unfolding delete get_storage_hash_by_file_id delete_by_id query exec at_uuid cache_del find_file
    delete_file Bytes-discrete
first_deletion = refl

content_of-delete_example :
    (u : Bytes) × (spelt (b'U' ∷ 1 ∷ []) ≡ some u)
    × ((j : Bytes)
        → content_of calm memory Memory.at (delete calm memory (b'U' ∷ 1 ∷ []) stored_world).1 j
          ≡ (if u == j then none else content_of calm memory Memory.at stored_world j))
content_of-delete_example =
    content_of-delete calm memory Memory.at calm-IsUp memory-IsLawful calm-HasNames
      calm-HasChecksums (b'U' ∷ 1 ∷ []) stored_world stored_world-IsConsistent first_deletion

-- The n-th statement fails.
abbrev failing_at : ℕ → Env
failing_at n = record calm {
  db_fault = λ m. if nat_eq m n then some (external (codes "conn closed")) else none;
}

abbrev row : Bytes → FileRow
row id = record {
  id = id;
  name = codes "a.txt";
  storage_hash = codes "#hi";
  created_at = 0;
  size = none;
  content_type = none;
  storage_path = none;
  checksum = none;
}

-- One content with two files.
abbrev shared_world : World memory
shared_world = record {
  repo = record {
    db = record {
      storage = record first_record { reference_count = pos 2 } ∷ [];
      files = row (codes "second") ∷ row (codes "first") ∷ [];
    };
    cache = [];
    statements = 0;
    cache_calls = 0;
  };
  blobs = (first_record.storage_path, hi) ∷ [];
  uuids = 4;
  instants = 2;
}

delete_loses_example :
    ((delete (failing_at 2) memory (codes "first") shared_world).0 ≡ ok tt)
    × (find_file
          (codes "second")
          (delete (failing_at 2) memory (codes "first") shared_world).1.repo.db.files
        ≡ some (row (codes "second")))
    × (content_of
          (failing_at 2)
          memory
          Memory.at
          (delete (failing_at 2) memory (codes "first") shared_world).1
          (codes "second")
        ≡ none)
unfolding find_file find_storage Bytes-discrete
delete_loses_example =
    delete_loses (failing_at 2) memory Memory.at memory-IsLawful shared_world (row (codes "first"))
      (row (codes "second")) (codes "first") (codes "first") (codes "second")
      (record first_record { reference_count = pos 2 }) (external (codes "conn closed")) refl refl
      refl (ground arith) refl (ground arith) refl refl (memory-IsName first_record.storage_path)
      refl refl refl refl refl

finish_content_dangling_example :
    (let out =
        finish_content
          (failing_at 3)
          memory
          first_file
          (codes "#hi")
          first_record.storage_path
          stored_world in
      (out.0 ≡ err (external (codes "conn closed")))
      × (find_storage (codes "#hi") out.1.repo.db.storage ≡ some first_record)
      × (Memory.at out.1.blobs first_record.storage_path ≡ none))
unfolding create_file_reference exec find_storage Bytes-discrete
finish_content_dangling_example =
    finish_content_dangling (failing_at 3) memory Memory.at memory-IsLawful first_file (codes "#hi")
      stored_world first_record (external (codes "conn closed")) refl refl
      (memory-IsName first_record.storage_path) refl refl
