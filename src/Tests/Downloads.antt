-- ===== src/Tests/Downloads.antt =====
-- The theorems on downloads at a stored file.
use pot_play_storage.Prelude.{Bytes-discrete, ◌≡◌, refl, ◌∷◌, []}
use pot_play_storage.Model.{File}
use pot_play_storage.Errors.{ok, err}
use pot_play_storage.Database.{find_storage, find_file}
use pot_play_storage.Repository.{get_by_id, read_by_id}
use pot_play_storage.Repository.Calls.{cached, cache_get, cache_set, query, at_uuid}
use pot_play_storage.Repository.Rows.{joined, join_by_id}
use pot_play_storage.Backend.Memory
use pot_play_storage.Backend.Memory.{memory, memory-IsReadable, missing}
use pot_play_storage.Service.{download}
use pot_play_storage.Service.State.{content_of}
use pot_play_storage.Service.Download.{download-content_of, download_again}
use pot_play_storage.Tests.{calm, calm-IsUp, hi, stored_world, first_file}

download-content_of_example :
    (file : File) × ((download calm memory (b'U' ∷ 1 ∷ []) stored_world).0 ≡ ok (hi, file))
    × (file.id ≡ first_file.id)
unfolding cached content_of find_file find_storage Bytes-discrete Memory.at
download-content_of_example =
    download-content_of calm memory Memory.at calm-IsUp memory-IsReadable (b'U' ∷ 1 ∷ [])
      first_file.id stored_world hi refl refl refl

download_again_example :
    (download calm memory first_file.id (download calm memory first_file.id stored_world).1).0
    ≡ err missing
unfolding cached download get_by_id read_by_id cache_get cache_set query at_uuid joined join_by_id
    Bytes-discrete Memory.at
download_again_example =
    download_again calm memory first_file.id stored_world hi first_file missing (λ n. refl) refl
      refl refl
