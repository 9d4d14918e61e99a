-- ===== src/Tests/Uploads.antt =====
-- The theorems on uploads and deletions at a first upload into an empty store.
use pot_play_storage.Prelude.{◌≡◌, ap, some, Bytes-discrete}
use pot_play_storage.Model.{File}
use pot_play_storage.Errors.{Result}
use pot_play_storage.Backend.Memory
use pot_play_storage.Backend.Memory.{memory, memory-IsLawful}
use pot_play_storage.Service.{World, upload}
use pot_play_storage.Service.State.{IsConsistent, content_of}
use pot_play_storage.Service.Upload.{upload-IsConsistent}
use pot_play_storage.Service.View.{content_of-upload}
use pot_play_storage.Tests.{
  calm-HasNames, calm, calm-IsUp, calm-HasNoCollision, hi, header, empty_world,
  empty_world-IsConsistent, empty_world-HasFreshIds, first_file, first_upload,
}

upload-IsConsistent_example :
    IsConsistent calm memory Memory.at (upload calm memory hi header empty_world).1
upload-IsConsistent_example =
    upload-IsConsistent calm memory Memory.at calm-IsUp memory-IsLawful calm-HasNames hi header
      empty_world empty_world-IsConsistent empty_world-HasFreshIds

content_of-upload_example :
    content_of calm memory Memory.at (upload calm memory hi header empty_world).1 first_file.id
    ≡ some hi
unfolding Bytes-discrete
content_of-upload_example =
    content_of-upload calm memory Memory.at calm-IsUp memory-IsLawful calm-HasNames hi header
      empty_world first_file empty_world-IsConsistent empty_world-HasFreshIds
      (calm-HasNoCollision hi) (ap (λ (p : Result File × World memory). p.0) first_upload)
      first_file.id
