-- ===== src/Tests/Histories.antt =====
-- The theorems on sequences of calls at an upload and a deletion, and on an upload that fails.
use pot_play_storage.Prelude.{ℕ, ◌≤◌, ◌≡◌, refl, ap, [], some, none, codes, Bytes-discrete, arith}
use pot_play_storage.Prelude.Int.{pos}
use pot_play_storage.Model.{File, Storage, FileHeader}
use pot_play_storage.Errors.{Error, Result, err}
use pot_play_storage.Database.{FileRow, find_file, find_storage, references}
use pot_play_storage.Backend.Memory
use pot_play_storage.Backend.Memory.{memory, memory-IsLawful}
use pot_play_storage.Validator.{validate_file, validate_filename}
use pot_play_storage.Service.{World, upload, delete}
use pot_play_storage.Service.State.{IsConsistent, content_of}
use pot_play_storage.Service.Issued.{Issued, HasNewIds}
use pot_play_storage.Service.Refused.{content_of-upload_failed}
use pot_play_storage.Service.Runs.{Runs, stop, upload_next, delete_next, run_keeps_contents}
use pot_play_storage.Service.History.{replay, run-content_of, run-IsConsistent}
use pot_play_storage.Tests.{
  calm-HasNames, calm, calm-IsUp, calm-HasChecksums, calm-HasNoCollision, hi, header, empty_world,
  empty_world-IsConsistent, empty_world-HasFreshIds, first_file, first_upload,
}

pub calm-HasNewIds : HasNewIds calm
calm-HasNewIds n m e = ground arith

pub empty_world-Issued : Issued calm memory empty_world
unfolding find_storage find_file
empty_world-Issued = record {
  paths = λ h s e. absurd (ground arith);
  ids = λ j f e. absurd (ground arith);
}

abbrev uploaded_world : World memory
uploaded_world = (upload calm memory hi header empty_world).1

one_upload : Runs calm memory empty_world uploaded_world
one_upload = upload_next hi header empty_world stop

abbrev emptied_world : World memory
emptied_world = (delete calm memory first_file.id uploaded_world).1

two_calls : Runs calm memory empty_world emptied_world
two_calls = delete_next first_file.id uploaded_world one_upload

run-content_of_example :
    content_of calm memory Memory.at emptied_world first_file.id
    ≡ replay calm memory (content_of calm memory Memory.at empty_world) two_calls first_file.id
run-content_of_example =
    run-content_of calm memory Memory.at calm-IsUp memory-IsLawful calm-HasNames calm-HasChecksums
      calm-HasNewIds calm-HasNoCollision empty_world emptied_world two_calls
      empty_world-IsConsistent empty_world-Issued first_file.id

run-IsConsistent_example : IsConsistent calm memory Memory.at emptied_world
run-IsConsistent_example =
    run-IsConsistent calm memory Memory.at calm-IsUp memory-IsLawful calm-HasNames calm-HasChecksums
      calm-HasNewIds calm-HasNoCollision empty_world emptied_world two_calls
      empty_world-IsConsistent empty_world-Issued

abbrev first_row : FileRow
first_row = record {
  id = first_file.id;
  name = codes "a.txt";
  storage_hash = codes "#hi";
  created_at = 0;
  size = none;
  content_type = none;
  storage_path = none;
  checksum = none;
}

there : find_file first_file.id uploaded_world.repo.db.files ≡ some first_row
unfolding find_file Bytes-discrete
there =
    ap (λ (p : Result File × World memory). find_file first_file.id p.1.repo.db.files) first_upload

run_keeps_contents_example :
    (s : Storage) × (n : ℕ) × (find_storage (codes "#hi") uploaded_world.repo.db.storage ≡ some s)
    × (s.reference_count ≡ pos n)
    × (references (codes "#hi") uploaded_world.repo.db.files ≤ n)
run_keeps_contents_example =
    run_keeps_contents calm memory empty_world uploaded_world one_upload refl first_file.id
      first_row there

-- Nothing is uploaded with a name that is refused.
abbrev unnamed : FileHeader
unnamed = record header { name = [] }

abbrev no_name : Error
no_name = Error.wrapped (codes "invalid filename") Error.filename_too_short

refused : (upload calm memory hi unnamed empty_world).0 ≡ err no_name
unfolding upload validate_file validate_filename
refused = refl

content_of-upload_failed_example :
    content_of calm memory Memory.at (upload calm memory hi unnamed empty_world).1 first_file.id
    ≡ content_of calm memory Memory.at empty_world first_file.id
content_of-upload_failed_example =
    content_of-upload_failed calm memory Memory.at calm-IsUp memory-IsLawful calm-HasNames hi
      unnamed empty_world no_name empty_world-HasFreshIds refused first_file.id
