-- ===== src/Tests/Handlers.antt =====
-- The theorems on the handlers at small forms.
use pot_play_storage.Prelude.{
  ◌∷◌, true, length, ◌≡◌, refl, ◌∙◌, inl, ap, [], some, none, Bytes, codes, Bytes-discrete, All,
  arith,
}
use pot_play_storage.Prelude.Int.{pos}
use pot_play_storage.Model.{File}
use pot_play_storage.Errors.{Result, ok, external}
use pot_play_storage.Errors.Secrecy.{IsOneOf}
use pot_play_storage.Strings
use pot_play_storage.Validator.{sanitize_filename}
use pot_play_storage.Backend.Memory
use pot_play_storage.Backend.Memory.{memory, memory-IsLawful, memory-IsReadable}
use pot_play_storage.Service.{World}
use pot_play_storage.Service.State.{content_of}
use pot_play_storage.Handler
use pot_play_storage.Handler.{
  FormFile, Reply, Headers, streamed, error_reply, created, disposition, safe_name, process, store,
}
use pot_play_storage.Handler.Replies.{
  upload_refused, internal_error_closed, internal_texts, created-content_of,
}
use pot_play_storage.Handler.Lengths.{download-content_length}
use pot_play_storage.Database.{find_file, find_storage}
use pot_play_storage.Repository.Calls.{cached}
use pot_play_storage.Handler.Names.{read_filename, read_filename-disposition, IsPrintable}
use pot_play_storage.Tests.{
  calm-HasNames, calm, calm-IsUp, calm-HasNoCollision, hi, tables, header, empty_world,
  empty_world-IsConsistent, empty_world-HasFreshIds, first_file, first_upload, accepted_header,
  accepted_name, stored_world, stored_world-IsConsistent,
}

abbrev form : FormFile
form = record {
  filename = codes "a.txt";
  size = pos 2;
  opened = none;
  detected = ok (codes "text/plain");
  rewound = none;
  content = hi;
}

abbrev empty_form : FormFile
empty_form = record form { size = pos 0 }

upload_refused_example : (Handler.upload calm memory (ok empty_form) empty_world).1 ≡ empty_world
unfolding Handler.upload
upload_refused_example = upload_refused calm memory (ok empty_form) empty_world refl

abbrev stuck_form : FormFile
stuck_form = record form { rewound = some (external (codes "seek /tmp/x: invalid argument")) }

internal_error_closed_example : IsOneOf (codes "file processing error") internal_texts
unfolding Handler.upload process
internal_error_closed_example =
    internal_error_closed calm memory (ok stuck_form) [] (codes "file processing error") empty_world
      (inl refl)

kept_name : sanitize_filename (codes "a.txt") ≡ codes "a.txt"
unfolding sanitize_filename Strings.trim Strings.trim_left Strings.trim_right Bytes-discrete
kept_name = refl

first_stored : (store calm memory header hi empty_world).0 ≡ created first_file
unfolding store
first_stored =
    rw (accepted_header, ap (λ (p : Result File × World memory). p.0) first_upload, store) refl

form_created : (Handler.upload calm memory (ok form) empty_world).0 ≡ created first_file
unfolding Handler.upload process
form_created =
    ap (λ (n : Bytes). (store calm memory (record header { name = n }) hi empty_world).0) kept_name
    ∙ first_stored

created-content_of_example :
    content_of calm memory Memory.at
      (Handler.upload calm memory (ok form) empty_world).1
      first_file.id
    ≡ some hi
unfolding Bytes-discrete
created-content_of_example =
    created-content_of calm memory Memory.at calm-IsUp memory-IsLawful calm-HasNames form
      empty_world first_file empty_world-IsConsistent empty_world-HasFreshIds
      (calm-HasNoCollision hi) form_created first_file.id

read_filename-disposition_example :
    (read_filename
        (codes "inline")
        (disposition (codes "inline") (safe_name first_file.id first_file))
      ≡ some (codes "a.txt", []))
    × All IsPrintable (disposition (codes "inline") (safe_name first_file.id first_file))
read_filename-disposition_example =
    read_filename-disposition tables (codes "inline") first_file.id first_file (ground arith)
      accepted_name

download-content_length_example :
    (h : Headers) × (g : Headers) × ((Handler.download calm memory
        (b'U' ∷ 1 ∷ [])
        true
        stored_world).0
      ≡ streamed h hi)
    × ((Handler.view calm memory (b'U' ∷ 1 ∷ []) true stored_world).0 ≡ streamed g hi)
    × (h.content_length ≡ pos (length hi))
    × (g.content_length ≡ pos (length hi))
unfolding cached content_of find_file find_storage Bytes-discrete Memory.at
download-content_length_example =
    download-content_length calm memory Memory.at calm-IsUp memory-IsReadable (b'U' ∷ 1 ∷ [])
      first_file.id stored_world hi (λ e. ground arith) stored_world-IsConsistent refl refl refl
