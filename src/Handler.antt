-- ===== src/Handler.antt =====
-- internal/handler/file.go: the HTTP handlers over the service. The form, the detected media type and
-- whether the client takes all bytes come from outside; the logger is left out.
pub mod Replies
pub mod Names
pub mod Lengths
use pot_play_storage.Prelude.{
  ℕ, Bytes, codes, List, [], ◌∷◌, ◌++◌, Option, none, some, ◌==◌, length, if◌then◌else◌, Bool,
}
use pot_play_storage.Prelude.Int.{ℤ, is_zero, is_above}
use pot_play_storage.Model.{File, FileHeader, get_content_type, get_size}
use pot_play_storage.Errors.{Error, message, Result, ok, err}
use pot_play_storage.Errors.Sanitize.{sanitize_error}
use pot_play_storage.Environment.{Env}
use pot_play_storage.Validator.{validate_file, sanitize_filename}
use pot_play_storage.Backend.{StorageBackend}
use pot_play_storage.Service
use pot_play_storage.Service.{World, list_files}

-- A file of the form: what Open, DetectReader and Seek gave, and the bytes of the reader.
pub record FormFile : Type 0 where
  pub filename : Bytes
  pub size : ℤ
  pub opened : Option Error
  pub detected : Result Bytes
  pub rewound : Option Error
  pub content : Bytes

-- The headers that depend on the file, and those that do not.
pub record Headers : Type 0 where
  pub content_type : Bytes
  pub content_disposition : Bytes
  pub content_length : ℤ
  pub fixed : List (Bytes × Bytes)

pub data Reply : Type 0 where
  -- c.JSON(status, gin.H{"error": ...})
  error_reply : ℕ → Bytes → Reply
  created : File → Reply
  no_content : Reply
  listing : List File → ℕ → Reply
  streamed : Headers → Bytes → Reply
  -- the client did not take all bytes
  broken : Headers → Reply

-- The status that the handler asks for.
abbrev pub status : Reply → ℕ
status (error_reply n m) = n
status (created f) = 201
status no_content = 204
status (listing fs n) = 200
status (streamed h c) = 200
status (broken h) = 500

abbrev pub id_required : Reply
id_required = error_reply 400 (codes "file ID required")

-- fmt.Sprintf("<kind>; filename=\"%s\"", name)
abbrev pub disposition : Bytes → Bytes → Bytes
disposition kind name = kind ++ (codes "; filename=\"" ++ (name ++ codes "\""))

abbrev pub safe_name : Bytes → File → Bytes
safe_name id file = if file.name == [] then codes "file_" ++ id else file.name

abbrev pub max_form_size : ℕ
max_form_size = 104857600

module _ (E : Env) (S : StorageBackend) where
  abbrev pub Handler : Type 0
  Handler = World S → Reply × World S

  -- FileHandler.Upload, from the validation on.
  unfoldable pub store : FileHeader → Bytes → Handler
  store header content w = elim (validate_file E.case_tables (some header)) [
    | some e ↦ (error_reply 400 (message e), w)
    | none ↦
        let (res, w') = Service.upload E S content header w in
        elim res [
          | err e ↦ (error_reply 500 (sanitize_error E.case_tables (some e)), w')
          | ok file ↦ (created file, w')
        ]
  ]

  unfoldable pub process : FormFile → Handler
  process file w = elim file.opened [
    | some e ↦ (error_reply 400 (codes "failed to process file"), w)
    | none ↦ elim file.detected [
      | err e ↦ (error_reply 400 (codes "invalid file format"), w)
      | ok mime ↦ elim file.rewound [
        | some e ↦ (error_reply 500 (codes "file processing error"), w)
        | none ↦
            store
              (record {
                name = sanitize_filename file.filename;
                size = file.size;
                content_type = mime;
              })
              file.content w
      ]
    ]
  ]

  unfoldable pub upload : Result FormFile → Handler
  upload (err e) w = (error_reply 400 (codes "invalid file upload"), w)
  upload (ok file) w =
      if is_zero file.size
      then (error_reply 400 (codes "empty file not allowed"), w)
      else if is_above file.size max_form_size
      then (error_reply 400 (codes "file too large"), w)
      else process file w

  abbrev pub download_headers : Bytes → File → Headers
  download_headers id file = record {
    content_type = get_content_type file;
    content_disposition = disposition (codes "attachment") (safe_name id file);
    content_length = get_size file;
    fixed =
        (codes "Cache-Control", codes "no-cache, no-store, must-revalidate")
        ∷ (codes "Pragma", codes "no-cache")
        ∷ (codes "Expires", codes "0")
        ∷ (codes "X-Content-Type-Options", codes "nosniff")
        ∷ [];
  }

  abbrev pub view_headers : Bytes → File → Headers
  view_headers id file = record {
    content_type = get_content_type file;
    content_disposition = disposition (codes "inline") (safe_name id file);
    content_length = get_size file;
    fixed =
        (codes "Cache-Control", codes "max-age=3600")
        ∷ (codes "X-Content-Type-Options", codes "nosniff")
        ∷ [];
  }

  -- io.Copy: whether the client takes all bytes.
  abbrev stream : Bool → Headers → Bytes → Reply
  stream taken h content = if taken then streamed h content else broken h

  -- What Download and View share.
  unfoldable pub send : (Bytes → File → Headers) → Bytes → Bool → Handler
  send headers id taken w =
      if id == []
      then (id_required, w)
      else (let (res, w') = Service.download E S id w in
          elim res [
            | err e ↦ (error_reply 404 (codes "file not found"), w')
            | ok (content, file) ↦ (stream taken (headers id file) content, w')
          ])

  unfoldable pub download : Bytes → Bool → Handler
  unfolding send
  download = send download_headers

  unfoldable pub view : Bytes → Bool → Handler
  unfolding send
  view = send view_headers

  unfoldable pub delete : Bytes → Handler
  delete id w =
      if id == []
      then (id_required, w)
      else (let (res, w') = Service.delete E S id w in
          elim res [
            | err e ↦ (error_reply 500 (sanitize_error E.case_tables (some e)), w')
            | ok _ ↦ (no_content, w')
          ])

  unfoldable pub list : Handler
  list w =
      let (res, w') = list_files E S w in
      elim res [
        | err e ↦ (error_reply 500 (sanitize_error E.case_tables (some e)), w')
        | ok files ↦ (listing files (length files), w')
      ]
