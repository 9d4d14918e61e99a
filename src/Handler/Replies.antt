-- ===== src/Handler/Replies.antt =====
-- What a reply says about the world, and what a client may learn from it.
use mathlib.Core.Path.{subst}
use pot_play_storage.Prelude.{
  ◌≡◌, refl, sym, ap, ◌∙◌, ◌⊎◌, inl, inr, Bytes, codes, [], ◌∷◌, Option, some, arith, Bool-cases,
  Option-cases, ◌==◌, if◌then◌else◌, List,
}
use pot_play_storage.Prelude.Int.{is_zero, is_above}
use pot_play_storage.Model.{File, FileHeader}
use pot_play_storage.Errors.{Result-cases, Error, Result, ok, err}
use pot_play_storage.Errors.Sanitize.{sanitize_error}
use pot_play_storage.Errors.Secrecy.{IsOneOf, sentences, sanitize_error_closed}
use pot_play_storage.Environment.{Env, IsUp}
use pot_play_storage.Validator.{validate_file, sanitize_filename}
use pot_play_storage.Backend.{StorageBackend, IsLawful}
use pot_play_storage.Service
use pot_play_storage.Service.{World, list_files}
use pot_play_storage.Service.State.{IsConsistent, HasFreshIds, content_of, HasNames}
use pot_play_storage.Service.View.{content_of-upload, HasNoCollision}
use pot_play_storage.Handler.{
  FormFile, Reply, error_reply, created, status, store, process, upload, delete, list,
  max_form_size,
}

abbrev pub form_header : FormFile → Bytes → FileHeader
form_header file mime = record {
  name = sanitize_filename file.filename;
  size = file.size;
  content_type = mime;
}

-- The texts of a reply with the status 500.
abbrev pub internal_texts : List Bytes
internal_texts = codes "file processing error" ∷ sentences

module _ (E : Env) (S : StorageBackend) where
  store_refused :
      (header : FileHeader) (content : Bytes) (w : World S)
      → status (store E S header content w).0 ≡ 400
      → (store E S header content w).1 ≡ w
  unfolding store
  store_refused header content w bad =
      elim (Option-cases (validate_file E.case_tables (some header))) [
        | inr (e, refused) ↦ rw (refused, store) refl
        | inl accepted ↦ elim (Result-cases (Service.upload E S content header w).0) [
          | inl (file, done) ↦ absurd (ground arith)
          | inr (e, failed) ↦ absurd (ground arith)
        ]
      ]

  abbrev pub Outcome : FormFile → World S → Reply × World S → Type 0
  Outcome f w out =
      ((m : Bytes) × (out ≡ (error_reply 400 m, w)))
      ⊎ (out ≡ (error_reply 500 (codes "file processing error"), w))
      ⊎ ((mime : Bytes) × (f.detected ≡ ok mime)
          × (out ≡ store E S (form_header f mime) f.content w))

  process_cases : (f : FormFile) (w : World S) → Outcome f w (process E S f w)
  unfolding process
  process_cases f w = elim (Option-cases f.opened) [
    | inr (e, failed) ↦ inl (codes "failed to process file", rw (failed, process) refl)
    | inl opened ↦ elim (Result-cases f.detected) [
      | inr (e, failed) ↦ inl (codes "invalid file format", rw (opened, failed, process) refl)
      | inl (mime, detected) ↦ elim (Option-cases f.rewound) [
        | inr (e, failed) ↦ inr (inl (rw (opened, detected, failed, process) refl))
        | inl rewound ↦ inr (inr (mime, detected, rw (opened, detected, rewound, process) refl))
      ]
    ]
  ]

  -- A form is refused before the validation, or its file is handed on with its sanitized name.
  pub upload_cases : (f : FormFile) (w : World S) → Outcome f w (upload E S (ok f) w)
  unfolding upload
  upload_cases f w = elim (Bool-cases (is_zero f.size)) [
    | inl empty ↦ inl (codes "empty file not allowed", rw (empty, upload) refl)
    | inr sized ↦ elim (Bool-cases (is_above f.size max_form_size)) [
      | inl large ↦ inl (codes "file too large", rw (sized, large, upload) refl)
      | inr small ↦ rw (sized, small, upload) (process_cases f w)
    ]
  ]

  -- An upload that is answered with the status 400 has changed nothing, whichever check refused it.
  pub upload_refused :
      (form : Result FormFile) (w : World S)
      → status (upload E S form w).0 ≡ 400
      → (upload E S form w).1 ≡ w
  unfolding upload
  upload_refused (err e) w bad = refl
  upload_refused (ok f) w bad = elim (upload_cases f w) [
    | inl (m, out) ↦ ap (λ (o : Reply × World S). o.1) out
    | inr (inl out) ↦ ap (λ (o : Reply × World S). o.1) out
    | inr (inr (mime, detected, out)) ↦
        ap (λ (o : Reply × World S). o.1) out
        ∙ store_refused (form_header f mime) f.content w
            (ap (λ (o : Reply × World S). status o.0) (sym out) ∙ bad)
  ]

  store_created :
      (header : FileHeader) (content : Bytes) (w : World S) (file : File)
      → (store E S header content w).0 ≡ created file
      → ((Service.upload E S content header w).0 ≡ ok file)
        × ((store E S header content w).1 ≡ (Service.upload E S content header w).1)
  unfolding store
  store_created header content w file made =
      elim (Option-cases (validate_file E.case_tables (some header))) [
        | inr (e, refused) ↦ absurd (ground arith)
        | inl accepted ↦ (ground arith, ground arith)
      ]

  upload_created :
      (f : FormFile) (w : World S) (file : File)
      → (upload E S (ok f) w).0 ≡ created file
      → (mime : Bytes) × (f.detected ≡ ok mime)
        × ((Service.upload E S f.content (form_header f mime) w).0 ≡ ok file)
        × ((upload E S (ok f) w).1 ≡ (Service.upload E S f.content (form_header f mime) w).1)
  upload_created f w file made = elim (upload_cases f w) [
    | inl (m, out) ↦ absurd (ground (arith, ap (λ (o : Reply × World S). o.0) out))
    | inr (inl out) ↦ absurd (ground (arith, ap (λ (o : Reply × World S). o.0) out))
    | inr (inr (mime, detected, out)) ↦
        let (done, left) =
          store_created (form_header f mime) f.content w file
            (ap (λ (o : Reply × World S). o.0) (sym out) ∙ made) in
        (mime, detected, done, ap (λ (o : Reply × World S). o.1) out ∙ left)
  ]

  sanitized_closed :
      (e : Error) (m : Bytes)
      → error_reply 500 (sanitize_error E.case_tables (some e)) ≡ error_reply 500 m
      → IsOneOf m sentences
  sanitized_closed e m same =
      let text : sanitize_error E.case_tables (some e) ≡ m = ground arith in
      subst (λ (x : Bytes). IsOneOf x sentences) text (sanitize_error_closed E.case_tables e)

  store_internal :
      (header : FileHeader) (content : Bytes) (w : World S) (m : Bytes)
      → (store E S header content w).0 ≡ error_reply 500 m
      → IsOneOf m sentences
  unfolding store
  store_internal header content w m failed =
      elim (Option-cases (validate_file E.case_tables (some header))) [
        | inr (e, refused) ↦ absurd (ground arith)
        | inl accepted ↦ elim (Result-cases (Service.upload E S content header w).0) [
          | inl (file, done) ↦ absurd (ground arith)
          | inr (e, error) ↦ sanitized_closed e m (rw (accepted, error, store) at failed)
        ]
      ]

  -- A reply with the status 500 has one of seven fixed texts, whatever failed behind it: an upload,
  -- a deletion and a listing pass nothing on of the text of an error.
  pub internal_error_closed :
      (form : Result FormFile) (id m : Bytes) (w : World S)
      → (((upload E S form w).0 ≡ error_reply 500 m)
          ⊎ ((delete E S id w).0 ≡ error_reply 500 m)
          ⊎ ((list E S w).0 ≡ error_reply 500 m))
      → IsOneOf m internal_texts
  unfolding upload delete list
  internal_error_closed (err e) id m w (inl failed) = absurd (ground arith)
  internal_error_closed (ok f) id m w (inl failed) = elim (upload_cases f w) [
    | inl (n, out) ↦ absurd (ground (arith, ap (λ (o : Reply × World S). o.0) out))
    | inr (inl out) ↦ inl (ground (arith, ap (λ (o : Reply × World S). o.0) out))
    | inr (inr (mime, detected, out)) ↦ inr (
        store_internal (form_header f mime) f.content w m
          (ap (λ (o : Reply × World S). o.0) (sym out) ∙ failed))
  ]
  internal_error_closed form id m w (inr (inl failed)) = elim (Bool-cases (id == [])) [
    | inl empty ↦ absurd (ground arith)
    | inr named ↦ elim (Result-cases (Service.delete E S id w).0) [
      | inl (_, done) ↦ absurd (ground arith)
      | inr (e, error) ↦ inr (sanitized_closed e m (rw (named, error, delete) at failed))
    ]
  ]
  internal_error_closed form id m w (inr (inr failed)) = elim (Result-cases (list_files E S w).0) [
    | inl (files, done) ↦ absurd (ground arith)
    | inr (e, error) ↦ inr (sanitized_closed e m (rw (error, list) at failed))
  ]

module _ (E : Env) (S : StorageBackend) (holds : S.State → Bytes → Option Bytes) where
  -- An upload that is answered with the status 201 has stored the bytes of the form under the
  -- identifier of the file in the reply, and has left every other file's content as it was. Every
  -- statement is carried out, the store is lawful and every identifier is a name of it, the world
  -- is consistent with new identifiers ahead, and no other content has the same checksum.
  pub created-content_of :
      IsUp E
      → (L : IsLawful S holds) → HasNames E S holds L
      → (f : FormFile) (w : World S) (file : File) → IsConsistent E S holds w
      → HasFreshIds E S holds w
      → HasNoCollision E f.content
      → (upload E S (ok f) w).0 ≡ created file
      → (j : Bytes)
      → content_of E S holds (upload E S (ok f) w).1 j
        ≡ (if file.id == j then some f.content else content_of E S holds w j)
  created-content_of up L names f w file c fresh alone made j =
      let (mime, _, done, left) = upload_created E S f w file made in
      ap (λ (v : World S). content_of E S holds v j) left
      ∙ content_of-upload E S holds up L names f.content (form_header f mime) w file c fresh alone
          done j
