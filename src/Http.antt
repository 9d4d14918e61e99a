-- ===== src/Http.antt =====
-- What the program uses of net/http's client, and the server at the other end, which is a parameter.
use pot_play_storage.Prelude.{ℕ, Bytes, Option, none, some, nat_eq, Bool, ◌||◌}
use pot_play_storage.Model.Encoding.{Json}
use pot_play_storage.Errors.{Error, Result, err}

pub data Method : Type 0 where
  get_method : Method
  post_method : Method
  put_method : Method
  delete_method : Method

-- `form_file` is a multipart form with one file: the field, the name of the file and its content.
pub data Body : Type 0 where
  no_body : Body
  form_file : Bytes → Bytes → Bytes → Body
  json_body : Bytes → Body

pub record Request : Type 0 where
  pub method : Method
  pub url : Bytes
  pub body : Body

pub record Response : Type 0 where
  pub status : ℕ
  pub body : Bytes

-- `refuses` is the error of http.NewRequest for a URL. `send` is Client.Do, with the body of the
-- response read. `write_json` is the text of
-- a JSON value, `read_json` takes a text apart, and `mismatch` is the error for a JSON value
-- that does not fit the type it is decoded into.
pub record Http : Type 1 where
  pub State : Type 0
  pub refuses : Bytes → Option Error
  pub send : Request → State → Result Response × State
  pub write_json : Json → Bytes
  pub read_json : Bytes → Result Json
  pub mismatch : Error

-- http.NewRequestWithContext and Client.Do
abbrev pub exchange : (H : Http) → Request → H.State → Result Response × H.State
exchange H r s = elim (H.refuses r.url) [ some e ↦ (err e, s) | none ↦ H.send r s ]

-- http.StatusOK, http.StatusCreated
abbrev pub is_stored : ℕ → Bool
is_stored status = nat_eq status 201 || nat_eq status 200
