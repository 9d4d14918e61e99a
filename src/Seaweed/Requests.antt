-- ===== src/Seaweed/Requests.antt =====
-- The requests of pkg/storage/seaweedfs.go, and what it makes of the responses.
use pot_play_storage.Prelude.{
  ℕ, ◌+◌, ◌/◌, ◌%◌, ◌-◌, Bool, ◌||◌, ◌&&◌, List, [], ◌∷◌, ◌++◌, Option, none, some, Bytes, codes,
  ◌==◌, nat_eq, ltb, leb, if◌then◌else◌,
}
use pot_play_storage.Prelude.Int.{ℤ}
use pot_play_storage.Errors.{external, Error, Result, ok, err}
use pot_play_storage.Model.Encoding.{◌>>=◌}
use pot_play_storage.Model.Encoding.{
  Json, null, str, obj, Fields, end, field, get_key, read_str, read_num,
}
use pot_play_storage.Http.{
  Request, Response, get_method, post_method, put_method, no_body, form_file, json_body,
}
use pot_play_storage.Seaweed.{Entry, is_directory, status_error}

-- AssignResponse
pub record Assignment : Type 0 where
  pub file_id : Bytes
  pub url : Bytes
  pub public_url : Bytes
  pub count : ℤ
  pub error : Bytes

pub read_assignment_fields : Fields → Option Assignment
unfolding get_key
read_assignment_fields fs = do
  file_id ← read_str (get_key (codes "fid") fs)
  url ← read_str (get_key (codes "url") fs)
  public_url ← read_str (get_key (codes "publicUrl") fs)
  count ← read_num (get_key (codes "count") fs)
  error ← read_str (get_key (codes "error") fs)
  some (record {
    file_id = file_id;
    url = url;
    public_url = public_url;
    count = count;
    error = error;
  })

unfoldable pub read_assignment : Json → Option Assignment
unfolding read_assignment_fields
read_assignment null = read_assignment_fields end
read_assignment (obj fs) = read_assignment_fields fs
read_assignment _ = none

abbrev pub checked : Result Assignment → Result Assignment
checked (err e) = err e
checked (ok a) = if a.error == [] then ok a else err (external (codes "assign error: " ++ a.error))

-- The requests of Put, in their order.
abbrev pub assign_request : Bytes → Request
assign_request master_url = record {
  method = get_method;
  url = master_url ++ codes "/dir/assign";
  body = no_body;
}

abbrev pub volume_request : Assignment → Bytes → Bytes → Request
volume_request a path content = record {
  method = post_method;
  url = codes "http://" ++ (a.url ++ (b'/' ∷ a.file_id));
  body = form_file (codes "file") path content;
}

abbrev pub directory_request : Bytes → Bytes → Request
directory_request filer_url directory = record {
  method = post_method;
  url = filer_url ++ (b'/' ∷ directory ++ codes "/");
  body = no_body;
}

abbrev pub mapping_request : Bytes → Bytes → Bytes → Request
mapping_request filer_url path text = record {
  method = put_method;
  url = filer_url ++ (b'/' ∷ path ++ codes "?metadata=true");
  body = json_body text;
}

unfoldable pub but_last : List Bytes → List Bytes
but_last [] = []
but_last (x ∷ []) = []
but_last (x ∷ y ∷ xs) = x ∷ but_last (y ∷ xs)

-- {"fid": id}
abbrev pub metadata : Bytes → Json
metadata file_id = obj (field (codes "fid") (str file_id) end)

-- A response with a status that is not accepted is an error.
abbrev pub accept_status : Bytes → (ℕ → Bool) → Result Response → Option Error
accept_status text accepted (err e) = some e
accept_status text accepted (ok r) =
    if accepted r.status then none else some (status_error text r.status)

-- The bytes that url.QueryEscape leaves as they are.
abbrev pub is_unreserved : ℕ → Bool
is_unreserved c =
    (leb b'a' c && leb c b'z')
    || (leb b'A' c && leb c b'Z')
    || (leb b'0' c && leb c b'9')
    || nat_eq c b'-'
    || nat_eq c b'_'
    || nat_eq c b'.'
    || nat_eq c b'~'

abbrev pub hex_digit : ℕ → ℕ
hex_digit d = if ltb d 10 then b'0' + d else b'A' + (d - 10)

-- url.QueryEscape(s)
unfoldable pub query_escape : Bytes → Bytes
query_escape [] = []
query_escape (c ∷ s) =
    let rest = query_escape s in
    if is_unreserved c
    then c ∷ rest
    else if nat_eq c b' '
    then b'+' ∷ rest
    else b'%' ∷ hex_digit (c / 16) ∷ hex_digit (c % 16) ∷ rest

-- url.Values.Encode() of the parameters, which it sorts by their keys
unfoldable pub list_query : Bytes → Bytes
unfolding query_escape
list_query prefix =
    if prefix == []
    then codes "pretty=y"
    else codes "namePattern=" ++ (query_escape (prefix ++ codes "*") ++ codes "&pretty=y")

unfoldable pub file_paths : List Entry → List Bytes
file_paths [] = []
file_paths (e ∷ entries) =
    let rest = file_paths entries in if is_directory e.mode then rest else e.full_path ∷ rest

abbrev pub listed : Result (List Entry) → Result (List Bytes)
listed (err e) = err e
listed (ok entries) = ok (file_paths entries)

-- The number of bytes that were written, or the error of what came after.
abbrev pub unless_failed : ℤ → Option Error → Result ℤ
unless_failed n none = ok n
unless_failed n (some e) = err e
