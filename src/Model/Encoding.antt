-- ===== src/Model/Encoding.antt =====
-- The JSON of internal/model/file.go: encoding/json's Marshal and Unmarshal as the struct tags of
-- Storage and File direct them. A time is a value of its own, for its text is not modelled. Texts
-- are taken to be valid UTF-8, as the database's are.
use pot_play_storage.Prelude.{
  ℕ, Bytes, codes, List, [], ◌∷◌, Option, none, some, Bool, false, ◌==◌, if◌then◌else◌,
}
use pot_play_storage.Prelude.Int.{ℤ, pos, is_zero}
use pot_play_storage.Model.{Storage, File}

mutual
  pub data Json : Type 0 where
    null : Json
    str : Bytes → Json
    num : ℤ → Json
    bool : Bool → Json
    time : ℕ → Json
    obj : Fields → Json
    arr : Items → Json

  pub data Fields : Type 0 where
    end : Fields
    field : Bytes → Json → Fields → Fields

  pub data Items : Type 0 where
    nil : Items
    item : Json → Items → Items

-- A field with `omitempty`: it is left out if it is empty.
abbrev pub field_unless : Bool → Bytes → Json → Fields → Fields
field_unless empty key v rest = if empty then rest else field key v rest

-- `storage_path` has the tag "-".
unfoldable pub marshal_storage : Storage → Json
marshal_storage s = obj (
    field (codes "hash") (str s.hash) (
      field (codes "size") (num s.size) (
        field (codes "content_type") (str s.content_type) (
          field (codes "reference_count") (num s.reference_count) (
            field (codes "created_at") (time s.created_at)
              (field (codes "updated_at") (time s.updated_at) end))))))

unfoldable pub storage_field : Option Storage → Fields → Fields
unfolding marshal_storage
storage_field none rest = rest
storage_field (some s) rest = field (codes "storage") (marshal_storage s) rest

unfoldable pub marshal_file : File → Json
unfolding storage_field
marshal_file f = obj (
    field (codes "id") (str f.id) (
      field (codes "name") (str f.name) (
        field (codes "storage_hash") (str f.storage_hash) (
          field (codes "created_at") (time f.created_at) (
            storage_field f.storage (
              field_unless (is_zero f.size) (codes "size") (num f.size) (
                field_unless (f.content_type == []) (codes "content_type") (str f.content_type)
                  (field_unless (f.checksum == []) (codes "checksum") (str f.checksum) end))))))))

unfoldable pub marshal_items : List File → Items
unfolding marshal_file
marshal_items [] = nil
marshal_items (f ∷ fs) = item (marshal_file f) (marshal_items fs)

-- A nil slice is null.
unfoldable pub marshal_files : List File → Json
unfolding marshal_items
marshal_files [] = null
marshal_files (f ∷ fs) = arr (marshal_items (f ∷ fs))

-- The value of a key, which is null if the object lacks it: either leaves the field at zero.
unfoldable pub get_key : Bytes → Fields → Json
get_key key end = null
get_key key (field k v rest) = if k == key then v else get_key key rest

abbrev pub read_str : Json → Option Bytes
read_str null = some []
read_str (str s) = some s
read_str _ = none

abbrev pub read_num : Json → Option ℤ
read_num null = some (pos 0)
read_num (num n) = some n
read_num _ = none

abbrev pub read_bool : Json → Option Bool
read_bool null = some false
read_bool (bool b) = some b
read_bool _ = none

-- The zero time is the instant 0.
abbrev pub read_time : Json → Option ℕ
read_time null = some 0
read_time (time n) = some n
read_time _ = none

infixl 5 ◌>>=◌
abbrev pub ◌>>=◌ {ℓ κ} : {A : Type ℓ} {B : Type κ} → Option A → (A → Option B) → Option B
none >>= f = none
some a >>= f = f a

pub read_storage : Fields → Option Storage
unfolding get_key
read_storage fs = do
  hash ← read_str (get_key (codes "hash") fs)
  size ← read_num (get_key (codes "size") fs)
  content_type ← read_str (get_key (codes "content_type") fs)
  reference_count ← read_num (get_key (codes "reference_count") fs)
  created_at ← read_time (get_key (codes "created_at") fs)
  updated_at ← read_time (get_key (codes "updated_at") fs)
  some (record {
    hash = hash;
    size = size;
    content_type = content_type;
    storage_path = [];
    reference_count = reference_count;
    created_at = created_at;
    updated_at = updated_at;
  })

-- The pointer: null leaves it nil.
pub read_pointer : Json → Option (Option Storage)
unfolding read_storage
read_pointer null = some none
read_pointer (obj fs) = do s ← read_storage fs; some (some s)
read_pointer _ = none

pub read_file : Fields → Option File
unfolding read_pointer
read_file fs = do
  id ← read_str (get_key (codes "id") fs)
  name ← read_str (get_key (codes "name") fs)
  storage_hash ← read_str (get_key (codes "storage_hash") fs)
  created_at ← read_time (get_key (codes "created_at") fs)
  storage ← read_pointer (get_key (codes "storage") fs)
  size ← read_num (get_key (codes "size") fs)
  content_type ← read_str (get_key (codes "content_type") fs)
  checksum ← read_str (get_key (codes "checksum") fs)
  some (record {
    id = id;
    name = name;
    storage_hash = storage_hash;
    created_at = created_at;
    storage = storage;
    size = size;
    content_type = content_type;
    storage_path = [];
    checksum = checksum;
  })

-- json.Unmarshal into a File; an error is `none`.
unfoldable pub unmarshal_file : Json → Option File
unfolding read_file
unmarshal_file null = read_file end
unmarshal_file (obj fs) = read_file fs
unmarshal_file _ = none

unfoldable pub unmarshal_items : Items → Option (List File)
unfolding unmarshal_file
unmarshal_items nil = some []
unmarshal_items (item j rest) = do f ← unmarshal_file j; fs ← unmarshal_items rest; some (f ∷ fs)

-- json.Unmarshal into a []File
unfoldable pub unmarshal_files : Json → Option (List File)
unfolding unmarshal_items
unmarshal_files null = some []
unmarshal_files (arr items) = unmarshal_items items
unmarshal_files _ = none
