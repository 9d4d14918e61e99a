-- ===== src/Model/Json.antt =====
-- A file comes back from its JSON without the paths that the struct tags leave out.
use pot_play_storage.Prelude.{
  Bytes, codes, List, [], ◌∷◌, Option, none, some, Bool, true, false, ◌==◌, if◌then◌else◌, ◌≡◌,
  refl, Bytes-discrete, arith, map, ap,
}
use pot_play_storage.Prelude.Int.{ℤ, pos, is_zero}
use pot_play_storage.Model.{Storage, File}
use pot_play_storage.Model.Encoding.{
  field_unless, marshal_storage, storage_field, marshal_file, marshal_items, marshal_files,
  unmarshal_file, unmarshal_items, unmarshal_files, Json, str, num, time, obj, end, field,
}

-- A file without the paths that JSON leaves out.
abbrev pub without_paths : File → File
without_paths f = record f {
  storage = elim f.storage [ none ↦ none | some s ↦ some (record s { storage_path = [] }) ];
  storage_path = [];
}

-- A value that is left out when it is empty comes back empty.
empty_num : (n : ℤ) → (if is_zero n then pos 0 else n) ≡ n
empty_num n = ground arith

empty_str : (s : Bytes) → (if s == [] then [] else s) ≡ s
empty_str s = ground arith

module _ (f : File) where
  tail_fields : Option Storage → Bool → Bool → Bool → Json
  unfolding storage_field
  tail_fields storage no_size no_type no_sum = obj (
      field (codes "id") (str f.id) (
        field (codes "name") (str f.name) (
          field (codes "storage_hash") (str f.storage_hash) (
            field (codes "created_at") (time f.created_at) (
              storage_field storage (
                field_unless no_size (codes "size") (num f.size) (
                  field_unless no_type (codes "content_type") (str f.content_type)
                    (field_unless no_sum (codes "checksum") (str f.checksum) end))))))))

  abbrev rebuild : Option Storage → ℤ × Bytes × Bytes → Option File
  rebuild storage (size, content_type, checksum) = some (
      without_paths (record f {
        storage = storage;
        size = size;
        content_type = content_type;
        checksum = checksum;
      }))

  triple :
      {n m : ℤ} {s t u v : Bytes}
      → n ≡ m
      → s ≡ t
      → u ≡ v
      → ◌≡◌ {A = ℤ × Bytes × Bytes} (n, s, u) (m, t, v)
  triple p q r = λ i. (p i, q i, r i)

  -- Each way of leaving fields out reads back alike.
  unmarshal-tail :
      (storage : Option Storage) (no_size no_type no_sum : Bool)
      → (if no_size then pos 0 else f.size) ≡ f.size
      → (if no_type then [] else f.content_type) ≡ f.content_type
      → (if no_sum then [] else f.checksum) ≡ f.checksum
      → unmarshal_file (tail_fields storage no_size no_type no_sum)
        ≡ some (without_paths (record f { storage = storage }))
  unfolding unmarshal_file tail_fields marshal_storage Bytes-discrete
  unmarshal-tail none true true true hs ht hk = ap (rebuild none) (triple hs ht hk)
  unmarshal-tail none true true false hs ht hk = ap (rebuild none) (triple hs ht hk)
  unmarshal-tail none true false true hs ht hk = ap (rebuild none) (triple hs ht hk)
  unmarshal-tail none true false false hs ht hk = ap (rebuild none) (triple hs ht hk)
  unmarshal-tail none false true true hs ht hk = ap (rebuild none) (triple hs ht hk)
  unmarshal-tail none false true false hs ht hk = ap (rebuild none) (triple hs ht hk)
  unmarshal-tail none false false true hs ht hk = ap (rebuild none) (triple hs ht hk)
  unmarshal-tail none false false false hs ht hk = ap (rebuild none) (triple hs ht hk)
  unmarshal-tail (some s) true true true hs ht hk = ap (rebuild (some s)) (triple hs ht hk)
  unmarshal-tail (some s) true true false hs ht hk = ap (rebuild (some s)) (triple hs ht hk)
  unmarshal-tail (some s) true false true hs ht hk = ap (rebuild (some s)) (triple hs ht hk)
  unmarshal-tail (some s) true false false hs ht hk = ap (rebuild (some s)) (triple hs ht hk)
  unmarshal-tail (some s) false true true hs ht hk = ap (rebuild (some s)) (triple hs ht hk)
  unmarshal-tail (some s) false true false hs ht hk = ap (rebuild (some s)) (triple hs ht hk)
  unmarshal-tail (some s) false false true hs ht hk = ap (rebuild (some s)) (triple hs ht hk)
  unmarshal-tail (some s) false false false hs ht hk = ap (rebuild (some s)) (triple hs ht hk)

-- What comes back from JSON is the file without its paths, whether fields were left out or not.
pub unmarshal-marshal_file : (f : File) → unmarshal_file (marshal_file f) ≡ some (without_paths f)
unfolding marshal_file tail_fields
unmarshal-marshal_file f =
    unmarshal-tail f f.storage (is_zero f.size) (f.content_type == []) (f.checksum == [])
      (empty_num f.size) (empty_str f.content_type) (empty_str f.checksum)

unmarshal-marshal_items :
    (fs : List File) → unmarshal_items (marshal_items fs) ≡ some (map without_paths fs)
unfolding unmarshal_items marshal_items
unmarshal-marshal_items [] = refl
unmarshal-marshal_items (f ∷ fs) = rw (unmarshal-marshal_file f, unmarshal-marshal_items fs)

-- A cached list comes back whole and in order, each file without its paths.
pub unmarshal-marshal_files :
    (fs : List File) → unmarshal_files (marshal_files fs) ≡ some (map without_paths fs)
unfolding unmarshal_files marshal_files
unmarshal-marshal_files [] = refl
unmarshal-marshal_files (f ∷ fs) = unmarshal-marshal_items (f ∷ fs)
