-- ===== src/Model.antt =====
-- internal/model/file.go. A time is the number of its instant; an int64 and an int are a ℤ.
pub mod Encoding
pub mod Json
use pot_play_storage.Prelude.{ℕ, Bytes, Option, none, some, [], ◌==◌, if◌then◌else◌}
use pot_play_storage.Prelude.Int.{ℤ}

-- A unique file content with its reference count. The rows of the table `storage` are these.
pub record Storage : Type 0 where
  pub hash : Bytes
  pub size : ℤ
  pub content_type : Bytes
  pub storage_path : Bytes
  pub reference_count : ℤ
  pub created_at : ℕ
  pub updated_at : ℕ

pub record File : Type 0 where
  pub id : Bytes
  pub name : Bytes
  pub storage_hash : Bytes
  pub created_at : ℕ
  -- a nil pointer is `none`
  pub storage : Option Storage
  pub size : ℤ
  pub content_type : Bytes
  pub storage_path : Bytes
  pub checksum : Bytes

pub record FileHeader : Type 0 where
  pub name : Bytes
  pub size : ℤ
  pub content_type : Bytes

unfoldable pub get_size : File → ℤ
get_size f = elim f.storage [ some s ↦ s.size | none ↦ f.size ]

unfoldable pub get_content_type : File → Bytes
get_content_type f = elim f.storage [ some s ↦ s.content_type | none ↦ f.content_type ]

unfoldable pub get_storage_path : File → Bytes
get_storage_path f = elim f.storage [ some s ↦ s.storage_path | none ↦ f.storage_path ]

unfoldable pub get_checksum : File → Bytes
get_checksum f = if f.storage_hash == [] then f.checksum else f.storage_hash
