-- ===== src/Backend.antt =====
-- pkg/storage/interface.go: what the service asks of a store of bytes, and what it relies on. A
-- reader is the bytes that it gives; Put reads it to its end.
pub mod Memory
use pot_play_storage.Prelude.{
  ℕ, Bytes, List, Option, none, some, ◌≡◌, ◌≢◌, ◌==◌, length, if◌then◌else◌,
}
use pot_play_storage.Prelude.Int.{ℤ, pos}
use pot_play_storage.Errors.{Result, ok, err}

pub record StorageBackend : Type 1 where
  pub State : Type 0
  -- path, what the reader gives, the declared size
  pub put : Bytes → Bytes → ℤ → State → Result ℤ × State
  pub get : Bytes → State → Result Bytes × State
  pub delete : Bytes → State → Result (Unit {0}) × State
  pub list : Bytes → State → Result (List Bytes) × State

-- `holds s path` is what is stored under a path. A store may know several spellings of a place, so
-- its laws speak of the paths that are names, and nothing is held under any other. A call may fail;
-- Put and Delete then leave other paths alone, and a Put or Delete that does not fail does what it
-- says.
pub record IsLawful (S : StorageBackend) (holds : S.State → Bytes → Option Bytes) : Type 1 where
  pub IsName : Bytes → Type 0
  pub put_ok :
      (p content q : Bytes) (size n : ℤ) (s : S.State)
      → IsName p
      → (S.put p content size s).0 ≡ ok n
      → holds (S.put p content size s).1 q ≡ (if p == q then some content else holds s q)
  pub put_size :
      (p content : Bytes) (size n : ℤ) (s : S.State)
      → IsName p
      → (S.put p content size s).0 ≡ ok n
      → n ≡ pos (length content)
  pub put_other :
      (p content q : Bytes) (size : ℤ) (s : S.State)
      → IsName p
      → p ≢ q
      → holds (S.put p content size s).1 q ≡ holds s q
  pub get_ok :
      (p content : Bytes) (s : S.State)
      → IsName p
      → (S.get p s).0 ≡ ok content
      → holds s p ≡ some content
  pub get_keeps : (p q : Bytes) (s : S.State) → holds (S.get p s).1 q ≡ holds s q
  pub delete_ok :
      (p : Bytes) (s : S.State)
      → IsName p
      → (S.delete p s).0 ≡ ok tt
      → holds (S.delete p s).1 p ≡ none
  pub delete_other :
      (p q : Bytes) (s : S.State) → IsName p → p ≢ q → holds (S.delete p s).1 q ≡ holds s q

-- A store whose reads find what is there.
pub record IsReadable (S : StorageBackend) (holds : S.State → Bytes → Option Bytes) : Type 0 where
  pub get_held :
      (p content : Bytes) (s : S.State) → holds s p ≡ some content → (S.get p s).0 ≡ ok content
