-- ===== src/Backend/Memory.antt =====
-- A store in memory, as the tests of internal/service use one: a map from paths to bytes. It shows
-- that the assumptions on a store can be met.
use pot_play_storage.Prelude.{
  Bytes, codes, List, [], ◌∷◌, Option, none, some, ◌≡◌, refl, ◌==◌, length, arith, if◌then◌else◌,
}
use pot_play_storage.Prelude.Int.{pos}
use pot_play_storage.Errors.{Error, external, Result, ok, err}
use pot_play_storage.Backend.{StorageBackend, IsLawful, IsReadable}

abbrev pub Files : Type 0
Files = List (Bytes × Bytes)

unfoldable pub at : Files → Bytes → Option Bytes
at [] p = none
at ((q, c) ∷ m) p = if q == p then some c else at m p

unfoldable pub without : Bytes → Files → Files
without p [] = []
without p ((q, c) ∷ m) = let rest = without p m in if q == p then rest else (q, c) ∷ rest

abbrev pub paths : Files → List Bytes
paths [] = []
paths ((q, c) ∷ m) = q ∷ paths m

pub missing : Error
missing = external (codes "file not found")

abbrev read : Option Bytes → Result Bytes
read none = err missing
read (some c) = ok c

abbrev pub memory : StorageBackend
memory = record {
  State = Files;
  put = λ p content size m. (ok (pos (length content)), (p, content) ∷ without p m);
  get = λ p m. (read (at m p), m);
  delete = λ p m. (ok tt, without p m);
  list = λ prefix m. (ok (paths m), m);
}

pub at-without : (p q : Bytes) (m : Files) → at (without p m) q ≡ (if p == q then none else at m q)
unfolding at without
at-without p q [] = ground arith
at-without p q (_ ∷ m) = ground (arith, at-without p q m)

pub memory-IsLawful : IsLawful memory at
unfolding at
memory-IsLawful = record {
  IsName = λ p. Unit {0};
  put_ok = λ p content q size n m u h. ground (arith, at-without p q m);
  put_size = λ p content size n m u h. ground arith;
  put_other = λ p content q size m u h. ground (arith, at-without p q m);
  get_ok = λ p content m u h. ground arith;
  get_keeps = λ p q m. refl;
  delete_ok = λ p m u h. ground (arith, at-without p p m);
  delete_other = λ p q m u h. ground (arith, at-without p q m);
}

pub memory-IsReadable : IsReadable memory at
memory-IsReadable = record { get_held = λ p content m h. rw h }

-- Every path is a name.
pub memory-IsName : (p : Bytes) → memory-IsLawful.IsName p
unfolding memory-IsLawful
memory-IsName p = tt
