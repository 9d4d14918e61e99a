-- ===== src/Local/Disk.antt =====
-- Files in memory, each known by its place. They show that the assumptions on a file system can be
-- met.
use mathlib.Core.List.{reverse}
use mathlib.Core.Logic.{ite}
use pot_play_storage.Prelude.{
  Bool, true, false, Bytes, Bytes-discrete, codes, List, [], ◌∷◌, map, Option, none, some, ◌≡◌,
  refl, length, arith, if◌then◌else◌,
}
use pot_play_storage.Prelude.Int.{pos}
use pot_play_storage.Errors.{Error, external, Result, ok, err}
use pot_play_storage.Paths.{is_rooted, render, place}
use pot_play_storage.Local.{Os, Visit}
use pot_play_storage.Local.FileSystem.{IsFileSystem}

unfoldable pub places-discrete : Discrete (List Bytes)
unfolding Bytes-discrete
places-discrete = hlevel Bytes-discrete

abbrev same_place : List Bytes → List Bytes → Bool
same_place x y = ite (places-discrete x y) true false

abbrev pub Disk : Type 0
Disk = List (List Bytes × Bytes)

unfoldable pub file_at : Disk → List Bytes → Option Bytes
file_at [] x = none
file_at ((y, c) ∷ s) x = if same_place y x then some c else file_at s x

unfoldable pub without : List Bytes → Disk → Disk
without x [] = []
without x ((y, c) ∷ s) = let rest = without x s in if same_place y x then rest else (y, c) ∷ rest

abbrev no_file : Error
no_file = external (codes "no such file or directory")

abbrev opened : Option Bytes → Result Bytes
opened none = err no_file
opened (some c) = ok c

abbrev removed : Option Bytes → Option Error
removed none = some no_file
removed (some c) = none

abbrev visited : List Bytes × Bytes → Visit
visited (x, c) = record { path = render true (reverse x); is_dir = false; failed = false }

abbrev pub disk : Bytes → Os
disk cwd = record {
  State = Disk;
  getwd = ok cwd;
  mkdir_all = λ p s. (none, s);
  create = λ p s. (none, (place cwd p, []) ∷ without (place cwd p) s);
  copy =
      λ p content s. (ok (pos (length content)), (place cwd p, content) ∷ without (place cwd p) s);
  open_read = λ p s. (opened (file_at s (place cwd p)), s);
  remove = λ p s. (removed (file_at s (place cwd p)), without (place cwd p) s);
  walk = λ p s. map visited s;
}

file_at-without :
    (x y : List Bytes) (s : Disk)
    → file_at (without x s) y ≡ (if same_place x y then none else file_at s y)
unfolding file_at without
file_at-without x y [] = ground arith
file_at-without x y (_ ∷ s) = ground (arith, file_at-without x y s)

pub disk-IsFileSystem : (cwd : Bytes) → is_rooted cwd ≡ true → IsFileSystem (disk cwd) cwd file_at
unfolding file_at
disk-IsFileSystem cwd rooted = record {
  getwd_ok = refl;
  getwd_rooted = rooted;
  mkdir_keeps = λ p x s. refl;
  create_other = λ p x s n. ground (arith, file_at-without (place cwd p) x s);
  copy_ok = λ p content n s made done. (ground arith, ground arith);
  copy_other = λ p content x s n. ground (arith, file_at-without (place cwd p) x s);
  open_ok = λ p content s done. ground arith;
  open_keeps = λ p x s. refl;
  remove_ok = λ p s done. ground (arith, file_at-without (place cwd p) (place cwd p) s);
  remove_other = λ p x s n. ground (arith, file_at-without (place cwd p) x s);
}
