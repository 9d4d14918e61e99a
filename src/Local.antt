-- ===== src/Local.antt =====
-- pkg/storage/local.go: files below a base directory. What the code asks of the operating system is
-- a parameter, Os.
pub mod Names
pub mod Inside
pub mod FileSystem
pub mod Store
pub mod Disk
pub mod Confined
pub mod Listing
pub mod Served
pub mod Identifiers
use pot_play_storage.Prelude.{
  Bool, true, false, ◌&&◌, ◌||◌, not, List, [], ◌∷◌, ◌++◌, Option, none, some, Bytes, codes, ◌==◌,
  any, Bytes-discrete, if◌then◌else◌,
}
use pot_play_storage.Prelude.Int.{ℤ}
use pot_play_storage.Strings.{has_prefix, contains, trim_prefix}
use pot_play_storage.Errors.{Error, external, wrapped, Result, ok, err}
use pot_play_storage.Paths.{split, join_segments, is_rooted, clean, join, dir, rel}
use pot_play_storage.Backend.{StorageBackend}

-- What filepath.Walk hands to its function: the path, whether it is a directory, and whether there
-- was an error.
pub record Visit : Type 0 where
  pub path : Bytes
  pub is_dir : Bool
  pub failed : Bool

-- `create` is os.Create, `copy` is io.Copy to the file that has been created at a path, and `open_read` is
-- os.Open with the reading of what it opens. `walk` gives the visits of a walk that no visit ends.
pub record Os : Type 1 where
  pub State : Type 0
  pub getwd : Result Bytes
  pub mkdir_all : Bytes → State → Option Error × State
  pub create : Bytes → State → Option Error × State
  pub copy : Bytes → Bytes → State → Result ℤ × State
  pub open_read : Bytes → State → Result Bytes × State
  pub remove : Bytes → State → Option Error × State
  pub walk : Bytes → State → List Visit

-- fmt.Errorf("<text>: %s", path)
abbrev pub refused : Bytes → Bytes → Error
refused text path = external (text ++ (codes ": " ++ path))

abbrev pub traversal : Bytes → Error
traversal = refused (codes "path traversal detected")

abbrev pub system_directory : Bytes → Error
system_directory = refused (codes "access to system directories not allowed")

abbrev pub outside : Bytes → Error
outside = refused (codes "path outside base directory")

-- filepath.Abs(path), which asks for the working directory only for a relative path
unfoldable pub absolute : Result Bytes → Bytes → Result Bytes
absolute getwd path =
    if is_rooted path
    then ok (clean path)
    else elim getwd [ err e ↦ err e | ok d ↦ ok (join d path) ]

-- The path without ".", ".." and the leading slash.
abbrev pub clean_path : Bytes → Bytes
clean_path path = trim_prefix (clean path) (codes "/")

abbrev system_directories : List Bytes
system_directories =
    codes "etc/"
    ∷ codes "var/"
    ∷ codes "usr/"
    ∷ codes "home/"
    ∷ codes "root/"
    ∷ codes "sys/"
    ∷ codes "proc/"
    ∷ []

unfoldable pub is_system : Bytes → Bool
is_system path = any (has_prefix path) system_directories

-- The two absolute paths are those of a place in the base directory.
abbrev pub is_inside : Bytes → Bytes → Bool
is_inside full base = has_prefix full (base ++ codes "/") || full == base

unfoldable pub check_inside : Bytes → Bytes → Result Bytes → Result Bytes → Result Bytes
check_inside path clean_path (err e) base =
    err (wrapped (codes "failed to resolve absolute path") e)
check_inside path clean_path (ok full) (err e) =
    err (wrapped (codes "failed to resolve base path") e)
check_inside path clean_path (ok full) (ok base) =
    if is_inside full base then ok clean_path else err (outside path)

-- sanitizePath, for the base path `base`
unfoldable pub sanitize_path : Bytes → Result Bytes → Bytes → Result Bytes
unfolding check_inside absolute
sanitize_path base getwd path =
    let c = clean_path path in
    if contains c (codes "..")
    then err (traversal path)
    else if is_system c
    then err (system_directory c)
    else check_inside path c (absolute getwd (join base c)) (absolute getwd base)

-- An error of the operating system, with the text that the code puts before it.
abbrev pub failing {ℓ} : {A : Type ℓ} → Bytes → Error → Result A
failing text e = err (wrapped text e)

-- The files of a walk, relative to the base. What cannot be visited or related is left out.
abbrev pub listed : Bytes → List Visit → List Bytes
listed base [] = []
listed base (v ∷ visits) =
    let rest = listed base visits in
    if v.failed || v.is_dir
    then rest
    else elim (rel base v.path) [ none ↦ rest | some path ↦ path ∷ rest ]

module _ (O : Os) where
  -- NewLocalStorage
  abbrev pub new_local_storage : Bytes → O.State → Result Bytes × O.State
  new_local_storage base s =
      let (made, s') = O.mkdir_all base s in
      elim made [
        | some e ↦ (failing (codes "failed to create base path") e, s')
        | none ↦ (ok base, s')
      ]

  -- os.Create and io.Copy
  abbrev pub write : Bytes → Bytes → O.State → Result ℤ × O.State
  write full content s =
      let (created, s') = O.create full s in
      elim created [
        | some e ↦ (failing (codes "failed to create file") e, s')
        | none ↦ O.copy full content s'
      ]

  abbrev pub put_at : Bytes → Bytes → O.State → Result ℤ × O.State
  put_at full content s =
      let (made, s') = O.mkdir_all (dir full) s in
      elim made [
        | some e ↦ (failing (codes "failed to create directory") e, s')
        | none ↦ write full content s'
      ]

  abbrev pub open_at : Bytes → O.State → Result Bytes × O.State
  open_at full s =
      let (opened, s') = O.open_read full s in
      elim opened [
        | err e ↦ (failing (codes "failed to open file") e, s')
        | ok content ↦ (ok content, s')
      ]

  abbrev pub remove_at : Bytes → O.State → Result (Unit {0}) × O.State
  remove_at full s =
      let (removed, s') = O.remove full s in
      elim removed [ some e ↦ (failing (codes "failed to delete file") e, s') | none ↦ (ok tt, s') ]

  -- What a method does with a path that is refused and with one that is accepted.
  abbrev pub sanitized {ℓ} :
      {A : Type ℓ}
      → Bytes
      → Bytes
      → Bytes
      → (Bytes → O.State → Result A × O.State)
      → O.State
      → Result A × O.State
  sanitized base text path act s = elim (sanitize_path base O.getwd path) [
    | err e ↦ (failing text e, s)
    | ok c ↦ act c s
  ]

  -- The methods Put, Get, Delete and List. The declared size is not used.
  abbrev pub local_storage : Bytes → StorageBackend
  local_storage base = record {
    State = O.State;
    put = λ path content size.
        sanitized base (codes "invalid path") path (λ c. put_at (join base c) content);
    get = λ path. sanitized base (codes "invalid path") path (λ c. open_at (join base c));
    delete = λ path. sanitized base (codes "invalid path") path (λ c. remove_at (join base c));
    list = λ prefix.
        sanitized base (codes "invalid prefix") prefix
          (λ c s. (ok (listed base (O.walk (join base c) s)), s));
  }
