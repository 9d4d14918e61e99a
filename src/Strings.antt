-- ===== src/Strings.antt =====
-- What the program uses of Go's packages strings and path/filepath, on byte sequences.
pub mod Laws
pub mod Decimal
use pot_play_storage.Prelude.{
  ℕ, suc, ◌-◌, Bool, true, false, ◌&&◌, ◌||◌, List, [], ◌∷◌, ◌++◌, Bytes, ◌==◌, length, take, drop,
  any, leb, nat_eq, Bytes-discrete, if◌then◌else◌,
}

-- strings.HasPrefix(s, p)
unfoldable pub has_prefix : Bytes → Bytes → Bool
has_prefix s [] = true
has_prefix [] (c ∷ p) = false
has_prefix (b ∷ s) (c ∷ p) = nat_eq b c && has_prefix s p

-- strings.HasSuffix(s, p)
unfoldable pub has_suffix : Bytes → Bytes → Bool
has_suffix s p = leb (length p) (length s) && drop (length s - length p) s == p

-- strings.Contains(s, sub)
unfoldable pub contains : Bytes → Bytes → Bool
unfolding has_prefix
contains [] sub = has_prefix [] sub
contains (c ∷ s) sub = has_prefix (c ∷ s) sub || contains s sub

-- strings.TrimPrefix(s, p)
unfoldable pub trim_prefix : Bytes → Bytes → Bytes
unfolding has_prefix
trim_prefix s p = if has_prefix s p then drop (length p) s else s

-- strings.TrimSuffix(s, p)
unfoldable pub trim_suffix : Bytes → Bytes → Bytes
unfolding has_suffix
trim_suffix s p = if has_suffix s p then take (length s - length p) s else s

abbrev pub in_set : Bytes → ℕ → Bool
in_set cutset c = any (nat_eq c) cutset

unfoldable pub trim_left : Bytes → Bytes → Bytes
trim_left [] cutset = []
trim_left (c ∷ s) cutset = let rest = trim_left s cutset in if in_set cutset c then rest else c ∷ s

-- A byte of the cutset goes if nothing is left behind it.
cut_last : Bytes → ℕ → Bytes → Bytes
cut_last cutset c [] = if in_set cutset c then [] else c ∷ []
cut_last cutset c (d ∷ rest) = c ∷ d ∷ rest

unfoldable pub trim_right : Bytes → Bytes → Bytes
unfolding cut_last
trim_right [] cutset = []
trim_right (c ∷ s) cutset = cut_last cutset c (trim_right s cutset)

-- strings.Trim(s, cutset), for a cutset of ASCII characters
unfoldable pub trim : Bytes → Bytes → Bytes
unfolding trim_left trim_right
trim s cutset = trim_right (trim_left s cutset) cutset

-- The backward loop of filepath.Ext: the last dot that no slash follows, and what follows it.
ext_from : Bytes → Bytes → Bytes
ext_from [] found = found
ext_from (c ∷ s) found =
    ext_from s (if nat_eq c b'/' then [] else if nat_eq c b'.' then c ∷ s else found)

-- filepath.Ext(path), on Unix
unfoldable pub ext : Bytes → Bytes
unfolding ext_from
ext path = ext_from path []
