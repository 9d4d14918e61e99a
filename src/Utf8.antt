-- ===== src/Utf8.antt =====
-- What the program uses of Go's packages unicode and unicode/utf8: reading a string rune by rune
-- (`for range`), the control characters and the case mappings.
pub mod Laws
use pot_play_storage.Prelude.{
  ℕ, zero, suc, ◌+◌, ◌-◌, ◌*◌, ◌/◌, ◌%◌, Bool, ◌&&◌, ◌||◌, List, [], ◌∷◌, ◌++◌, map, Bytes, leb,
  ltb, if◌then◌else◌,
}

abbrev between : ℕ → ℕ → ℕ → Bool
between lo hi b = leb lo b && leb b hi

-- utf8.RuneError
abbrev pub rune_error : ℕ
rune_error = 0xfffd

abbrev is_continuation : ℕ → Bool
is_continuation = between 0x80 0xbf

-- The low six bits of a continuation byte.
abbrev low : ℕ → ℕ
low b = b % 64

abbrev bad : ℕ × ℕ
bad = (rune_error, 1)

two : ℕ → Bytes → ℕ × ℕ
two b (c ∷ _) = if is_continuation c then (b % 32 * 64 + low c, 2) else bad
two b _ = bad

-- The second byte is held to a range that the first one sets.
three : ℕ → ℕ → ℕ → Bytes → ℕ × ℕ
three lo hi b (c ∷ d ∷ _) =
    if between lo hi c && is_continuation d then (b % 16 * 4096 + low c * 64 + low d, 3) else bad
three lo hi b _ = bad

four : ℕ → ℕ → ℕ → Bytes → ℕ × ℕ
four lo hi b (c ∷ d ∷ e ∷ _) =
    if between lo hi c && is_continuation d && is_continuation e
    then (b % 8 * 262144 + low c * 4096 + low d * 64 + low e, 4)
    else bad
four lo hi b _ = bad

-- utf8.DecodeRuneInString: the first rune and its width; a bad encoding is one byte wide.
unfoldable pub decode : ℕ → Bytes → ℕ × ℕ
unfolding two three four
decode b rest =
    if ltb b 0x80
    then (b, 1)
    else if ltb b 0xc2
    then bad
    else if ltb b 0xe0
    then two b rest
    else if ltb b 0xf0
    then three (if leb b 0xe0 then 0xa0 else 0x80) (if between 0xed 0xed b then 0x9f else 0xbf) b
        rest
    else if ltb b 0xf5
    then four (if leb b 0xf0 then 0x90 else 0x80) (if leb 0xf4 b then 0x8f else 0xbf) b rest
    else bad

-- The runes of a text, after that many bytes of the rune before.
unfoldable pub runes_after : ℕ → Bytes → List ℕ
unfolding decode
runes_after skip [] = []
runes_after (suc skip) (b ∷ rest) = runes_after skip rest
runes_after zero (b ∷ rest) = (decode b rest).0 ∷ runes_after ((decode b rest).1 - 1) rest

-- for _, char := range s
unfoldable pub runes : Bytes → List ℕ
unfolding runes_after
runes s = runes_after 0 s

-- unicode.IsControl
unfoldable pub is_control : ℕ → Bool
is_control r = ltb r 0x20 || between 0x7f 0x9f r

-- utf8.AppendRune
unfoldable pub encode_rune : ℕ → Bytes
encode_rune r =
    if ltb r 0x80
    then r ∷ []
    else if ltb r 0x800
    then (0xc0 + r / 64) ∷ (0x80 + low r) ∷ []
    else if between 0xd800 0xdfff r || ltb 0x10ffff r
    then 0xef ∷ 0xbf ∷ 0xbd ∷ []
    else if ltb r 0x10000
    then (0xe0 + r / 4096) ∷ (0x80 + low (r / 64)) ∷ (0x80 + low r) ∷ []
    else (0xf0 + r / 262144) ∷ (0x80 + low (r / 4096)) ∷ (0x80 + low (r / 64)) ∷ (0x80 + low r) ∷ []

encode : List ℕ → Bytes
encode [] = []
encode (r ∷ rs) = encode_rune r ++ encode rs

-- The Unicode tables behind ASCII, which the program does not hold: the case of other runes.
pub record CaseTables : Type 0 where
  pub upper : ℕ → ℕ
  pub lower : ℕ → ℕ

module _ (t : CaseTables) where
  -- unicode.ToUpper
  unfoldable pub rune_to_upper : ℕ → ℕ
  rune_to_upper r = if ltb r 0x80 then (if between b'a' b'z' r then r - 32 else r) else t.upper r

  -- unicode.ToLower
  unfoldable pub rune_to_lower : ℕ → ℕ
  rune_to_lower r = if ltb r 0x80 then (if between b'A' b'Z' r then r + 32 else r) else t.lower r

  -- strings.ToUpper(s)
  unfoldable pub to_upper : Bytes → Bytes
  unfolding encode encode_rune runes rune_to_upper
  to_upper s = encode (map rune_to_upper (runes s))

  -- strings.ToLower(s)
  unfoldable pub to_lower : Bytes → Bytes
  unfolding encode encode_rune runes rune_to_lower
  to_lower s = encode (map rune_to_lower (runes s))
