-- ===== src/Strings/Decimal.antt =====
-- The verb %d of package fmt on an int, and the number that digits spell.
use pot_play_storage.Prelude.{
  ℕ, zero, suc, ◌+◌, ◌-◌, ◌*◌, ◌/◌, ◌%◌, ◌≤◌, [], ◌∷◌, Bytes, codes, nat_eq, if◌then◌else◌, ◌≡◌,
  arith,
}
use pot_play_storage.Prelude.Int.{ℤ, pos, negsuc}

-- The digits of a number before `out`. A number has at most as many digits as it counts.
unfoldable pub digits : ℕ → ℕ → Bytes → Bytes
digits zero n out = out
digits (suc k) n out =
    let longer = digits k (n / 10) ((b'0' + n % 10) ∷ out) in if nat_eq n 0 then out else longer

unfoldable pub decimal : ℕ → Bytes
unfolding digits
decimal n = if nat_eq n 0 then codes "0" else digits n n []

unfoldable pub format_int : ℤ → Bytes
unfolding decimal
format_int (pos n) = decimal n
format_int (negsuc n) = b'-' ∷ decimal (suc n)

-- The number that digits spell behind `n`.
unfoldable pub spelt : ℕ → Bytes → ℕ
spelt n [] = n
spelt n (c ∷ s) = spelt (n * 10 + (c - b'0')) s

spelt-digits : (k n : ℕ) (out : Bytes) → n ≤ k → spelt 0 (digits k n out) ≡ spelt n out
unfolding digits spelt
spelt-digits zero n out h = ground arith
spelt-digits (suc k) n out h = ground (arith, spelt-digits k (n / 10) ((b'0' + n % 10) ∷ out))

-- A number is read back from its digits.
pub spelt-decimal : (n : ℕ) → spelt 0 (decimal n) ≡ n
unfolding decimal spelt
spelt-decimal n = ground (arith, spelt-digits n n [])
