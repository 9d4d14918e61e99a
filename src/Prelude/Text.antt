-- ===== src/Prelude/Text.antt =====
-- Go strings: sequences of bytes. A literal of the source is written `codes "..."`.
use Prim.Native.Nat.{ℕ}
use Prim.Native.Char.{code}
use Prim.Native.String.{String}
use mathlib.Core.Path.{◌≡◌, refl}
use mathlib.Core.Logic.{ite, ◌↔◌}
use mathlib.Core.Bool.{Bool, true, false}
use mathlib.Core.List.{List, [], ◌∷◌}
use native.Mathlib.Omega.{arith}
use native.Mathlib.Decide.{ℕ_discrete}

abbrev pub Bytes : Type 0
Bytes = List ℕ

-- The bytes of an ASCII literal. `String` has its own `[]` and `∷`.
abbrev pub codes : String → Bytes
codes String.[] = []
codes (String.◌∷◌ c s) = code c ∷ codes s

unfoldable pub Bytes-discrete : Discrete Bytes
unfolding ℕ_discrete
Bytes-discrete = hlevel ℕ_discrete

-- The source's `==` on strings.
infix 50 ◌==◌
abbrev pub ◌==◌ : Bytes → Bytes → Bool
s == t = ite (Bytes-discrete s t) true false

pub ==_iff : (s t : Bytes) → ((s == t) ≡ true) ↔ (s ≡ t)
==_iff s t = ground arith

same : (codes "ab" == codes "ab") ≡ true
unfolding Bytes-discrete
same = refl
