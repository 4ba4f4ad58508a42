-- ===== src/Prelude/Bytes.antt =====
-- Bytes: the code points of ASCII texts, and little-endian words.
use Prim.Native.Nat.{ℕ, ◌/◌, ◌%◌}
use Prim.Native.Char.{code}
use Prim.Native.String.{String}
use mathlib.Core.List.{List, [], ◌∷◌}

abbrev pub codes : String → List ℕ
codes String.[] = []
codes (String.◌∷◌ c s) = code c ∷ codes s

-- sys_put_le32
abbrev pub le32 : ℕ → List ℕ
le32 n = n % 256 ∷ (n / 256 % 256) ∷ (n / 65536 % 256) ∷ (n / 16777216 % 256) ∷ []
