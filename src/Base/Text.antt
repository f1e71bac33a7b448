-- ===== src/Base/Text.antt =====
-- A Go string: its bytes. Literals of the source are ASCII texts, `codes "user"`.
use Prim.Native.Nat.{ℕ}
use Prim.Native.Char.{code}
use Prim.Native.String.{String}
use mathlib.Core.Path.{◌≡◌}
use mathlib.Core.Logic.{◌↔◌}
use mathlib.Core.Bool.{Bool, true, false, ◌&&◌}
use mathlib.Core.List.{List, [], ◌∷◌}
use native.Mathlib.Omega.{arith}
use turnhive.Base.Tests.{eqb, Eq}

abbrev pub Bytes : Type 0
Bytes = List ℕ

abbrev pub codes : String → Bytes
codes String.[] = []
codes (String.◌∷◌ c s) = code c ∷ codes s

-- `==` on strings.
unfoldable pub bytes_eqb : Bytes → Bytes → Bool
bytes_eqb [] [] = true
bytes_eqb (c ∷ s) (d ∷ t) = eqb c d && bytes_eqb s t
bytes_eqb _ _ = false

pub bytes_eqb_iff : (s t : Bytes) → (bytes_eqb s t ≡ true) ↔ (s ≡ t)
unfolding bytes_eqb
bytes_eqb_iff [] [] = ground arith
bytes_eqb_iff [] (d ∷ t) = ground arith
bytes_eqb_iff (c ∷ s) [] = ground arith
bytes_eqb_iff (c ∷ s) (d ∷ t) = ground (arith, bytes_eqb_iff s t)

instance abbrev pub bytes_eq : Eq Bytes
bytes_eq = record { test = bytes_eqb; test_iff = bytes_eqb_iff }

-- strings.HasPrefix
unfoldable pub has_prefix : Bytes → Bytes → Bool
has_prefix s [] = true
has_prefix [] (p ∷ ps) = false
has_prefix (a ∷ s) (p ∷ ps) = eqb a p && has_prefix s ps
