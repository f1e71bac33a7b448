-- ===== src/Base/Int.antt =====
-- Signed numbers, and what strconv.ParseInt reads of them in base 10 with 64 bits.
use turnhive.Base.Tests.{leb, ltb, lt→ltb, eqb, if◌then◌else◌}
use turnhive.Base.Lists.{All}
use turnhive.Base.Text.{Bytes}
use turnhive.Base.Decimal.{
  is_digit, decimal, parse_decimal, parse_decimal-decimal, decimal-are_digits,
}
use Prim.Native.Nat.{ℕ, zero, suc, ◌^◌, ◌<◌}
use mathlib.Core.Path.{◌≡◌, refl}
use mathlib.Core.Bool.{Bool, true, false}
use mathlib.Core.Option.{Option, none, some}
use mathlib.Core.List.{[], ◌∷◌}
use native.Mathlib.Omega.{arith}

pub data ℤ : Type 0 where
  pos : ℕ → ℤ
  negsuc : ℕ → ℤ

abbrev pub is_negative : ℤ → Bool
is_negative (pos n) = false
is_negative (negsuc n) = true

abbrev pub minus : ℕ → ℤ
minus zero = pos zero
minus (suc n) = negsuc n

-- strconv.Itoa
unfoldable pub int_text : ℤ → Bytes
int_text (pos n) = decimal n
int_text (negsuc n) = b'-' ∷ decimal (suc n)

-- The number with its sign, if it is an int64.
abbrev within : Option ℕ → Option ℤ
within none = none
within (some n) = if ltb n (2 ^ 63) then some (pos n) else none

abbrev minus_within : Option ℕ → Option ℤ
minus_within none = none
minus_within (some n) = if leb n (2 ^ 63) then some (minus n) else none

unfoldable pub parse_int : Bytes → Option ℤ
parse_int [] = none
parse_int (c ∷ s) =
    if eqb c b'-'
    then minus_within (parse_decimal s)
    else if eqb c b'+'
    then within (parse_decimal s)
    else within (parse_decimal (c ∷ s))

no_sign : (c : ℕ) → is_digit c ≡ true → (eqb c b'-' ≡ false) × (eqb c b'+' ≡ false)
unfolding is_digit
no_sign c d = (ground (arith, d), ground (arith, d))

digits_first :
    (c : ℕ) (s : Bytes) (n : ℕ)
    → (eqb c b'-' ≡ false) × (eqb c b'+' ≡ false)
    → parse_decimal (c ∷ s) ≡ some n
    → ltb n (2 ^ 63) ≡ true
    → parse_int (c ∷ s) ≡ some (pos n)
unfolding parse_int
digits_first c s n (minus_sign, plus_sign) e h = rw minus_sign (rw plus_sign (rw e (rw h refl)))

parse_int-digit :
    (s : Bytes) (n : ℕ)
    → parse_decimal s ≡ some n
    → All (λ c. is_digit c ≡ true) s
    → n < 2 ^ 63
    → parse_int s ≡ some (pos n)
unfolding parse_int parse_decimal
parse_int-digit [] n e d h = cc
parse_int-digit (c ∷ s) n e d h = digits_first c s n (no_sign c d.0) e (lt→ltb _ _ h)

-- A number below 2 ^ 63 is read back from its decimal notation.
pub parse_int-decimal : (n : ℕ) → n < 2 ^ 63 → parse_int (decimal n) ≡ some (pos n)
parse_int-decimal n h =
    parse_int-digit (decimal n) n (parse_decimal-decimal n) (decimal-are_digits n) h
