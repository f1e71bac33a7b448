-- ===== src/Base/Decimal.antt =====
-- Decimal numbers: `%d` and strconv.Itoa of a number, and the digits that strconv reads.
use Prim.Native.Nat.{ℕ, zero, suc, ◌+◌, ◌-◌, ◌*◌, ◌/◌, ◌%◌, ◌<◌}
use mathlib.Core.Path.{◌≡◌, refl, ◌∙◌}
use mathlib.Core.Logic.{inl, inr}
use mathlib.Core.Bool.{Bool, true, ◌&&◌}
use mathlib.Core.Option.{Option, none, some}
use mathlib.Core.List.{[], ◌∷◌, ◌++◌}
use native.Mathlib.Omega.{arith}
use turnhive.Base.Tests.{ltb, leb, if◌then◌else◌, Bool-cases}
use turnhive.Base.Lists.{length, All, All-append, length-append}
use turnhive.Base.Text.{Bytes}

unfoldable pub is_digit : ℕ → Bool
is_digit c = leb b'0' c && leb c b'9'

-- The digits of a number below 10 ^ fuel, without leading zeros.
unfoldable pub digits : ℕ → ℕ → Bytes
digits zero n = []
digits (suc fuel) n =
    let rest = digits fuel (n / 10) in
    if ltb n 10 then (b'0' + n) ∷ [] else rest ++ (b'0' + n % 10) ∷ []

unfoldable pub decimal : ℕ → Bytes
unfolding digits
decimal n = digits (suc n) n

-- The value of digits, onto a number read before; `none` where a byte is no digit.
unfoldable pub value_from : ℕ → Bytes → Option ℕ
unfolding is_digit
value_from acc [] = some acc
value_from acc (c ∷ s) =
    let rest = value_from (acc * 10 + (c - b'0')) s in if is_digit c then rest else none

-- An unsigned decimal number: at least one digit and nothing else.
unfoldable pub parse_decimal : Bytes → Option ℕ
unfolding value_from
parse_decimal [] = none
parse_decimal (c ∷ s) = value_from 0 (c ∷ s)

abbrev then_value : Option ℕ → Bytes → Option ℕ
then_value none s = none
then_value (some n) s = value_from n s

value_from-append :
    (acc : ℕ) (s t : Bytes) → value_from acc (s ++ t) ≡ then_value (value_from acc s) t
unfolding value_from
value_from-append acc [] t = refl
value_from-append acc (c ∷ s) t = ground (arith, value_from-append (acc * 10 + (c - b'0')) s t)

value_from-digits : (fuel n : ℕ) → n < fuel → value_from 0 (digits fuel n) ≡ some n
unfolding digits value_from
value_from-digits zero n h = absurd (omega arith)
value_from-digits (suc fuel) n h = elim (Bool-cases (ltb n 10)) [
  | inl small ↦ rw small (ground arith)
  | inr large ↦ rw large (
      value_from-append 0 (digits fuel (n / 10)) ((b'0' + n % 10) ∷ [])
      ∙ ground (arith, value_from-digits fuel (n / 10)))
]

digits-ne-nil : (fuel n : ℕ) → 0 < length (digits (suc fuel) n)
unfolding digits
digits-ne-nil fuel n = ground (arith, length-append (digits fuel (n / 10)) ((b'0' + n % 10) ∷ []))

parse_decimal_of_cons : (s : Bytes) → 0 < length s → parse_decimal s ≡ value_from 0 s
unfolding parse_decimal
parse_decimal_of_cons [] h = absurd (omega arith)
parse_decimal_of_cons (c ∷ s) h = refl

-- What `%d` prints reads back.
pub parse_decimal-decimal : (n : ℕ) → parse_decimal (decimal n) ≡ some n
unfolding decimal
parse_decimal-decimal n =
    parse_decimal_of_cons (digits (suc n) n) (digits-ne-nil n n)
    ∙ value_from-digits (suc n) n (omega arith)

digits-are_digits : (fuel n : ℕ) → All (λ c. is_digit c ≡ true) (digits fuel n)
unfolding digits is_digit
digits-are_digits zero n = tt
digits-are_digits (suc fuel) n =
    let last : All (λ c. is_digit c ≡ true) ((b'0' + n % 10) ∷ []) = ground arith in
    let whole : All (λ c. is_digit c ≡ true) (digits fuel (n / 10) ++ (b'0' + n % 10) ∷ []) =
      All-append (λ c. is_digit c ≡ true) (digits fuel (n / 10)) _ (digits-are_digits fuel (n / 10))
        last in
    elim (Bool-cases (ltb n 10)) [
      | inl small ↦ rw small (ground arith)
      | inr large ↦ rw large whole
    ]

pub decimal-are_digits : (n : ℕ) → All (λ c. is_digit c ≡ true) (decimal n)
unfolding decimal
decimal-are_digits n = digits-are_digits (suc n) n
