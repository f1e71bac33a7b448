-- ===== src/Patch.antt =====
-- agent/patch.go: applying hunks to a file. A panic of a slice expression is an error of the model's own.
pub mod Parse
pub mod Script
use turnhive.Base.{
  ◌>>=◌, ℕ, zero, suc, ◌+◌, ◌-◌, ◌^◌, min, Bool, true, false, not, ◌&&◌, ◌||◌, Option, none, some,
  List, [], ◌∷◌, ◌++◌, Bytes, codes, ltb, leb, eqb, length, take, drop, last?, get_elem?, is_some,
  has_prefix, ◌==◌, bytes_eq, if◌then◌else◌,
}
use turnhive.Base.Split.{split, join}
use turnhive.Base.Decimal.{is_digit, value_from}
use turnhive.Truncate.{newline}

-- The longest head whose bytes pass, and the rest.
unfoldable pub span : (ℕ → Bool) → Bytes → Bytes × Bytes
span p [] = ([], [])
span p (c ∷ s) = let (head, rest) = span p s in if p c then (c ∷ head, rest) else ([], c ∷ s)

abbrev pub is_space : ℕ → Bool
is_space c = eqb c 32 || eqb c 9 || eqb c 10 || eqb c 12 || eqb c 13

-- A head of at least one such byte.
abbrev pub some_head : Bytes × Bytes → Option (Bytes × Bytes)
some_head ([], rest) = none
some_head (c ∷ head, rest) = some (c ∷ head, rest)

unfoldable pub some_of : (ℕ → Bool) → Bytes → Option (Bytes × Bytes)
some_of p s = some_head (span p s)

-- The text behind a prefix.
unfoldable pub cut_prefix : Bytes → Bytes → Option Bytes
cut_prefix p s = if has_prefix s p then some (drop (length p) s) else none

-- (?:,(\d+))?
unfoldable pub skip_count : Bytes → Bytes
skip_count s = elim (cut_prefix (codes ",") s) [
  | none ↦ s
  | some rest ↦ elim (some_of is_digit rest) [ none ↦ s | some (_, after) ↦ after ]
]

-- The first group of hunkHeader, `^@@\s+-(\d+)(?:,(\d+))?\s+\+(\d+)(?:,(\d+))?\s+@@`; none of its parts
-- can give back what it took, so reading from left to right finds the match.
unfoldable pub hunk_start : Bytes → Option Bytes
hunk_start line = do
  s ← cut_prefix (codes "@@") line
  gap ← some_of is_space s
  old ← cut_prefix (codes "-") gap.1
  start ← some_of is_digit old
  gap2 ← some_of is_space (skip_count start.1)
  new ← cut_prefix (codes "+") gap2.1
  place ← some_of is_digit new
  gap3 ← some_of is_space (skip_count place.1)
  end ← cut_prefix (codes "@@") gap3.1
  some start.0

unfoldable pub is_hunk_header : Bytes → Bool
is_hunk_header line = is_some (hunk_start line)

pub data PatchError : Type 0 where
  malformed_header : Bytes → PatchError
  removes_from_new : PatchError
  context_mismatch : ℕ → Bytes → PatchError
  slice_panic : PatchError

pub data Result {ℓ} (A : Type ℓ) : Type ℓ where
  ok : A → Result A
  failed : PatchError → Result A

-- The running state: the lines of the output, the cursor, and the cursor up to which lines are out.
pub record Applying : Type 0 where
  pub out : List Bytes
  pub cursor : ℕ
  pub copied_cursor : ℕ

abbrev pub or_zero : Option ℕ → ℕ
or_zero none = 0
or_zero (some n) = n

-- strconv.Atoi of digits with the error dropped: the largest int64 where the number is over it.
unfoldable pub atoi : Bytes → ℕ
atoi digits = min (or_zero (value_from 0 digits)) (2 ^ 63 - 1)

-- A hunk header: the lines up to the hunk are copied, and both cursors move to it.
unfoldable pub move_to : List Bytes → Bool → ℕ → Applying → Result Applying
move_to existing is_new new_cursor st =
    let end = min new_cursor (length existing) in
    if not is_new && ltb st.copied_cursor new_cursor
    then if ltb end st.copied_cursor
      then failed slice_panic
      else ok (record {
        out = st.out ++ take (end - st.copied_cursor) (drop st.copied_cursor existing);
        cursor = new_cursor;
        copied_cursor = new_cursor;
      })
    else ok (record { out = st.out; cursor = new_cursor; copied_cursor = new_cursor })

unfoldable pub apply_header : List Bytes → Bool → Bytes → Applying → Result Applying
apply_header existing is_new line st = elim (hunk_start line) [
  | none ↦ failed (malformed_header line)
  | some start ↦ move_to existing is_new (atoi start - 1) st
]

abbrev pub is_line : Bytes → Option Bytes → Bool
is_line expected none = false
is_line expected (some l) = l == expected

-- Past a line of the file that stays (`kept` is the line) or goes (`kept` is empty).
abbrev pub pass_line : List Bytes → Applying → Applying
pass_line kept st = record {
  out = st.out ++ kept;
  cursor = suc st.cursor;
  copied_cursor = suc st.cursor;
}

-- One round of the loop.
unfoldable pub apply_line : List Bytes → Bool → Bytes → Applying → Result Applying
apply_line existing is_new line st =
    let expected = drop 1 line in
    let found = is_line expected (get_elem? existing st.cursor) in
    if has_prefix line (codes "@@")
    then apply_header existing is_new line st
    else if has_prefix line (codes "+")
    then ok (record st { out = st.out ++ expected ∷ [] })
    else if has_prefix line (codes "-")
    then if is_new
      then failed removes_from_new
      else if found
      then ok (pass_line [] st)
      else failed (context_mismatch st.cursor expected)
    else if has_prefix line (codes " ")
    then if is_new || found
      then ok (pass_line (expected ∷ []) st)
      else failed (context_mismatch st.cursor expected)
    else ok st

abbrev pub then_ok {ℓ κ} : {A : Type ℓ} {B : Type κ} → Result A → (A → Result B) → Result B
then_ok (ok a) f = f a
then_ok (failed e) f = failed e

unfoldable pub apply_lines : List Bytes → Bool → List Bytes → Applying → Result Applying
apply_lines existing is_new [] st = ok st
apply_lines existing is_new (line ∷ lines) st =
    then_ok (apply_line existing is_new line st) (λ st'. apply_lines existing is_new lines st')

abbrev pub from_start : Applying
from_start = record { out = []; cursor = 0; copied_cursor = 0 }

-- What follows the last hunk.
abbrev pub finish : List Bytes → Bool → Applying → List Bytes
finish existing is_new st =
    if not is_new && ltb st.copied_cursor (length existing)
    then st.out ++ drop st.copied_cursor existing
    else st.out

-- The lines of the patched file.
unfoldable pub patched_lines : List Bytes → List Bytes → Bool → Result (List Bytes)
patched_lines existing hunk_lines is_new =
    then_ok (apply_lines existing is_new hunk_lines from_start)
      (λ st. ok (finish existing is_new st))

-- The lines of a file, and whether it ends with a newline.
unfoldable pub file_lines : Bytes → List Bytes × Bool
file_lines existing =
    let lines = split newline existing in
    if existing == []
    then ([], false)
    else if is_line [] (last? lines)
    then (take (length lines - 1) lines, true)
    else (lines, false)

abbrev pub restore : Bool → Bytes → Bytes
restore had_newline result =
    if had_newline && not (result == []) then result ++ newline ∷ [] else result

unfoldable pub apply_hunks_to_text : Bytes → Bytes → Bool → Result Bytes
apply_hunks_to_text existing hunk_text is_new =
    let (lines, had_newline) = file_lines existing in
    then_ok (patched_lines lines (split newline hunk_text) is_new)
      (λ out. ok (restore (not is_new && had_newline) (join newline out)))
