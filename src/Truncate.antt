-- ===== src/Truncate.antt =====
-- agent/truncate.go: bounding tool output.
pub mod Utf8
pub mod Cut
pub mod Preview
pub mod Spill
use turnhive.Base.{
  ℕ, zero, suc, ◌+◌, ◌-◌, Bool, true, false, ◌&&◌, ◌||◌, not, Option, none, some, List, [], ◌∷◌,
  ◌++◌, Bytes, codes, ltb, leb, length, if◌then◌else◌,
}
use turnhive.Base.Split.{split, join, count}
use turnhive.Base.Decimal.{decimal}
use turnhive.Truncate.Utf8.{cut_to_bytes}

abbrev pub default_max_lines : ℕ
default_max_lines = 2000

abbrev pub default_max_bytes : ℕ
default_max_bytes = 51200

abbrev pub strict_max_lines : ℕ
strict_max_lines = 500

abbrev pub strict_max_bytes : ℕ
strict_max_bytes = 16384

abbrev pub newline : ℕ
newline = 10

-- The limits of one call; the options of the source only set these fields.
pub record TruncateOptions : Type 0 where
  pub max_lines : ℕ
  pub max_bytes : ℕ
  pub hint : Bytes

-- The lines kept so far and their bytes, with the newlines that will join them.
pub record Kept : Type 0 where
  pub kept : List Bytes
  pub accumulated_bytes : ℕ

abbrev pub is_empty {ℓ} : {A : Type ℓ} → List A → Bool
is_empty [] = true
is_empty (_ ∷ _) = false

abbrev pub line_bytes : Kept → Bytes → ℕ
line_bytes k line = if is_empty k.kept then length line else length line + 1

abbrev pub push_line : Kept → Bytes → ℕ → Kept
push_line k line n = record {
  kept = k.kept ++ line ∷ [];
  accumulated_bytes = k.accumulated_bytes + n;
}

-- The first line alone is over the budget: a hard cut. `none` is a panic of `s[:n]`.
unfoldable pub hard_cut : TruncateOptions → Kept → Bytes → Option Kept
hard_cut o k line = elim (cut_to_bytes line o.max_bytes) [
  | none ↦ none
  | some cut ↦ some (push_line k cut (length cut))
]

-- The loop over the lines, `i` of them seen.
unfoldable pub accumulate : TruncateOptions → ℕ → Kept → List Bytes → Option Kept
accumulate o i k [] = some k
accumulate o i k (line ∷ lines) =
    let rest = accumulate o (suc i) (push_line k line (line_bytes k line)) lines in
    if leb o.max_lines i
    then some k
    else if ltb o.max_bytes (k.accumulated_bytes + line_bytes k line)
    then if is_empty k.kept then hard_cut o k line else some k
    else rest

-- fmt.Sprintf of the notice.
unfoldable pub notice : ℕ → ℕ → Bytes → Bytes
notice removed_lines removed_bytes hint =
    codes "\n\n..."
    ++ (decimal removed_lines
        ++ (codes " lines ("
            ++ (decimal removed_bytes ++ (codes " bytes) truncated...\n\n" ++ hint))))

abbrev pub no_lines : Kept
no_lines = record { kept = []; accumulated_bytes = 0 }

-- Truncate with its options resolved.
unfoldable pub truncate : Bytes → TruncateOptions → Option Bytes
truncate text o =
    let lines = split newline text in
    if leb (length lines) o.max_lines && leb (length text) o.max_bytes
    then some text
    else elim (accumulate o 0 no_lines lines) [
      | none ↦ none
      | some k ↦ some (
          join newline k.kept
          ++ notice (length lines - length k.kept) (length text - k.accumulated_bytes) o.hint)
    ]

unfoldable pub over_limits : Bytes → ℕ → ℕ → Bool
over_limits text max_lines max_bytes =
    ltb max_lines (count newline text + 1) || ltb max_bytes (length text)

abbrev pub strict_hint : Bytes
strict_hint =
    codes
      "Output was truncated to fit within context limits. Use grep via the shell tool to search specific content."

unfoldable pub spill_hint : Bytes → Bytes
spill_hint path =
    codes "The full output was saved to: "
    ++ (path
        ++ codes
            "\nInspect it with the read tool, or search and filter it with shell commands (grep, sed, tail).")

-- An OutputSpiller with its context and tool name applied: the path of the file written, or its error.
abbrev pub Spiller : Type 0
Spiller = Bytes → Option Bytes

abbrev pub hint_after : Option Bytes → Bytes
hint_after none = strict_hint
hint_after (some path) = spill_hint path

abbrev pub spilled : Option Spiller → Bytes → Option Bytes
spilled none text = none
spilled (some spill) text = spill text

unfoldable pub truncate_spill : Bytes → Option Spiller → Option Bytes
truncate_spill text spiller = truncate text (record {
  max_lines = strict_max_lines;
  max_bytes = strict_max_bytes;
  hint =
      if over_limits text strict_max_lines strict_max_bytes
      then hint_after (spilled spiller text)
      else strict_hint;
})
