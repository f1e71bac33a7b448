-- ===== src/Tests/Truncate.antt =====
-- Output of three lines against small limits, and output that goes to a file.
use turnhive.Base.{
  ◌<◌, ◌⊎◌, false, ◌+◌, ℕ, ◌≤◌, ◌≡◌, refl, true, some, [], ◌∷◌, Bytes, codes, arith, take,
}
use turnhive.Base.Split.{split}
use turnhive.Truncate.{TruncateOptions, Spiller}
use turnhive.Truncate.Utf8.{cut_to_bytes}
use turnhive.Truncate.Cut.{valid_utf8, cut_to_bytes-head}
use turnhive.Truncate.Preview.{Shown, truncate-Shown}

-- "aé": the second rune has two bytes.
abbrev accented : Bytes
accented = b'a' ∷ 195 ∷ 169 ∷ []

cut_to_bytes-head_example :
    (n : ℕ) × (n ≤ 2)
    × (2 < n + 4)
    × (cut_to_bytes accented 2 ≡ some (take n accented))
    × ((valid_utf8 accented ≡ false) ⊎ (valid_utf8 (take n accented) ≡ true))
cut_to_bytes-head_example = cut_to_bytes-head accented 2 (omega arith)

abbrev three_lines : Bytes
three_lines = codes "ab\ncd\nef"

abbrev small : TruncateOptions
small = record { max_lines = 2; max_bytes = 20; hint = codes "..." }

truncate-Shown_example : Shown three_lines small
unfolding split
truncate-Shown_example = truncate-Shown three_lines small refl

abbrev to_file : Spiller
to_file text = some (codes "/tmp/out.txt")
