-- ===== src/Truncate/Spill.antt =====
-- `TruncateSpill`: what is written to a file is just what is cut.
use turnhive.Base.{
  ℕ, ◌≡◌, ap, ◌∙◌, ◌⊎◌, inl, inr, true, false, not, ◌&&◌, Bool-cases, Option, some, Bytes, arith,
  leb, length,
}
use turnhive.Base.Split.{split, length-split}
use turnhive.Truncate.{
  TruncateOptions, newline, over_limits, truncate, truncate_spill, strict_max_lines,
  strict_max_bytes, strict_hint, hint_after, spilled, Spiller,
}
use turnhive.Truncate.Preview.{Shown, truncate-Shown}

over_limits-agrees :
    (text : Bytes) (lines bytes : ℕ)
    → (leb (length (split newline text)) lines && leb (length text) bytes)
      ≡ not (over_limits text lines bytes)
unfolding over_limits
over_limits-agrees text lines bytes = ground (arith, length-split newline text)

truncate_within :
    (text : Bytes) (o : TruncateOptions)
    → over_limits text o.max_lines o.max_bytes ≡ false
    → truncate text o ≡ some text
unfolding truncate
truncate_within text o h = rw (over_limits-agrees text o.max_lines o.max_bytes, h)

abbrev pub strict : Bytes → TruncateOptions
strict hint = record { max_lines = strict_max_lines; max_bytes = strict_max_bytes; hint = hint }

-- The two tests of the source, one on the number of newlines and one on the pieces of a split, agree:
-- output within the strict limits comes back as it is, and output over one of them is cut to a preview
-- whose hint names the file that holds the whole output, or tells of none if there is no spiller or it
-- failed.
pub truncate_spill-Shown :
    (text : Bytes) (spiller : Option Spiller)
    → ((over_limits text strict_max_lines strict_max_bytes ≡ false)
        × (truncate_spill text spiller ≡ some text))
      ⊎ ((over_limits text strict_max_lines strict_max_bytes ≡ true)
          × (truncate_spill text spiller
              ≡ truncate text (strict (hint_after (spilled spiller text))))
          × Shown text (strict (hint_after (spilled spiller text))))
unfolding truncate_spill
truncate_spill-Shown text spiller =
    let hint : Bytes = hint_after (spilled spiller text) in
    elim (Bool-cases (over_limits text strict_max_lines strict_max_bytes)) [
      | inl over ↦ inr (
        over,
        rw over,
        truncate-Shown text (strict hint)
            (over_limits-agrees text strict_max_lines strict_max_bytes ∙ ap not over),
      )
      | inr fits ↦ inl (fits, rw fits (truncate_within text (strict strict_hint) fits))
    ]
