-- ===== src/Tests/Patch.antt =====
-- A patch of two hunks for a file of five lines.
use turnhive.Base.{◌≡◌, refl, false, List, [], ◌∷◌, codes, has_prefix}
use turnhive.Base.Decimal.{is_digit, value_from}
use turnhive.Patch.{
  ok, failed, slice_panic, apply_lines, apply_line, apply_header, move_to, span, some_of,
  cut_prefix, skip_count, hunk_start, atoi, patched_lines,
}
use turnhive.Patch.Script.{
  keeps, removes, adds, Hunk, script, old_file, new_file, Addressed, patched_lines-script,
}

abbrev hunks : List Hunk
hunks =
    record {
      gap = codes "a" ∷ [];
      header = codes "@@ -2,2 +2,2 @@";
      start = codes "2";
      edits = keeps (codes "b") ∷ removes (codes "c") ∷ adds (codes "C") ∷ [];
    }
    ∷ record {
      gap = [];
      header = codes "@@ -4 +4 @@";
      start = codes "4";
      edits = adds (codes "-- new") ∷ keeps (codes "d") ∷ [];
    }
    ∷ []

hunks-Addressed : Addressed 0 hunks
unfolding hunk_start atoi cut_prefix some_of span skip_count has_prefix is_digit value_from
hunks-Addressed = (refl, refl, (refl, refl, tt))

patched_lines-script_example :
    patched_lines (old_file hunks (codes "e" ∷ [])) (script hunks) false
    ≡ ok (new_file hunks (codes "e" ∷ []))
patched_lines-script_example = patched_lines-script hunks (codes "e" ∷ []) hunks-Addressed

-- Two hunks that only add lines, both behind the end of the file: the second slice is out of order.
panics_behind_end :
    patched_lines
      (codes "a" ∷ [])
      (codes "@@ -10 +10 @@" ∷ codes "+x" ∷ codes "@@ -20 +20 @@" ∷ codes "+y" ∷ [])
      false
    ≡ failed slice_panic
unfolding patched_lines apply_lines apply_line apply_header move_to hunk_start atoi cut_prefix
    some_of span skip_count has_prefix is_digit value_from
panics_behind_end = refl
