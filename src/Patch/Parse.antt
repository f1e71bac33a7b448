-- ===== src/Patch/Parse.antt =====
-- agent/patch.go: splitting a unified diff into its files. The loops of the source over one index are one
-- recursion over the lines with the place in the loops as a mode; a hunk's body, which the source takes
-- as a slice of `n` lines, is passed one line at a time.
use turnhive.Base.{
  ℕ, zero, suc, ◌-◌, Bool, false, not, ◌&&◌, ◌||◌, List, [], ◌∷◌, ◌++◌, Bytes, codes, eqb, length,
  drop, has_prefix, ◌==◌, bytes_eq, if◌then◌else◌,
}
use turnhive.Base.Split.{split, join}
use turnhive.Truncate.{newline}
use turnhive.Files.{is_blank, prefix_length, spaces}
use turnhive.Patch.{span, is_hunk_header}

pub record PatchFile : Type 0 where
  pub from_path : Bytes
  pub to_path : Bytes
  pub hunks : Bytes

unfoldable pub trim_left : ℕ → Bytes → Bytes
trim_left skip [] = []
trim_left (suc skip) (c ∷ s) = trim_left skip s
trim_left zero (c ∷ s) =
    let rest = trim_left (prefix_length spaces (c ∷ s) - 1) s in
    if eqb (prefix_length spaces (c ∷ s)) 0 then c ∷ s else rest

unfoldable pub trim_right : Bytes → Bytes
trim_right [] = []
trim_right (c ∷ s) = let rest = trim_right s in if is_blank (c ∷ s) then [] else c ∷ rest

-- strings.TrimSpace
unfoldable pub trim_space : Bytes → Bytes
trim_space s = trim_right (trim_left 0 s)

abbrev pub dev_null : Bytes
dev_null = codes "/dev/null"

-- An `a/` or `b/` before at least one more byte.
abbrev has_side : Bytes → Bool
has_side (side ∷ slash ∷ c ∷ s) = eqb slash b'/' && (eqb side b'a' || eqb side b'b')
has_side _ = false

unfoldable pub parse_patch_path : Bytes → Bytes
parse_patch_path raw =
    let token = trim_space (span (λ c. not (eqb c b'\t')) (trim_space raw)).0 in
    if token == dev_null then token else if has_side token then drop 2 token else token

abbrev pub from_mark : Bytes
from_mark = codes "--- "

abbrev pub to_mark : Bytes
to_mark = codes "+++ "

unfoldable pub is_file_header : List Bytes → Bool
is_file_header (l ∷ m ∷ _) = has_prefix l from_mark && has_prefix m to_mark
is_file_header _ = false

-- isSafeFileHeader at the head of the lines.
unfoldable pub is_safe_file_header : List Bytes → Bool
is_safe_file_header (l ∷ m ∷ next ∷ _) =
    is_file_header (l ∷ m ∷ []) && (is_hunk_header next || has_prefix next from_mark)
is_safe_file_header lines = is_file_header lines

unfoldable pub count_hunk_body_lines : List Bytes → ℕ
count_hunk_body_lines [] = 0
count_hunk_body_lines (l ∷ lines) =
    let rest = count_hunk_body_lines lines in
    if is_hunk_header l || is_safe_file_header (l ∷ lines) then 0 else suc rest

abbrev pub unless_blank : Bytes → List Bytes → List Bytes
unless_blank [] [] = []
unless_blank l rest = l ∷ rest

unfoldable pub trim_blank_tail : List Bytes → List Bytes
trim_blank_tail [] = []
trim_blank_tail (l ∷ ls) = unless_blank l (trim_blank_tail ls)

-- A file section, with its hunk lines.
abbrev pub section_of : Bytes → Bytes → List Bytes → PatchFile
section_of from to hunks =
    let kept = trim_blank_tail hunks in
    record {
      from_path = from;
      to_path = to;
      hunks = if eqb (length kept) 0 then [] else join newline kept ++ newline ∷ [];
    }

-- Where the source is in its loops: before a `--- ` line, behind it, or among the hunks of a file, with
-- the lines collected and the number of body lines still to take.
pub data Mode : Type 0 where
  scanning : Mode
  from_seen : Bytes → Mode
  in_file : Bytes → Bytes → List Bytes → ℕ → Mode

abbrev pub scan : Bytes → Mode
scan l =
    if has_prefix l from_mark
    then from_seen (parse_patch_path (drop (length from_mark) l))
    else scanning

abbrev pub see_to : Bytes → Bytes → Mode
see_to from l =
    let to = parse_patch_path (drop (length to_mark) l) in
    if has_prefix l to_mark
    then if to == dev_null then scanning else in_file from to [] 0
    else scan l

-- What ends at the line, and the mode behind it.
unfoldable pub next_mode : Mode → Bytes → List Bytes → List PatchFile × Mode
next_mode scanning l lines = ([], scan l)
next_mode (from_seen from) l lines = ([], see_to from l)
next_mode (in_file from to hunks (suc n)) l lines = ([], in_file from to (hunks ++ l ∷ []) n)
next_mode (in_file from to hunks zero) l lines =
    if is_hunk_header l
    then ([], in_file from to (hunks ++ l ∷ []) (count_hunk_body_lines lines))
    else if is_file_header (l ∷ lines)
    then (section_of from to hunks ∷ [], scan l)
    else ([], in_file from to (hunks ++ l ∷ []) 0)

unfoldable pub parse_from : Mode → List Bytes → List PatchFile
parse_from (in_file from to hunks n) [] = section_of from to hunks ∷ []
parse_from _ [] = []
parse_from mode (l ∷ lines) =
    let (done, next) = next_mode mode l lines in done ++ parse_from next lines

unfoldable pub parse_unified_diff : Bytes → List PatchFile
parse_unified_diff patch = parse_from scanning (split newline patch)
