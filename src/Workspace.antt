-- ===== src/Workspace.antt =====
-- agent/tools_sandbox.go: the workspace tools on the files of a sandbox. A path is resolved first;
-- path.Clean is written out on the components of a path. The sandbox's file service is the parameter
-- `Disk`; a call's decoded arguments are given.
pub mod Inside
pub mod Edits
use turnhive.Base.{
  ℕ, ◌+◌, ◌*◌, zero, suc, ◌-◌, ◌≡◌, Bool, true, false, not, ◌&&◌, ◌||◌, Option, none, some, List,
  [], ◌∷◌, ◌++◌, Bytes, codes, eqb, ltb, length, drop, has_prefix, ◌==◌, bytes_eq, if◌then◌else◌,
}
use turnhive.Base.Split.{split, join}
use turnhive.Patch.Parse.{PatchFile, parse_unified_diff}
use turnhive.Patch.{PatchError, Result, ok, failed, apply_hunks_to_text}

abbrev pub slash : ℕ
slash = b'/'

abbrev pub dot : Bytes
dot = codes "."

abbrev pub parent : Bytes
parent = codes ".."

-- `..` behind the components so far, the last one first.
abbrev pub climb : Bool → List Bytes → List Bytes
climb true [] = []
climb false [] = parent ∷ []
climb rooted (d ∷ acc) = if d == parent then parent ∷ d ∷ acc else acc

abbrev pub walk : Bool → List Bytes → Bytes → List Bytes
walk rooted acc c =
    if c == [] || c == dot then acc else if c == parent then climb rooted acc else c ∷ acc

unfoldable pub walk_all : Bool → List Bytes → List Bytes → List Bytes
walk_all rooted acc [] = acc
walk_all rooted acc (c ∷ cs) = walk_all rooted (walk rooted acc c) cs

unfoldable pub back_to_front : List Bytes → List Bytes → List Bytes
back_to_front [] out = out
back_to_front (c ∷ acc) out = back_to_front acc (c ∷ out)

abbrev pub is_abs : Bytes → Bool
is_abs p = has_prefix p (slash ∷ [])

abbrev pub render : Bool → List Bytes → Bytes
render true cs = slash ∷ join slash cs
render false [] = dot
render false (c ∷ cs) = join slash (c ∷ cs)

-- path.Clean of a path that is not empty
unfoldable pub clean : Bytes → Bytes
clean p = render (is_abs p) (back_to_front (walk_all (is_abs p) [] (split slash p)) [])

abbrev pub skills_rel_root : Bytes
skills_rel_root = codes ".agents/skills"

pub data Resolved : Type 0 where
  path_required escapes read_only : Resolved
  path_is : Bytes → Resolved

abbrev pub in_skills : Bytes → Bool
in_skills rel = rel == skills_rel_root || has_prefix rel (skills_rel_root ++ slash ∷ [])

abbrev pub resolve_relative : Bool → Bytes → Resolved
resolve_relative write rel =
    if rel == parent || has_prefix rel (parent ++ slash ∷ [])
    then escapes
    else if write && in_skills rel
    then read_only
    else path_is rel

unfoldable pub resolve : Bool → Bytes → Resolved
resolve write p =
    if p == []
    then path_required
    else if is_abs p
    then path_is (clean p)
    else resolve_relative write (clean p)

-- What GetFile answers.
pub data Got : Type 0 where
  missing unreachable : Got
  file : Bytes → Got

-- The files of a sandbox: GetFile, and PutFile with whether it gave no error.
pub record Disk : Type 1 where
  pub Files : Type 0
  pub get_file : Bytes → Files → Got
  pub put_file : Bytes → Bytes → Files → Files × Bool
  pub get_file-put_file :
      (p text : Bytes) (fs : Files)
      → (put_file p text fs).1 ≡ true
      → get_file p (put_file p text fs).0 ≡ file text

abbrev pub max_get_file_bytes : ℕ
max_get_file_bytes = 8 * 1024 * 1024

pub data ToolError : Type 0 where
  bad_path : Resolved → ToolError
  old_required not_there not_reached too_large not_found put_failed : ToolError
  found_many : ℕ → ToolError
  already_exists no_such_file : Bytes → ToolError
  bad_patch : PatchError → ToolError
  no_sections : ToolError

-- The first place of a text in another, as what stands before and behind it.
abbrev pub one_further : ℕ → Option (Bytes × Bytes) → Option (Bytes × Bytes)
one_further c none = none
one_further c (some (before, behind)) = some (c ∷ before, behind)

unfoldable pub cut_at : Bytes → Bytes → Option (Bytes × Bytes)
cut_at old [] = if old == [] then some ([], []) else none
cut_at old (c ∷ s) =
    let rest = cut_at old s in
    if has_prefix (c ∷ s) old then some ([], drop (length old) (c ∷ s)) else one_further c rest

-- strings.Count of a text that is not empty, with `skip` bytes of an occurrence still to pass.
unfoldable pub count_from : Bytes → ℕ → Bytes → ℕ
count_from old skip [] = 0
count_from old (suc skip) (c ∷ s) = count_from old skip s
count_from old zero (c ∷ s) =
    let here = has_prefix (c ∷ s) old in
    let rest = count_from old (if here then length old - 1 else 0) s in
    if here then suc rest else rest

-- strings.Replace of the first occurrence
abbrev pub replaced : Bytes → Bytes → Option (Bytes × Bytes) → Bytes
replaced content new none = content
replaced content new (some (before, behind)) = before ++ (new ++ behind)

module _ (d : Disk) where
  open d use {Files, get_file, put_file}

  abbrev pub Outcome : Type 0
  Outcome = Files × Option ToolError

  abbrev pub put : Files × Bool → Outcome
  put (fs, true) = (fs, none)
  put (fs, false) = (fs, some put_failed)

  -- write
  abbrev pub write_to : Bytes → Files → Resolved → Outcome
  write_to content fs (path_is p) = put (put_file p content fs)
  write_to content fs r = (fs, some (bad_path r))

  unfoldable pub write_file : Bytes → Bytes → Files → Outcome
  write_file file_path content fs = write_to content fs (resolve true file_path)

  -- edit
  abbrev pub edit_text : Bytes → Bytes → Bytes → Files → Bytes → Outcome
  edit_text old new p fs content =
      let n = count_from old 0 content in
      if eqb n 0
      then (fs, some not_found)
      else if ltb 1 n
      then (fs, some (found_many n))
      else put (put_file p (replaced content new (cut_at old content)) fs)

  abbrev pub edit_got : Bytes → Bytes → Bytes → Files → Got → Outcome
  edit_got old new p fs missing = (fs, some not_there)
  edit_got old new p fs unreachable = (fs, some not_reached)
  edit_got old new p fs (file content) =
      if ltb max_get_file_bytes (length content)
      then (fs, some too_large)
      else edit_text old new p fs content

  abbrev pub edit_at : Bytes → Bytes → Files → Resolved → Outcome
  edit_at old new fs (path_is p) = edit_got old new p fs (get_file p fs)
  edit_at old new fs r = (fs, some (bad_path r))

  unfoldable pub edit_file : Bytes → Bytes → Bytes → Files → Outcome
  edit_file file_path old new fs =
      if old == [] then (fs, some old_required) else edit_at old new fs (resolve true file_path)

  -- apply_patch: the sections one by one; those before a failure stay applied.
  abbrev pub merged : Bytes → Files → Result Bytes → Outcome
  merged p fs (ok text) = put (put_file p text fs)
  merged p fs (failed e) = (fs, some (bad_patch e))

  abbrev pub patch_got : PatchFile → Bytes → Files → Bool → Got → Outcome
  patch_got f p fs true missing = merged p fs (apply_hunks_to_text [] f.hunks true)
  patch_got f p fs true unreachable = (fs, some not_reached)
  patch_got f p fs true (file content) =
      if ltb max_get_file_bytes (length content)
      then (fs, some too_large)
      else (fs, some (already_exists f.to_path))
  patch_got f p fs false missing = (fs, some (no_such_file f.to_path))
  patch_got f p fs false unreachable = (fs, some not_reached)
  patch_got f p fs false (file content) =
      if ltb max_get_file_bytes (length content)
      then (fs, some too_large)
      else merged p fs (apply_hunks_to_text content f.hunks false)

  abbrev pub patch_at : PatchFile → Files → Resolved → Outcome
  patch_at f fs (path_is p) = patch_got f p fs (f.from_path == codes "/dev/null") (get_file p fs)
  patch_at f fs r = (fs, some (bad_path r))

  abbrev pub and_then : (Files → Outcome) → Outcome → Outcome
  and_then next (fs, none) = next fs
  and_then next (fs, some e) = (fs, some e)

  unfoldable pub apply_sections : List PatchFile → Files → Outcome
  apply_sections [] fs = (fs, none)
  apply_sections (f ∷ sections) fs =
      and_then (apply_sections sections) (patch_at f fs (resolve true f.to_path))

  unfoldable pub apply_patch : Bytes → Files → Outcome
  apply_patch patch fs =
      let sections = parse_unified_diff patch in
      if eqb (length sections) 0 then (fs, some no_sections) else apply_sections sections fs
