-- ===== src/Files.antt =====
-- controller/files.go: the files that a user attaches to a session, and agent/files.go, which puts them
-- into the sandbox. The presigning and the sandbox's answer for one file are the parameter `put`.
pub mod Refs
pub mod Attach
use turnhive.Base.{
  ℕ, zero, suc, ◌+◌, ◌-◌, Bool, true, false, not, ◌&&◌, ◌||◌, Option, none, some, List, [], ◌∷◌,
  ◌++◌, map, Bytes, codes, ltb, leb, eqb, length, is_some, has_prefix, ◌==◌, bytes_eq,
  if◌then◌else◌,
}
use turnhive.Base.Int.{ℤ, pos, negsuc, is_negative}
use turnhive.Base.Assoc.{lookup}
use turnhive.Session.State.{Session, FileRecord}
use turnhive.Session.Sandbox.{live_sandbox}
use turnhive.Session.Records.{record_file}

abbrev pub files_name_count_cap : ℕ
files_name_count_cap = 64

-- Of a size that passed the validation, the size.
abbrev pub magnitude : ℤ → ℕ
magnitude (pos n) = n
magnitude (negsuc n) = 0

pub record FileRef : Type 0 where
  pub name : Bytes
  pub object_key : Bytes
  pub size : ℤ

abbrev pub in_range : ℕ → ℕ → ℕ → Bool
in_range low high c = leb low c && leb c high

abbrev pub is_alphanumeric : ℕ → Bool
is_alphanumeric c = in_range b'a' b'z' c || in_range b'A' b'Z' c || in_range b'0' b'9' c

abbrev is_name_char : ℕ → Bool
is_name_char c = is_alphanumeric c || eqb c b'.' || eqb c b'_' || eqb c b'-'

abbrev pub all_pass : (ℕ → Bool) → Bytes → Bool
all_pass p [] = true
all_pass p (c ∷ s) = p c && all_pass p s

-- FileNamePattern, ^[a-zA-Z0-9][a-zA-Z0-9._-]{0,127}$
unfoldable pub matches_file_name : Bytes → Bool
matches_file_name [] = false
matches_file_name (c ∷ s) = is_alphanumeric c && leb (length s) 127 && all_pass is_name_char s

-- The UTF-8 encodings of the runes that unicode.IsSpace accepts.
abbrev pub spaces : List Bytes
spaces =
    (9 ∷ [])
    ∷ (10 ∷ [])
    ∷ (11 ∷ [])
    ∷ (12 ∷ [])
    ∷ (13 ∷ [])
    ∷ (32 ∷ [])
    ∷ (194 ∷ 133 ∷ [])
    ∷ (194 ∷ 160 ∷ [])
    ∷ (225 ∷ 154 ∷ 128 ∷ [])
    ∷ (226 ∷ 128 ∷ 128 ∷ [])
    ∷ (226 ∷ 128 ∷ 129 ∷ [])
    ∷ (226 ∷ 128 ∷ 130 ∷ [])
    ∷ (226 ∷ 128 ∷ 131 ∷ [])
    ∷ (226 ∷ 128 ∷ 132 ∷ [])
    ∷ (226 ∷ 128 ∷ 133 ∷ [])
    ∷ (226 ∷ 128 ∷ 134 ∷ [])
    ∷ (226 ∷ 128 ∷ 135 ∷ [])
    ∷ (226 ∷ 128 ∷ 136 ∷ [])
    ∷ (226 ∷ 128 ∷ 137 ∷ [])
    ∷ (226 ∷ 128 ∷ 138 ∷ [])
    ∷ (226 ∷ 128 ∷ 168 ∷ [])
    ∷ (226 ∷ 128 ∷ 169 ∷ [])
    ∷ (226 ∷ 128 ∷ 175 ∷ [])
    ∷ (226 ∷ 129 ∷ 159 ∷ [])
    ∷ (227 ∷ 128 ∷ 128 ∷ [])
    ∷ []

-- The length of the first of the texts that `s` starts with, or 0.
unfoldable pub prefix_length : List Bytes → Bytes → ℕ
prefix_length [] s = 0
prefix_length (p ∷ ps) s =
    let rest = prefix_length ps s in if has_prefix s p then length p else rest

-- Whether the rest of the text is white space, with `skip` bytes of a space still to pass.
unfoldable pub blank_from : ℕ → Bytes → Bool
blank_from skip [] = true
blank_from (suc skip) (c ∷ s) = blank_from skip s
blank_from zero (c ∷ s) =
    let rest = blank_from (prefix_length spaces (c ∷ s) - 1) s in
    if eqb (prefix_length spaces (c ∷ s)) 0 then false else rest

-- strings.TrimSpace(s) == ""
unfoldable pub is_blank : Bytes → Bool
is_blank s = blank_from 0 s

-- strings.Contains
unfoldable pub contains : Bytes → Bytes → Bool
contains part [] = part == []
contains part (c ∷ s) = has_prefix (c ∷ s) part || contains part s

-- The errors of the validation, with the index of the file.
pub data RefError : Type 0 where
  bad_name duplicate no_object_key dotted_key negative_size : ℕ → RefError

abbrev pub seen_before : Bytes → List Bytes → Bool
seen_before name [] = false
seen_before name (n ∷ ns) = n == name || seen_before name ns

-- The loop of validateFileRefs, from index `i` on.
unfoldable pub validate_from : ℕ → List Bytes → List FileRef → Option RefError
validate_from i seen [] = none
validate_from i seen (f ∷ fs) =
    let rest = validate_from (suc i) (f.name ∷ seen) fs in
    if not (matches_file_name f.name)
    then some (bad_name i)
    else if seen_before f.name seen
    then some (duplicate i)
    else if is_blank f.object_key
    then some (no_object_key i)
    else if contains (codes "..") f.object_key
    then some (dotted_key i)
    else if is_negative f.size
    then some (negative_size i)
    else rest

unfoldable pub validate_file_refs : List FileRef → Option RefError
validate_file_refs files = validate_from 0 [] files

pub data AttachError : Type 0 where
  session_closed inject_failed too_many_files : AttachError

-- What an attach did: the session after it, the records put into the sandbox, and the error.
pub record Attached : Type 0 where
  pub session : Session
  pub injected : List FileRecord
  pub failed : Option AttachError

-- The distinct names that the session does not have yet; a name that comes twice counts twice, as in
-- the code.
unfoldable pub count_added : List (Bytes × FileRecord) → List FileRecord → ℕ
count_added known [] = 0
count_added known (u ∷ us) =
    let rest = count_added known us in if is_some (lookup u.name known) then rest else suc rest

unfoldable pub record_files : List FileRecord → Session → Session
record_files [] s = s
record_files (u ∷ us) s = record_files us (record_file u s)

-- attachFiles behind the injection.
unfoldable pub record_within_cap : List FileRecord → Session → Session × Option AttachError
record_within_cap records s =
    if ltb files_name_count_cap (length s.files + count_added s.files records)
    then (s, some too_many_files)
    else (record_files records s, none)

abbrev pub to_record : ℕ → FileRef → FileRecord
to_record now f = record {
  name = f.name;
  object_key = f.object_key;
  size = magnitude f.size;
  at = now;
}

pub data Answer : Type 0 where
  bad_request not_found too_many_requests bad_gateway accepted : Answer

abbrev answer_of : Option AttachError → Answer
answer_of none = accepted
answer_of (some session_closed) = not_found
answer_of (some too_many_files) = too_many_requests
answer_of (some inject_failed) = bad_gateway

module _ (put : ℕ → FileRecord → Bool) where
  -- InjectFiles: the records that went into the sandbox `sb`, and whether all of them did.
  unfoldable pub inject_files : ℕ → List FileRecord → List FileRecord × Bool
  inject_files sb [] = ([], true)
  inject_files sb (u ∷ us) =
      let (done, ok) = inject_files sb us in if put sb u then (u ∷ done, ok) else ([], false)

  unfoldable pub inject_live : Option ℕ → List FileRecord → List FileRecord × Bool
  inject_live none records = ([], true)
  inject_live (some sb) records = inject_files sb records

  unfoldable pub attach_files : List FileRecord → Session → Attached
  attach_files records s =
      let (injected, ok) = inject_live (live_sandbox s) records in
      let (t, full) = record_within_cap records s in
      if s.closed
      then record { session = s; injected = []; failed = some session_closed }
      else if not ok
      then record { session = s; injected = injected; failed = some inject_failed }
      else record { session = t; injected = injected; failed = full }

  -- handleCreateFiles of a decoded body, routed to the session: its answer, and what it did. Where the
  -- answer is `accepted` the manifest of the files is then written, and a failure of that only logged.
  unfoldable pub handle_create_files : List FileRef → ℕ → Session → Answer × Attached
  handle_create_files files now s =
      let idle : Attached = record { session = s; injected = []; failed = none } in
      let done = attach_files (map (to_record now) files) s in
      if eqb (length files) 0
      then (bad_request, idle)
      else if is_some (validate_file_refs files)
      then (bad_request, idle)
      else (answer_of done.failed, done)
