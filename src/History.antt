-- ===== src/History.antt =====
-- agent/history.go: the history of a session as JSON lines in object storage. The encoding of one message
-- (encoding/json over llm/llm.go's wire form) and the storage's answers are arguments.
pub mod Lines
pub mod Recovery
use turnhive.Base.{
  ◌>>=◌, ℕ, suc, ◌*◌, Option, none, some, List, [], ◌∷◌, ◌++◌, Bytes, codes, ltb, length, ◌==◌,
  bytes_eq, if◌then◌else◌,
}
use turnhive.Base.Split.{split}
use turnhive.Truncate.{newline}
use turnhive.Patch.Parse.{trim_space}
use turnhive.Llm.{Message}
use turnhive.Loop.{Loading, loaded, load_failed}

abbrev pub max_history_line_bytes : ℕ
max_history_line_bytes = 64 * 1024 * 1024

-- The key of a session's object.
unfoldable pub history_key : Bytes → Bytes
history_key session_id = codes "sessions/" ++ (session_id ++ codes "/history.jsonl")

abbrev pub keep_decoded : Option Message → List Message → List Message
keep_decoded none rest = rest
keep_decoded (some m) rest = m ∷ rest

-- What GetObject answers.
pub data Fetched : Type 0 where
  found : Bytes → Fetched
  missing : Fetched
  fetch_failed : Bytes → Fetched

module _ (decode : Bytes → Option Message) where
  -- A line of so many bytes, its newline included.
  abbrev pub read_line : ℕ → Bytes → List Message → List Message
  read_line bytes line rest =
      let text = trim_space line in
      if text == []
      then rest
      else if ltb max_history_line_bytes bytes
      then rest
      else keep_decoded (decode text) rest

  -- The lines in between the newlines; the last has none behind it.
  unfoldable pub read_lines : List Bytes → List Message
  read_lines [] = []
  read_lines (last ∷ []) = read_line (length last) last []
  read_lines (line ∷ next ∷ lines) = read_line (suc (length line)) line (read_lines (next ∷ lines))

  unfoldable pub parse_history_jsonl : Bytes → List Message
  parse_history_jsonl body = read_lines (split newline body)

  unfoldable pub load : Fetched → Loading
  load (found body) = loaded (parse_history_jsonl body)
  load missing = loaded []
  load (fetch_failed err) = load_failed err

module _ (encode : Message → Option Bytes) where
  -- The object that Save puts.
  unfoldable pub history_jsonl : List Message → Option Bytes
  history_jsonl [] = some []
  history_jsonl (m ∷ ms) = do
    line ← encode m
    body ← history_jsonl ms
    some (line ++ newline ∷ body)
