-- ===== src/Context/Summary.antt =====
-- The summary of agent/context.go: `generateSummary`, `truncateText`, `CompactMessages`.
use turnhive.Base.{
  ◌>>=◌, ℕ, ◌-◌, ◌*◌, not, ◌&&◌, Option, none, some, List, [], ◌∷◌, ◌++◌, Bytes, codes, ltb, leb,
  length, drop, take, keep, ◌==◌, bytes_eq, if◌then◌else◌,
}
use turnhive.Base.Split.{join}
use turnhive.Llm.{Message}
use turnhive.Truncate.{newline}
use turnhive.Truncate.Utf8.{cut_to_bytes}
use turnhive.Context.{
  estimate_tokens, chars_per_token, user, assistant, compact_cutoff, keep_recent_turns,
}

abbrev pub max_summary_tokens : ℕ
max_summary_tokens = 4000

abbrev pub summary_request_tokens : ℕ
summary_request_tokens = 500

abbrev pub summary_response_tokens : ℕ
summary_response_tokens = 800

abbrev pub key_response_count : ℕ
key_response_count = 3

abbrev pub min_response_chars : ℕ
min_response_chars = 50

abbrev pub truncated_mark : Bytes
truncated_mark = codes "\n\n[...content truncated for summary...]"

abbrev pub append_mark : Option Bytes → Option Bytes
append_mark none = none
append_mark (some cut) = some (cut ++ truncated_mark)

-- `none` is a panic of the cut.
unfoldable pub truncate_text : Bytes → ℕ → Option Bytes
truncate_text text max_tokens =
    if leb (estimate_tokens text) max_tokens
    then some text
    else if leb (length text) (max_tokens * chars_per_token)
    then some text
    else append_mark (cut_to_bytes text (max_tokens * chars_per_token))

-- The first user message with a text, under its heading.
unfoldable pub request_lines : List Message → Option (List Bytes)
request_lines [] = some []
request_lines (m ∷ ms) =
    let rest = request_lines ms in
    if m.role == user && not (m.content == [])
    then (do
      text ← truncate_text m.content summary_request_tokens
      some (codes "## Original Request" ∷ text ∷ [] ∷ []))
    else rest

abbrev pub last_n {ℓ} : {A : Type ℓ} → ℕ → List A → List A
last_n n xs = drop (length xs - n) xs

-- The loop over the key responses; each is followed by an empty line.
unfoldable pub response_lines : List Message → Option (List Bytes)
response_lines [] = some []
response_lines (m ∷ ms) =
    let rest = response_lines ms in
    if ltb min_response_chars (length m.content)
    then (do
      text ← truncate_text m.content summary_response_tokens
      lines ← rest
      some (text ∷ [] ∷ lines))
    else rest

abbrev pub under_heading : List Bytes → List Bytes
under_heading [] = []
under_heading (l ∷ ls) = codes "## Key Progress" ∷ l ∷ ls

-- `sections` and `rules` are the texts summarySections and summaryRules.
module _ (sections rules : Bytes) where
  unfoldable pub closing_lines : List Bytes
  closing_lines =
      codes "## Structure Reference"
      ∷ sections
      ∷ []
      ∷ rules
      ∷ []
      ∷ codes "## Instructions"
      ∷ codes "The above is a summary of earlier conversation. Continue from where we left off."
      ∷ codes
          "If you need more context about specific files or code, use the appropriate tools to read them again."
      ∷ []

  unfoldable pub generate_summary : List Message → ℕ → Option Bytes
  generate_summary old max_tokens = do
    request ← request_lines old
    responses ← response_lines (last_n key_response_count (keep (λ m. m.role == assistant) old))
    truncate_text (join newline (request ++ (under_heading responses ++ closing_lines))) max_tokens

  unfoldable pub summary_message : Bytes → Message
  summary_message summary = record {
    role = user;
    content = codes "<context-summary>\n" ++ (summary ++ codes "\n</context-summary>");
    tool_calls = [];
    tool_call_id = [];
    images = [];
  }

  unfoldable pub compact_messages : List Message → Option (List Message)
  compact_messages history =
      let cutoff = compact_cutoff history keep_recent_turns in
      if leb cutoff 0 then some history else (do
        summary ← generate_summary (take cutoff history) max_summary_tokens
        some (summary_message summary ∷ drop cutoff history))
