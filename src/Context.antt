-- ===== src/Context.antt =====
-- agent/context.go: keeping the history within the model's context window.
pub mod Summary
pub mod Trim
pub mod Compact
use turnhive.Base.{
  ℕ, zero, suc, ◌+◌, ◌-◌, ◌*◌, ◌/◌, Bool, true, false, ◌&&◌, Option, none, some, List, [], ◌∷◌,
  ◌++◌, map, Bytes, codes, ltb, leb, length, drop, take, get_elem?, ◌==◌, bytes_eq, if◌then◌else◌,
}
use turnhive.Llm.{Message, ToolCall, Usage}

abbrev pub chars_per_token : ℕ
chars_per_token = 4

abbrev pub keep_recent_turns : ℕ
keep_recent_turns = 2

abbrev pub reply_reserve : ℕ
reply_reserve = 8000

unfoldable pub estimate_tokens : Bytes → ℕ
estimate_tokens text =
    if text == [] then 0 else (length text + chars_per_token - 1) / chars_per_token

unfoldable pub estimate_calls : List ToolCall → ℕ
estimate_calls [] = 0
estimate_calls (tc ∷ tcs) =
    estimate_tokens tc.name + estimate_tokens tc.arguments + estimate_calls tcs

unfoldable pub estimate_message_tokens : List Message → ℕ
estimate_message_tokens [] = 0
estimate_message_tokens (m ∷ ms) =
    estimate_tokens m.content + estimate_calls m.tool_calls + estimate_message_tokens ms

-- `int(float64(maxContext) * overflowThreshold)` with the threshold 0.8 is the floor of four fifths, as
-- long as the product is exact to less than 0.2, that is below 2 ^ 50 tokens.
unfoldable pub is_overflow : Usage → ℕ → Bool
is_overflow u max_context =
    if leb max_context 0
    then false
    else leb (max_context * 4 / 5) (u.prompt_tokens + u.completion_tokens)

abbrev pub user : Bytes
user = codes "user"

abbrev pub assistant : Bytes
assistant = codes "assistant"

-- budget > 0 && estimateMessageTokens(out) <= budget, for the budget maxContext - reserve; where the
-- reserve is the larger the budget of the source is negative, and nothing fits.
unfoldable pub fits : ℕ → ℕ → List Message → Bool
fits max_context reserve out =
    ltb reserve max_context && leb (estimate_message_tokens out) (max_context - reserve)

-- The loop: whole turns are dropped from the head until the rest fits. A head that is no user message,
-- and the last two messages, stay.
unfoldable pub drop_turns : ℕ → ℕ → List Message → List Message
drop_turns max_context reserve [] = []
drop_turns max_context reserve (m ∷ []) = m ∷ []
drop_turns max_context reserve (m ∷ n ∷ []) = m ∷ n ∷ []
drop_turns max_context reserve (m ∷ n ∷ o ∷ rest) =
    let past_pair = drop_turns max_context reserve (o ∷ rest) in
    let past_one = drop_turns max_context reserve (n ∷ o ∷ rest) in
    if fits max_context reserve (m ∷ n ∷ o ∷ rest)
    then m ∷ n ∷ o ∷ rest
    else if m.role == user
    then if n.role == assistant then past_pair else past_one
    else m ∷ n ∷ o ∷ rest

-- The trimmed history, and whether anything was dropped (every round drops at least one message).
unfoldable pub truncate_to_fit : List Message → ℕ → ℕ → List Message × Bool
truncate_to_fit history max_context reserve =
    if fits max_context reserve history
    then (history, false)
    else let out = drop_turns max_context reserve history in
      (out, ltb (length out) (length history))

-- The places of the user messages, from place `i` on.
unfoldable pub user_indexes : ℕ → List Message → List ℕ
user_indexes i [] = []
user_indexes i (m ∷ ms) =
    let rest = user_indexes (suc i) ms in if m.role == user then i ∷ rest else rest

abbrev pub or_zero : Option ℕ → ℕ
or_zero none = 0
or_zero (some n) = n

-- The index expression is in range, so `or_zero` hides no panic.
unfoldable pub compact_cutoff : List Message → ℕ → ℕ
compact_cutoff history keep_turns =
    let user_idx = user_indexes 0 history in
    if leb (length user_idx) keep_turns
    then 0
    else or_zero (get_elem? user_idx (length user_idx - keep_turns))
