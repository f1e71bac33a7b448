-- ===== src/Llm/Stream.antt =====
-- llm/llm.go: consumeStream, which reads the model's streamed reply. json.Unmarshal of a chunk is the
-- parameter `decode`.
pub mod Calls
pub mod Reply
use turnhive.Base.{
  ℕ, zero, suc, ◌+◌, Bool, true, false, ◌||◌, Option, none, some, List, [], ◌∷◌, ◌++◌, map, Bytes,
  codes, eqb, leb, length, nat_eq, ◌==◌, bytes_eq, if◌then◌else◌,
}
use turnhive.Base.Int.{ℤ, pos, negsuc}
use turnhive.Base.Assoc.{lookup, insert}
use turnhive.Base.Split.{split}
use turnhive.Truncate.{newline}
use turnhive.Patch.{cut_prefix}
use turnhive.Sse.Client.{trim_line_end, trim_space_prefix}
use turnhive.Llm.{Message, ToolCall, Usage}

-- A fragment of a tool call.
pub record ToolDelta : Type 0 where
  pub index : ℤ
  pub id : Bytes
  pub name : Bytes
  pub arguments : Bytes

pub record Choice : Type 0 where
  pub content : Bytes
  pub reasoning_content : Bytes
  pub reasoning : Bytes
  pub tool_calls : List ToolDelta
  pub finish_reason : Bytes

pub record StreamChunk : Type 0 where
  pub choices : List Choice
  pub usage : Option Usage
  pub error : Option (Bytes × Bytes)

-- onEvent's argument
pub data StreamEvent : Type 0 where
  delta reasoning : Bytes → StreamEvent

pub record ToolCallAccumulator : Type 0 where
  pub id : Bytes
  pub name : Bytes
  pub arguments : Bytes

-- The local variables, and the events emitted.
pub record Reading : Type 0 where
  pub content : Bytes
  pub tool_calls : List (ℕ × ToolCallAccumulator)
  pub usage : Usage
  pub saw_finish_reason : Bool
  pub events : List StreamEvent

abbrev pub new_accumulator : ToolCallAccumulator
new_accumulator = record { id = []; name = []; arguments = [] }

abbrev pub or_new : Option ToolCallAccumulator → ToolCallAccumulator
or_new none = new_accumulator
or_new (some acc) = acc

unfoldable pub absorb_delta : ToolDelta → ToolCallAccumulator → ToolCallAccumulator
absorb_delta tc acc = record {
  id = if tc.id == [] then acc.id else tc.id;
  name = acc.name ++ tc.name;
  arguments = acc.arguments ++ tc.arguments;
}

abbrev pub at_index :
    ℤ → ToolDelta → List (ℕ × ToolCallAccumulator) → List (ℕ × ToolCallAccumulator)
at_index (negsuc n) tc calls = calls
at_index (pos i) tc calls = insert i (absorb_delta tc (or_new (lookup i calls))) calls

-- The loop over delta.ToolCalls.
unfoldable pub merge_calls :
    List ToolDelta → List (ℕ × ToolCallAccumulator) → List (ℕ × ToolCallAccumulator)
merge_calls [] calls = calls
merge_calls (tc ∷ tcs) calls = merge_calls tcs (at_index tc.index tc calls)

abbrev pub emit_text : (Bytes → StreamEvent) → Bytes → List StreamEvent
emit_text make text = if text == [] then [] else make text ∷ []

abbrev pub reasoning_of : Choice → Bytes
reasoning_of c = if c.reasoning_content == [] then c.reasoning else c.reasoning_content

unfoldable pub absorb_choice : Choice → Reading → Reading
absorb_choice c r = record {
  content = r.content ++ c.content;
  tool_calls = merge_calls c.tool_calls r.tool_calls;
  usage = r.usage;
  saw_finish_reason = if c.finish_reason == [] then r.saw_finish_reason else true;
  events = r.events ++ (emit_text delta c.content ++ emit_text reasoning (reasoning_of c));
}

abbrev pub absorb_first : List Choice → Reading → Reading
absorb_first [] r = r
absorb_first (c ∷ _) r = absorb_choice c r

abbrev pub absorb_usage : Option Usage → Reading → Reading
absorb_usage none r = r
absorb_usage (some u) r = record r { usage = u }

unfoldable pub absorb_chunk : StreamChunk → Reading → Reading
absorb_chunk chunk r = absorb_first chunk.choices (absorb_usage chunk.usage r)

pub data StreamError : Type 0 where
  read_failed ended_early : StreamError
  malformed_data : Bytes → StreamError
  stream_error : Bytes → Bytes → StreamError

-- How the loop ends: with the DONE mark, at the end of the body, or with an error.
pub data Ending : Type 0 where
  done ended : Ending
  fails : StreamError → Ending

-- What one line does: it is absorbed, or it ends the loop.
pub data LineStep : Type 0 where
  goes_on : Reading → LineStep
  stops : Ending → LineStep

abbrev pub then_line : LineStep → Reading → (Reading → Reading × Ending) → Reading × Ending
then_line (goes_on r') r next = next r'
then_line (stops e) r next = (r, e)

abbrev pub chunk_step : Option StreamChunk → Bytes → Reading → LineStep
chunk_step none text r = stops (fails (malformed_data text))
chunk_step (some chunk) text r = elim chunk.error [
  | some (kind, message) ↦ stops (fails (stream_error kind message))
  | none ↦ goes_on (absorb_chunk chunk r)
]

abbrev pub no_reply : Reading
no_reply = record {
  content = [];
  tool_calls = [];
  usage = record { prompt_tokens = 0; completion_tokens = 0; total_tokens = 0 };
  saw_finish_reason = false;
  events = [];
}

-- `{}` where no arguments were streamed.
abbrev pub call_of : ℕ × ToolCallAccumulator → ToolCall
call_of (i, acc) = record {
  id = acc.id;
  name = acc.name;
  arguments = if eqb (length acc.arguments) 0 then codes "{}" else acc.arguments;
}

-- sort.Ints of the keys, with what is stored at them.
unfoldable pub insert_sorted :
    ℕ × ToolCallAccumulator → List (ℕ × ToolCallAccumulator) → List (ℕ × ToolCallAccumulator)
insert_sorted (i, acc) [] = (i, acc) ∷ []
insert_sorted (i, acc) ((j, other) ∷ calls) =
    let rest = insert_sorted (i, acc) calls in
    if leb i j then (i, acc) ∷ (j, other) ∷ calls else (j, other) ∷ rest

unfoldable pub sort_calls : List (ℕ × ToolCallAccumulator) → List (ℕ × ToolCallAccumulator)
sort_calls [] = []
sort_calls (call ∷ calls) = insert_sorted call (sort_calls calls)

unfoldable pub message_of : Reading → Message
message_of r = record {
  role = codes "assistant";
  content = r.content;
  tool_calls = map call_of (sort_calls r.tool_calls);
  tool_call_id = [];
  images = [];
}

pub data StreamResult : Type 0 where
  replied : Message → Usage → StreamResult
  failed_with : StreamError → StreamResult

abbrev pub reply_of : Reading → Ending → StreamResult
reply_of r (fails e) = failed_with e
reply_of r done = replied (message_of r) r.usage
reply_of r ended =
    if r.saw_finish_reason then replied (message_of r) r.usage else failed_with ended_early

module _ (decode : Bytes → Option StreamChunk) where
  abbrev pub data_step : Option Bytes → Reading → LineStep
  data_step none r = goes_on r
  data_step (some value) r =
      let text = trim_space_prefix value in
      if text == codes "[DONE]" then stops done else chunk_step (decode text) text r

  unfoldable pub line_step : Bytes → Reading → LineStep
  line_step line r = data_step (cut_prefix (codes "data:") (trim_line_end line)) r

  -- The loop; `failed` tells whether reading stops with an error or at the end of the body.
  unfoldable pub consume_lines : Bool → List Bytes → Reading → Reading × Ending
  consume_lines failed [] r = (r, ended)
  consume_lines failed (last ∷ []) r =
      if failed then (r, fails read_failed) else then_line (line_step last r) r (λ r'. (r', ended))
  consume_lines failed (l ∷ m ∷ lines) r =
      then_line (line_step l r) r (λ r'. consume_lines failed (m ∷ lines) r')

  unfoldable pub consume_stream : Bool → Bytes → List StreamEvent × StreamResult
  consume_stream failed body =
      let (r, e) = consume_lines failed (split newline body) no_reply in (r.events, reply_of r e)
