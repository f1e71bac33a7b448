-- ===== src/Loop/Tools.antt =====
-- The calls of tools in a turn: dispatchTool of agent/tool.go, and in agent/loop.go the tools that a turn has
-- and the messages that a call ends with. A panic is none.
use turnhive.Base.{
  ◌>>=◌, Bool, true, false, Option, none, some, List, [], ◌∷◌, ◌++◌, Bytes, codes, ◌==◌, bytes_eq,
  if◌then◌else◌,
}
use turnhive.Llm.{Message, ToolCall}
use turnhive.Truncate.{
  truncate, truncate_spill, Spiller, strict_hint, strict_max_lines, strict_max_bytes,
}
use turnhive.Context.{user}
use turnhive.Hub.Reporter.{Report, tool_call}

abbrev pub plain_message : Bytes → Bytes → Message
plain_message role content = record {
  role = role;
  content = content;
  tool_calls = [];
  tool_call_id = [];
  images = [];
}

-- What a call of a tool gives.
pub data Executed : Type 0 where
  ran : Bytes → List Bytes → Executed
  broke : Bytes → Executed

-- Tool, ImageTool and selfTruncatingTool: a tool that is no ImageTool gives no images.
pub record Tool : Type 0 where
  pub name : Bytes
  pub execute : List Message → ToolCall → Executed
  pub self_truncating : Bool

abbrev pub truncated : Option Bytes → List Bytes → Option Executed
truncated none images = none
truncated (some text) images = some (ran text images)

abbrev pub bound_output : Tool → Option Spiller → Executed → Option Executed
bound_output t spiller (broke err) = some (broke err)
bound_output t spiller (ran text images) =
    if t.self_truncating
    then some (ran text images)
    else truncated (truncate_spill text spiller) images

unfoldable pub dispatch_tool :
    List Tool → Option Spiller → List Message → ToolCall → Option Executed
dispatch_tool [] spiller working tc = some (broke (codes "unknown tool: " ++ tc.name))
dispatch_tool (t ∷ tools) spiller working tc =
    let rest = dispatch_tool tools spiller working tc in
    if t.name == tc.name then bound_output t spiller (t.execute working tc) else rest

unfoldable pub has_tool : List Tool → Bytes → Bool
has_tool [] name = false
has_tool (t ∷ tools) name = if t.name == name then true else has_tool tools name

-- The tools of the MCP servers behind the loop's own, without those whose name is taken.
unfoldable pub mount : List Tool → List Tool → List Tool
mount own [] = []
mount own (t ∷ mcp) = let rest = mount own mcp in if has_tool own t.name then rest else t ∷ rest

abbrev pub tools_of_turn : List Tool → List Tool → List Tool
tools_of_turn own mcp = own ++ mount own mcp

abbrev pub tool_event : ToolCall → Bytes → Report
tool_event tc status = tool_call (record { id = tc.id; name = tc.name; status = status })

abbrev pub tool_message : ToolCall → Bytes → Message
tool_message tc text = record {
  role = codes "tool";
  content = text;
  tool_calls = [];
  tool_call_id = tc.id;
  images = [];
}

abbrev pub image_messages : List Bytes → List Message
image_messages [] = []
image_messages (u ∷ us) =
    record { role = user; content = []; tool_calls = []; tool_call_id = []; images = u ∷ us } ∷ []

-- Truncate(err.Error(), …)
unfoldable pub error_text : Bytes → Option Bytes
error_text err =
    truncate err
      (record { max_lines = strict_max_lines; max_bytes = strict_max_bytes; hint = strict_hint })

-- What a call ends with: its last report, and the messages that the model gets.
abbrev pub call_results : ToolCall → Executed → Option (Report × List Message)
call_results tc (ran text images) =
    some (tool_event tc (codes "done"), tool_message tc text ∷ image_messages images)
call_results tc (broke err) = do
  text ← error_text err
  some (tool_event tc (codes "error"), tool_message tc (codes "error: " ++ text) ∷ [])

module _ (tools : List Tool) (spiller : Option Spiller) where
  unfoldable pub call_tool : List Message → ToolCall → Option (Report × List Message)
  call_tool working tc = do
    executed ← dispatch_tool tools spiller working tc
    call_results tc executed

  -- The loop over the calls of a reply.
  unfoldable pub call_tools : List ToolCall → List Message → Option (List Report × List Message)
  call_tools [] working = some ([], working)
  call_tools (tc ∷ tcs) working = do
    (last, results) ← call_tool working tc
    (reports, out) ← call_tools tcs (working ++ results)
    some (tool_event tc (codes "running") ∷ last ∷ reports, out)
