-- ===== src/Mcp.antt =====
-- agent/tools_mcp.go: the tools of MCP servers. What a server answers to a connect with each transport, to the
-- listing of its tools and to a call is given, sessions are numbers, and a JSON Schema is its text.
pub mod Mounts
pub mod Sessions
use turnhive.Base.{
  ℕ, suc, Bool, true, false, not, ◌&&◌, ◌||◌, Option, none, some, List, [], ◌∷◌, ◌++◌, map, Bytes,
  codes, leb, eqb, length, ◌==◌, bytes_eq, if◌then◌else◌,
}
use turnhive.Truncate.{newline}
use turnhive.Loop.Tools.{Executed, ran, broke}
use turnhive.Files.{all_pass, is_alphanumeric, seen_before}

pub data Transport : Type 0 where
  streamable sse : Transport

-- The name and the transport of MCPServerSpec.
pub record McpServer : Type 0 where
  pub name : Bytes
  pub transport : Bytes

-- A tool that a server lists, with the JSON of its schema, if it has one that marshals.
pub record ServerTool : Type 0 where
  pub name : Bytes
  pub description : Bytes
  pub input_schema : Option Bytes

pub record McpTool : Type 0 where
  pub name : Bytes
  pub description : Bytes
  pub parameters : Bytes
  pub session : ℕ
  pub orig_name : Bytes

-- transports, in order of preference
unfoldable pub transports : McpServer → List Transport
transports s =
    if s.transport == codes "streamable"
    then streamable ∷ []
    else if s.transport == codes "sse"
    then sse ∷ []
    else streamable ∷ sse ∷ []

abbrev is_tool_char : ℕ → Bool
is_tool_char c = is_alphanumeric c || eqb c b'_' || eqb c b'-'

-- mcpToolNamePattern, ^[a-zA-Z0-9_-]{1,64}$
unfoldable pub matches_tool_name : Bytes → Bool
matches_tool_name [] = false
matches_tool_name (c ∷ s) = leb (suc (length s)) 64 && all_pass is_tool_char (c ∷ s)

-- A page of ListTools, and whether it has a next cursor.
pub record ToolPage : Type 0 where
  pub tools : List ServerTool
  pub has_next : Bool

abbrev pub behind_page : List ServerTool → Option (List ServerTool) → Option (List ServerTool)
behind_page tools none = none
behind_page tools (some rest) = some (tools ++ rest)

-- listMCPTools on the answers to its calls; answers that end too early are an error.
unfoldable pub list_mcp_tools : List (Option ToolPage) → Option (List ServerTool)
list_mcp_tools [] = none
list_mcp_tools (none ∷ answers) = none
list_mcp_tools (some page ∷ answers) =
    let rest = behind_page page.tools (list_mcp_tools answers) in
    if page.has_next then rest else some page.tools

unfoldable pub namespaced : Bytes → Bytes → Bytes
namespaced server tool = server ++ (codes "__" ++ tool)

-- What a connect with a transport meets: an error or its timeout, a session that is there only when the timer has
-- won, or a session and its listing.
pub data Attempt : Type 0 where
  refused : Bytes → Attempt
  late : ℕ → Attempt
  opened : ℕ → List (Option ToolPage) → Attempt

pub data McpError : Type 0 where
  list_failed : McpError
  connect_failed : Option Bytes → McpError

-- What connectMCPServer returns, the sessions that it closed, and those of which it only cancelled the context.
pub record Connection : Type 0 where
  pub conn : Option ℕ
  pub mounted : List McpTool
  pub failure : Option McpError
  pub closed : List ℕ
  pub cancelled : List ℕ

pub record McpServerStatus : Type 0 where
  pub name : Bytes
  pub tool_count : ℕ
  pub failure : Option McpError

-- What the goroutines of ConnectMCPServers have collected.
pub record Collected : Type 0 where
  pub tools : List McpTool
  pub conns : List ℕ
  pub closed : List ℕ
  pub cancelled : List ℕ

abbrev pub conns_of : Option ℕ → List ℕ
conns_of none = []
conns_of (some session) = session ∷ []

-- `as_object` reads the JSON of a schema again and gives the JSON of an object, or none.
module _ (as_object : Bytes → Option Bytes) where
  abbrev pub or_empty_object : Option Bytes → Bytes
  or_empty_object none = codes "{\"type\":\"object\",\"properties\":{}}"
  or_empty_object (some schema) = schema

  -- toolParameters
  abbrev pub tool_parameters : Option Bytes → Bytes
  tool_parameters none = or_empty_object none
  tool_parameters (some schema) = or_empty_object (as_object schema)

  abbrev pub mounted_tool : Bytes → ℕ → ServerTool → McpTool
  mounted_tool server session t = record {
    name = namespaced server t.name;
    description = t.description;
    parameters = tool_parameters t.input_schema;
    session = session;
    orig_name = t.name;
  }

  abbrev pub is_skipped : List Bytes → Bytes → Bool
  is_skipped seen name = not (matches_tool_name name) || seen_before name seen

  -- The loop of mountMCPTools, with the names seen so far.
  unfoldable pub mount_from : Bytes → ℕ → List Bytes → List ServerTool → List McpTool
  mount_from server session seen [] = []
  mount_from server session seen (t ∷ ts) =
      let name = namespaced server t.name in
      let skipped = is_skipped seen name in
      let rest = mount_from server session (if skipped then seen else name ∷ seen) ts in
      if skipped then rest else mounted_tool server session t ∷ rest

  unfoldable pub mount_mcp_tools : Bytes → ℕ → List ServerTool → List McpTool
  mount_mcp_tools server session ts = mount_from server session [] ts

  -- A session that was opened: one whose tools cannot be listed is closed.
  abbrev pub listed_tools : Bytes → ℕ → Option (List ServerTool) → Connection
  listed_tools server session none = record {
    conn = none;
    mounted = [];
    failure = some list_failed;
    closed = session ∷ [];
    cancelled = [];
  }
  listed_tools server session (some ts) = record {
    conn = some session;
    mounted = mount_mcp_tools server session ts;
    failure = none;
    closed = [];
    cancelled = [];
  }

  -- connectMCPWithTimeout gives up on its goroutine, whose session stays in the channel.
  abbrev pub with_cancelled : ℕ → Connection → Connection
  with_cancelled session c = record c { cancelled = session ∷ c.cancelled }

  abbrev pub timed_out : Bytes
  timed_out = codes "timed out after 10s"

  abbrev pub attempted : Bytes → Attempt → (Option Bytes → Connection) → Connection
  attempted server (refused err) next = next (some err)
  attempted server (late session) next = with_cancelled session (next (some timed_out))
  attempted server (opened session answers) next =
      listed_tools server session (list_mcp_tools answers)

  -- The loop of connectMCPServer, with the last error.
  unfoldable pub connect_from :
      Bytes → (Transport → Attempt) → List Transport → Option Bytes → Connection
  connect_from server meets [] last = record {
    conn = none;
    mounted = [];
    failure = some (connect_failed last);
    closed = [];
    cancelled = [];
  }
  connect_from server meets (tr ∷ trs) last =
      attempted server (meets tr) (connect_from server meets trs)

  unfoldable pub connect_mcp_server : (Transport → Attempt) → McpServer → Connection
  connect_mcp_server meets s = connect_from s.name meets (transports s) none

  abbrev pub status_of : McpServer → Connection → McpServerStatus
  status_of s c = record { name = s.name; tool_count = length c.mounted; failure = c.failure }

  -- A goroutine's critical section.
  abbrev pub collect : Connection → Collected → Collected
  collect c done = record {
    tools = done.tools ++ c.mounted;
    conns = done.conns ++ conns_of c.conn;
    closed = done.closed ++ c.closed;
    cancelled = done.cancelled ++ c.cancelled;
  }

  -- The goroutines in the order in which they come to it.
  unfoldable pub collect_all : List (McpServer × (Transport → Attempt)) → Collected → Collected
  collect_all [] done = done
  collect_all ((s, meets) ∷ rest) done =
      collect_all rest (collect (connect_mcp_server meets s) done)

  abbrev pub nothing_yet : Collected
  nothing_yet = record { tools = []; conns = []; closed = []; cancelled = [] }

  abbrev pub server_status : McpServer × (Transport → Attempt) → McpServerStatus
  server_status (s, meets) = status_of s (connect_mcp_server meets s)

  -- ConnectMCPServers: what was collected in the order of `arrivals`, and the statuses in that of the servers.
  -- closeAll is a call of closeMCPSessions on the `conns`.
  unfoldable pub connect_mcp_servers :
      List (McpServer × (Transport → Attempt))
      → List (McpServer × (Transport → Attempt))
      → Collected × List McpServerStatus
  connect_mcp_servers servers arrivals =
      (collect_all arrivals nothing_yet, map server_status servers)

-- A content of a call's result: a text, or the Go type of another.
pub data Content : Type 0 where
  text : Bytes → Content
  other : Bytes → Content

-- What CallTool answers: an error, or the contents, whether they are an error, and the JSON of the whole result.
pub data Called : Type 0 where
  call_failed : Bytes → Called
  returned : List Content → Bool → Option Bytes → Called

abbrev pub content_text : Content → Bytes
content_text (text t) = t
content_text (other go_type) = codes "[mcp: omitted " ++ (go_type ++ codes " content]")

unfoldable pub join_contents : Bytes → List Content → Bytes
join_contents out [] = out
join_contents out (c ∷ cs) =
    join_contents (if out == [] then content_text c else out ++ newline ∷ content_text c) cs

abbrev pub or_json : Bytes → Option Bytes → Bytes
or_json out none = out
or_json out (some json) = if out == [] then json else out

abbrev pub output : Bool → Bytes → Executed
output true out = broke (if out == [] then codes "mcp tool call failed" else out)
output false out = ran out []

-- mcpTool.Execute
unfoldable pub execute_mcp_tool : Called → Executed
execute_mcp_tool (call_failed err) = broke err
execute_mcp_tool (returned contents is_error json) =
    output is_error (or_json (join_contents [] contents) json)
