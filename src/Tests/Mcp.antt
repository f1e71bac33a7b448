-- ===== src/Tests/Mcp.antt =====
-- Two MCP servers: one lists two tools of one name and one whose name does not fit; the other is reached by the
-- second transport, and cannot list its tools.
use turnhive.Base.{◌≡◌, refl, false, Option, none, some, List, [], ◌∷◌, Bytes, codes}
use turnhive.Base.Split.{count}
use turnhive.Mcp.{
  Transport, streamable, sse, McpServer, ServerTool, Attempt, late, opened, mount_mcp_tools,
  connect_mcp_servers,
}
use turnhive.Mcp.Mounts.{Mounts, mount_mcp_tools-Mounts}
use turnhive.Mcp.Sessions.{all_opened, all_late, Accounts, connect_mcp_servers-Accounts}

abbrev as_object : Bytes → Option Bytes
as_object text = some text

abbrev tool : Bytes → ServerTool
tool name = record { name = name; description = codes "d"; input_schema = none }

abbrev listed : List ServerTool
listed = tool (codes "find") ∷ tool (codes "a tool") ∷ tool (codes "find") ∷ []

mount_mcp_tools-Mounts_example :
    Mounts as_object
      (codes "docs")
      7
      (λ t. t.description ≡ codes "d")
      listed
      (mount_mcp_tools as_object (codes "docs") 7 listed)
mount_mcp_tools-Mounts_example =
    mount_mcp_tools-Mounts as_object (codes "docs") 7 (λ t. t.description ≡ codes "d") listed
      (refl, (refl, (refl, tt)))

abbrev docs : McpServer
docs = record { name = codes "docs"; transport = codes "streamable" }

abbrev docs_answers : Transport → Attempt
docs_answers tr = opened 7 (some (record { tools = listed; has_next = false }) ∷ [])

abbrev wiki : McpServer
wiki = record { name = codes "wiki"; transport = [] }

abbrev wiki_answers : Transport → Attempt
wiki_answers streamable = late 9
wiki_answers sse = opened 8 (none ∷ [])

abbrev servers : List (McpServer × (Transport → Attempt))
servers = (docs, docs_answers) ∷ (wiki, wiki_answers) ∷ []

abbrev arrivals : List (McpServer × (Transport → Attempt))
arrivals = (wiki, wiki_answers) ∷ (docs, docs_answers) ∷ []

connect_mcp_servers-Accounts_example :
    Accounts as_object
      (λ n. count n (all_opened arrivals))
      (all_late arrivals)
      (connect_mcp_servers as_object servers arrivals).0
connect_mcp_servers-Accounts_example = connect_mcp_servers-Accounts as_object servers arrivals
