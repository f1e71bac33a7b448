-- ===== src/Lib.antt =====
-- turnhive: the core of an agent server, as functions on explicit states, and what they guarantee.
--
-- A turnhive node serves sessions. A client posts a message; the controller starts a turn, in which an
-- agent loop streams from the model and runs tools in a sandbox; every step of the turn is published to
-- the session's event hub, from which any number of clients stream, reconnect and replay. Tools that the
-- client runs itself report their results back to the session, where the loop waits for them. What a tool
-- prints is cut before it goes into the context, and the history is trimmed and compacted to the model's
-- window.
--
-- Hub.antt models controller/hub.go: eventHub is `EventHub`, a subscriber's channel is a `Chan` with what
-- it buffers, and publish, subscribe, unsubscribe and closeAll are functions of those names. A panic of
-- the Go runtime (a send on a closed channel, a second close) is `none`. Hub/Run has the histories: calls
-- in any interleaving, which is all there is since every method holds the mutex. Hub/Reporter has
-- hubReporter, whose callbacks are publishes.
--
-- Session.antt models controller/session.go: Session/State the struct, Session/Turns the running turn,
-- Session/Sandbox the sandbox and its lease renewal, Session/Records what a session records, and
-- Session/Results AddToolResult and WaitToolResult, whose blocking part is three steps (`begin_wait`,
-- then `take_result` or `give_up`). Session/Step has the histories. Contexts, channels, sandboxes and
-- loops are numbers that stand for their identity, and times are numbers on a clock that does not run
-- back.
--
-- Turn.antt models controller/turn.go on a session with its hub (`Conversation`): runTurn up to its goroutine,
-- a report of the loop, the goroutine's deferred end, drainBackgroundExits, and the handlers of requests that
-- are decoded and routed to their session.
--
-- Truncate.antt models agent/truncate.go, with the runes of a Go string in Truncate/Utf8 (`for range` over
-- a string as the language defines it).
--
-- Context.antt and Context/Summary model agent/context.go on the records of Llm.antt (llm/llm.go).
--
-- Files.antt models controller/files.go: the validation of file references and attachFiles on a session, with
-- the transfer of one file into the sandbox (agent/files.go) as the parameter `put`.
--
-- Patch.antt models applyHunksToText of agent/patch.go, and Patch/Parse its diff parser, where the loops
-- over one index are a recursion over the lines with the place in the loops as a mode. Patch/Script has
-- patches as lists of hunks with their lines.
--
-- Llm.antt and Llm/Wire model the messages of llm/llm.go and their wire format, Llm/Stream the reading of a
-- streamed reply with the collection of its tool calls, and Llm/Retry the posts and the waits between them.
--
-- Loop.antt models agent/loop.go: RunTurn on what the endpoint, the tools and the history store answer, as a
-- list of reports and saved histories, and SealInterruptedTurn; NewLoop's wiring is not written out. Loop/Tools
-- has the calls of the tools, with agent/tool.go. History.antt models agent/history.go.
--
-- Sse.antt models controller/sse.go and handleSessionEvents of controller/controller.go as the text of the
-- stream, and Sse/Client the parser of stream.go.
--
-- Spec.antt models controller/spec.go, and Config.antt config/config.go behind the YAML decoder.
--
-- Registry.antt models registry/registry.go. etcd is the record `Etcd`, of its calls with their documented
-- laws; each call of it ends with its answer, or with an error before or after it took effect (`Reply`), as
-- a put under a lease that is gone does.
-- Registry/Claims has the histories: calls of any nodes in any order, and ends of leases.
--
-- Provision.antt models controller/sandbox.go: ensureSandbox with what other goroutines do to the session
-- while the sandbox is built. Node.antt models handleCreateSession of controller/controller.go on a node, etcd
-- and the object storage (`Bucket`), Node/Adopt controller/adopt.go, and Node/Sweep handleDeleteSession and
-- controller/sweeper.go. Routing.antt models controller/routing.go on those.
--
-- Mcp.antt models agent/tools_mcp.go on what the servers answer. The goroutines of ConnectMCPServers only meet
-- in their critical section, so they are the list of its entries in order.
--
-- Storage.antt models the keys, the cap and the listing of storage/storage.go, the keys of
-- agent/tools_persist.go and listPersistedObjects. Workspace.antt models the path resolution and the write,
-- edit and apply_patch tools of agent/tools_sandbox.go on the files of a sandbox (`Disk`).
--
-- Shell.antt models the shell tool of agent/tools_sandbox.go on what a call meets (`Met`): which channel or
-- timer each of its waits ends with, and the files that it reads back. Shell/Process has the goroutine that runs
-- the command, on its events, and watchBgProcess; Shell/Wrapper the files of a call and the text that is sent to
-- the sandbox; Shell/Output the reply. A session's calls run one after another, as its turns make them.
--
-- Base.antt has the shared names, Base/Tests the Boolean tests, Base/Lists the lists measured by native
-- numbers, Base/Text Go strings as lists of bytes, Base/Split strings.Split, Join and Count, Base/Decimal
-- the decimal notation, Base/Assoc maps. Tests.antt applies the results to concrete inputs.
--
-- A Go string is the list of its bytes. An int is a natural number without a bound: sequence numbers, byte
-- counts and line counts start at 0, go up by one or by the length of a text in memory, and stay far below
-- 2 ^ 63. Numbers that come in from outside, as sizes, durations, exit codes and pids, are integers. A
-- difference that the code takes is never below 0 there, or the test beside it is written out. Every loop
-- is structural recursion, on a list or on a string, except for two: the steps of a turn run on the number
-- of steps left, as the code counts them, and the posts of a request on fuel, of which four are enough.
--
-- Code of others is an argument: json.Marshal and json.Unmarshal, which may fail, url.Parse and
-- net.SplitHostPort, the endpoint, the tools, etcd, S3, ironhive, and the file that a long output is saved
-- to (`Spiller`), bash, and the JSON of an env event (`decode_env`); ULIDs and times come from the caller.
-- Not modelled: the decoding and encoding of HTTP requests and the client's calls, since they only pass on
-- what the models take and give; the read, media, skill and external tools and the upload of persist,
-- which are exchanges with the sandbox, the storage or the client; the MCP library; the S3 client's own
-- calls; the tickers, timeouts and logs; and the program's entry.
pub mod Base
pub mod Hub
pub mod Session
pub mod Truncate
pub mod Llm
pub mod Loop
pub mod History
pub mod Context
pub mod Files
pub mod Patch
pub mod Turn
pub mod Sse
pub mod Spec
pub mod Provision
pub mod Node
pub mod Routing
pub mod Workspace
pub mod Storage
pub mod Config
pub mod Shell
pub mod Mcp
pub mod Registry
pub mod Tests
