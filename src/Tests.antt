-- ===== src/Tests.antt =====
-- The theorems at concrete inputs.
mod Hub
mod History
mod Session
mod Truncate
mod Turn
mod Context
mod Files
mod Patch
mod Sse
mod Llm
mod Loop
mod Cluster
mod Sandbox
mod Config
mod Mcp
mod Shell
