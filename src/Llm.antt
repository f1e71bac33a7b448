-- ===== src/Llm.antt =====
-- llm/llm.go: the types of a chat with the model.
pub mod Stream
pub mod Wire
pub mod Retry
use turnhive.Base.{ℕ, List, Bytes}

pub record ToolCall : Type 0 where
  pub id : Bytes
  pub name : Bytes
  pub arguments : Bytes

pub record Message : Type 0 where
  pub role : Bytes
  pub content : Bytes
  pub tool_calls : List ToolCall
  pub tool_call_id : Bytes
  pub images : List Bytes

pub record Usage : Type 0 where
  pub prompt_tokens : ℕ
  pub completion_tokens : ℕ
  pub total_tokens : ℕ
