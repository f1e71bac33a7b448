-- ===== src/Session/State.antt =====
-- The record `Session` of controller/session.go and the records it keeps.
use turnhive.Base.{ℕ, Bool, false, Option, none, List, [], Bytes}
use turnhive.Base.Int.{ℤ}
use turnhive.Hub.Reporter.{TurnError}

-- ToolResultRequest of controller/spec.go; `result` is the raw JSON.
pub record ToolResult : Type 0 where
  pub call_id : Bytes
  pub result : Bytes
  pub error : Bytes

-- agent.FileRecord
pub record FileRecord : Type 0 where
  pub name : Bytes
  pub object_key : Bytes
  pub size : ℕ
  pub at : ℕ

-- agent.PersistedObject
pub record PersistedObject : Type 0 where
  pub path : Bytes
  pub object_key : Bytes
  pub size : ℕ
  pub at : ℕ

-- agent.BgProcessExit; an exit code of -1 was not determined.
pub record BgProcessExit : Type 0 where
  pub pid : ℤ
  pub command : Bytes
  pub exit_code : ℤ
  pub stdout_file : Bytes
  pub stderr_file : Bytes
  pub exit_file : Bytes

-- `chans` holds what waits in a result channel, and `next_chan` is the next channel that `make`
-- returns. The fields that a session never changes (ID, Spec, hub) are left to the callers.
pub record Session : Type 0 where
  pub sandbox : Option ℕ
  pub loop : Option ℕ
  pub stop_renew : Option ℕ
  pub closed : Bool
  pub turn_id : Bytes
  pub turn_cancel : Option ℕ
  pub turn_cancel_cause : Option TurnError
  pub turn_done : Option ℕ
  pub last_activity : ℕ
  pub pending : List (Bytes × ToolResult)
  pub waiters : List (Bytes × ℕ)
  pub persisted : List (Bytes × PersistedObject)
  pub files : List (Bytes × FileRecord)
  pub bg_exited : List BgProcessExit
  pub chans : List (ℕ × ToolResult)
  pub next_chan : ℕ

-- &Session{…} of handleCreateSession
unfoldable pub new_session : Session
new_session = record {
  sandbox = none;
  loop = none;
  stop_renew = none;
  closed = false;
  turn_id = [];
  turn_cancel = none;
  turn_cancel_cause = none;
  turn_done = none;
  last_activity = 0;
  pending = [];
  waiters = [];
  persisted = [];
  files = [];
  bg_exited = [];
  chans = [];
  next_chan = 0;
}
