-- ===== src/Session/Step.antt =====
-- Histories of a session: its methods in any order, from any goroutine.
use turnhive.Base.{ℕ, Bytes, Option, none, some, List, [], ◌∷◌}
use turnhive.Session.State.{Session, ToolResult, FileRecord, PersistedObject, BgProcessExit}
use turnhive.Session.Turns.{new_turn_id, touch, start_turn, finish_turn, cancel_by_user}
use turnhive.Session.Sandbox.{
  set_sandbox, take_sandbox, take_sandbox_if_idle, close_session, take_if_cold, set_loop,
}
use turnhive.Session.Records.{
  record_persisted, record_file, record_background_exit, take_background_exits,
  requeue_background_exits,
}
use turnhive.Session.Results.{add_tool_result, begin_wait, take_result, give_up}

pub data Op : Type 0 where
  touches : ℕ → Op
  starts : Bytes → ℕ → Op
  finishes : Op
  cancels : Op
  sets : ℕ → ℕ → Op
  takes : Op
  reaps : ℕ → ℕ → Op
  closes : Op
  evicts : ℕ → ℕ → Op
  loops : ℕ → Op
  persists : PersistedObject → Op
  attaches : FileRecord → Op
  exits : BgProcessExit → Op
  drains : Op
  requeues : List BgProcessExit → Op
  adds : ToolResult → Op
  waits : Bytes → Op
  receives : ℕ → Op
  gives_up : Bytes → Op

-- A refused result leaves the session as it was.
abbrev pub or_same : Session → Option Session → Session
or_same s none = s
or_same s (some t) = t

unfoldable pub step : Session → Op → Session
step s (touches now) = touch now s
step s (starts ulid cancel) = (start_turn (new_turn_id ulid) cancel s).0
step s finishes = (finish_turn s).0
step s cancels = (cancel_by_user s).0
step s (sets sb stop) = (set_sandbox sb stop s).0
step s takes = (take_sandbox s).0
step s (reaps d now) = (take_sandbox_if_idle d now s).0
step s closes = (close_session s).0
step s (evicts d now) = (take_if_cold d now s).0
step s (loops l) = set_loop l s
step s (persists obj) = record_persisted obj s
step s (attaches u) = record_file u s
step s (exits info) = record_background_exit info s
step s drains = (take_background_exits s).0
step s (requeues es) = requeue_background_exits es s
step s (adds r) = or_same s (add_tool_result r s)
step s (waits call_id) = (begin_wait call_id s).0
step s (receives ch) = (take_result ch s).0
step s (gives_up call_id) = give_up call_id s

unfoldable pub run : Session → List Op → Session
run s [] = s
run s (op ∷ ops) = run (step s op) ops
