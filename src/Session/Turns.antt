-- ===== src/Session/Turns.antt =====
-- The running turn: startTurn, finishTurn, cancelTurn, CancelTurn, TurnID, turnCause, touch.
use turnhive.Base.{
  ℕ, suc, Bool, true, false, ◌&&◌, ◌+◌, ◌++◌, map, codes, leb, Option, none, some, [], Bytes, ◌==◌,
  bytes_eq, if◌then◌else◌,
}
use turnhive.Hub.Reporter.{TurnError, turn_cancelled}
use turnhive.Session.State.{Session}

-- strings.ToLower on ASCII
unfoldable pub to_lower : ℕ → ℕ
to_lower c = if leb b'A' c && leb c b'Z' then c + 32 else c

-- newTurnID of controller/turn.go, from the text that ulid.Make gives.
unfoldable pub new_turn_id : Bytes → Bytes
unfolding to_lower
new_turn_id ulid = codes "turn-" ++ map to_lower ulid

unfoldable pub touch : ℕ → Session → Session
touch now s = record s { last_activity = now }

-- Whether the turn was started; `cancel` is its context. `make(chan struct{})` takes the next number.
unfoldable pub start_turn : Bytes → ℕ → Session → Session × Bool
start_turn turn_id cancel s =
    if s.turn_id == []
    then (
      record s {
        turn_id = turn_id;
        turn_cancel = some cancel;
        turn_cancel_cause = none;
        turn_done = some s.next_chan;
        next_chan = suc s.next_chan;
      },
      true,
    )
    else (s, false)

-- The new state and the `turnDone` channel that is closed.
unfoldable pub finish_turn : Session → Session × Option ℕ
finish_turn s =
    (record s { turn_id = []; turn_cancel = none; pending = []; turn_done = none }, s.turn_done)

-- The context that is cancelled, if any.
unfoldable pub cancel_turn : Session → Option ℕ
cancel_turn s = s.turn_cancel

-- The turn's id ("" when idle), the channel to wait on, and the context that is cancelled.
pub record Cancelled : Type 0 where
  pub turn_id : Bytes
  pub done : Option ℕ
  pub context : Option ℕ

-- CancelTurn, the cancel endpoint's.
unfoldable pub cancel_by_user : Session → Session × Cancelled
cancel_by_user s = elim s.turn_cancel [
  | none ↦ (s, record { turn_id = []; done = none; context = none })
  | some cancel ↦ (
    record s { turn_cancel_cause = some turn_cancelled },
    record { turn_id = s.turn_id; done = s.turn_done; context = some cancel },
  )
]

unfoldable pub turn_cause : Session → Option TurnError
turn_cause s = s.turn_cancel_cause
