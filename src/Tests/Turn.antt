-- ===== src/Tests/Turn.antt =====
-- A background process that exits while a turn runs.
use turnhive.Base.{◌≡◌, refl, Option, none, some, [], Bytes, codes, bytes_eqb}
use turnhive.Hub.{Payload, new_event_hub}
use turnhive.Base.Int.{pos}
use turnhive.Session.State.{BgProcessExit, new_session}
use turnhive.Session.Turns.{new_turn_id, start_turn}
use turnhive.Session.Records.{
  take_background_exits, requeue_background_exits, record_background_exit,
}
use turnhive.Turn.{Conversation, Fresh, run_turn, drain_background_exits}

abbrev to_json : Payload → Option Bytes
to_json p = some []

abbrev fresh : Fresh
fresh = record { ulid = codes "01B"; cancel = 9; now = 50 }

abbrev make_exit : BgProcessExit
make_exit = record {
  pid = pos 12;
  command = codes "make";
  exit_code = pos 0;
  stdout_file = codes "/out";
  stderr_file = codes "/err";
  exit_file = codes "/exit";
}

abbrev busy : Conversation
busy = record {
  session =
      record_background_exit make_exit (start_turn (new_turn_id (codes "01A")) 7 new_session).0;
  hub = new_event_hub;
}

busy_drains : drain_background_exits to_json fresh busy ≡ some (busy, none)
unfolding drain_background_exits run_turn take_background_exits requeue_background_exits
    record_background_exit start_turn new_session new_turn_id bytes_eqb
busy_drains = refl

abbrev idle : Conversation
idle = record { session = new_session; hub = new_event_hub }
