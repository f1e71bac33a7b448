-- ===== src/Turn.antt =====
-- controller/turn.go: turns of a session, their events, and the messages about background processes.
-- A conversation is a session with its hub. The turn's goroutine is a sequence of calls: a report of the
-- loop is `report_in_turn`, and its deferred end is `end_turn`; other calls may come between.
pub mod Drain
pub mod Message
use turnhive.Base.{
  ℕ, Bool, true, false, not, ◌&&◌, ◌||◌, Option, none, some, List, [], ◌∷◌, ◌++◌, Bytes, codes,
  length, eqb, ◌==◌, bytes_eq, if◌then◌else◌,
}
use turnhive.Base.Int.{ℤ, is_negative, int_text}
use turnhive.Files.{is_blank}
use turnhive.Patch.Parse.{trim_space}
use turnhive.Hub.{EventHub, Payload}
use turnhive.Hub.Run.{step}
use turnhive.Hub.Reporter.{Report, error, report, start_report}
use turnhive.Session.State.{Session, ToolResult, BgProcessExit}
use turnhive.Session.Turns.{new_turn_id, touch, start_turn, finish_turn, cancel_by_user, turn_cause}
use turnhive.Session.Records.{
  record_background_exit, take_background_exits, requeue_background_exits,
}
use turnhive.Session.Results.{add_tool_result}

pub record Conversation : Type 0 where
  pub session : Session
  pub hub : EventHub

-- What the surroundings give a new turn: its ULID, its context and the time.
pub record Fresh : Type 0 where
  pub ulid : Bytes
  pub cancel : ℕ
  pub now : ℕ

-- A started turn, which runs the loop on its content.
pub record Turn : Type 0 where
  pub turn_id : Bytes
  pub content : Bytes

abbrev pub exit_code_text : ℤ → Bytes
exit_code_text n = if is_negative n then codes "unknown" else int_text n

unfoldable pub process_lines : List BgProcessExit → Bytes
process_lines [] = []
process_lines (e ∷ es) =
    codes "\n<process>\npid: "
    ++ (int_text e.pid
        ++ (codes "\ncommand: "
            ++ (e.command
                ++ (codes "\nexit_code: "
                    ++ (exit_code_text e.exit_code
                        ++ (codes "\nstdout: "
                            ++ (e.stdout_file
                                ++ (codes "\nstderr: "
                                    ++ (e.stderr_file
                                        ++ (codes "\n</process>\n" ++ process_lines es))))))))))

unfoldable pub build_bg_exit_message : List BgProcessExit → Bytes
build_bg_exit_message exits =
    codes "<background_processes_exited>\n"
    ++ (codes
          "note: Automated notification: these background processes have exited. React autonomously (inspect the output files, continue any follow-up work); do NOT ask the user questions unless strictly necessary.\n"
        ++ (process_lines exits ++ codes "</background_processes_exited>"))

abbrev pub with_hub : Session → Turn → Option EventHub → Option (Conversation × Option Turn)
with_hub s turn none = none
with_hub s turn (some h) = some (record { session = s; hub = h }, some turn)

-- What the handlers answer; `accepted` carries the turn's id.
pub data TurnAnswer : Type 0 where
  bad_request conflict gateway_timeout too_many_requests queued : TurnAnswer
  accepted : Bytes → TurnAnswer

abbrev answer_to_start : Option Turn → TurnAnswer
answer_to_start none = conflict
answer_to_start (some turn) = accepted turn.turn_id

-- handleCancelTurn of a routed request; `finished` tells whether the turn was over before the client
-- gave up the wait for it.
unfoldable pub handle_cancel_turn : Bool → Conversation → Conversation × TurnAnswer
handle_cancel_turn finished c =
    let (s, cancelled) = cancel_by_user c.session in
    (
      record c { session = s },
      if cancelled.turn_id == [] then conflict else elim cancelled.done [
        | none ↦ accepted cancelled.turn_id
        | some _ ↦ if finished then accepted cancelled.turn_id else gateway_timeout
      ],
    )

module _ (marshal : Payload → Option Bytes) where
  -- runTurn up to the goroutine; `none` is a panic of the hub.
  unfoldable pub run_turn : Fresh → Bytes → Conversation → Option (Conversation × Option Turn)
  run_turn fresh content c =
      let turn_id = new_turn_id fresh.ulid in
      let (s, started) = start_turn turn_id fresh.cancel c.session in
      if started
      then with_hub (touch fresh.now s) (record { turn_id = turn_id; content = content })
          (step marshal c.hub (start_report turn_id))
      else some (record c { session = s }, none)

  abbrev after_drain :
      List BgProcessExit → Option (Conversation × Option Turn) → Option (Conversation × Option Turn)
  after_drain exits none = none
  after_drain exits (some (c, some turn)) = some (c, some turn)
  after_drain exits (some (c, none)) =
      some (record c { session = requeue_background_exits exits c.session }, none)

  unfoldable pub drain_background_exits : Fresh → Conversation → Option (Conversation × Option Turn)
  drain_background_exits fresh c =
      let (s, exits) = take_background_exits c.session in
      if eqb (length exits) 0
      then some (record c { session = s }, none)
      else after_drain exits
          (run_turn fresh (build_bg_exit_message exits) (record c { session = s }))

  -- OnBackgroundExit of buildLoop (controller/sandbox.go).
  unfoldable pub on_background_exit :
      Fresh → BgProcessExit → Conversation → Option (Conversation × Option Turn)
  on_background_exit fresh info c =
      drain_background_exits fresh (record c { session = record_background_exit info c.session })

  abbrev reported : Conversation → Option EventHub → Option Conversation
  reported c none = none
  reported c (some h) = some (record c { hub = h })

  -- One callback of the loop, with the cause that the session records at that time. An agent that
  -- cannot get its sandbox reports `error (codes "failed to prepare sandbox")`, and one that is busy
  -- `error (codes "session busy")`.
  unfoldable pub report_in_turn : Turn → Report → Conversation → Option Conversation
  report_in_turn turn r c = reported c (
      step marshal c.hub
        (report (record { turn_id = turn.turn_id; cause = turn_cause c.session }) r))

  -- The goroutine's deferred calls, in their order: touch, cancel, finishTurn, and the drain.
  unfoldable pub end_turn : ℕ → Fresh → Conversation → Option (Conversation × Option Turn)
  end_turn now fresh c =
      drain_background_exits fresh (record c { session = (finish_turn (touch now c.session)).0 })

  abbrev answered :
      Option (Conversation × Option Turn) → Option (Conversation × TurnAnswer × Option Turn)
  answered none = none
  answered (some (c, turn)) = some (c, answer_to_start turn, turn)

  -- handleCreateMessage of a decoded and routed request.
  unfoldable pub handle_create_message :
      Fresh → Bytes → Conversation → Option (Conversation × TurnAnswer × Option Turn)
  handle_create_message fresh content c =
      if content == [] then some (c, bad_request, none) else answered (run_turn fresh content c)

-- ToolResultRequest.Validate, as whether it finds no problem.
unfoldable pub valid_tool_result : ToolResult → Bool
valid_tool_result r =
    let trimmed = trim_space r.result in
    let has_result = not (r.result == []) && not (trimmed == codes "null") in
    not (is_blank r.call_id)
    && not (has_result && not (r.error == []))
    && (has_result || not (r.error == []))

abbrev queue_answer : Conversation → Option Session → Conversation × TurnAnswer
queue_answer c none = (c, too_many_requests)
queue_answer c (some s) = (record c { session = s }, queued)

-- handleCreateToolResult of a decoded and routed request.
unfoldable pub handle_create_tool_result : ToolResult → Conversation → Conversation × TurnAnswer
handle_create_tool_result r c =
    if valid_tool_result r then queue_answer c (add_tool_result r c.session) else (c, bad_request)
