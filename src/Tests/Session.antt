-- ===== src/Tests/Session.antt =====
-- Two turns of a session, with a sandbox and tool results.
use turnhive.Base.{
  ◌≡◌, ◌≢◌, refl, true, false, none, some, List, [], ◌∷◌, ◌++◌, Bytes, codes, bytes_eqb,
}
use turnhive.Base.Assoc.{lookup, insert}
use turnhive.Base.Int.{pos}
use turnhive.Session.State.{Session, ToolResult, BgProcessExit, new_session}
use turnhive.Session.Turns.{new_turn_id, start_turn, finish_turn}
use turnhive.Session.Sandbox.{
  nothing, live_sandbox, set_sandbox, take_sandbox, close_session, take_sandbox_if_idle,
  take_if_cold, listed,
}
use turnhive.Session.Results.{add_tool_result, begin_wait, take_result, got}
use turnhive.Session.Step.{
  Op, touches, starts, finishes, sets, takes, closes, adds, waits, step, run,
}
use turnhive.Session.Invariant.{IsValid, history-IsValid, one_turn}
use turnhive.Session.Rendezvous.{wait_then_add, late_results}
use turnhive.Session.Leases.{AllFit, all_attached, all_handed_back, sandboxes_accounted}

abbrev ulid : Bytes
ulid = codes "01A"

abbrev call_1 : Bytes
call_1 = codes "call_1"

abbrev answer : ToolResult
answer = record { call_id = call_1; result = codes "{}"; error = [] }

abbrev other : ToolResult
other = record { call_id = codes "call"; result = codes "{}"; error = [] }

abbrev history : List Op
history = starts ulid 7 ∷ sets 1 2 ∷ waits call_1 ∷ adds answer ∷ finishes ∷ touches 5 ∷ []

abbrev two_sandboxes : List Op
two_sandboxes = sets 1 2 ∷ starts ulid 7 ∷ takes ∷ sets 3 4 ∷ closes ∷ sets 5 6 ∷ []

history-IsValid_example : IsValid (run new_session history)
history-IsValid_example = history-IsValid history

one_turn_example :
    let t =
      run (start_turn (new_turn_id ulid) 7 new_session).0 (sets 1 2 ∷ adds answer ∷ closes ∷ []) in
    (t.turn_id ≡ new_turn_id ulid)
    × (start_turn (new_turn_id call_1) 8 t ≡ (t, false))
    × (take_sandbox_if_idle 3 90 t ≡ (t, nothing))
    × (take_if_cold 3 90 t ≡ (t, nothing, false))
unfolding start_turn new_session bytes_eqb
one_turn_example =
    one_turn new_session (sets 1 2 ∷ adds answer ∷ closes ∷ []) ulid call_1 7 8 3 90 refl
      (refl, (refl, (refl, tt)))

wait_then_add_example :
    let s =
      run
        (begin_wait call_1 (run new_session (starts ulid 7 ∷ []))).0
        (adds other ∷ touches 3 ∷ []) in
    (add_tool_result answer s ≢ none)
    × ((take_result 1 (run (step s (adds answer)) (touches 4 ∷ []))).1 ≡ some answer)
unfolding begin_wait run step start_turn new_session lookup insert bytes_eqb
wait_then_add_example =
    wait_then_add (starts ulid 7 ∷ []) (adds other ∷ touches 3 ∷ []) (touches 4 ∷ []) answer 1 refl
      ((λ e. cc), (tt, tt)) (tt, tt)

abbrev buffered : Session
unfolding new_session
buffered = record new_session { pending = (call_1, answer) ∷ [] }

late_results_example :
    ((start_turn (new_turn_id ulid) 8 (finish_turn new_session).0).1 ≡ true)
    × ((begin_wait call_1 (start_turn (new_turn_id ulid) 8 (finish_turn new_session).0).0).1
        ≢ got other)
    × ((begin_wait call_1 (start_turn (new_turn_id ulid) 8 buffered).0).1 ≡ got answer)
unfolding new_session add_tool_result finish_turn lookup insert
late_results_example =
    late_results new_session buffered answer other call_1 (new_turn_id ulid) 8 refl refl

two_sandboxes-Fit : AllFit new_session two_sandboxes
unfolding new_session step live_sandbox set_sandbox take_sandbox close_session start_turn bytes_eqb
two_sandboxes-Fit = (refl, (tt, (tt, (refl, (tt, (refl, tt))))))

sandboxes_accounted_example :
    all_attached new_session two_sandboxes
    ≡ all_handed_back new_session two_sandboxes ++ listed (run new_session two_sandboxes).sandbox
sandboxes_accounted_example = sandboxes_accounted two_sandboxes two_sandboxes-Fit

ends_closed : (run new_session two_sandboxes).closed ≡ true
unfolding run new_session step live_sandbox set_sandbox take_sandbox close_session start_turn
    bytes_eqb
ends_closed = refl

abbrev exit_1 : BgProcessExit
exit_1 = record {
  pid = pos 12;
  command = codes "make";
  exit_code = pos 0;
  stdout_file = codes "/out";
  stderr_file = codes "/err";
  exit_file = codes "/exit";
}
