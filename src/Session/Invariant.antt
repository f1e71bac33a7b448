-- ===== src/Session/Invariant.antt =====
-- What every history of a session keeps.
use turnhive.Base.{
  ℕ, ◌≤◌, ◌≡◌, ◌⊎◌, ◌∙◌, refl, Bool, true, false, none, some, List, [], ◌∷◌, Bytes, arith, length,
  All, is_none, ◌==◌, bytes_eq, bytes_eqb,
}
use turnhive.Base.Assoc.{length-insert, length-remove-le}
use turnhive.Session.State.{Session, ToolResult, new_session}
use turnhive.Session.Turns.{new_turn_id, touch, start_turn, finish_turn, cancel_by_user}
use turnhive.Session.Sandbox.{
  nothing, set_sandbox, take_sandbox, take_sandbox_if_idle, close_session, take_if_cold, set_loop,
}
use turnhive.Session.Records.{
  record_persisted, record_file, record_background_exit, take_background_exits,
  requeue_background_exits,
}
use turnhive.Session.Results.{
  pending_tool_results_cap, add_tool_result, begin_wait, take_result, give_up,
}
use turnhive.Session.Step.{Op, starts, finishes, adds, waits, step, run}

-- The id, the context and the done channel of a turn come and go together; so do a sandbox and its
-- lease renewal; a closed session holds no sandbox; the pending buffer keeps its bound.
pub record IsValid (s : Session) : Type 0 where
  pub one_id : (s.turn_id == []) ≡ is_none s.turn_cancel
  pub one_done : is_none s.turn_done ≡ is_none s.turn_cancel
  pub renewed : is_none s.stop_renew ≡ is_none s.sandbox
  pub detached : (s.closed ≡ false) ⊎ (s.sandbox ≡ none)
  pub bounded : length s.pending ≤ pending_tool_results_cap

start-IsValid :
    (s : Session) (ulid : Bytes) (cancel : ℕ)
    → IsValid s
    → IsValid (start_turn (new_turn_id ulid) cancel s).0
unfolding start_turn new_turn_id bytes_eqb
start-IsValid s ulid cancel v = ground arith

add-IsValid :
    (s t : Session) (r : ToolResult) → IsValid s → add_tool_result r s ≡ some t → IsValid t
unfolding add_tool_result
add-IsValid s t r v e = ground (arith, length-insert r.call_id r s.pending)

wait-IsValid : (s : Session) (k : Bytes) → IsValid s → IsValid (begin_wait k s).0
unfolding begin_wait
wait-IsValid s k v = ground (arith, length-remove-le k s.pending)

finish-IsValid : (s : Session) → IsValid s → IsValid (finish_turn s).0
unfolding finish_turn bytes_eqb
finish-IsValid s v = ground arith

step-IsValid : (s : Session) (op : Op) → IsValid s → IsValid (step s op)
unfolding step touch finish_turn cancel_by_user set_sandbox take_sandbox take_sandbox_if_idle
    close_session take_if_cold set_loop record_persisted record_file record_background_exit
    take_background_exits requeue_background_exits take_result give_up
step-IsValid s (starts ulid cancel) v = start-IsValid s ulid cancel v
step-IsValid s (adds r) v = ground (arith, add-IsValid s (step s (adds r)) r v)
step-IsValid s (waits k) v = wait-IsValid s k v
step-IsValid s finishes v = finish-IsValid s v
step-IsValid s _ v = ground arith

run-IsValid : (s : Session) (ops : List Op) → IsValid s → IsValid (run s ops)
unfolding run
run-IsValid s [] v = v
run-IsValid s (op ∷ ops) v = run-IsValid (step s op) ops (step-IsValid s op v)

new_session-IsValid : IsValid new_session
unfolding new_session bytes_eqb
new_session-IsValid = ground arith

-- After any history of a new session: its turn has an id just when it has a context to cancel and a
-- channel to close; a sandbox and its renewal are present or absent together; a closed session holds
-- none; and at most 256 results are buffered.
pub history-IsValid : (ops : List Op) → IsValid (run new_session ops)
history-IsValid ops = run-IsValid new_session ops new_session-IsValid

-- The methods that end a turn, or open another history's.
abbrev pub ends_turn : Op → Bool
ends_turn finishes = true
ends_turn _ = false

step-keeps_turn :
    (s : Session) (op : Op)
    → ends_turn op ≡ false
    → (s.turn_id == []) ≡ false
    → (step s op).turn_id ≡ s.turn_id
unfolding step start_turn touch cancel_by_user set_sandbox take_sandbox take_sandbox_if_idle
    close_session take_if_cold set_loop record_persisted record_file record_background_exit
    take_background_exits requeue_background_exits add_tool_result begin_wait take_result give_up
step-keeps_turn s finishes h r = cc
step-keeps_turn s _ h r = ground arith

run-keeps_turn :
    (s : Session) (ops : List Op)
    → All (λ op. ends_turn op ≡ false) ops
    → (s.turn_id == []) ≡ false
    → (run s ops).turn_id ≡ s.turn_id
unfolding run
run-keeps_turn s [] h r = refl
run-keeps_turn s (op ∷ ops) h r =
    let e = step-keeps_turn s op h.0 r in run-keeps_turn (step s op) ops h.1 (rw e r) ∙ e

turn_id_nonempty : (ulid : Bytes) → (new_turn_id ulid == []) ≡ false
unfolding new_turn_id bytes_eqb
turn_id_nonempty ulid = refl

start_names :
    (s : Session) (id : Bytes) (cancel : ℕ)
    → (start_turn id cancel s).1 ≡ true
    → (start_turn id cancel s).0.turn_id ≡ id
unfolding start_turn
start_names s id cancel h = ground arith

started_turn :
    (s : Session) (ops : List Op) (ulid : Bytes) (cancel : ℕ)
    → (start_turn (new_turn_id ulid) cancel s).1 ≡ true
    → All (λ op. ends_turn op ≡ false) ops
    → (run (start_turn (new_turn_id ulid) cancel s).0 ops).turn_id ≡ new_turn_id ulid
started_turn s ops ulid cancel started quiet =
    let t : Session = (start_turn (new_turn_id ulid) cancel s).0 in
    let id : t.turn_id ≡ new_turn_id ulid = start_names s (new_turn_id ulid) cancel started in
    run-keeps_turn t ops quiet (rw id (turn_id_nonempty ulid)) ∙ id

busy_refuses :
    (t : Session) (id : Bytes) (cancel d now : ℕ)
    → (t.turn_id == []) ≡ false
    → (start_turn id cancel t ≡ (t, false))
      × (take_sandbox_if_idle d now t ≡ (t, nothing))
      × (take_if_cold d now t ≡ (t, nothing, false))
unfolding start_turn take_sandbox_if_idle take_if_cold
busy_refuses t id cancel d now busy = ground arith

-- One turn at a time: from the start of a turn until `finishTurn`, whatever else is called on the
-- session, the turn stays the running one, a second start is refused and changes nothing, and neither
-- the idle reaper nor the cold eviction takes the session or its sandbox.
pub one_turn :
    (s : Session) (ops : List Op) (ulid other : Bytes) (cancel cancel' d now : ℕ)
    → (start_turn (new_turn_id ulid) cancel s).1 ≡ true
    → All (λ op. ends_turn op ≡ false) ops
    → let t = run (start_turn (new_turn_id ulid) cancel s).0 ops in
      (t.turn_id ≡ new_turn_id ulid)
      × (start_turn (new_turn_id other) cancel' t ≡ (t, false))
      × (take_sandbox_if_idle d now t ≡ (t, nothing))
      × (take_if_cold d now t ≡ (t, nothing, false))
one_turn s ops ulid other cancel cancel' d now started quiet =
    let t : Session = run (start_turn (new_turn_id ulid) cancel s).0 ops in
    let id : t.turn_id ≡ new_turn_id ulid = started_turn s ops ulid cancel started quiet in
    let (refused, kept, warm) =
      busy_refuses t (new_turn_id other) cancel' d now (rw id (turn_id_nonempty ulid)) in
    (id, refused, kept, warm)
