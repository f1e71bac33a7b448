-- ===== src/Session/Rendezvous.antt =====
-- Results of external tools: the client that reports and the loop that waits meet, in either order.
use turnhive.Base.{
  ℕ, ◌<◌, ◌≡◌, ◌≢◌, ◌∙◌, refl, inl, inr, true, none, some, Option-cases, List, [], ◌∷◌, Bytes,
  arith, length, All, eqb_iff, bytes_eq, nat_eq, bytes_eqb, bytes_eqb_iff,
}
use turnhive.Base.Assoc.{
  lookup, insert, lookup-insert, lookup-remove, remove-insert, lookup-insert_self, lookup-insert_ne,
}
use turnhive.Session.State.{Session, ToolResult, new_session}
use turnhive.Session.Turns.{touch, start_turn, finish_turn, cancel_by_user}
use turnhive.Session.Sandbox.{
  set_sandbox, take_sandbox, take_sandbox_if_idle, close_session, take_if_cold, set_loop,
}
use turnhive.Session.Records.{
  record_persisted, record_file, record_background_exit, take_background_exits,
  requeue_background_exits,
}
use turnhive.Session.Results.{
  pending_tool_results_cap, buffer_result, add_tool_result, got, waiting, begin_wait, take_result,
  give_up,
}
use turnhive.Session.Step.{Op, adds, waits, receives, gives_up, or_same, step, run}
use turnhive.Session.Wires.{IsWired, run-IsWired, step-IsWired, new_session-IsWired}

-- Calls that are not about the call `k`.
abbrev pub Quiet : Bytes → Op → Type 0
Quiet k (waits j) = j ≢ k
Quiet k (gives_up j) = j ≢ k
Quiet k (adds r) = r.call_id ≢ k
Quiet k _ = Unit

add-keeps_waiter :
    (s : Session) (r : ToolResult) (k : Bytes) (ch : ℕ)
    → r.call_id ≢ k
    → lookup k s.waiters ≡ some ch
    → lookup k (or_same s (add_tool_result r s)).waiters ≡ some ch
unfolding add_tool_result buffer_result
add-keeps_waiter s r k ch other e =
    ground (arith, lookup-remove r.call_id k s.waiters, bytes_eqb_iff r.call_id k)

wait-keeps_waiter :
    (s : Session) (j k : Bytes) (ch : ℕ)
    → j ≢ k
    → lookup k s.waiters ≡ some ch
    → lookup k (begin_wait j s).0.waiters ≡ some ch
unfolding begin_wait
wait-keeps_waiter s j k ch other e =
    ground (arith, lookup-insert j k s.next_chan s.waiters, bytes_eqb_iff j k)

step-keeps_waiter :
    (s : Session) (op : Op) (k : Bytes) (ch : ℕ)
    → Quiet k op
    → lookup k s.waiters ≡ some ch
    → lookup k (step s op).waiters ≡ some ch
unfolding step touch start_turn finish_turn cancel_by_user set_sandbox take_sandbox
    take_sandbox_if_idle close_session take_if_cold set_loop record_persisted record_file
    record_background_exit take_background_exits requeue_background_exits take_result give_up
step-keeps_waiter s (adds r) k ch q e = add-keeps_waiter s r k ch q e
step-keeps_waiter s (waits j) k ch q e = wait-keeps_waiter s j k ch q e
step-keeps_waiter s (gives_up j) k ch q e =
    ground (arith, lookup-remove j k s.waiters, bytes_eqb_iff j k)
step-keeps_waiter s op k ch q e = ground arith

run-keeps_waiter :
    (s : Session) (ops : List Op) (k : Bytes) (ch : ℕ)
    → All (Quiet k) ops
    → lookup k s.waiters ≡ some ch
    → lookup k (run s ops).waiters ≡ some ch
unfolding run
run-keeps_waiter s [] k ch q e = e
run-keeps_waiter s (op ∷ ops) k ch q e =
    run-keeps_waiter (step s op) ops k ch q.1 (step-keeps_waiter s op k ch q.0 e)

-- Calls that do not read the channel `ch`.
abbrev pub Unread : ℕ → Op → Type 0
Unread ch (receives c) = c ≢ ch
Unread ch _ = Unit

add-keeps_result :
    (s : Session) (r' : ToolResult) (ch : ℕ) (r : ToolResult)
    → IsWired s
    → lookup ch s.chans ≡ some r
    → lookup ch (or_same s (add_tool_result r' s)).chans ≡ some r
unfolding add_tool_result buffer_result
add-keeps_result s r' ch r v e = elim (Option-cases (lookup r'.call_id s.waiters)) [
  | inl nobody ↦ ground (arith, nobody)
  | inr (c, found) ↦
      rw (found, add_tool_result)
        (lookup-insert_ne c ch r' s.chans (λ p. ground (arith, p, e, v.empty r'.call_id c found))
          ∙ e)
]

step-keeps_result :
    (s : Session) (op : Op) (ch : ℕ) (r : ToolResult)
    → Unread ch op
    → IsWired s
    → lookup ch s.chans ≡ some r
    → lookup ch (step s op).chans ≡ some r
unfolding step touch start_turn finish_turn cancel_by_user set_sandbox take_sandbox
    take_sandbox_if_idle close_session take_if_cold set_loop record_persisted record_file
    record_background_exit take_background_exits requeue_background_exits begin_wait take_result
    give_up
step-keeps_result s (adds r') ch r q v e = add-keeps_result s r' ch r v e
step-keeps_result s (receives c) ch r q v e =
    ground (arith, lookup-remove c ch s.chans, eqb_iff c ch)
step-keeps_result s op ch r q v e = ground arith

run-keeps_result :
    (s : Session) (ops : List Op) (ch : ℕ) (r : ToolResult)
    → All (Unread ch) ops
    → IsWired s
    → lookup ch s.chans ≡ some r
    → lookup ch (run s ops).chans ≡ some r
unfolding run
run-keeps_result s [] ch r q v e = e
run-keeps_result s (op ∷ ops) ch r q v e =
    run-keeps_result (step s op) ops ch r q.1 (step-IsWired s op v)
      (step-keeps_result s op ch r q.0 v e)

waiting-waits :
    (s : Session) (k : Bytes) (ch : ℕ)
    → (begin_wait k s).1 ≡ waiting ch
    → lookup k (begin_wait k s).0.waiters ≡ some ch
unfolding begin_wait
waiting-waits s k ch e = ground (arith, lookup-insert_self k s.next_chan s.waiters)

add_accepted :
    (s : Session) (r : ToolResult) (ch : ℕ)
    → lookup r.call_id s.waiters ≡ some ch
    → add_tool_result r s ≢ none
unfolding add_tool_result
add_accepted s r ch e = ground arith

add_delivers :
    (s : Session) (r : ToolResult) (ch : ℕ)
    → lookup r.call_id s.waiters ≡ some ch
    → lookup ch (or_same s (add_tool_result r s)).chans ≡ some r
unfolding add_tool_result
add_delivers s r ch e = rw (e, add_tool_result) (lookup-insert_self ch r s.chans)

-- A loop that waits gets its result. The call waits on a channel; anything may happen that is not
-- about this call (turns, sandboxes, other results); its result is reported; anything may happen that
-- does not read the channel. Then the report was accepted, and the channel holds the result.
pub wait_then_add :
    (before during after : List Op) (r : ToolResult) (ch : ℕ)
    → (begin_wait r.call_id (run new_session before)).1 ≡ waiting ch
    → All (Quiet r.call_id) during
    → All (Unread ch) after
    → let s = run (begin_wait r.call_id (run new_session before)).0 during in
      (add_tool_result r s ≢ none) × ((take_result ch (run (step s (adds r)) after)).1 ≡ some r)
unfolding step take_result
wait_then_add before during after r ch e quiet unread =
    let s0 : Session = run new_session before in
    let s1 : Session = (begin_wait r.call_id s0).0 in
    let s : Session = run s1 during in
    let waits_on : lookup r.call_id s.waiters ≡ some ch =
      run-keeps_waiter s1 during r.call_id ch quiet (waiting-waits s0 r.call_id ch e) in
    let wired : IsWired s =
      run-IsWired s1 during
        (step-IsWired s0 (waits r.call_id) (run-IsWired new_session before new_session-IsWired)) in
    (
      add_accepted s r ch waits_on,
      run-keeps_result (step s (adds r)) after ch r unread (step-IsWired s (adds r) wired)
          (add_delivers s r ch waits_on),
    )

-- The other order: a result that comes before the loop waits for it, in a session that knows nothing of
-- the call and has room, is buffered; the wait then returns it at once and takes it out again, and the
-- session is as it was.
pub add_then_wait :
    (s : Session) (r : ToolResult)
    → lookup r.call_id s.waiters ≡ none
    → lookup r.call_id s.pending ≡ none
    → length s.pending < pending_tool_results_cap
    → (t : Session) × (add_tool_result r s ≡ some t) × (begin_wait r.call_id t ≡ (s, got r))
unfolding add_tool_result buffer_result begin_wait
add_then_wait s r nobody unknown room = (
  record s { pending = insert r.call_id r s.pending },
  ground (arith, nobody, unknown, room),
  ground (
    arith,
    lookup-insert_self r.call_id r s.pending,
    remove-insert r.call_id r s.pending unknown,
  ),
)

fresh_turn :
    (s : Session) (id : Bytes) (cancel : ℕ) → (start_turn id cancel (finish_turn s).0).1 ≡ true
unfolding finish_turn start_turn bytes_eqb
fresh_turn s id cancel = refl

clean_wait :
    (s : Session) (k id : Bytes) (cancel : ℕ) (r : ToolResult)
    → (begin_wait k (start_turn id cancel (finish_turn s).0).0).1 ≢ got r
unfolding finish_turn start_turn begin_wait lookup bytes_eqb
clean_wait s k id cancel r e = cc

late_wait :
    (s u : Session) (r : ToolResult) (id : Bytes) (cancel : ℕ)
    → lookup r.call_id s.waiters ≡ none
    → add_tool_result r (finish_turn s).0 ≡ some u
    → (begin_wait r.call_id (start_turn id cancel u).0).1 ≡ got r
unfolding finish_turn start_turn begin_wait add_tool_result buffer_result
late_wait s u r id cancel nobody e = ground (arith, nobody, e, lookup-insert_self r.call_id r [])

-- A result nobody waits for does not outlive its turn: whatever was buffered before `finishTurn`, the
-- next turn starts, and no call `k` of it gets a result `r'` at once. But a result `r` reported after
-- the turn has ended stays in the buffer: in the next turn a call with its id gets it.
pub late_results :
    (s u : Session) (r r' : ToolResult) (k id : Bytes) (cancel : ℕ)
    → lookup r.call_id s.waiters ≡ none
    → add_tool_result r (finish_turn s).0 ≡ some u
    → ((start_turn id cancel (finish_turn s).0).1 ≡ true)
      × ((begin_wait k (start_turn id cancel (finish_turn s).0).0).1 ≢ got r')
      × ((begin_wait r.call_id (start_turn id cancel u).0).1 ≡ got r)
late_results s u r r' k id cancel nobody e =
    (fresh_turn s id cancel, clean_wait s k id cancel r', late_wait s u r id cancel nobody e)
