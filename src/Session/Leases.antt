-- ===== src/Session/Leases.antt =====
-- Sandboxes of a session: what is attached is handed back, once.
use turnhive.Base.{
  ℕ, ◌≡◌, ◌∙◌, refl, sym, ap, true, none, List, [], ◌∷◌, ◌++◌, arith, append_assoc, append-nil,
  if◌then◌else◌, bytes_eq,
}
use turnhive.Session.State.{Session, new_session}
use turnhive.Session.Turns.{touch, start_turn, finish_turn, cancel_by_user}
use turnhive.Session.Sandbox.{
  live_sandbox, set_sandbox, take_sandbox, take_sandbox_if_idle, close_session, take_if_cold,
  set_loop, listed,
}
use turnhive.Session.Records.{
  record_persisted, record_file, record_background_exit, take_background_exits,
  requeue_background_exits,
}
use turnhive.Session.Results.{add_tool_result, buffer_result, begin_wait, take_result, give_up}
use turnhive.Session.Step.{Op, sets, takes, reaps, closes, evicts, step, run}

-- ensureSandbox and handleCreateSession attach a sandbox only where none is live; any other call comes
-- as it likes.
abbrev pub Fits : Session → Op → Type 0
Fits s (sets sb stop) = live_sandbox s ≡ none
Fits s _ = Unit

-- The sandboxes that a call attaches, and those that it hands to its caller to release: what it
-- detached, or the fresh one that a closed session refused.
unfoldable pub attached : Session → Op → List ℕ
attached s (sets sb stop) = sb ∷ []
attached s _ = []

unfoldable pub handed_back : Session → Op → List ℕ
handed_back s (sets sb stop) = if (set_sandbox sb stop s).1 then [] else sb ∷ []
handed_back s takes = listed (take_sandbox s).1.sandbox
handed_back s (reaps d now) = listed (take_sandbox_if_idle d now s).1.sandbox
handed_back s closes = listed (close_session s).1.sandbox
handed_back s (evicts d now) = listed (take_if_cold d now s).1.sandbox
handed_back s _ = []

step-sandboxes :
    (s : Session) (op : Op)
    → Fits s op
    → (s.closed ≡ true → s.sandbox ≡ none)
    → (listed s.sandbox ++ attached s op ≡ handed_back s op ++ listed (step s op).sandbox)
      × ((step s op).closed ≡ true → (step s op).sandbox ≡ none)
unfolding step attached handed_back live_sandbox touch start_turn finish_turn cancel_by_user
    set_sandbox take_sandbox take_sandbox_if_idle close_session take_if_cold set_loop
    record_persisted record_file record_background_exit take_background_exits
    requeue_background_exits add_tool_result buffer_result begin_wait take_result give_up
step-sandboxes s op fits v = ground (arith, append-nil (listed s.sandbox))

abbrev pub AllFit : Session → List Op → Type 0
AllFit s [] = Unit
AllFit s (op ∷ ops) = Fits s op × AllFit (step s op) ops

unfoldable pub all_attached : Session → List Op → List ℕ
all_attached s [] = []
all_attached s (op ∷ ops) = attached s op ++ all_attached (step s op) ops

unfoldable pub all_handed_back : Session → List Op → List ℕ
all_handed_back s [] = []
all_handed_back s (op ∷ ops) = handed_back s op ++ all_handed_back (step s op) ops

run-sandboxes :
    (s : Session) (ops : List Op)
    → AllFit s ops
    → (s.closed ≡ true → s.sandbox ≡ none)
    → (listed s.sandbox ++ all_attached s ops ≡ all_handed_back s ops ++ listed (run s ops).sandbox)
      × ((run s ops).closed ≡ true → (run s ops).sandbox ≡ none)
unfolding run all_attached all_handed_back
run-sandboxes s [] fits v = (append-nil (listed s.sandbox), v)
run-sandboxes s (op ∷ ops) fits v =
    let (here, v') = step-sandboxes s op fits.0 v in
    let (later, end) = run-sandboxes (step s op) ops fits.1 v' in
    (
      sym (append_assoc (listed s.sandbox) (attached s op) (all_attached (step s op) ops))
          ∙ ap (λ xs. xs ++ all_attached (step s op) ops) here
          ∙ append_assoc (handed_back s op) (listed (step s op).sandbox)
              (all_attached (step s op) ops)
          ∙ ap (◌++◌ (handed_back s op)) later
          ∙ sym (append_assoc (handed_back s op) (all_handed_back (step s op) ops) _),
      end,
    )

-- No sandbox is leaked and none is released twice: over any history of a session in which a sandbox is
-- attached only where none is live, the sandboxes built for it are, in order, those handed back for
-- release and then the one that it still holds.
pub sandboxes_accounted :
    (ops : List Op)
    → AllFit new_session ops
    → all_attached new_session ops
      ≡ all_handed_back new_session ops ++ listed (run new_session ops).sandbox
unfolding new_session
sandboxes_accounted ops fits = (run-sandboxes new_session ops fits (λ _. refl)).0

-- In such a history that leaves the session closed, every sandbox built for it was handed back,
-- also one that was built while the session was being closed.
pub closed_returns_all :
    (ops : List Op)
    → AllFit new_session ops
    → (run new_session ops).closed ≡ true
    → all_attached new_session ops ≡ all_handed_back new_session ops
unfolding new_session
closed_returns_all ops fits shut =
    let (flow, end) = run-sandboxes new_session ops fits (λ _. refl) in
    flow
    ∙ ap (λ o. all_handed_back new_session ops ++ listed o) (end shut)
    ∙ append-nil (all_handed_back new_session ops)
