-- ===== src/Hub/Reporter.antt =====
-- The hub's reporter (`hubReporter` of controller/hub.go, agent.Reporter): every callback of a turn
-- is one published event.
use turnhive.Base.{
  ℕ, ◌≡◌, ◌≢◌, refl, ◌⊎◌, inl, inr, ◌∙◌, Bool, true, false, Option, none, some, List, [], ◌∷◌,
  Bytes, codes, arith, All, Option-cases, bytes_eq, bytes_eqb,
}
use turnhive.Hub.{
  EventHub, Payload, turn_after, broadcast, publish, subscribe, unsubscribe, close_all, receive,
}
use turnhive.Hub.Run.{Call, publishes, subscribes, unsubscribes, closes, receives, step, run}

-- context.Cause: the controller records no other cause than the cancel endpoint's.
pub data TurnError : Type 0 where
  turn_cancelled : TurnError

pub record Reporter : Type 0 where
  pub turn_id : Bytes
  pub cause : Option TurnError

pub record ToolCallEvent : Type 0 where
  pub id : Bytes
  pub name : Bytes
  pub status : Bytes

-- The calls of agent.Reporter.
pub data Report : Type 0 where
  delta reasoning_delta done error : Bytes → Report
  tool_call : ToolCallEvent → Report

abbrev turn_finished : Bytes → List (Bytes × Bytes) → Call
turn_finished turn_id fields =
    publishes turn_id (codes "turn_finished") ((codes "turn_id", turn_id) ∷ fields)

unfoldable pub report_error : Reporter → Bytes → Call
report_error r msg = elim r.cause [
  | some turn_cancelled ↦ turn_finished r.turn_id ((codes "status", codes "cancelled") ∷ [])
  | none ↦ turn_finished r.turn_id ((codes "status", codes "error") ∷ (codes "message", msg) ∷ [])
]

unfoldable pub report : Reporter → Report → Call
unfolding report_error
report r (delta text) =
    publishes r.turn_id (codes "delta") ((codes "turn_id", r.turn_id) ∷ (codes "text", text) ∷ [])
report r (reasoning_delta text) =
    publishes r.turn_id (codes "reasoning_delta")
      ((codes "turn_id", r.turn_id) ∷ (codes "text", text) ∷ [])
report r (tool_call ev) = publishes r.turn_id (codes "tool_call") (
    (codes "turn_id", r.turn_id)
    ∷ (codes "id", ev.id)
    ∷ (codes "name", ev.name)
    ∷ (codes "status", ev.status)
    ∷ [])
report r (done text) =
    turn_finished r.turn_id ((codes "status", codes "done") ∷ (codes "text", text) ∷ [])
report r (error msg) = report_error r msg

-- sess.hub.publish(turnID, "turn_started", …) of `runTurn`.
unfoldable pub start_report : Bytes → Call
start_report turn_id = publishes turn_id (codes "turn_started") ((codes "turn_id", turn_id) ∷ [])

abbrev pub closes_turn : Report → Bool
closes_turn (done _) = true
closes_turn (error _) = true
closes_turn _ = false

-- What may happen between a turn's start and its end: its own reports, and subscribers that come,
-- go and read.
pub data Midway (r : Reporter) : Call → Type 0 where
  reports : (m : Report) → closes_turn m ≡ false → Midway r (report r m)
  joins : (last : ℕ) → Midway r (subscribes last)
  leaves : (i : ℕ) → Midway r (unsubscribes i)
  all_leave : Midway r closes
  reads_one : (i : ℕ) → Midway r (receives i)

module _ (marshal : Payload → Option Bytes) where
  step_turn :
      (h h' : EventHub) (t n : Bytes) (p : Payload)
      → step marshal h (publishes t n p) ≡ some h'
      → (marshal p ≡ none) ⊎ (h'.current_turn ≡ turn_after n t h.current_turn)
  unfolding step publish broadcast
  step_turn h h' t n p e = ground (arith, e)

  silent_turn :
      (h h' : EventHub) (t n : Bytes) (p : Payload)
      → turn_after n t h.current_turn ≡ h.current_turn
      → step marshal h (publishes t n p) ≡ some h'
      → h'.current_turn ≡ h.current_turn
  unfolding step publish broadcast
  silent_turn h h' t n p q e = ground (arith, e)

  Midway-turn :
      {r : Reporter} (h h' : EventHub) (c : Call)
      → Midway r c
      → step marshal h c ≡ some h'
      → h'.current_turn ≡ h.current_turn
  unfolding step subscribe unsubscribe close_all receive report turn_after bytes_eqb
  Midway-turn {r} h h' c (reports (delta x) q) e =
      silent_turn h h' r.turn_id (codes "delta") _ refl e
  Midway-turn {r} h h' c (reports (reasoning_delta x) q) e =
      silent_turn h h' r.turn_id (codes "reasoning_delta") _ refl e
  Midway-turn {r} h h' c (reports (tool_call x) q) e =
      silent_turn h h' r.turn_id (codes "tool_call") _ refl e
  Midway-turn {r} h h' c (reports (done x) q) e = cc
  Midway-turn {r} h h' c (reports (error x) q) e = cc
  Midway-turn {r} h h' c (joins last) e = ground (arith, e)
  Midway-turn {r} h h' c (leaves i) e = ground (arith, e)
  Midway-turn {r} h h' c all_leave e = ground (arith, e)
  Midway-turn {r} h h' c (reads_one i) e = ground (arith, e)

  Midway-run :
      (r : Reporter) (h h' : EventHub) (cs : List Call)
      → All (Midway r) cs
      → run marshal h cs ≡ some h'
      → h'.current_turn ≡ h.current_turn
  unfolding run
  Midway-run r h h' [] m e = ground (arith, e)
  Midway-run r h h' (c ∷ cs) m e = elim (Option-cases (step marshal h c)) [
    | inl bad ↦ absurd (ground (arith, bad, e))
    | inr (h1, good) ↦ Midway-run r h1 h' cs m.1 (rw good at e) ∙ Midway-turn h h1 c m.0 good
  ]

  opened :
      (r : Reporter) (h h1 : EventHub) (cs : List Call)
      → ((p : Payload) → marshal p ≢ none)
      → All (Midway r) cs
      → run marshal h (start_report r.turn_id ∷ cs) ≡ some h1
      → h1.current_turn ≡ r.turn_id
  unfolding run start_report turn_after bytes_eqb
  opened r h h1 cs total mid e = elim (Option-cases (step marshal h (start_report r.turn_id))) [
    | inl bad ↦ absurd (ground (arith, bad, e))
    | inr (k, good) ↦
        Midway-run r k h1 cs mid (rw good at e)
        ∙ elim (step_turn h k r.turn_id (codes "turn_started") _ good) [
          | inl bad ↦ absurd (total _ bad)
          | inr named ↦ named
        ]
  ]

  closed_by :
      (t : Bytes) (h1 h2 : EventHub) (p : Payload)
      → ((p : Payload) → marshal p ≢ none)
      → step marshal h1 (publishes t (codes "turn_finished") p) ≡ some h2
      → h2.current_turn ≡ []
  unfolding turn_after bytes_eqb
  closed_by t h1 h2 p total e = elim (step_turn h1 h2 t (codes "turn_finished") p e) [
    | inl bad ↦ absurd (total p bad)
    | inr named ↦ named
  ]

  closed :
      (r : Reporter) (h1 h2 : EventHub) (last : Report)
      → ((p : Payload) → marshal p ≢ none)
      → closes_turn last ≡ true
      → step marshal h1 (report r last) ≡ some h2
      → h2.current_turn ≡ []
  unfolding report
  closed r h1 h2 (done text) total c e = closed_by r.turn_id h1 h2 _ total e
  closed r h1 h2 (error msg) total c e = elim (Option-cases r.cause) [
    | inl plain ↦ closed_by r.turn_id h1 h2 _ total (rw (plain, report_error) at e)
    | inr (turn_cancelled, by_user) ↦
        closed_by r.turn_id h1 h2 _ total (rw (by_user, report_error) at e)
  ]
  closed r h1 h2 (delta x) total c e = cc
  closed r h1 h2 (reasoning_delta x) total c e = cc
  closed r h1 h2 (tool_call x) total c e = cc

  -- A turn is open from its start event to its closing one. After the start, and whatever its own
  -- reports and the subscribers do, the hub names the turn; after `Done` or `Error`, with any cause,
  -- it names none.
  pub turn_bracket :
      (r : Reporter) (h h1 h2 : EventHub) (cs : List Call) (last : Report)
      → ((p : Payload) → marshal p ≢ none)
      → All (Midway r) cs
      → closes_turn last ≡ true
      → run marshal h (start_report r.turn_id ∷ cs) ≡ some h1
      → step marshal h1 (report r last) ≡ some h2
      → (h1.current_turn ≡ r.turn_id) × (h2.current_turn ≡ [])
  turn_bracket r h h1 h2 cs last total mid closing e e2 =
      (opened r h h1 cs total mid e, closed r h1 h2 last total closing e2)
