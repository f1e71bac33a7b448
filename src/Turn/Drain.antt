-- ===== src/Turn/Drain.antt =====
-- Background exits: the message of a drain has all of them, or they stay queued.
use turnhive.Base.{
  ℕ, ◌≡◌, ◌≢◌, refl, ◌⊎◌, inl, inr, false, Option, none, some, Option-cases, [], append-nil, Bytes,
  arith, All, bytes_eq, bytes_eqb_iff,
}
use turnhive.Hub.{Payload}
use turnhive.Hub.Channels.{IsSound, step-Returns}
use turnhive.Hub.Reporter.{start_report}
use turnhive.Session.Turns.{new_turn_id, touch, start_turn, finish_turn}
use turnhive.Session.Records.{take_background_exits, requeue_background_exits}
use turnhive.Turn.{
  Conversation, Fresh, Turn, build_bg_exit_message, run_turn, drain_background_exits, end_turn,
}

-- The queue after a drain, and what its turn was told.
abbrev pub Drained : Fresh → Conversation → Conversation × Option Turn → Type 0
Drained fresh c (c', none) = c'.session.bg_exited ≡ c.session.bg_exited
Drained fresh c (c', some turn) =
    (turn ≡ record {
      turn_id = new_turn_id fresh.ulid;
      content = build_bg_exit_message c.session.bg_exited;
    })
    × (c'.session.bg_exited ≡ [])
    × (c'.session.turn_id ≡ new_turn_id fresh.ulid)
    × (c.session.bg_exited ≢ [])
    × (c.session.turn_id ≡ [])

module _ (marshal : Payload → Option Bytes) where
  -- A drain loses no exit. Where it starts no turn, the queue is as it was, in its order; where it starts
  -- one, the session was idle, the queue was not empty and is now, and the turn's message reports exactly
  -- the exits of the queue.
  pub drain-Drained :
      (fresh : Fresh) (c c' : Conversation) (t : Option Turn)
      → drain_background_exits marshal fresh c ≡ some (c', t)
      → Drained fresh c (c', t)
  unfolding drain_background_exits run_turn take_background_exits requeue_background_exits
      start_turn touch
  drain-Drained fresh c c' none e = ground (arith, e, append-nil c.session.bg_exited)
  drain-Drained fresh c c' (some turn) e = ground (arith, e, bytes_eqb_iff c.session.turn_id [])

  pub drain-Returns :
      (fresh : Fresh) (c : Conversation)
      → All IsSound c.hub.chans
      → (r : Conversation × Option Turn) × (drain_background_exits marshal fresh c ≡ some r)
  unfolding drain_background_exits run_turn
  drain-Returns fresh c sound =
      let (h, e, _) = step-Returns marshal c.hub (start_report (new_turn_id fresh.ulid)) sound in
      elim (Option-cases (drain_background_exits marshal fresh c)) [
        | inl panics ↦ absurd (ground (arith, panics, e))
        | inr found ↦ found
      ]

  pub idle_drain :
      (fresh : Fresh) (c c' : Conversation) (t : Option Turn)
      → c.session.closed ≡ false
      → c.session.turn_id ≡ []
      → drain_background_exits marshal fresh c ≡ some (c', t)
      → (c'.session.bg_exited ≡ [])
        × (((c.session.bg_exited ≡ []) × (t ≡ none) × (c'.session.turn_id ≡ []))
            ⊎ ((c.session.bg_exited ≢ [])
                × (t
                    ≡ some (record {
                      turn_id = new_turn_id fresh.ulid;
                      content = build_bg_exit_message c.session.bg_exited;
                    }))
                × (c'.session.turn_id ≡ new_turn_id fresh.ulid)))
  unfolding drain_background_exits run_turn take_background_exits requeue_background_exits
      start_turn touch
  idle_drain fresh c c' t live idle e =
      ground (arith, live, idle, e, bytes_eqb_iff c.session.turn_id [])

  -- The end of a turn of an open session, on a hub that is sound: it does not panic, and leaves no exit in
  -- the queue. If background processes have exited since, a new turn runs at once, whose message reports
  -- all of them; if none has, the session is idle.
  pub end_turn-drains :
      (now : ℕ) (fresh : Fresh) (c : Conversation)
      → All IsSound c.hub.chans
      → c.session.closed ≡ false
      → (c' : Conversation) × (t : Option Turn) × (end_turn marshal now fresh c ≡ some (c', t))
        × (c'.session.bg_exited ≡ [])
        × (((c.session.bg_exited ≡ []) × (t ≡ none) × (c'.session.turn_id ≡ []))
            ⊎ ((c.session.bg_exited ≢ [])
                × (t
                    ≡ some (record {
                      turn_id = new_turn_id fresh.ulid;
                      content = build_bg_exit_message c.session.bg_exited;
                    }))
                × (c'.session.turn_id ≡ new_turn_id fresh.ulid)))
  unfolding end_turn finish_turn touch
  end_turn-drains now fresh c sound live =
      let idle : Conversation = record c { session = (finish_turn (touch now c.session)).0 } in
      let ((c', t), e) = drain-Returns fresh idle sound in
      let (empty, turn) = idle_drain fresh idle c' t live refl e in (c', t, e, empty, turn)
