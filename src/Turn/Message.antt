-- ===== src/Turn/Message.antt =====
-- What the message endpoint answers.
use turnhive.Base.{
  ◌≡◌, ◌≢◌, refl, ◌⊎◌, inl, inr, Bool-cases, Option, none, some, [], Bytes, arith, All, ◌==◌,
  bytes_eq, bytes_eqb_iff,
}
use turnhive.Hub.{Payload}
use turnhive.Hub.Channels.{IsSound, step-Returns}
use turnhive.Hub.Reporter.{start_report}
use turnhive.Session.Turns.{new_turn_id, touch, start_turn}
use turnhive.Turn.{
  Conversation, Fresh, bad_request, conflict, accepted, run_turn, handle_create_message,
}

module _ (marshal : Payload → Option Bytes) where
  -- A message on a sound hub never panics. An empty one is refused; one that comes while a turn runs is a
  -- conflict; both leave the conversation as it was and start nothing. Any other is accepted: a turn with
  -- its content runs, and the answer carries the id of that turn, which is the session's running one.
  pub handle_create_message-answers :
      (fresh : Fresh) (content : Bytes) (c : Conversation)
      → All IsSound c.hub.chans
      → ((content ≡ [])
          × (handle_create_message marshal fresh content c ≡ some (c, bad_request, none)))
        ⊎ (((content ≢ [])
              × (c.session.turn_id ≢ [])
              × (handle_create_message marshal fresh content c ≡ some (c, conflict, none)))
            ⊎ ((content ≢ [])
                × (c.session.turn_id ≡ [])
                × (c' : Conversation) × (handle_create_message marshal fresh content c
                    ≡ some (
                      c',
                      accepted (new_turn_id fresh.ulid),
                      some (record { turn_id = new_turn_id fresh.ulid; content = content }),
                    ))
                × (c'.session.turn_id ≡ new_turn_id fresh.ulid)))
  unfolding handle_create_message run_turn start_turn touch
  handle_create_message-answers fresh content c sound =
      let (h, e, _) = step-Returns marshal c.hub (start_report (new_turn_id fresh.ulid)) sound in
      elim (Bool-cases (content == [])) [
        | inl empty ↦ inl ((bytes_eqb_iff content []).0 empty, rw empty refl)
        | inr full ↦ elim (Bool-cases (c.session.turn_id == [])) [
          | inr running ↦ inr (
              inl (
                ground (arith, full, bytes_eqb_iff content []),
                ground (arith, running, bytes_eqb_iff c.session.turn_id []),
                rw full (rw running refl),
              ))
          | inl idle ↦ inr (
              inr (
                ground (arith, full, bytes_eqb_iff content []),
                (bytes_eqb_iff c.session.turn_id []).0 idle,
                record {
                  session =
                      touch fresh.now
                        (start_turn (new_turn_id fresh.ulid) fresh.cancel c.session).0;
                  hub = h;
                },
                rw full (rw idle (rw e refl)),
                rw idle refl,
              ))
        ]
      ]
