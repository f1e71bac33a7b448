-- ===== src/Hub/Run.antt =====
-- Histories of a hub: what its users call, in any interleaving (every method holds `mu`).
use turnhive.Base.{
  ◌>>=◌, ℕ, suc, Option, none, some, List, [], ◌∷◌, ◌++◌, Bytes, get_elem?, eqb, if◌then◌else◌,
}
use turnhive.Hub.{
  EventHub, HubEvent, Payload, publish, subscribe, unsubscribe, close_all, receive, head_of,
}

pub data Call : Type 0 where
  publishes : Bytes → Bytes → Payload → Call
  subscribes : ℕ → Call
  unsubscribes : ℕ → Call
  closes : Call
  receives : ℕ → Call

module _ (marshal : Payload → Option Bytes) where
  unfoldable pub step : EventHub → Call → Option EventHub
  step h (publishes turn_id name payload) = publish marshal turn_id name payload h
  step h (subscribes last_seq) = some (subscribe last_seq h).0
  step h (unsubscribes i) = unsubscribe i h
  step h closes = close_all h
  step h (receives i) = receive i h

  unfoldable pub run : EventHub → List Call → Option EventHub
  run h [] = some h
  run h (c ∷ cs) = step h c >>= λ h'. run h' cs

  -- The events that a call puts into the stream.
  unfoldable pub event_of : EventHub → Call → List HubEvent
  event_of h (publishes turn_id name payload) = elim (marshal payload) [
    | none ↦ []
    | some bytes ↦ record { seq = suc h.seq; name = name; data_ = bytes } ∷ []
  ]
  event_of h _ = []

  abbrev pub after : Option EventHub → (EventHub → List HubEvent) → List HubEvent
  after none f = []
  after (some h) f = f h

  -- The whole stream of a history.
  unfoldable pub published : EventHub → List Call → List HubEvent
  published h [] = []
  published h (c ∷ cs) = event_of h c ++ after (step h c) (λ h'. published h' cs)

  -- What the reader of channel `i` gets along a history.
  unfoldable pub reads : ℕ → EventHub → Call → List HubEvent
  reads i h (receives j) = if eqb i j then head_of (get_elem? h.chans i) else []
  reads i h _ = []

  unfoldable pub received : ℕ → EventHub → List Call → List HubEvent
  received i h [] = []
  received i h (c ∷ cs) = reads i h c ++ after (step h c) (λ h'. received i h' cs)
