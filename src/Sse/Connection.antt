-- ===== src/Sse/Connection.antt =====
-- A reconnecting client end to end: the hub's events, through handleSessionEvents, the text of the stream
-- and the client's parser.
use turnhive.Base.{
  ℕ, ◌+◌, ◌≤◌, ◌≡◌, refl, sym, ap, subst, ◌∙◌, Bool, true, Option, none, some, List, [], ◌∷◌, ◌++◌,
  append_assoc, append-nil, map, Bytes, drop, get_elem?, All, All-append, All-drop, All-split,
}
use turnhive.Hub.{
  EventHub, HubEvent, Chan, Payload, Subscription, new_event_hub, subscribe, hub_buffer_cap,
}
use turnhive.Hub.Run.{Call, subscribes, run, published, received}
use turnhive.Hub.Delivery.{resume}
use turnhive.Sse.{Write, frame, keepalive, sync, stream_of, opening}
use turnhive.Sse.Client.{Event, EventPayload, run_stream}
use turnhive.Sse.RoundTrip.{heard, all_heard, IsWritable, run_stream-stream_of}

-- The handler's loop: an event from the channel, or a tick of the keepalive.
unfoldable pub live_writes : List (Option HubEvent) → List Write
live_writes [] = []
live_writes (some ev ∷ xs) = frame ev ∷ live_writes xs
live_writes (none ∷ xs) = keepalive ∷ live_writes xs

abbrev pub events_in : List (Option HubEvent) → List HubEvent
events_in [] = []
events_in (some ev ∷ xs) = ev ∷ events_in xs
events_in (none ∷ xs) = events_in xs

module _ (marshal : Payload → Option Bytes) (decode : Bytes → Option EventPayload) where
  -- What a client makes of an event of the hub.
  abbrev pub heard_events : List HubEvent → List Event
  heard_events [] = []
  heard_events (ev ∷ evs) = heard decode (frame ev) ++ heard_events evs

  abbrev pub Writable : HubEvent → Type 0
  Writable ev = IsWritable decode (frame ev)

  heard_events-append :
      (xs ys : List HubEvent) → heard_events (xs ++ ys) ≡ heard_events xs ++ heard_events ys
  heard_events-append [] ys = refl
  heard_events-append (x ∷ xs) ys =
      ap (◌++◌ (heard decode (frame x))) (heard_events-append xs ys)
      ∙ sym (append_assoc (heard decode (frame x)) (heard_events xs) (heard_events ys))

  all_heard-frames :
      (evs : List HubEvent) (ws : List Write)
      → all_heard decode (map frame evs ++ ws) ≡ heard_events evs ++ all_heard decode ws
  all_heard-frames [] ws = refl
  all_heard-frames (ev ∷ evs) ws =
      ap (◌++◌ (heard decode (frame ev))) (all_heard-frames evs ws)
      ∙ sym (append_assoc (heard decode (frame ev)) (heard_events evs) (all_heard decode ws))

  all_heard-live :
      (xs : List (Option HubEvent))
      → all_heard decode (live_writes xs) ≡ heard_events (events_in xs)
  unfolding live_writes
  all_heard-live [] = refl
  all_heard-live (some ev ∷ xs) = ap (◌++◌ (heard decode (frame ev))) (all_heard-live xs)
  all_heard-live (none ∷ xs) = all_heard-live xs

  All-frames : (evs : List HubEvent) → All Writable evs → All (IsWritable decode) (map frame evs)
  All-frames [] h = tt
  All-frames (ev ∷ evs) h = (h.0, All-frames evs h.1)

  All-live :
      (xs : List (Option HubEvent))
      → All Writable (events_in xs)
      → All (IsWritable decode) (live_writes xs)
  unfolding live_writes
  All-live [] h = tt
  All-live (some ev ∷ xs) h = (h.0, All-live xs h.1)
  All-live (none ∷ xs) h = (tt, All-live xs h)

  -- The stream of one subscription: the sync event, then the backlog, then what its channel gave.
  stream-heard :
      (failed : Bool) (payload : Option Bytes) (sub : Subscription) (xs : List (Option HubEvent))
      → IsWritable decode (sync payload)
      → All Writable (sub.backlog ++ events_in xs)
      → (run_stream decode failed (stream_of (opening payload sub ++ live_writes xs))).0
        ≡ heard decode (sync payload) ++ heard_events (sub.backlog ++ events_in xs)
  unfolding opening
  stream-heard failed payload sub xs first all =
      let (old, new) = All-split Writable sub.backlog (events_in xs) all in
      let fine : All (IsWritable decode) (opening payload sub ++ live_writes xs) = (
        first,
        All-append (IsWritable decode) (map frame sub.backlog) (live_writes xs)
            (All-frames sub.backlog old) (All-live xs new),
      ) in
      ap (λ d. d.0) (run_stream-stream_of decode failed _ fine)
      ∙ ap (◌++◌ (heard decode (sync payload))) (
          all_heard-frames sub.backlog (live_writes xs)
          ∙ ap (◌++◌ (heard_events sub.backlog)) (all_heard-live xs)
          ∙ sym (heard_events-append sub.backlog (events_in xs)))

  -- A client that reconnects with the last number it saw, from the hub to its parser. The buffer reaches
  -- back to the number, its channel is still in the map, and the handler has read everything out of it, with
  -- keepalives between as they come. Whether the body then ends or breaks off, the client delivers the sync
  -- event and then exactly the events of the session's whole stream after that number, in order.
  pub reconnect-delivers :
      (before during : List Call) (h h' : EventHub) (last : ℕ) (c : Chan) (failed : Bool)
      (payload : Option Bytes) (xs : List (Option HubEvent))
      → run marshal new_event_hub before ≡ some h
      → h.seq ≤ last + hub_buffer_cap
      → last ≤ h.seq
      → run marshal (subscribe last h).0 during ≡ some h'
      → get_elem? h'.chans (subscribe last h).1.ch ≡ some c
      → c.subscribed ≡ true
      → c.pending ≡ []
      → events_in xs ≡ received marshal (subscribe last h).1.ch (subscribe last h).0 during
      → IsWritable decode (sync payload)
      → All Writable (published marshal new_event_hub (before ++ subscribes last ∷ during))
      → (run_stream decode failed
          (stream_of (opening payload (subscribe last h).1 ++ live_writes xs))).0
        ≡ heard decode (sync payload)
          ++ heard_events
              (drop last (published marshal new_event_hub (before ++ subscribes last ∷ during)))
  reconnect-delivers before during h h' last c failed payload xs e near past e' g s empty all_read
        first fine =
      let sub : Subscription = (subscribe last h).1 in
      let all : List HubEvent =
        published marshal new_event_hub (before ++ subscribes last ∷ during) in
      let got : sub.backlog ++ events_in xs ≡ drop last all =
        ap (◌++◌ sub.backlog) all_read
        ∙ sym (append-nil _)
        ∙ ap (◌++◌ (sub.backlog ++ received marshal sub.ch (subscribe last h).0 during)) (sym empty)
        ∙ resume marshal before during h h' last c e near past e' g s in
      stream-heard failed payload sub xs first
        (subst (All Writable) (sym got) (All-drop Writable last all fine))
      ∙ ap (λ evs. heard decode (sync payload) ++ heard_events evs) got
