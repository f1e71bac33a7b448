-- ===== src/Tests/Sse.antt =====
-- The hub's turn of Tests/Hub as a client sees it that reconnects behind the first event.
use turnhive.Base.{
  ℕ, ◌≡◌, refl, sym, subst, true, false, Option, none, some, List, [], ◌∷◌, ◌++◌, Bytes, codes,
  arith, drop, bytes_eqb, keep, All,
}
use turnhive.Base.Int.{pos}
use turnhive.Hub.{
  EventHub, HubEvent, Chan, Payload, new_event_hub, publish, broadcast, stamped, push_buf,
  turn_after, for_each, offer, subscribe, receive, at_chan, take_head,
}
use turnhive.Hub.Run.{
  Call, publishes, subscribes, receives, step, run, published, event_of, received, reads,
}
use turnhive.Sse.{Write, frame, keepalive, sync, stream_of, opening}
use turnhive.Sse.Client.{EventPayload, run_stream}
use turnhive.Sse.RoundTrip.{IsWritable, all_heard, heard, end_of, run_stream-stream_of}
use turnhive.Sse.Connection.{live_writes, events_in, Writable, heard_events, reconnect-delivers}

abbrev braces : Bytes
braces = codes "{}"

abbrev marshal : Payload → Option Bytes
marshal p = some (codes "{}")

abbrev empty_payload : EventPayload
empty_payload = record {
  turn_id = [];
  seq = pos 0;
  text = [];
  id = [];
  name = [];
  title = [];
  status = [];
  message = [];
  messages = [];
  persisted = [];
  files = [];
}

abbrev decode : Bytes → Option EventPayload
decode text = some empty_payload

abbrev turn : Bytes
turn = codes "turn_1"

abbrev before : List Call
before = publishes turn (codes "turn_started") [] ∷ publishes turn (codes "delta") [] ∷ []

abbrev during : List Call
during = publishes turn (codes "delta") [] ∷ receives 0 ∷ []

abbrev event : ℕ → Bytes → HubEvent
event n name = record { seq = n; name = name; data_ = braces }

abbrev hub_before : EventHub
hub_before = record {
  seq = 2;
  buf = event 1 (codes "turn_started") ∷ event 2 (codes "delta") ∷ [];
  current_turn = turn;
  chans = [];
}

abbrev reader : Chan
reader = record { pending = []; subscribed = true; closed = false }

abbrev hub_after : EventHub
hub_after = record {
  seq = 3;
  buf = event 1 (codes "turn_started") ∷ event 2 (codes "delta") ∷ event 3 (codes "delta") ∷ [];
  current_turn = turn;
  chans = reader ∷ [];
}

runs_before : run marshal new_event_hub before ≡ some hub_before
unfolding run step publish broadcast stamped push_buf turn_after for_each offer new_event_hub
    bytes_eqb
runs_before = refl

runs_during : run marshal (subscribe 1 hub_before).0 during ≡ some hub_after
unfolding run step publish broadcast stamped push_buf turn_after for_each offer subscribe receive
    at_chan take_head bytes_eqb keep
runs_during = refl

abbrev live : List (Option HubEvent)
live = none ∷ some (event 3 (codes "delta")) ∷ []

all_read :
    events_in live
    ≡ received marshal (subscribe 1 hub_before).1.ch (subscribe 1 hub_before).0 during
unfolding received reads step publish broadcast stamped push_buf turn_after for_each offer subscribe
    receive at_chan take_head bytes_eqb keep
all_read = refl

abbrev all_events : List HubEvent
all_events = event 1 (codes "turn_started") ∷ event 2 (codes "delta") ∷ event 3 (codes "delta") ∷ []

publishes_all : published marshal new_event_hub (before ++ subscribes 1 ∷ during) ≡ all_events
unfolding published event_of step publish broadcast stamped push_buf turn_after for_each offer
    subscribe receive at_chan take_head bytes_eqb keep new_event_hub
publishes_all = refl

all_events-Writable : All (Writable marshal decode) all_events
all_events-Writable = ground arith

reconnect-delivers_example :
    (run_stream decode true
      (stream_of (opening (some braces) (subscribe 1 hub_before).1 ++ live_writes live))).0
    ≡ heard decode (sync (some braces))
      ++ heard_events marshal decode
          (drop 1 (published marshal new_event_hub (before ++ subscribes 1 ∷ during)))
unfolding subscribe
reconnect-delivers_example =
    reconnect-delivers marshal decode before during hub_before hub_after 1 reader true (some braces)
      live runs_before (omega arith) (omega arith) runs_during refl refl refl all_read
      (ground arith) (subst (All (Writable marshal decode)) (sym publishes_all) all_events-Writable)

abbrev ws : List Write
ws =
    sync (some braces)
    ∷ frame (event 1 (codes "delta"))
    ∷ keepalive
    ∷ frame (event 2 (codes "delta"))
    ∷ []

ws-IsWritable : All (IsWritable decode) ws
ws-IsWritable = ground arith

run_stream-stream_of_example :
    run_stream decode false (stream_of ws) ≡ (all_heard decode ws, end_of decode false)
run_stream-stream_of_example = run_stream-stream_of decode false ws ws-IsWritable
