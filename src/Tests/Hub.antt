-- ===== src/Tests/Hub.antt =====
-- A turn that streams two deltas; a client that has seen the first of three events reconnects.
use turnhive.Base.{
  ℕ, ◌≡◌, ◌≢◌, refl, Bool, Option, none, some, List, [], ◌∷◌, ◌++◌, Bytes, codes, arith, drop,
  bytes_eqb, keep,
}
use turnhive.Hub.{
  EventHub, HubEvent, Chan, Payload, new_event_hub, publish, broadcast, stamped, push_buf,
  turn_after, for_each, offer, subscribe, receive, at_chan, take_head,
}
use turnhive.Hub.Run.{Call, publishes, subscribes, receives, closes, step, run, published, received}
use turnhive.Hub.Channels.{Returns, run-Returns}
use turnhive.Hub.Delivery.{resume}
use turnhive.Hub.Reporter.{Reporter, Report, delta, done, report, start_report}

abbrev to_json : Payload → Option Bytes
to_json p = some []

abbrev turn : Bytes
turn = codes "turn_1"

abbrev before : List Call
before =
    publishes turn (codes "turn_started") []
    ∷ publishes turn (codes "delta") []
    ∷ publishes turn (codes "delta") []
    ∷ []

abbrev during : List Call
during = publishes turn (codes "delta") [] ∷ receives 0 ∷ publishes turn (codes "delta") [] ∷ []

abbrev made : HubEvent
made = record { seq = 1; name = codes "turn_started"; data_ = [] }

abbrev piece : ℕ → HubEvent
piece n = record { seq = n; name = codes "delta"; data_ = [] }

abbrev hub_before : EventHub
hub_before = record {
  seq = 3;
  buf = made ∷ piece 2 ∷ piece 3 ∷ [];
  current_turn = turn;
  chans = [];
}

abbrev reader : Chan
reader = record { pending = piece 5 ∷ []; subscribed = Bool.true; closed = Bool.false }

abbrev hub_after : EventHub
hub_after = record {
  seq = 5;
  buf = made ∷ piece 2 ∷ piece 3 ∷ piece 4 ∷ piece 5 ∷ [];
  current_turn = turn;
  chans = reader ∷ [];
}

runs_before : run to_json new_event_hub before ≡ some hub_before
unfolding run step publish broadcast stamped push_buf turn_after for_each offer new_event_hub
    bytes_eqb
runs_before = refl

runs_during : run to_json (subscribe 1 hub_before).0 during ≡ some hub_after
unfolding run step publish broadcast stamped push_buf turn_after for_each offer subscribe receive
    at_chan take_head bytes_eqb keep
runs_during = refl

resume_example :
    (subscribe 1 hub_before).1.backlog
      ++ received to_json (subscribe 1 hub_before).1.ch (subscribe 1 hub_before).0 during
      ++ reader.pending
    ≡ drop 1 (published to_json new_event_hub (before ++ subscribes 1 ∷ during))
unfolding subscribe
resume_example =
    resume to_json before during hub_before hub_after 1 reader runs_before (omega arith)
      (omega arith) runs_during refl refl

run-Returns_example : Returns (run to_json new_event_hub (before ++ subscribes 1 ∷ closes ∷ during))
run-Returns_example = run-Returns to_json (before ++ subscribes 1 ∷ closes ∷ during)

abbrev reporter : Reporter
reporter = record { turn_id = turn; cause = none }

abbrev text : Report
text = delta (codes "hi")

abbrev end_of_turn : Report
end_of_turn = done (codes "hi")

abbrev event : ℕ → Bytes → HubEvent
event n name = record { seq = n; name = name; data_ = [] }

abbrev mid_turn : EventHub
mid_turn = record {
  seq = 2;
  buf = event 1 (codes "turn_started") ∷ event 2 (codes "delta") ∷ [];
  current_turn = turn;
  chans = [];
}

abbrev past_turn : EventHub
past_turn = record {
  seq = 3;
  buf =
      event 1 (codes "turn_started")
      ∷ event 2 (codes "delta")
      ∷ event 3 (codes "turn_finished")
      ∷ [];
  current_turn = [];
  chans = [];
}

starts_turn :
    run to_json new_event_hub (start_report turn ∷ report reporter text ∷ []) ≡ some mid_turn
unfolding start_report report run step publish broadcast stamped push_buf turn_after for_each offer
    new_event_hub bytes_eqb
starts_turn = refl

ends_turn : step to_json mid_turn (report reporter end_of_turn) ≡ some past_turn
unfolding report step publish broadcast stamped push_buf turn_after for_each offer bytes_eqb
ends_turn = refl

to_json-total : (p : Payload) → to_json p ≢ none
to_json-total p e = cc
