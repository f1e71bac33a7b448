-- ===== src/Sse/Frames.antt =====
-- The frames that a client reads and the events that it makes of them.
use turnhive.Base.{
  ℕ, zero, suc, ◌<◌, ◌≡◌, refl, ap, List, [], ◌∷◌, ◌++◌, Bytes, codes, arith, bytes_eq,
}
use turnhive.Base.Int.{ℤ, pos}
use turnhive.Hub.{HubEvent}
use turnhive.Sse.Client.{
  Frame, Event, EventPayload, Delivered, StreamEnd, deliver, event_from, frame_seq_or,
}

-- The frame that the client has read when it comes to an event.
abbrev pub frame_of : HubEvent → Frame
frame_of ev = record { name = ev.name; data_ = ev.data_; frame_seq = pos ev.seq }

abbrev pub sync_frame : Bytes → Frame
sync_frame payload = record { name = codes "sync"; data_ = payload; frame_seq = pos 0 }

abbrev pub event_with : Bytes → ℤ → EventPayload → Event
event_with kind seq p = record {
  kind = kind;
  seq = seq;
  turn_id = p.turn_id;
  text = p.text;
  id = p.id;
  name = p.name;
  title = p.title;
  status = p.status;
  message = p.message;
  messages = p.messages;
  persisted = p.persisted;
  files = p.files;
}

seq_stays : (n : ℕ) (seq : ℤ) → 0 < n → frame_seq_or (pos n) seq ≡ pos n
seq_stays zero seq h = absurd (omega (arith, h))
seq_stays (suc n) seq h = refl

pub event_from-frame :
    (ev : HubEvent) (p : EventPayload)
    → 0 < ev.seq
    → event_from (frame_of ev) p ≡ event_with ev.name (pos ev.seq) p
unfolding event_from
event_from-frame ev p h = ap (λ n. event_with ev.name n p) (seq_stays ev.seq p.seq h)

pub event_from-sync :
    (payload : Bytes) (p : EventPayload)
    → event_from (sync_frame payload) p ≡ event_with (codes "sync") p.seq p
unfolding event_from
event_from-sync payload p = refl

abbrev pub deliver_all : List Event → Delivered → Delivered
deliver_all [] d = d
deliver_all (ev ∷ evs) d = deliver ev (deliver_all evs d)

pub deliver_all-append :
    (xs ys : List Event) (d : Delivered)
    → deliver_all (xs ++ ys) d ≡ deliver_all xs (deliver_all ys d)
deliver_all-append [] ys d = refl
deliver_all-append (x ∷ xs) ys d = ap (deliver x) (deliver_all-append xs ys d)

pub deliver_all-events : (xs : List Event) (end : StreamEnd) → deliver_all xs ([], end) ≡ (xs, end)
deliver_all-events [] end = refl
deliver_all-events (x ∷ xs) end = ap (deliver x) (deliver_all-events xs end)
