-- ===== src/Hub.antt =====
-- controller/hub.go: the event hub of one session. A panic of the runtime (a send on a closed
-- channel, a second close) is `none`; json.Marshal is the parameter `marshal`.
pub mod Run
pub mod Buffer
pub mod Channels
pub mod Places
pub mod Delivery
pub mod Reporter
use turnhive.Base.{
  ℕ, zero, suc, ◌+◌, ◌-◌, Bool, true, false, Option, none, some, List, [], ◌∷◌, ◌++◌, Bytes, codes,
  ltb, length, drop, keep, get_elem?, if◌then◌else◌, ◌==◌, bytes_eq,
}

abbrev pub hub_buffer_cap : ℕ
hub_buffer_cap = 2000

abbrev pub hub_subscriber_cap : ℕ
hub_subscriber_cap = 64

pub record HubEvent : Type 0 where
  pub seq : ℕ
  pub name : Bytes
  pub data_ : Bytes

-- A channel of `subs` with what it buffers. `subscribed` is its membership in `subs`; a channel
-- keeps its place after it has left the map, since its reader still drains it.
pub record Chan : Type 0 where
  pub pending : List HubEvent
  pub subscribed : Bool
  pub closed : Bool

pub record EventHub : Type 0 where
  pub seq : ℕ
  pub buf : List HubEvent
  pub current_turn : Bytes
  pub chans : List Chan

-- A payload is a JSON object of strings.
abbrev pub Payload : Type 0
Payload = List (Bytes × Bytes)

unfoldable pub new_event_hub : EventHub
new_event_hub = record { seq = 0; buf = []; current_turn = []; chans = [] }

-- close(ch)
unfoldable pub close_chan : Chan → Option Chan
close_chan c = if c.closed then none else some (record c { closed = true })

-- One round of the loop over the subscribers: send, or drop the slow one.
unfoldable pub offer : HubEvent → Chan → Option Chan
unfolding close_chan
offer ev c =
    if c.subscribed
    then if c.closed
      then none
      else if ltb (length c.pending) hub_subscriber_cap
      then some (record c { pending = c.pending ++ ev ∷ [] })
      else close_chan (record c { subscribed = false })
    else some c

-- One round of the loops that disconnect: delete from the map, then close.
unfoldable pub disconnect : Chan → Option Chan
unfolding close_chan
disconnect c = if c.subscribed then close_chan (record c { subscribed = false }) else some c

abbrev pub cons_chan : Option Chan → Option (List Chan) → Option (List Chan)
cons_chan none rest = none
cons_chan (some c) none = none
cons_chan (some c) (some cs) = some (c ∷ cs)

-- `for ch := range h.subs`: the rounds touch one channel each, so their order does not matter.
unfoldable pub for_each : (Chan → Option Chan) → List Chan → Option (List Chan)
for_each f [] = some []
for_each f (c ∷ cs) = cons_chan (f c) (for_each f cs)

abbrev pub with_chans : EventHub → Option (List Chan) → Option EventHub
with_chans h none = none
with_chans h (some cs) = some (record h { chans = cs })

-- h.buf = append(h.buf, ev), cut to the last `hub_buffer_cap`.
unfoldable pub push_buf : List HubEvent → HubEvent → List HubEvent
push_buf buf ev =
    let grown = buf ++ ev ∷ [] in
    if ltb hub_buffer_cap (length grown) then drop (length grown - hub_buffer_cap) grown else grown

unfoldable pub turn_after : Bytes → Bytes → Bytes → Bytes
turn_after name turn_id current =
    if name == codes "turn_started"
    then turn_id
    else if name == codes "turn_finished"
    then []
    else current

-- The event that the next `publish` makes.
abbrev pub next_event : EventHub → Bytes → Bytes → HubEvent
next_event h name bytes = record { seq = suc h.seq; name = name; data_ = bytes }

-- The hub once it has numbered and buffered that event, before the loop over the subscribers.
unfoldable pub stamped : Bytes → Bytes → Bytes → EventHub → EventHub
stamped turn_id name bytes h = record h {
  seq = suc h.seq;
  buf = push_buf h.buf (next_event h name bytes);
  current_turn = turn_after name turn_id h.current_turn;
}

-- `publish` behind the marshalling.
unfoldable pub broadcast : Bytes → Bytes → Bytes → EventHub → Option EventHub
unfolding stamped
broadcast turn_id name bytes h =
    with_chans (stamped turn_id name bytes h) (for_each (offer (next_event h name bytes)) h.chans)

-- What the subscriber gets: its channel's place, the backlog, the running turn, the latest number.
pub record Subscription : Type 0 where
  pub ch : ℕ
  pub backlog : List HubEvent
  pub current_turn : Bytes
  pub latest : ℕ

-- make(chan hubEvent, hubSubscriberCap)
abbrev pub fresh_chan : Chan
fresh_chan = record { pending = []; subscribed = true; closed = false }

unfoldable pub subscribe : ℕ → EventHub → EventHub × Subscription
subscribe last_seq h = (
  record h { chans = h.chans ++ fresh_chan ∷ [] },
  record {
    ch = length h.chans;
    backlog = keep (λ ev. ltb last_seq ev.seq) h.buf;
    current_turn = h.current_turn;
    latest = h.seq;
  },
)

-- `f` at the channel with the given place.
unfoldable pub at_chan : (Chan → Option Chan) → ℕ → List Chan → Option (List Chan)
at_chan f i [] = some []
at_chan f zero (c ∷ cs) = cons_chan (f c) (some cs)
at_chan f (suc i) (c ∷ cs) = cons_chan (some c) (at_chan f i cs)

unfoldable pub unsubscribe : ℕ → EventHub → Option EventHub
unsubscribe i h = with_chans h (at_chan disconnect i h.chans)

unfoldable pub close_all : EventHub → Option EventHub
close_all h = with_chans h (for_each disconnect h.chans)

-- The reader's `<-ch`, with something buffered; an empty channel blocks or ends the stream.
unfoldable pub take_head : Chan → Option Chan
take_head c = elim c.pending [ [] ↦ some c | ev ∷ rest ↦ some (record c { pending = rest }) ]

unfoldable pub receive : ℕ → EventHub → Option EventHub
receive i h = with_chans h (at_chan take_head i h.chans)

abbrev pub first_of : List HubEvent → List HubEvent
first_of [] = []
first_of (ev ∷ _) = ev ∷ []

-- What that read returns.
abbrev pub head_of : Option Chan → List HubEvent
head_of none = []
head_of (some c) = first_of c.pending

module _ (marshal : Payload → Option Bytes) where
  unfoldable pub publish : Bytes → Bytes → Payload → EventHub → Option EventHub
  publish turn_id name payload h = elim (marshal payload) [
    | none ↦ some h
    | some bytes ↦ broadcast turn_id name bytes h
  ]
