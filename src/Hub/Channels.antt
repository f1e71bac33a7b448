-- ===== src/Hub/Channels.antt =====
-- The channels of a hub along a history: no call panics, and no reader gets far behind.
use turnhive.Base.{
  ℕ, zero, suc, ◌≤◌, ◌≡◌, ◌≢◌, refl, not, Option, none, some, List, [], ◌∷◌, Bytes, arith, length,
  All, All-append, Option-cases, inl, inr, length-append,
}
use turnhive.Hub.{
  HubEvent, Chan, EventHub, Payload, hub_subscriber_cap, new_event_hub, stamped, offer, disconnect,
  for_each, at_chan, take_head, with_chans, broadcast, publish, subscribe, unsubscribe, close_all,
  receive,
}
use turnhive.Hub.Run.{Call, publishes, subscribes, unsubscribes, closes, receives, step, run}

-- A channel is closed just when it has left the map, and never holds more than its capacity.
pub record IsSound (c : Chan) : Type 0 where
  pub open_in_map : c.closed ≡ not c.subscribed
  pub bounded : length c.pending ≤ hub_subscriber_cap

-- A round that cannot panic at a sound channel, and leaves it sound.
abbrev IsSafe : (Chan → Option Chan) → Type 0
IsSafe f = (c : Chan) → IsSound c → (c' : Chan) × (f c ≡ some c') × IsSound c'

IsSafe-intro :
    (f : Chan → Option Chan)
    → ((c : Chan) → IsSound c → f c ≢ none)
    → ((c c' : Chan) → IsSound c → f c ≡ some c' → IsSound c')
    → IsSafe f
IsSafe-intro f total sound c s = elim (Option-cases (f c)) [
  | inl bad ↦ absurd (total c s bad)
  | inr (c', e) ↦ (c', e, sound c c' s e)
]

offer-IsSafe : (ev : HubEvent) → IsSafe (offer ev)
unfolding offer
offer-IsSafe ev =
    IsSafe-intro (offer ev) (λ c s. ground arith)
      (λ c c' s e. ground (arith, length-append c.pending (ev ∷ [])))

disconnect-IsSafe : IsSafe disconnect
unfolding disconnect
disconnect-IsSafe = IsSafe-intro disconnect (λ c s. ground arith) (λ c c' s e. ground arith)

take_head-IsSafe : IsSafe take_head
unfolding take_head
take_head-IsSafe = IsSafe-intro take_head (λ c s. ground arith) (λ c c' s e. ground arith)

for_each-safe :
    (f : Chan → Option Chan)
    → IsSafe f
    → (cs : List Chan) → All IsSound cs
    → (cs' : List Chan) × (for_each f cs ≡ some cs') × All IsSound cs'
unfolding for_each
for_each-safe f safe [] h = ([], refl, tt)
for_each-safe f safe (c ∷ cs) h =
    let (c', e, s) = safe c h.0 in
    let (cs', es, ss) = for_each-safe f safe cs h.1 in (c' ∷ cs', ground (arith, e, es), (s, ss))

at_chan-safe :
    (f : Chan → Option Chan)
    → IsSafe f
    → (i : ℕ) (cs : List Chan) → All IsSound cs
    → (cs' : List Chan) × (at_chan f i cs ≡ some cs') × All IsSound cs'
unfolding at_chan
at_chan-safe f safe i [] h = ([], refl, tt)
at_chan-safe f safe zero (c ∷ cs) h =
    let (c', e, s) = safe c h.0 in (c' ∷ cs, ground (arith, e), (s, h.1))
at_chan-safe f safe (suc i) (c ∷ cs) h =
    let (cs', es, ss) = at_chan-safe f safe i cs h.1 in (c ∷ cs', ground (arith, es), (h.0, ss))

-- The call returns, to a hub with sound channels.
abbrev pub Returns : Option EventHub → Type 0
Returns m = (h : EventHub) × (m ≡ some h) × All IsSound h.chans

with_chans-Returns :
    (h : EventHub) (m : Option (List Chan))
    → (cs' : List Chan) × (m ≡ some cs') × All IsSound cs'
    → Returns (with_chans h m)
with_chans-Returns h m (cs', e, s) = (record h { chans = cs' }, rw e, s)

module _ (marshal : Payload → Option Bytes) where
  pub step-Returns : (h : EventHub) (c : Call) → All IsSound h.chans → Returns (step marshal h c)
  unfolding step publish broadcast subscribe unsubscribe close_all receive
  step-Returns h (publishes t n p) s = elim (Option-cases (marshal p)) [
    | inl bad ↦ rw (bad, publish) (h, refl, s)
    | inr (bytes, good) ↦
        rw (good, publish)
          (with_chans-Returns (stamped t n bytes h) _
            (for_each-safe (offer _) (offer-IsSafe _) h.chans s))
  ]
  step-Returns h (subscribes l) s = (
    _,
    refl,
    All-append IsSound h.chans _ s (record { open_in_map = refl; bounded = omega arith }, tt),
  )
  step-Returns h (unsubscribes i) s =
      with_chans-Returns h _ (at_chan-safe disconnect disconnect-IsSafe i h.chans s)
  step-Returns h closes s =
      with_chans-Returns h _ (for_each-safe disconnect disconnect-IsSafe h.chans s)
  step-Returns h (receives i) s =
      with_chans-Returns h _ (at_chan-safe take_head take_head-IsSafe i h.chans s)

  run_from-Returns :
      (h : EventHub) (cs : List Call) → All IsSound h.chans → Returns (run marshal h cs)
  unfolding run
  run_from-Returns h [] s = (h, refl, s)
  run_from-Returns h (c ∷ cs) s =
      let (h1, e, s1) = step-Returns h c s in rw e (run_from-Returns h1 cs s1)

  -- Every history of a new hub runs to its end: no send on a closed channel, no second close; and
  -- afterwards a channel is closed just when it has left the map and holds at most 64 events.
  pub run-Returns : (cs : List Call) → Returns (run marshal new_event_hub cs)
  unfolding new_event_hub
  run-Returns cs = run_from-Returns _ cs tt
