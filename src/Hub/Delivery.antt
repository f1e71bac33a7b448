-- ===== src/Hub/Delivery.antt =====
-- What the reader of one channel gets: the backlog at its subscription and every event after it.
use turnhive.Base.{
  ℕ, zero, suc, ◌≤◌, ◌<◌, ◌+◌, ◌≡◌, refl, ap, sym, ◌∙◌, true, Option, some, List, [], ◌∷◌, ◌++◌,
  Bytes, arith, length, length-append, eqb, get_elem?, drop, if◌then◌else◌, if_same, Option-cases,
  Bool-cases, inl, inr, append_assoc, drop-append_le,
}
use turnhive.Hub.{
  HubEvent, Chan, EventHub, Payload, hub_buffer_cap, new_event_hub, offer, disconnect, for_each,
  at_chan, take_head, first_of, fresh_chan, with_chans, next_event, stamped, broadcast, publish,
  subscribe, unsubscribe, close_all, receive,
}
use turnhive.Hub.Run.{
  Call, publishes, subscribes, unsubscribes, closes, receives, step, run, event_of, published,
  reads, received,
}
use turnhive.Hub.Buffer.{Extends, run-Extends, backlog-published, published-append}
use turnhive.Hub.Places.{
  for_each-get, at_chan-get, Delivers, Delivers-trans, offer-Delivers, disconnect_drops,
  take_head-Delivers, get-append, get-last, get-lt, with_chans-chans, stays-Delivers,
}

-- The channel at place `i` before and after a call, and what its reader got.
module _ (marshal : Payload → Option Bytes) (h h' : EventHub) (i : ℕ) (c c' : Chan)
    (g : get_elem? h.chans i ≡ some c) (g' : get_elem? h'.chans i ≡ some c')
    (s : c'.subscribed ≡ true) where
  round_of_all :
      (hub : EventHub) (f : Chan → Option Chan)
      → with_chans hub (for_each f h.chans) ≡ some h'
      → f c ≡ some c'
  round_of_all hub f e =
      ground (arith, for_each-get f i h.chans h'.chans (with_chans-chans hub h' _ e), g, g')

  round_of_one :
      (f : Chan → Option Chan) (j : ℕ)
      → with_chans h (at_chan f j h.chans) ≡ some h'
      → (if eqb i j then f c else some c) ≡ some c'
  round_of_one f j e =
      ground (arith, at_chan-get f j i h.chans h'.chans (with_chans-chans h h' _ e), g, g')

  one-Delivers :
      (f : Chan → Option Chan) (j : ℕ) (got : List HubEvent)
      → with_chans h (at_chan f j h.chans) ≡ some h'
      → (f c ≡ some c' → Delivers c [] got c')
      → Delivers c [] (if eqb i j then got else []) c'
  one-Delivers f j got e hit = elim (Bool-cases (eqb i j)) [
    | inl same ↦ rw same (hit (rw same at (round_of_one f j e)))
    | inr other ↦ rw other (stays-Delivers c c' (ground (arith, other, round_of_one f j e)) s)
  ]

  subscribe-Delivers : (l : ℕ) → some (subscribe l h).0 ≡ some h' → Delivers c [] [] c'
  unfolding subscribe
  subscribe-Delivers l e =
      stays-Delivers c c'
        (ground (arith, get-append h.chans fresh_chan i (get-lt h.chans i c g), g, g', e)) s

  step-Delivers :
      (call : Call)
      → step marshal h call ≡ some h'
      → Delivers c (event_of marshal h call) (reads marshal i h call) c'
  unfolding step event_of reads publish broadcast unsubscribe close_all receive
  step-Delivers (publishes t n p) e = elim (Option-cases (marshal p)) [
    | inl bad ↦ rw (bad, event_of) (stays-Delivers c c' (ground (arith, g, g', bad, e)) s)
    | inr (bytes, good) ↦
        rw (good, event_of)
          (offer-Delivers _ c c'
            (round_of_all (stamped t n bytes h) (offer (next_event h n bytes))
              (rw (good, publish) at e))
            s)
  ]
  step-Delivers (subscribes l) e = subscribe-Delivers l e
  step-Delivers (unsubscribes j) e =
      rw if_same at (one-Delivers disconnect j [] e (λ d. absurd (disconnect_drops c c' d s)))
  step-Delivers closes e = absurd (disconnect_drops c c' (round_of_all h disconnect e) s)
  step-Delivers (receives j) e =
      rw g (one-Delivers take_head j (first_of c.pending) e (λ t. take_head-Delivers c c' t s))

length-for_each :
    (f : Chan → Option Chan) (cs cs' : List Chan)
    → for_each f cs ≡ some cs'
    → length cs' ≡ length cs
unfolding for_each
length-for_each f [] cs' e = ground (arith, e)
length-for_each f (c ∷ cs) [] e = ground (arith, e)
length-for_each f (c ∷ cs) (c' ∷ cs') e = ap suc (length-for_each f cs cs' (ground (arith, e)))

length-at_chan :
    (f : Chan → Option Chan) (j : ℕ) (cs cs' : List Chan)
    → at_chan f j cs ≡ some cs'
    → length cs' ≡ length cs
unfolding at_chan
length-at_chan f j [] cs' e = ground (arith, e)
length-at_chan f zero (c ∷ cs) cs' e = ground (arith, e)
length-at_chan f (suc j) (c ∷ cs) [] e = ground (arith, e)
length-at_chan f (suc j) (c ∷ cs) (c' ∷ cs') e =
    ap suc (length-at_chan f j cs cs' (ground (arith, e)))

get_of_lt : (cs : List Chan) (i : ℕ) → i < length cs → (c : Chan) × (get_elem? cs i ≡ some c)
get_of_lt [] i h = absurd (omega arith)
get_of_lt (c ∷ cs) zero h = (c, refl)
get_of_lt (c ∷ cs) (suc i) h = get_of_lt cs i (omega arith)

subscribe-get :
    (last : ℕ) (h : EventHub)
    → get_elem? (subscribe last h).0.chans (subscribe last h).1.ch ≡ some fresh_chan
unfolding subscribe
subscribe-get last h = get-last h.chans fresh_chan

new_hub_empty : (new_event_hub.seq ≡ 0) × (length new_event_hub.buf ≤ hub_buffer_cap)
unfolding new_event_hub
new_hub_empty = (refl, omega arith)

module _ (marshal : Payload → Option Bytes) where
  -- No call takes a channel's place away.
  step-places :
      (h h' : EventHub) (call : Call)
      → step marshal h call ≡ some h'
      → length h.chans ≤ length h'.chans
  unfolding step publish broadcast subscribe unsubscribe close_all receive
  step-places h h' (publishes t n p) e = elim (Option-cases (marshal p)) [
    | inl bad ↦ ground (arith, bad, e)
    | inr (bytes, good) ↦
        omega (arith, length-for_each _ _ _ (with_chans-chans _ h' _ (rw (good, publish) at e)))
  ]
  step-places h h' (subscribes l) e = ground (arith, e, length-append h.chans (fresh_chan ∷ []))
  step-places h h' (unsubscribes j) e =
      omega (arith, length-at_chan _ j _ _ (with_chans-chans h h' _ e))
  step-places h h' closes e = omega (arith, length-for_each _ _ _ (with_chans-chans h h' _ e))
  step-places h h' (receives j) e =
      omega (arith, length-at_chan _ j _ _ (with_chans-chans h h' _ e))

  -- Over a history at whose end the channel is still in the map.
  run-Delivers :
      (h h' : EventHub) (cs : List Call) (i : ℕ) (c c' : Chan)
      → run marshal h cs ≡ some h'
      → get_elem? h.chans i ≡ some c
      → get_elem? h'.chans i ≡ some c'
      → c'.subscribed ≡ true
      → Delivers c (published marshal h cs) (received marshal i h cs) c'
  unfolding run published received
  run-Delivers h h' [] i c c' e g g' s = stays-Delivers c c' (ground (arith, e, g, g')) s
  run-Delivers h h' (call ∷ cs) i c c' e g g' s = elim (Option-cases (step marshal h call)) [
    | inl bad ↦ absurd (ground (arith, bad, e))
    | inr (h1, good) ↦
        let (c1, g1) =
          get_of_lt h1.chans i (omega (arith, get-lt h.chans i c g, step-places h h1 call good)) in
        let later = run-Delivers h1 h' cs i c1 c' (rw good at e) g1 g' s in
        let now = step-Delivers marshal h h1 i c c1 g g1 later.was call good in
        rw good (Delivers-trans c c1 c' _ _ _ _ now later)
  ]

  -- The end-to-end statement. A client reconnects with the last number it saw, and the buffer still
  -- reaches back to it; then calls go on in any order, and its channel is still in the map. What it
  -- gets as backlog, what it has read, and what waits in its channel are together exactly the events
  -- of the whole stream after that number, in order, with no event lost and none twice.
  pub resume :
      (before during : List Call) (h h' : EventHub) (last : ℕ) (c : Chan)
      → run marshal new_event_hub before ≡ some h
      → h.seq ≤ last + hub_buffer_cap
      → last ≤ h.seq
      → run marshal (subscribe last h).0 during ≡ some h'
      → get_elem? h'.chans (subscribe last h).1.ch ≡ some c
      → c.subscribed ≡ true
      → (subscribe last h).1.backlog
          ++ received marshal (subscribe last h).1.ch (subscribe last h).0 during
          ++ c.pending
        ≡ drop last (published marshal new_event_hub (before ++ subscribes last ∷ during))
  unfolding published step event_of
  resume before during h h' last c e near past e' g s =
      let h0 : EventHub = (subscribe last h).0 in
      let i : ℕ = (subscribe last h).1.ch in
      let all : List HubEvent = published marshal new_event_hub before in
      let x : Extends new_event_hub all h =
        run-Extends marshal new_event_hub h before new_hub_empty.1 e in
      let flow = run-Delivers h0 h' during i fresh_chan c e' (subscribe-get last h) g s in
      append_assoc (subscribe last h).1.backlog (received marshal i h0 during) c.pending
      ∙ ap (λ xs. (subscribe last h).1.backlog ++ xs) (sym flow.flow)
      ∙ ap (λ xs. xs ++ published marshal h0 during)
          (backlog-published marshal before h last e near)
      ∙ sym (
          drop-append_le last all (published marshal h0 during)
            (omega (arith, new_hub_empty.0, x.counted)))
      ∙ ap (drop last)
          (sym (published-append marshal new_event_hub h before (subscribes last ∷ during) e))
