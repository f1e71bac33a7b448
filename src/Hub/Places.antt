-- ===== src/Hub/Places.antt =====
-- A channel in the list of a hub's channels, before and after a loop over them.
use turnhive.Base.{
  ℕ, zero, suc, ◌<◌, ◌≡◌, ◌≢◌, refl, ap, sym, ◌∙◌, true, Option, none, some, List, [], ◌∷◌, ◌++◌,
  arith, length, eqb, get_elem?, if◌then◌else◌, append_assoc, append-nil,
}
use turnhive.Hub.{
  HubEvent, Chan, EventHub, offer, disconnect, for_each, at_chan, take_head, first_of, with_chans,
}

abbrev then_round : Option Chan → (Chan → Option Chan) → Option Chan
then_round none f = none
then_round (some c) f = f c

-- The channel at a place after a loop over all of them.
pub for_each-get :
    (f : Chan → Option Chan) (i : ℕ) (cs cs' : List Chan)
    → for_each f cs ≡ some cs'
    → get_elem? cs' i ≡ then_round (get_elem? cs i) f
unfolding for_each
for_each-get f i [] cs' e = ground (arith, e)
for_each-get f i (c ∷ cs) [] e = ground (arith, e)
for_each-get f zero (c ∷ cs) (c' ∷ cs') e = ground (arith, e)
for_each-get f (suc i) (c ∷ cs) (c' ∷ cs') e = for_each-get f i cs cs' (ground (arith, e))

pub at_chan-get :
    (f : Chan → Option Chan) (j i : ℕ) (cs cs' : List Chan)
    → at_chan f j cs ≡ some cs'
    → get_elem? cs' i ≡ (if eqb i j then then_round (get_elem? cs i) f else get_elem? cs i)
unfolding at_chan
at_chan-get f j i [] cs' e = ground (arith, e)
at_chan-get f zero zero (c ∷ cs) cs' e = ground (arith, e)
at_chan-get f zero (suc i) (c ∷ cs) cs' e = ground (arith, e)
at_chan-get f (suc j) zero (c ∷ cs) cs' e = ground (arith, e)
at_chan-get f (suc j) (suc i) (c ∷ cs) [] e = ground (arith, e)
at_chan-get f (suc j) (suc i) (c ∷ cs) (c' ∷ cs') e =
    at_chan-get f j i cs cs' (ground (arith, e)) ∙ ground arith

-- While a channel stays in the map, what it held and what was published is what was read and is held.
pub record Delivers (c : Chan) (evs got : List HubEvent) (c' : Chan) : Type 0 where
  pub was : c.subscribed ≡ true
  pub flow : c.pending ++ evs ≡ got ++ c'.pending

pub Delivers-trans :
    (c c1 c2 : Chan) (evs got evs' got' : List HubEvent)
    → Delivers c evs got c1
    → Delivers c1 evs' got' c2
    → Delivers c (evs ++ evs') (got ++ got') c2
Delivers-trans c c1 c2 evs got evs' got' p q = record {
  was = p.was;
  flow =
      sym (append_assoc c.pending evs evs')
      ∙ ap (λ xs. xs ++ evs') p.flow
      ∙ append_assoc got c1.pending evs'
      ∙ ap (◌++◌ got) q.flow
      ∙ sym (append_assoc got got' c2.pending);
}

pub offer-Delivers :
    (ev : HubEvent) (c c' : Chan)
    → offer ev c ≡ some c'
    → c'.subscribed ≡ true
    → Delivers c (ev ∷ []) [] c'
unfolding offer
offer-Delivers ev c c' e s = record { was = ground arith; flow = ground arith }

pub disconnect_drops : (c c' : Chan) → disconnect c ≡ some c' → c'.subscribed ≢ true
unfolding disconnect
disconnect_drops c c' e s = ground arith

pub take_head-Delivers :
    (c c' : Chan)
    → take_head c ≡ some c'
    → c'.subscribed ≡ true
    → Delivers c [] (first_of c.pending) c'
unfolding take_head
take_head-Delivers c c' e s = record {
  was = ground arith;
  flow = ground (arith, append-nil c.pending);
}

pub get-append :
    (cs : List Chan) (x : Chan) (i : ℕ)
    → i < length cs
    → get_elem? (cs ++ x ∷ []) i ≡ get_elem? cs i
get-append [] x i h = absurd (omega arith)
get-append (y ∷ cs) x zero h = refl
get-append (y ∷ cs) x (suc i) h = get-append cs x i (omega arith)

pub get-last : (cs : List Chan) (x : Chan) → get_elem? (cs ++ x ∷ []) (length cs) ≡ some x
get-last [] x = refl
get-last (y ∷ cs) x = get-last cs x

pub get-lt : (cs : List Chan) (i : ℕ) (c : Chan) → get_elem? cs i ≡ some c → i < length cs
get-lt [] i c e = cc
get-lt (y ∷ cs) zero c e = omega arith
get-lt (y ∷ cs) (suc i) c e = omega (arith, get-lt cs i c e)

pub with_chans-chans :
    (h h' : EventHub) (m : Option (List Chan)) → with_chans h m ≡ some h' → m ≡ some h'.chans
with_chans-chans h h' none e = ground (arith, e)
with_chans-chans h h' (some cs) e = ground (arith, e)

pub stays-Delivers : (c c' : Chan) → c ≡ c' → c'.subscribed ≡ true → Delivers c [] [] c'
stays-Delivers c c' e s = record {
  was = ground arith;
  flow = append-nil c.pending ∙ ap (λ (x : Chan). x.pending) e;
}
