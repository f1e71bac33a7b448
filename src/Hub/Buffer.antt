-- ===== src/Hub/Buffer.antt =====
-- The numbers and the replay buffer along a history.
use turnhive.Base.{
  ℕ, zero, suc, ◌+◌, ◌-◌, ◌≤◌, ◌≡◌, sym, ap, subst, ◌∙◌, Option, some, List, [], ◌∷◌, ◌++◌, Bytes,
  arith, ltb, length, drop, keep, drop-nil, drop-drop, drop-append_le, length-drop, length-append,
  append_assoc, append-nil, inl, inr, Option-cases, Bool-cases,
}
use turnhive.Hub.{
  HubEvent, EventHub, Payload, hub_buffer_cap, new_event_hub, push_buf, broadcast, publish,
  subscribe, unsubscribe, close_all, receive, with_chans, Chan,
}
use native.Mathlib.Nat.{add-zero, zero-add}
use turnhive.Hub.Run.{
  Call, publishes, subscribes, unsubscribes, closes, receives, step, run, event_of, published,
}

-- The last `hub_buffer_cap` events of a stream.
abbrev pub recent : List HubEvent → List HubEvent
recent xs = drop (length xs - hub_buffer_cap) xs

length-recent-le : (xs : List HubEvent) → length (recent xs) ≤ hub_buffer_cap
length-recent-le xs = omega (arith, length-drop (length xs - hub_buffer_cap) xs)

recent_of_le : (xs : List HubEvent) → length xs ≤ hub_buffer_cap → recent xs ≡ xs
recent_of_le xs h = let e : length xs - hub_buffer_cap ≡ 0 = omega arith in rw e

push_buf-recent : (buf : List HubEvent) (ev : HubEvent) → push_buf buf ev ≡ recent (buf ++ ev ∷ [])
unfolding push_buf
push_buf-recent buf ev = elim (Bool-cases (ltb hub_buffer_cap (length (buf ++ ev ∷ [])))) [
  | inl long ↦ rw long
  | inr short ↦ rw short (sym (recent_of_le (buf ++ ev ∷ []) (ground arith)))
]

-- Events that were dropped do not come back.
recent-recent : (xs ys : List HubEvent) → recent (recent xs ++ ys) ≡ recent (xs ++ ys)
recent-recent xs ys =
    let k : ℕ = length xs - hub_buffer_cap in
    let cut : recent xs ++ ys ≡ drop k (xs ++ ys) = sym (drop-append_le k xs ys (omega arith)) in
    let short : length (recent xs ++ ys) ≡ length xs - k + length ys =
      omega (arith, length-append (recent xs) ys, length-drop k xs) in
    let whole : length (xs ++ ys) ≡ length xs + length ys = length-append xs ys in
    ap (λ zs. drop (length (recent xs ++ ys) - hub_buffer_cap) zs) cut
    ∙ drop-drop (length (recent xs ++ ys) - hub_buffer_cap) k (xs ++ ys)
    ∙ ap (λ (n : ℕ). drop n (xs ++ ys)) (omega (arith, short, whole))

-- What a step does to the numbers and the buffer.
pub record Extends (h : EventHub) (evs : List HubEvent) (h' : EventHub) : Type 0 where
  pub counted : h'.seq ≡ h.seq + length evs
  pub buffered : h'.buf ≡ recent (h.buf ++ evs)

with_chans-Extends :
    (h h' : EventHub) (m : Option (List Chan))
    → length h.buf ≤ hub_buffer_cap
    → with_chans h m ≡ some h'
    → Extends h [] h'
with_chans-Extends h h' m fits e = record {
  counted = ground arith;
  buffered = ground (arith, append-nil h.buf, recent_of_le h.buf);
}

broadcast-Extends :
    (h h' : EventHub) (t n bytes : Bytes)
    → broadcast t n bytes h ≡ some h'
    → Extends h (record { seq = suc h.seq; name = n; data_ = bytes } ∷ []) h'
unfolding broadcast
broadcast-Extends h h' t n bytes e = record {
  counted = ground arith;
  buffered =
      ground (arith, push_buf-recent h.buf (record { seq = suc h.seq; name = n; data_ = bytes }));
}

Extends-trans :
    (h h1 h2 : EventHub) (xs ys : List HubEvent)
    → Extends h xs h1
    → Extends h1 ys h2
    → Extends h (xs ++ ys) h2
Extends-trans h h1 h2 xs ys p q = record {
  counted = omega (arith, length-append xs ys, p.counted, q.counted);
  buffered =
      q.buffered
      ∙ rw p.buffered (recent-recent (h.buf ++ xs) ys ∙ ap recent (append_assoc h.buf xs ys));
}

module _ (marshal : Payload → Option Bytes) where
  step-Extends :
      (h h' : EventHub) (c : Call)
      → length h.buf ≤ hub_buffer_cap
      → step marshal h c ≡ some h'
      → Extends h (event_of marshal h c) h'
  unfolding step event_of publish unsubscribe close_all receive subscribe
  step-Extends h h' (publishes t n p) fits e = elim (Option-cases (marshal p)) [
    | inl bad ↦
        rw (bad, event_of) (with_chans-Extends h h' (some h.chans) fits (rw (bad, publish) at e))
    | inr (bytes, good) ↦
        rw (good, event_of) (broadcast-Extends h h' t n bytes (rw (good, publish) at e))
  ]
  step-Extends h h' (subscribes l) fits e = with_chans-Extends h h' (some _) fits e
  step-Extends h h' (unsubscribes i) fits e = with_chans-Extends h h' _ fits e
  step-Extends h h' closes fits e = with_chans-Extends h h' _ fits e
  step-Extends h h' (receives i) fits e = with_chans-Extends h h' _ fits e

  -- Along any history the buffer holds the last events of the whole stream.
  pub run-Extends :
      (h h' : EventHub) (cs : List Call)
      → length h.buf ≤ hub_buffer_cap
      → run marshal h cs ≡ some h'
      → Extends h (published marshal h cs) h'
  unfolding run published
  run-Extends h h' [] fits e = with_chans-Extends h h' (some h.chans) fits e
  run-Extends h h' (c ∷ cs) fits e = elim (Option-cases (step marshal h c)) [
    | inl bad ↦ absurd (ground (arith, bad, e))
    | inr (h1, good) ↦
        let first = step-Extends h h1 c fits good in
        let fits1 : length h1.buf ≤ hub_buffer_cap =
          rw first.buffered (length-recent-le (h.buf ++ event_of marshal h c)) in
        rw good (
          Extends-trans h h1 h' (event_of marshal h c) (published marshal h1 cs) first
            (run-Extends h1 h' cs fits1 (rw good at e)))
  ]

-- Numbered from `n + 1` without a gap.
abbrev pub Numbered : ℕ → List HubEvent → Type 0
Numbered n [] = Unit
Numbered n (ev ∷ evs) = (ev.seq ≡ suc n) × Numbered (suc n) evs

Numbered-append :
    (n : ℕ) (xs ys : List HubEvent)
    → Numbered n xs
    → Numbered (n + length xs) ys
    → Numbered n (xs ++ ys)
Numbered-append n [] ys hx hy = rw add-zero at hy
Numbered-append n (x ∷ xs) ys hx hy =
    let e : n + suc (length xs) ≡ suc n + length xs = omega arith in
    (hx.0, Numbered-append (suc n) xs ys hx.1 (rw e at hy))

Numbered-drop :
    (k n : ℕ) (xs : List HubEvent) → k ≤ length xs → Numbered n xs → Numbered (n + k) (drop k xs)
Numbered-drop zero n xs fits h = rw add-zero h
Numbered-drop (suc k) n [] fits h = absurd (omega arith)
Numbered-drop (suc k) n (x ∷ xs) fits h =
    let e : n + suc k ≡ suc n + k = omega arith in
    rw e (Numbered-drop k (suc n) xs (omega arith) h.1)

-- Keeping what is newer than `last` cuts the events up to `last`.
keep-Numbered :
    (last n : ℕ) (xs : List HubEvent)
    → Numbered n xs
    → keep (λ ev. ltb last ev.seq) xs ≡ drop (last - n) xs
unfolding keep
keep-Numbered last n [] h = sym (drop-nil (last - n))
keep-Numbered last n (x ∷ xs) h = elim (Bool-cases (ltb last x.seq)) [
  | inl new ↦
      let e : last - n ≡ 0 = ground (arith, h.0) in
      let e' : last - suc n ≡ 0 = omega arith in
      rw (new, keep, e) (ap (◌∷◌ x) (keep-Numbered last (suc n) xs h.1 ∙ rw e'))
  | inr old ↦
      let e : last - n ≡ suc (last - suc n) = ground (arith, h.0) in
      rw (old, keep, e) (keep-Numbered last (suc n) xs h.1)
]

module _ (marshal : Payload → Option Bytes) where
  event_of-Numbered : (h : EventHub) (c : Call) → Numbered h.seq (event_of marshal h c)
  unfolding event_of
  event_of-Numbered h (publishes t n p) = ground arith
  event_of-Numbered h _ = tt

  -- The stream is numbered without a gap, whatever is called.
  pub published-Numbered :
      (h : EventHub) (cs : List Call)
      → length h.buf ≤ hub_buffer_cap
      → Numbered h.seq (published marshal h cs)
  unfolding published
  published-Numbered h [] fits = tt
  published-Numbered h (c ∷ cs) fits = elim (Option-cases (step marshal h c)) [
    | inl bad ↦ rw (bad, append-nil (event_of marshal h c)) (event_of-Numbered h c)
    | inr (h1, good) ↦
        let first = step-Extends marshal h h1 c fits good in
        let fits1 : length h1.buf ≤ hub_buffer_cap =
          rw first.buffered (length-recent-le (h.buf ++ event_of marshal h c)) in
        rw good (
          Numbered-append h.seq (event_of marshal h c) _ (event_of-Numbered h c) (
            subst (λ (n : ℕ). Numbered n (published marshal h1 cs)) first.counted
              (published-Numbered h1 cs fits1)))
  ]

  pub published-append :
      (h h1 : EventHub) (cs ds : List Call)
      → run marshal h cs ≡ some h1
      → published marshal h (cs ++ ds) ≡ published marshal h cs ++ published marshal h1 ds
  unfolding run published
  published-append h h1 [] ds e = ap (λ (k : EventHub). published marshal k ds) (ground (arith, e))
  published-append h h1 (c ∷ cs) ds e = elim (Option-cases (step marshal h c)) [
    | inl bad ↦ absurd (ground (arith, bad, e))
    | inr (k, good) ↦ rw good (
        ap (◌++◌ (event_of marshal h c)) (published-append k h1 cs ds (rw good at e))
        ∙ sym (append_assoc (event_of marshal h c) _ _))
  ]

  -- A new subscriber's backlog, out of the whole stream of the hub.
  pub backlog-published :
      (cs : List Call) (h : EventHub) (last : ℕ)
      → run marshal new_event_hub cs ≡ some h
      → h.seq ≤ last + hub_buffer_cap
      → (subscribe last h).1.backlog ≡ drop last (published marshal new_event_hub cs)
  unfolding subscribe new_event_hub
  backlog-published cs h last e near =
      let all : List HubEvent = published marshal new_event_hub cs in
      let k : ℕ = length all - hub_buffer_cap in
      let x : Extends new_event_hub all h =
        run-Extends marshal new_event_hub h cs (omega arith) e in
      let numbered : Numbered k (drop k all) =
        rw zero-add at (
          Numbered-drop k 0 all (omega arith)
            (published-Numbered new_event_hub cs (omega arith))) in
      let join : k + (last - k) ≡ last = omega (arith, x.counted) in
      rw x.buffered (keep-Numbered last k (drop k all) numbered)
      ∙ drop-drop (last - k) k all
      ∙ ap (λ (n : ℕ). drop n all) join
