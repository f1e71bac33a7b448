-- ===== src/Llm/Stream/Reply.antt =====
-- The text of a streamed reply.
use turnhive.Base.{
  ◌≢◌, subst, inr, Bool-cases, ==_ne, ==_iff, ◌==◌, false≢true, ◌≡◌, refl, sym, ap, ◌∙◌, inl, ◌⊎◌,
  Bool, true, false, Option, none, some, List, [], ◌∷◌, ◌++◌, append_assoc, append-nil, Bytes,
  codes, arith, bytes_eq, bytes_eqb, if◌then◌else◌,
}
use turnhive.Base.Split.{split, split-cons}
use turnhive.Truncate.{newline}
use turnhive.Patch.{cut_prefix}
use turnhive.Sse.Client.{trim_line_end, trim_space_prefix}
use turnhive.Llm.{Message, Usage}
use turnhive.Llm.Stream.{
  Choice, StreamChunk, StreamEvent, delta, reasoning, Reading, stream_error, emit_text,
  reasoning_of, absorb_choice, absorb_first, absorb_usage, absorb_chunk, Ending, done, ended, fails,
  LineStep, goes_on, stops, chunk_step, data_step, line_step, consume_lines, consume_stream,
  message_of, reply_of, no_reply, replied, then_line,
}

-- The content deltas that were emitted, joined.
abbrev pub texts : List StreamEvent → Bytes
texts [] = []
texts (delta t ∷ evs) = t ++ texts evs
texts (reasoning t ∷ evs) = texts evs

texts-append : (xs ys : List StreamEvent) → texts (xs ++ ys) ≡ texts xs ++ texts ys
texts-append [] ys = refl
texts-append (delta t ∷ xs) ys =
    ap (◌++◌ t) (texts-append xs ys) ∙ sym (append_assoc t (texts xs) (texts ys))
texts-append (reasoning t ∷ xs) ys = texts-append xs ys

texts-delta : (t : Bytes) → texts (emit_text delta t) ≡ t
unfolding bytes_eqb
texts-delta [] = refl
texts-delta (c ∷ t) = append-nil (c ∷ t)

texts-reasoning : (t : Bytes) → texts (emit_text reasoning t) ≡ []
unfolding bytes_eqb
texts-reasoning [] = refl
texts-reasoning (c ∷ t) = refl

-- What was read so far is what was emitted.
abbrev Emitted : Reading → Type 0
Emitted r = r.content ≡ texts r.events

absorb_choice-Emitted : (c : Choice) (r : Reading) → Emitted r → Emitted (absorb_choice c r)
unfolding absorb_choice
absorb_choice-Emitted c r h =
    let said : List StreamEvent = emit_text delta c.content in
    let thought : List StreamEvent = emit_text reasoning (reasoning_of c) in
    ap (λ t. t ++ c.content) h
    ∙ ap (◌++◌ (texts r.events)) (
        sym (append-nil c.content)
        ∙ sym (ap (λ t. t ++ []) (texts-delta c.content))
        ∙ sym (ap (◌++◌ (texts said)) (texts-reasoning (reasoning_of c)))
        ∙ sym (texts-append said thought))
    ∙ sym (texts-append r.events (said ++ thought))

absorb_chunk-Emitted :
    (chunk : StreamChunk) (r : Reading) → Emitted r → Emitted (absorb_chunk chunk r)
unfolding absorb_chunk
absorb_chunk-Emitted chunk r h = first chunk.choices chunk.usage
  where
    first : (cs : List Choice) (u : Option Usage) → Emitted (absorb_first cs (absorb_usage u r))
    first [] none = h
    first [] (some u) = h
    first (c ∷ cs) none = absorb_choice-Emitted c r h
    first (c ∷ cs) (some u) = absorb_choice-Emitted c (record r { usage = u }) h

abbrev EmittedStep : LineStep → Type 0
EmittedStep (goes_on r) = Emitted r
EmittedStep (stops e) = Unit

chunk_step-Emitted :
    (o : Option StreamChunk) (text : Bytes) (r : Reading)
    → Emitted r
    → EmittedStep (chunk_step o text r)
chunk_step-Emitted none text r h = tt
chunk_step-Emitted (some chunk) text r h = by_error chunk.error
  where
    by_error :
        (e : Option (Bytes × Bytes))
        → EmittedStep (elim e [
          | some (kind, message) ↦ stops (fails (stream_error kind message))
          | none ↦ goes_on (absorb_chunk chunk r)
        ])
    by_error none = absorb_chunk-Emitted chunk r h
    by_error (some (kind, message)) = tt

module _ (decode : Bytes → Option StreamChunk) where
  data_step-Emitted :
      (v : Option Bytes) (r : Reading) → Emitted r → EmittedStep (data_step decode v r)
  data_step-Emitted none r h = h
  data_step-Emitted (some value) r h = by_done (trim_space_prefix value) _
    where
      by_done :
          (text : Bytes) (b : Bool)
          → EmittedStep (if b then stops done else chunk_step (decode text) text r)
      by_done text true = tt
      by_done text false = chunk_step-Emitted (decode text) text r h

  line_step-Emitted :
      (line : Bytes) (r : Reading) → Emitted r → EmittedStep (line_step decode line r)
  unfolding line_step
  line_step-Emitted line r h = data_step-Emitted _ r h

  then_line-Emitted :
      (step : LineStep) (r : Reading) (next : Reading → Reading × Ending)
      → Emitted r
      → EmittedStep step
      → ((r' : Reading) → Emitted r' → Emitted (next r').0)
      → Emitted (then_line step r next).0
  then_line-Emitted (goes_on r') r next h hs hn = hn r' hs
  then_line-Emitted (stops e) r next h hs hn = h

  consume_lines-Emitted :
      (failed : Bool) (lines : List Bytes) (r : Reading)
      → Emitted r
      → Emitted (consume_lines decode failed lines r).0
  unfolding consume_lines
  consume_lines-Emitted failed [] r h = h
  consume_lines-Emitted true (last ∷ []) r h = h
  consume_lines-Emitted false (last ∷ []) r h =
      then_line-Emitted (line_step decode last r) r _ h (line_step-Emitted last r h) (λ r' h'. h')
  consume_lines-Emitted failed (l ∷ m ∷ lines) r h =
      then_line-Emitted (line_step decode l r) r _ h (line_step-Emitted l r h)
        (λ r' h'. consume_lines-Emitted failed (m ∷ lines) r' h')

  -- What a line of the body carries behind `data:`.
  abbrev pub Carries : Bytes → Bytes → Type 0
  Carries line text =
      (value : Bytes) × (cut_prefix (codes "data:") (trim_line_end line) ≡ some value)
      × (trim_space_prefix value ≡ text)

  abbrev pub IsDone : Bytes → Type 0
  IsDone line = Carries line (codes "[DONE]")

  -- A line whose chunk has a choice with a finish reason in front.
  abbrev pub Finishes : Bytes → Type 0
  Finishes line =
      (text : Bytes) × Carries line text
      × (chunk : StreamChunk) × (decode text ≡ some chunk)
      × (c : Choice) × (cs : List Choice) × (chunk.choices ≡ c ∷ cs)
      × (c.finish_reason ≢ [])

  abbrev pub Somewhere : (Bytes → Type 0) → List Bytes → Type 0
  Somewhere P [] = ⊥
  Somewhere P (l ∷ ls) = P l ⊎ Somewhere P ls

  -- What a reading that saw a finish reason owes it to.
  abbrev Saw : Bool → Type 0 → Reading → Type 0
  Saw before here r = (r.saw_finish_reason ≡ false) ⊎ ((before ≡ true) ⊎ here)

  abbrev StepSaw : Bytes → Bool → LineStep → Type 0
  StepSaw line before (goes_on r) = Saw before (Finishes line) r
  StepSaw line before (stops done) = IsDone line
  StepSaw line before (stops ended) = ⊥
  StepSaw line before (stops (fails e)) = Unit

  unchanged-Saw : (here : Type 0) (r : Reading) → Saw r.saw_finish_reason here r
  unchanged-Saw here r = elim (Bool-cases r.saw_finish_reason) [
    | inl saw ↦ inr (inl saw)
    | inr not_yet ↦ inl not_yet
  ]

  absorb_chunk-Saw :
      (line text : Bytes) (chunk : StreamChunk) (r : Reading)
      → Carries line text
      → decode text ≡ some chunk
      → Saw r.saw_finish_reason (Finishes line) (absorb_chunk chunk r)
  unfolding absorb_chunk absorb_choice
  absorb_chunk-Saw line text chunk r carried decoded = by_choices chunk.choices refl chunk.usage
    where
      with_usage : Option Usage → Reading
      with_usage u = absorb_usage u r

      same : (u : Option Usage) → (absorb_usage u r).saw_finish_reason ≡ r.saw_finish_reason
      same none = refl
      same (some u) = refl

      by_choices :
          (cs : List Choice)
          → chunk.choices ≡ cs
          → (u : Option Usage)
          → Saw r.saw_finish_reason (Finishes line) (absorb_first cs (absorb_usage u r))
      by_choices [] e none = unchanged-Saw (Finishes line) r
      by_choices [] e (some u) = unchanged-Saw (Finishes line) r
      by_choices (c ∷ cs) e u = elim (Bool-cases (c.finish_reason == [])) [
        | inr finished ↦
            inr (inr (text, carried, chunk, decoded, c, cs, e, ==_ne c.finish_reason [] finished))
        | inl open_ended ↦ elim (Bool-cases r.saw_finish_reason) [
          | inl saw ↦ inr (inl saw)
          | inr not_yet ↦ inl (rw open_ended (same u ∙ not_yet))
        ]
      ]

  line_step-Saw :
      (line : Bytes) (r : Reading) → StepSaw line r.saw_finish_reason (line_step decode line r)
  unfolding line_step
  line_step-Saw line r = by_data (cut_prefix (codes "data:") (trim_line_end line)) refl
    where
      by_chunk :
          (text : Bytes) (o : Option StreamChunk)
          → decode text ≡ o
          → Carries line text
          → StepSaw line r.saw_finish_reason (chunk_step o text r)
      by_chunk text none e carried = tt
      by_chunk text (some chunk) e carried = by_error chunk.error
        where
          by_error :
              (x : Option (Bytes × Bytes))
              → StepSaw line r.saw_finish_reason (elim x [
                | some (kind, message) ↦ stops (fails (stream_error kind message))
                | none ↦ goes_on (absorb_chunk chunk r)
              ])
          by_error (some (kind, message)) = tt
          by_error none = absorb_chunk-Saw line text chunk r carried e

      by_data :
          (o : Option Bytes)
          → cut_prefix (codes "data:") (trim_line_end line) ≡ o
          → StepSaw line r.saw_finish_reason (data_step decode o r)
      by_data none e = unchanged-Saw (Finishes line) r
      by_data (some value) e =
          let text : Bytes = trim_space_prefix value in
          elim (Bool-cases (text == codes "[DONE]")) [
            | inl marked ↦ rw marked (value, e, (==_iff text (codes "[DONE]")).0 marked)
            | inr other ↦ rw other (by_chunk text (decode text) refl (value, e, refl))
          ]

  -- How the loop came to its end.
  abbrev Reaches : Bool → List Bytes → Bool → Reading × Ending → Type 0
  Reaches failed lines before (r, done) = Somewhere IsDone lines
  Reaches failed lines before (r, ended) =
      ((lines ≡ []) ⊎ (failed ≡ false)) × Saw before (Somewhere Finishes lines) r
  Reaches failed lines before (r, fails e) = Unit

  -- The loop behind a line.
  Reaches-behind :
      (failed : Bool) (line next : Bytes) (lines : List Bytes) (before : Bool) (r : Reading)
      (out : Reading × Ending)
      → Saw before (Finishes line) r
      → Reaches failed (next ∷ lines) r.saw_finish_reason out
      → Reaches failed (line ∷ next ∷ lines) before out
  Reaches-behind failed line next lines before r (r', done) saw h = inr h
  Reaches-behind failed line next lines before r (r', fails e) saw h = tt
  Reaches-behind failed line next lines before r (r', ended) saw (inl bare, h) = cc
  Reaches-behind failed line next lines before r (r', ended) saw (inr read, inl not_seen) =
      (inr read, inl not_seen)
  Reaches-behind failed line next lines before r (r', ended) saw (inr read, inr (inr there)) =
      (inr read, inr (inr (inr there)))
  Reaches-behind failed line next lines before r (r', ended) (inl not_yet)
        (inr read, inr (inl saw)) =
      absurd (false≢true (sym not_yet ∙ saw))
  Reaches-behind failed line next lines before r (r', ended) (inr (inl was))
        (inr read, inr (inl saw)) =
      (inr read, inr (inl was))
  Reaches-behind failed line next lines before r (r', ended) (inr (inr here))
        (inr read, inr (inl saw)) =
      (inr read, inr (inr (inl here)))

  consume_lines-Reaches :
      (failed : Bool) (lines : List Bytes) (r : Reading)
      → Reaches failed lines r.saw_finish_reason (consume_lines decode failed lines r)
  unfolding consume_lines
  consume_lines-Reaches failed [] r = (inl refl, unchanged-Saw ⊥ r)
  consume_lines-Reaches true (last ∷ []) r = tt
  consume_lines-Reaches false (last ∷ []) r =
      by_step (line_step decode last r) (line_step-Saw last r)
    where
      by_step :
          (step : LineStep)
          → StepSaw last r.saw_finish_reason step
          → Reaches false (last ∷ []) r.saw_finish_reason (then_line step r (λ r'. (r', ended)))
      by_step (goes_on r') (inl not_seen) = (inr refl, inl not_seen)
      by_step (goes_on r') (inr (inl was)) = (inr refl, inr (inl was))
      by_step (goes_on r') (inr (inr here)) = (inr refl, inr (inr (inl here)))
      by_step (stops done) h = inl h
      by_step (stops ended) h = absurd h
      by_step (stops (fails e)) h = tt
  consume_lines-Reaches failed (l ∷ m ∷ lines) r =
      by_step (line_step decode l r) (line_step-Saw l r)
        (λ r'. consume_lines-Reaches failed (m ∷ lines) r')
    where
      by_step :
          (step : LineStep)
          → StepSaw l r.saw_finish_reason step
          → ((r' : Reading)
              → Reaches failed
                  (m ∷ lines)
                  r'.saw_finish_reason
                  (consume_lines decode failed (m ∷ lines) r'))
          → Reaches failed
              (l ∷ m ∷ lines)
              r.saw_finish_reason
              (then_line step r (λ r'. consume_lines decode failed (m ∷ lines) r'))
      by_step (goes_on r') h next =
          Reaches-behind failed l m lines r.saw_finish_reason r'
            (consume_lines decode failed (m ∷ lines) r') h (next r')
      by_step (stops done) h next = inl h
      by_step (stops ended) h next = absurd h
      by_step (stops (fails e)) h next = tt

  -- A reply that is complete, and how the loop came to it.
  reply_of_complete :
      (failed : Bool) (line : Bytes) (lines : List Bytes) (r : Reading) (e : Ending) (m : Message)
      (u : Usage)
      → Reaches failed (line ∷ lines) false (r, e)
      → reply_of r e ≡ replied m u
      → (m ≡ message_of r)
        × (Somewhere IsDone (line ∷ lines) ⊎ ((failed ≡ false) × Somewhere Finishes (line ∷ lines)))
  reply_of_complete failed line lines r done m u way h = (cc, inl way)
  reply_of_complete failed line lines r (fails x) m u way h = ground (arith, h)
  reply_of_complete failed line lines r ended m u (inl bare, way) h = cc
  reply_of_complete failed line lines r ended m u (inr read, inl not_seen) h =
      absurd (ground (arith, h, not_seen))
  reply_of_complete failed line lines r ended m u (inr read, inr (inl never)) h =
      absurd (false≢true never)
  reply_of_complete failed line lines r ended m u (inr read, inr (inr there)) h =
      (ground (arith, h), inr (read, there))

  -- A reply that comes back from the stream is complete, and is what was streamed: the body has a line with the
  -- DONE mark, or it was read to its end and has a line whose chunk has a finish reason; and the message's content
  -- is the content deltas emitted, joined.
  pub consume_stream-texts :
      (failed : Bool) (body : Bytes) (evs : List StreamEvent) (m : Message) (u : Usage)
      → consume_stream decode failed body ≡ (evs, replied m u)
      → (m.content ≡ texts evs)
        × (m.role ≡ codes "assistant")
        × (Somewhere IsDone (split newline body)
            ⊎ ((failed ≡ false) × Somewhere Finishes (split newline body)))
  unfolding consume_stream message_of
  consume_stream-texts failed body evs m u h =
      let out : Reading × Ending = consume_lines decode failed (split newline body) no_reply in
      let (line, lines, some_line) = split-cons newline body in
      let way : Reaches failed (line ∷ lines) false out =
        subst (λ ls. Reaches failed ls false out) some_line
          (consume_lines-Reaches failed (split newline body) no_reply) in
      let (is_message, whole) =
        reply_of_complete failed line lines out.0 out.1 m u way (ap (λ p. p.1) h) in
      (
        ap (λ (x : Message). x.content) is_message
            ∙ consume_lines-Emitted failed (split newline body) no_reply refl
            ∙ ap (λ p. texts p.0) h,
        ap (λ (x : Message). x.role) is_message,
        subst (λ ls. Somewhere IsDone ls ⊎ ((failed ≡ false) × Somewhere Finishes ls))
            (sym some_line) whole,
      )
