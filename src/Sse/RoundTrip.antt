-- ===== src/Sse/RoundTrip.antt =====
-- What the controller writes is what the client reads.
use turnhive.Base.{
  ℕ, ◌≤◌, ◌<◌, ◌^◌, ◌≡◌, ◌≢◌, refl, sym, ap, ◌∙◌, inl, inr, Bool, true, false, Option, none, some,
  Option-cases, List, [], ◌∷◌, ◌++◌, append_assoc, Bytes, codes, arith, length, All, All-append,
  has_prefix, bytes_eq, bytes_eqb, if◌then◌else◌,
}
use turnhive.Base.Int.{ℤ, pos, parse_int-decimal}
use turnhive.Base.Decimal.{decimal}
use turnhive.Base.Split.{split}
use turnhive.Truncate.{newline}
use turnhive.Patch.{cut_prefix}
use turnhive.Files.{is_blank, blank_from}
use turnhive.Hub.{HubEvent}
use turnhive.Sse.{
  Write, frame, keepalive, sync, written, stream_of, write_sse_frame, write_sse_sync,
  sse_keepalive_comment,
}
use turnhive.Sse.Client.{
  Frame, Event, EventPayload, Delivered, StreamEnd, clean, read_failed, new_frame, event_from,
  parse_line, dispatch, finish_lines, run_lines, run_stream,
}
use turnhive.Sse.Lines.{IsText, decimal-IsText, run_lines-field, run_lines-blank, not_blank}
use turnhive.Sse.Frames.{
  frame_of, sync_frame, event_with, event_from-frame, event_from-sync, deliver_all,
  deliver_all-append, deliver_all-events,
}

module _ (decode : Bytes → Option EventPayload) where
  abbrev pub events_of : Frame → Option EventPayload → List Event
  events_of f none = []
  events_of f (some p) = event_from f p ∷ []

  abbrev pub decoded : Option EventPayload → (EventPayload → Event) → List Event
  decoded none make = []
  decoded (some p) make = make p ∷ []

  -- What the client should hear of a write: an event with the hub's name and number and the fields of
  -- its payload; of the sync frame, an event with the number in the payload.
  abbrev pub heard : Write → List Event
  heard (frame ev) = decoded (decode ev.data_) (event_with ev.name (pos ev.seq))
  heard keepalive = []
  heard (sync none) = []
  heard (sync (some payload)) = decoded (decode payload) (λ p. event_with (codes "sync") p.seq p)

  abbrev pub all_heard : List Write → List Event
  all_heard [] = []
  all_heard (w ∷ ws) = heard w ++ all_heard ws

  -- A payload is text without control characters, as json.Marshal makes it, not empty, and decodes.
  abbrev pub IsPayload : Bytes → Type 0
  IsPayload payload = IsText payload × (0 < length payload) × (decode payload ≢ none)

  -- An event is numbered from 1, as an int64, and has a name in text.
  abbrev pub IsWritable : Write → Type 0
  IsWritable (frame ev) = IsText ev.name × IsPayload ev.data_ × (0 < ev.seq) × (ev.seq < 2 ^ 63)
  IsWritable keepalive = Unit
  IsWritable (sync none) = Unit
  IsWritable (sync (some payload)) = IsPayload payload

  dispatch-payload :
      (f : Frame) (rest : Delivered)
      → IsPayload f.data_
      → dispatch decode f rest ≡ deliver_all (events_of f (decode f.data_)) rest
  unfolding dispatch
  dispatch-payload f rest (text, ne, good) = elim (Option-cases (decode f.data_)) [
    | inl bad ↦ absurd (good bad)
    | inr (p, e) ↦ rw (not_blank f.data_ ne) (rw e refl)
  ]

  frame-lines :
      (a b c rest : Bytes)
      → (a ++ newline ∷ (b ++ newline ∷ (c ++ newline ∷ newline ∷ []))) ++ rest
        ≡ a ++ newline ∷ (b ++ newline ∷ (c ++ newline ∷ newline ∷ rest))
  frame-lines a b c rest =
      append_assoc a _ rest
      ∙ ap (λ s. a ++ newline ∷ s)
          (append_assoc b _ rest
            ∙ ap (λ s. b ++ newline ∷ s) (append_assoc c (newline ∷ newline ∷ []) rest))

  parse-id :
      (n : ℕ)
      → n < 2 ^ 63
      → parse_line (codes "id: " ++ decimal n) new_frame ≡ record new_frame { frame_seq = pos n }
  unfolding parse_line cut_prefix has_prefix
  parse-id n h = rw (parse_int-decimal n h) refl

  parse-event :
      (name : Bytes) (f : Frame) → parse_line (codes "event: " ++ name) f ≡ record f { name = name }
  unfolding parse_line cut_prefix has_prefix
  parse-event name f = refl

  parse-data :
      (payload name : Bytes) (n : ℤ)
      → parse_line (codes "data: " ++ payload) (record { name = name; data_ = []; frame_seq = n })
        ≡ record { name = name; data_ = payload; frame_seq = n }
  unfolding parse_line cut_prefix has_prefix
  parse-data payload name n = refl

  texts : IsText (codes "id: ") × IsText (codes "event: ") × IsText (codes "data: ")
  texts = ground arith

  -- The three lines and the blank line of a frame.
  read-data :
      (failed : Bool) (name payload rest : Bytes) (n : ℤ)
      → IsPayload payload
      → let f : Frame = record { name = name; data_ = payload; frame_seq = n } in
        run_lines decode failed
          (record { name = name; data_ = []; frame_seq = n })
          (split newline ((codes "data: " ++ payload) ++ newline ∷ newline ∷ rest))
        ≡ deliver_all
            (events_of f (decode payload))
            (run_lines decode failed new_frame (split newline rest))
  read-data failed name payload rest n h =
      let f : Frame = record { name = name; data_ = payload; frame_seq = n } in
      let start : Frame = record { name = name; data_ = []; frame_seq = n } in
      run_lines-field decode failed start (codes "data: " ++ payload) (newline ∷ rest)
        (All-append (λ c. 32 ≤ c) (codes "data: ") payload texts.2 h.0) (omega (arith))
      ∙ ap (λ (g : Frame). run_lines decode failed g (split newline (newline ∷ rest)))
          (parse-data payload name n)
      ∙ run_lines-blank decode failed f rest
      ∙ dispatch-payload f _ h

  read-frame :
      (failed : Bool) (ev : HubEvent) (rest : Bytes)
      → IsWritable (frame ev)
      → run_lines decode failed new_frame (split newline (write_sse_frame ev ++ rest))
        ≡ deliver_all
            (events_of (frame_of ev) (decode ev.data_))
            (run_lines decode failed new_frame (split newline rest))
  unfolding write_sse_frame
  read-frame failed ev rest (name, payload, first, int) =
      let id_line : Bytes = codes "id: " ++ decimal ev.seq in
      let event_line : Bytes = codes "event: " ++ ev.name in
      let data_line : Bytes = codes "data: " ++ ev.data_ in
      let numbered : Frame = record { name = []; data_ = []; frame_seq = pos ev.seq } in
      ap (λ s. run_lines decode failed new_frame (split newline s))
        (frame-lines id_line event_line data_line rest)
      ∙ run_lines-field decode failed new_frame id_line
          (event_line ++ newline ∷ (data_line ++ newline ∷ newline ∷ rest))
          (All-append (λ c. 32 ≤ c) (codes "id: ") (decimal ev.seq) texts.0 (decimal-IsText ev.seq))
          (omega arith)
      ∙ ap
          (λ (g : Frame).
            run_lines decode failed g
              (split newline (event_line ++ newline ∷ (data_line ++ newline ∷ newline ∷ rest))))
          (parse-id ev.seq int)
      ∙ run_lines-field decode failed numbered event_line (data_line ++ newline ∷ newline ∷ rest)
          (All-append (λ c. 32 ≤ c) (codes "event: ") ev.name texts.1 name) (omega arith)
      ∙ ap
          (λ (g : Frame).
            run_lines decode failed g (split newline (data_line ++ newline ∷ newline ∷ rest)))
          (parse-event ev.name numbered)
      ∙ read-data failed ev.name ev.data_ rest (pos ev.seq) payload

  heard-frame :
      (ev : HubEvent) → 0 < ev.seq → events_of (frame_of ev) (decode ev.data_) ≡ heard (frame ev)
  heard-frame ev h = elim (Option-cases (decode ev.data_)) [
    | inl bad ↦ rw bad refl
    | inr (p, e) ↦ rw e (ap (λ (x : Event). x ∷ []) (event_from-frame ev p h))
  ]

  heard-sync :
      (payload : Bytes)
      → events_of (sync_frame payload) (decode payload) ≡ heard (sync (some payload))
  heard-sync payload = elim (Option-cases (decode payload)) [
    | inl bad ↦ rw bad refl
    | inr (p, e) ↦ rw e (ap (λ (x : Event). x ∷ []) (event_from-sync payload p))
  ]

  keepalive_text : IsText (codes ": keepalive")
  keepalive_text = ground arith

  sync_text : IsText (codes "event: sync")
  sync_text = ground arith

  parse-comment : (f : Frame) → parse_line (codes ": keepalive") f ≡ f
  unfolding parse_line has_prefix
  parse-comment f = refl

  dispatch-empty : (rest : Delivered) → dispatch decode new_frame rest ≡ rest
  unfolding dispatch bytes_eqb
  dispatch-empty rest = refl

  read-written :
      (failed : Bool) (w : Write) (rest : Bytes)
      → IsWritable w
      → run_lines decode failed new_frame (split newline (written w ++ rest))
        ≡ deliver_all (heard w) (run_lines decode failed new_frame (split newline rest))
  unfolding written sse_keepalive_comment write_sse_sync
  read-written failed (frame ev) rest h =
      read-frame failed ev rest h
      ∙ ap (λ evs. deliver_all evs (run_lines decode failed new_frame (split newline rest)))
          (heard-frame ev h.2)
  read-written failed keepalive rest h =
      run_lines-field decode failed new_frame (codes ": keepalive") (newline ∷ rest) keepalive_text
        (omega arith)
      ∙ ap (λ (f : Frame). run_lines decode failed f (split newline (newline ∷ rest)))
          (parse-comment new_frame)
      ∙ run_lines-blank decode failed new_frame rest
      ∙ dispatch-empty _
  read-written failed (sync none) rest h = refl
  read-written failed (sync (some payload)) rest h =
      let data_line : Bytes = codes "data: " ++ payload in
      let named : Frame = record { name = codes "sync"; data_ = []; frame_seq = pos 0 } in
      ap
        (λ s.
          run_lines decode failed new_frame (split newline (codes "event: sync" ++ newline ∷ s)))
        (append_assoc data_line (newline ∷ newline ∷ []) rest)
      ∙ run_lines-field decode failed new_frame (codes "event: sync")
          (data_line ++ newline ∷ newline ∷ rest) sync_text (omega arith)
      ∙ ap
          (λ (f : Frame).
            run_lines decode failed f (split newline (data_line ++ newline ∷ newline ∷ rest)))
          (parse-event (codes "sync") new_frame)
      ∙ read-data failed (codes "sync") payload rest (pos 0) h
      ∙ ap (λ evs. deliver_all evs (run_lines decode failed new_frame (split newline rest)))
          (heard-sync payload)

  abbrev pub end_of : Bool → StreamEnd
  end_of failed = if failed then read_failed else clean

  run_lines-end :
      (failed : Bool) → run_lines decode failed new_frame (split newline []) ≡ ([], end_of failed)
  unfolding run_lines finish_lines dispatch split bytes_eqb is_blank blank_from
  run_lines-end true = refl
  run_lines-end false = refl

  read-stream :
      (failed : Bool) (ws : List Write)
      → All IsWritable ws
      → run_lines decode failed new_frame (split newline (stream_of ws))
        ≡ deliver_all (all_heard ws) ([], end_of failed)
  unfolding stream_of
  read-stream failed [] h = run_lines-end failed
  read-stream failed (w ∷ ws) h =
      read-written failed w (stream_of ws) h.0
      ∙ ap (deliver_all (heard w)) (read-stream failed ws h.1)
      ∙ sym (deliver_all-append (heard w) (all_heard ws) _)

  -- The client reads what the controller wrote: of any sequence of event frames, sync frames and
  -- keepalives it delivers exactly the events, in order, each with its name, its number and the fields of
  -- its payload, and then ends cleanly, or with the error that reading the body ended with. The payloads
  -- are text without control characters that decodes, and the numbers are positive int64s.
  pub run_stream-stream_of :
      (failed : Bool) (ws : List Write)
      → All IsWritable ws
      → run_stream decode failed (stream_of ws) ≡ (all_heard ws, end_of failed)
  unfolding run_stream
  run_stream-stream_of failed ws h =
      read-stream failed ws h ∙ deliver_all-events (all_heard ws) (end_of failed)
