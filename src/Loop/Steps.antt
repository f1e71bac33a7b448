-- ===== src/Loop/Steps.antt =====
-- How the steps of a turn end, whatever the endpoint and the tools do.
use turnhive.Base.{
  append-nil, subst, ◌>>=◌, ℕ, zero, suc, ◌≡◌, refl, sym, ap, ◌∙◌, inl, inr, ◌⊎◌, false, ◌&&◌,
  Bool-cases, Option, some, List, [], ◌∷◌, ◌++◌, map, append_assoc, Bytes, ltb, All-append,
  bytes_eq,
}
use turnhive.Llm.{Message, ToolCall, Usage}
use turnhive.Llm.Stream.Reply.{texts}
use turnhive.Llm.Stream.{StreamEvent, delta, reasoning}
use turnhive.Truncate.{Spiller}
use turnhive.Context.{assistant, is_overflow}
use turnhive.Context.Summary.{compact_messages}
use turnhive.Context.Compact.{compact_messages-Recent}
use turnhive.Hub.Reporter.{Report, closes_turn, done, error}
use turnhive.Loop.{
  Turn, Ended, Streamed, replied, failed, report_of, step_text, tell, tell_all, append_history,
  save_history, send_request, set_history, compact_after, fail_turn, finish_turn, after_stream,
  run_steps,
}
use turnhive.Loop.Tools.{Tool, plain_message, call_tools}
use turnhive.Loop.Answers.{IsProgress, Answers, call_tools-Answers}

report_of-IsProgress : (evs : List StreamEvent) → IsProgress (map report_of evs)
report_of-IsProgress [] = tt
report_of-IsProgress (delta text ∷ evs) = (refl, report_of-IsProgress evs)
report_of-IsProgress (reasoning text ∷ evs) = (refl, report_of-IsProgress evs)

-- What the loop keeps of the events is the text that they emit.
step_text-texts : (evs : List StreamEvent) → step_text evs ≡ texts evs
unfolding step_text
step_text-texts [] = refl
step_text-texts (delta text ∷ evs) = ap (◌++◌ text) (step_text-texts evs)
step_text-texts (reasoning text ∷ evs) = step_text-texts evs

module _ (sections rules : Bytes) (max_context : ℕ) (save_error : List Message → Option Bytes) where
  -- What a reply leaves of the history: the reply behind it, or that compacted.
  abbrev pub Settled : List Message → Bytes → List Message → Type 0
  Settled history content out =
      (out ≡ history ++ plain_message assistant content ∷ [])
      ⊎ (compact_messages sections rules (history ++ plain_message assistant content ∷ [])
          ≡ some out)

  -- How a turn ends: its last report, the history, and what RunTurn returns; `out` is what the endpoint
  -- answered to its last request. It replies with that answer, which has no tool calls, or fails with the text
  -- that was streamed for it.
  pub data Closes (history : List Message) (out : List StreamEvent × Streamed)
      : Report → List Message → Option Bytes → Type 0 where
    replies :
        (m : Message) (usage : Usage) (kept : List Message)
        → out.1 ≡ replied m usage
        → m.tool_calls ≡ []
        → Settled history m.content kept
        → Closes history out (done m.content) kept (save_error kept)
    fails :
        (err : Bytes)
        → Closes history out
            (error err)
            (history ++ plain_message assistant (texts out.0) ∷ [])
            (some err)

  compact_messages-Some :
      (history : List Message)
      → (out : List Message) × (compact_messages sections rules history ≡ some out)
  compact_messages-Some history = elim (compact_messages-Recent sections rules history) [
    | inl (few, e) ↦ (history, e)
    | inr (more, summary, cutoff, recent, e, bound) ↦ (_, e)
  ]

  -- The compaction behind a reply returns, and changes the history only.
  pub compact_after-Settled :
      (usage : Usage) (content : Bytes) (t : Turn)
      → (out : List Message) × (compact_after sections rules max_context save_error usage
            (append_history (plain_message assistant content) t)
          ≡ some (set_history out t))
        × Settled t.history content out
  compact_after-Settled usage content t =
      let history : List Message = t.history ++ plain_message assistant content ∷ [] in
      elim (Bool-cases (ltb 0 max_context && is_overflow usage max_context)) [
        | inl over ↦
            let (out, e) = compact_messages-Some history in (out, rw over (rw e refl), inr e)
        | inr fits ↦ (history, rw fits refl, inl refl)
      ]

  module _ (tools : List Tool) (spiller : Option Spiller)
      (stream : List Message → List StreamEvent × Streamed) where
    -- What the endpoint answered to the last of some requests, `before` being what it answered before them.
    abbrev pub last_answer :
        List StreamEvent × Streamed → List (List Message) → List StreamEvent × Streamed
    last_answer before [] = before
    last_answer before (w ∷ ws) = last_answer (stream w) ws

    -- A turn that ended: the requests that it sent, reports that do not end a turn, and then exactly one that does; the history that the
    -- turn leaves is the last that was saved.
    pub record EndsTurn (before : List StreamEvent × Streamed) (t : Turn) (r : Option Ended)
        : Type 0 where
      pub ended : Ended
      pub runs : r ≡ some ended
      pub requests : List (List Message)
      pub sent : ended.0.requests ≡ t.requests ++ requests
      pub progress : List Report
      pub last : Report
      pub reported : ended.0.reports ≡ t.reports ++ (progress ++ last ∷ [])
      pub goes_on : IsProgress progress
      pub closes : Closes t.history (last_answer before requests) last ended.0.history ended.1
      pub saved : ended.0.saved ≡ t.saved ++ ended.0.history ∷ []

    fail_turn-EndsTurn :
        (before : List StreamEvent × Streamed) (err : Bytes) (t : Turn)
        → EndsTurn before t (some (fail_turn (texts before.0) err t))
    unfolding fail_turn
    fail_turn-EndsTurn before err t = record {
      ended = fail_turn (texts before.0) err t;
      runs = refl;
      requests = [];
      sent = sym (append-nil t.requests);
      progress = [];
      last = error err;
      reported = refl;
      goes_on = tt;
      closes = fails err;
      saved = refl;
    }

    finish_turn-EndsTurn :
        (before : List StreamEvent × Streamed) (m : Message) (usage : Usage) (t : Turn)
        → before.1 ≡ replied m usage
        → m.tool_calls ≡ []
        → EndsTurn before t (finish_turn sections rules max_context save_error m usage t)
    unfolding finish_turn
    finish_turn-EndsTurn before m usage t answered no_calls =
        let (out, e, settled) = compact_after-Settled usage m.content t in
        record {
          ended = (save_history (tell (done m.content) (set_history out t)), save_error out);
          runs = rw e refl;
          requests = [];
          sent = sym (append-nil t.requests);
          progress = [];
          last = done m.content;
          reported = refl;
          goes_on = tt;
          closes = replies m usage out answered no_calls settled;
          saved = refl;
        }

    -- Reports before the end belong to the progress.
    EndsTurn-tell_all :
        (before : List StreamEvent × Streamed) (rs : List Report) (t : Turn) (r : Option Ended)
        → IsProgress rs
        → EndsTurn before (tell_all rs t) r
        → EndsTurn before t r
    EndsTurn-tell_all before rs t r h e = record {
      ended = e.ended;
      runs = e.runs;
      requests = e.requests;
      sent = e.sent;
      progress = rs ++ e.progress;
      last = e.last;
      reported =
          e.reported
          ∙ append_assoc t.reports rs _
          ∙ ap (◌++◌ t.reports) (sym (append_assoc rs e.progress _));
      goes_on = All-append (λ x. closes_turn x ≡ false) rs e.progress h e.goes_on;
      closes = e.closes;
      saved = e.saved;
    }

    EndsTurn-send_request :
        (before : List StreamEvent × Streamed) (working : List Message) (t : Turn)
        (r : Option Ended)
        → EndsTurn (stream working) (send_request working t) r
        → EndsTurn before t r
    EndsTurn-send_request before working t r e = record {
      ended = e.ended;
      runs = e.runs;
      requests = working ∷ e.requests;
      sent = e.sent ∙ append_assoc t.requests (working ∷ []) e.requests;
      progress = e.progress;
      last = e.last;
      reported = e.reported;
      goes_on = e.goes_on;
      closes = e.closes;
      saved = e.saved;
    }

    -- One step and what follows it, where every later turn ends.
    after_stream-EndsTurn :
        (again : List Message → Bytes → Turn → Option Ended) (working : List Message)
        (evs : List StreamEvent) (x : Streamed) (t : Turn)
        → ((working' : List Message) (t' : Turn)
            → EndsTurn (evs, x) t' (again working' (texts evs) t'))
        → EndsTurn
            (evs, x)
            t
            (after_stream sections rules max_context save_error tools spiller stream again working
              evs x t)
    unfolding after_stream
    after_stream-EndsTurn again working evs (failed err) t h =
        subst (λ text. EndsTurn (evs, failed err) t (some (fail_turn text err t)))
          (sym (step_text-texts evs)) (fail_turn-EndsTurn (evs, failed err) err t)
    after_stream-EndsTurn again working evs (replied m usage) t h = by_calls m.tool_calls refl
      where
        by_calls :
            (tcs : List ToolCall)
            → m.tool_calls ≡ tcs
            → EndsTurn
                (evs, replied m usage)
                t
                (elim tcs [
                  | [] ↦ finish_turn sections rules max_context save_error m usage t
                  | tc ∷ tcs ↦ (do
                    (reports, working') ← call_tools tools spiller (tc ∷ tcs) (working ++ m ∷ [])
                    again working' (step_text evs) (tell_all reports t))
                ])
        by_calls [] e = finish_turn-EndsTurn (evs, replied m usage) m usage t refl e
        by_calls (tc ∷ tcs) e =
            let a : Answers tools spiller (tc ∷ tcs) (working ++ m ∷ []) =
              call_tools-Answers tools spiller (tc ∷ tcs) (working ++ m ∷ []) in
            let out : List Message = (working ++ m ∷ []) ++ a.results in
            rw a.runs (
              EndsTurn-tell_all (evs, replied m usage) a.reports t _ a.goes_on
                (subst
                  (λ text.
                    EndsTurn (evs, replied m usage) (tell_all a.reports t)
                      (again out text (tell_all a.reports t)))
                  (sym (step_text-texts evs)) (h out (tell_all a.reports t))))

    pub run_steps-EndsTurn :
        (n : ℕ) (working : List Message) (before : List StreamEvent × Streamed) (t : Turn)
        → EndsTurn before t (
            run_steps sections rules max_context save_error tools spiller stream n working
              (texts before.0)
              t)
    unfolding run_steps
    run_steps-EndsTurn zero working before t = fail_turn-EndsTurn before _ t
    run_steps-EndsTurn (suc n) working before t =
        let (evs, x) = stream working in
        EndsTurn-send_request before working t _ (
          EndsTurn-tell_all (evs, x) (map report_of evs) (send_request working t) _
            (report_of-IsProgress evs)
            (after_stream-EndsTurn _ working evs x _
              (λ working' t'. run_steps-EndsTurn n working' (evs, x) t')))
