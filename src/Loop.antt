-- ===== src/Loop.antt =====
-- agent/loop.go: one turn of a conversation. Loop/Tools has the calls of its tools. The model's endpoint, the
-- tools and the history store are arguments; a tool and the endpoint answer what they do to the messages
-- so far, which differ from call to call. A panic is none.
pub mod Tools
pub mod Answers
pub mod Steps
pub mod Ended
pub mod Requests
pub mod Plain
pub mod Mounted
use turnhive.Base.{
  ◌>>=◌, ℕ, zero, suc, ◌+◌, Bool, true, false, not, ◌&&◌, Option, none, some, List, [], ◌∷◌, ◌++◌,
  map, Bytes, codes, ltb, leb, eqb, length, ◌==◌, bytes_eq, if◌then◌else◌,
}
use turnhive.Llm.{Message, ToolCall, Usage}
use turnhive.Llm.Stream.{StreamEvent, delta, reasoning}
use turnhive.Truncate.{
  truncate, truncate_spill, Spiller, strict_hint, strict_max_lines, strict_max_bytes,
}
use turnhive.Context.{user, assistant, reply_reserve, estimate_tokens, truncate_to_fit, is_overflow}
use turnhive.Context.Summary.{compact_messages}
use turnhive.Hub.Reporter.{Report, ToolCallEvent, reasoning_delta, done, error, tool_call}
use turnhive.Loop.Tools.{
  plain_message, Executed, Tool, truncated, bound_output, dispatch_tool, has_tool, mount,
  tools_of_turn, tool_event, tool_message, image_messages, error_text, call_results, call_tool,
  call_tools, ran, broke,
}

abbrev pub max_turn_steps : ℕ
max_turn_steps = 199

-- The turn as it goes on: the loop's history, what was reported and saved, and the requests sent.
pub record Turn : Type 0 where
  pub history : List Message
  pub reports : List Report
  pub saved : List (List Message)
  pub requests : List (List Message)

abbrev pub tell : Report → Turn → Turn
tell r t = record {
  history = t.history;
  reports = t.reports ++ r ∷ [];
  saved = t.saved;
  requests = t.requests;
}

abbrev pub tell_all : List Report → Turn → Turn
tell_all rs t = record {
  history = t.history;
  reports = t.reports ++ rs;
  saved = t.saved;
  requests = t.requests;
}

abbrev pub append_history : Message → Turn → Turn
append_history m t = record {
  history = t.history ++ m ∷ [];
  reports = t.reports;
  saved = t.saved;
  requests = t.requests;
}

abbrev pub set_history : List Message → Turn → Turn
set_history ms t = record {
  history = ms;
  reports = t.reports;
  saved = t.saved;
  requests = t.requests;
}

abbrev pub send_request : List Message → Turn → Turn
send_request working t = record {
  history = t.history;
  reports = t.reports;
  saved = t.saved;
  requests = t.requests ++ working ∷ [];
}

abbrev pub save_history : Turn → Turn
save_history t = record {
  history = t.history;
  reports = t.reports;
  saved = t.saved ++ t.history ∷ [];
  requests = t.requests;
}

abbrev pub report_of : StreamEvent → Report
report_of (delta text) = Report.delta text
report_of (reasoning text) = reasoning_delta text

-- stepText
unfoldable pub step_text : List StreamEvent → Bytes
step_text [] = []
step_text (delta text ∷ evs) = text ++ step_text evs
step_text (reasoning text ∷ evs) = step_text evs

-- What Stream returns.
pub data Streamed : Type 0 where
  replied : Message → Usage → Streamed
  failed : Bytes → Streamed

-- The turn at its end, with what RunTurn returns.
abbrev pub Ended : Type 0
Ended = Turn × Option Bytes

-- failTurn
unfoldable pub fail_turn : Bytes → Bytes → Turn → Ended
fail_turn partial_text err t = (
  tell (error err) (save_history (append_history (plain_message assistant partial_text) t)),
  some err,
)

module _ (sections rules : Bytes) (max_context : ℕ) (save_error : List Message → Option Bytes) where
  -- The compaction behind a reply.
  abbrev pub compact_after : Usage → Turn → Option Turn
  compact_after usage t =
      if ltb 0 max_context && is_overflow usage max_context
      then (do ms ← compact_messages sections rules t.history; some (set_history ms t))
      else some t

  unfoldable pub finish_turn : Message → Usage → Turn → Option Ended
  finish_turn m usage t = do
    t' ← compact_after usage (append_history (plain_message assistant m.content) t)
    some (save_history (tell (done m.content) t'), save_error t'.history)

  module _ (tools : List Tool) (spiller : Option Spiller)
      (stream : List Message → List StreamEvent × Streamed) where
    -- What the stream's end leads to, `again` being the steps that are left.
    unfoldable pub after_stream :
        (List Message → Bytes → Turn → Option Ended)
        → List Message
        → List StreamEvent
        → Streamed
        → Turn
        → Option Ended
    after_stream again working evs (failed err) t = some (fail_turn (step_text evs) err t)
    after_stream again working evs (replied m usage) t = elim m.tool_calls [
      | [] ↦ finish_turn m usage t
      | tc ∷ tcs ↦ (do
        (reports, working') ← call_tools tools spiller (tc ∷ tcs) (working ++ m ∷ [])
        again working' (step_text evs) (tell_all reports t))
    ]

    -- The steps that are left, the messages so far, and the text of the step before.
    unfoldable pub run_steps : ℕ → List Message → Bytes → Turn → Option Ended
    run_steps zero working text t = some (fail_turn text (codes "max steps exceeded") t)
    run_steps (suc n) working text t =
        let out = stream working in
        after_stream (run_steps n) working out.0 out.1
          (tell_all (map report_of out.0) (send_request working t))

    -- RunTurn from the loaded history on, with the MCP tools mounted: it is trimmed, and saved where that
    -- changed it; the user message joins it and is saved before the first request.
    abbrev pub trimmed : Bytes → List Message → List Message × Bool
    trimmed system_prompt history =
        if ltb 0 max_context
        then truncate_to_fit history max_context (reply_reserve + estimate_tokens system_prompt)
        else (history, false)

    abbrev pub with_system : Bytes → List Message → List Message
    with_system system_prompt ms =
        if system_prompt == [] then ms else plain_message (codes "system") system_prompt ∷ ms

    abbrev pub start_turn : List Message × Bool → Bytes → Turn
    start_turn (history, changed) user_text =
        let t : Turn = record { history = history; reports = []; saved = []; requests = [] } in
        save_history
          (append_history (plain_message user user_text) (if changed then save_history t else t))

    unfoldable pub run_loaded : Bytes → List Message → Bytes → Option Ended
    run_loaded system_prompt history user_text =
        let t = start_turn (trimmed system_prompt history) user_text in
        run_steps max_turn_steps (with_system system_prompt t.history) [] t

-- The Loop between turns.
pub record Loop : Type 0 where
  pub busy : Bool
  pub history : List Message
  pub hist_ready : Bool

-- What the history store's Load returns; without a store it is `loaded []`.
pub data Loading : Type 0 where
  loaded : List Message → Loading
  load_failed : Bytes → Loading

abbrev pub take_loaded : Loading → Loop → Loop × Option Bytes
take_loaded (loaded ms) l = (record { busy = l.busy; history = ms; hist_ready = true }, none)
take_loaded (load_failed err) l = (l, some err)

-- loadHistory
unfoldable pub load_history : Loading → Loop → Loop × Option Bytes
load_history loading l = if l.hist_ready then (l, none) else take_loaded loading l

abbrev pub turn_busy : Bytes
turn_busy = codes "agent: a turn is already running"

-- What a call of RunTurn leaves behind: the loop, what it reported, saved and requested, and its error.
pub record Ran : Type 0 where
  pub after : Loop
  pub reports : List Report
  pub saved : List (List Message)
  pub requests : List (List Message)
  pub result : Option Bytes

abbrev pub unchanged : Loop → List Report → Bytes → Ran
unchanged l reports err = record {
  after = l;
  reports = reports;
  saved = [];
  requests = [];
  result = some err;
}

abbrev pub ran_turn : Ended → Ran
ran_turn (t, result) = record {
  after = record { busy = false; history = t.history; hist_ready = true };
  reports = t.reports;
  saved = t.saved;
  requests = t.requests;
  result = result;
}

module _ (sections rules : Bytes) (max_context : ℕ) (save_error : List Message → Option Bytes) where
  module _ (tools : List Tool) (spiller : Option Spiller)
      (stream : List Message → List StreamEvent × Streamed) where
    abbrev pub with_history : Bytes → Bytes → Loop × Option Bytes → Option Ran
    with_history system_prompt user_text (l, some err) = some (unchanged l (error err ∷ []) err)
    with_history system_prompt user_text (l, none) = do
      ended ←
          run_loaded sections rules max_context save_error tools spiller stream system_prompt
            l.history user_text
      some (ran_turn ended)

    unfoldable pub run_turn : Bytes → Loading → Loop → Bytes → Option Ran
    run_turn system_prompt loading l user_text =
        if l.busy
        then some (unchanged l [] turn_busy)
        else with_history system_prompt user_text (load_history loading l)

abbrev pub interrupted_turn_marker : Bytes
interrupted_turn_marker =
    codes "[turn interrupted: the node running it failed before the turn completed]"

-- len(l.history) > 0 && the last message is the user's
unfoldable pub is_dangling : List Message → Bool
is_dangling [] = false
is_dangling (m ∷ []) = m.role == user
is_dangling (m ∷ n ∷ ms) = is_dangling (n ∷ ms)

abbrev pub sealed : Loop → Loop × List (List Message)
sealed l =
    let history = l.history ++ plain_message assistant interrupted_turn_marker ∷ [] in
    if is_dangling l.history
    then (record { busy = l.busy; history = history; hist_ready = l.hist_ready }, history ∷ [])
    else (l, [])

abbrev pub sealed_loaded : Loop × Option Bytes → Loop × List (List Message)
sealed_loaded (l, some err) = (l, [])
sealed_loaded (l, none) = sealed l

-- SealInterruptedTurn: the loop, and what is saved.
unfoldable pub seal_interrupted_turn : Loading → Loop → Loop × List (List Message)
seal_interrupted_turn loading l = sealed_loaded (load_history loading l)
