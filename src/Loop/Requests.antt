-- ===== src/Loop/Requests.antt =====
-- The requests of a turn: how many, and that every tool call in them is answered.
use turnhive.Base.{
  ◌>>=◌, ℕ, zero, suc, ◌+◌, ◌≤◌, ◌≡◌, ◌≢◌, refl, sym, ap, subst, ◌∙◌, inl, inr, ◌⊎◌, Bool, true,
  false, Bool-cases, Option, none, some, List, [], ◌∷◌, ◌++◌, map, append-nil, Bytes, codes, arith,
  length, length-append, All, All-append, ◌==◌, ==_iff, bytes_eq, bytes_eqb,
}
use turnhive.Llm.{Message, ToolCall, Usage}
use turnhive.Llm.Stream.{StreamEvent}
use turnhive.Truncate.{Spiller}
use turnhive.Context.{user, assistant}
use turnhive.Hub.Reporter.{Report}
use turnhive.Loop.{
  Loop, Loading, Ran, load_history, run_turn, ran_turn, trimmed, start_turn, with_system,
  run_loaded, max_turn_steps, Turn, Ended, Streamed, replied, failed, report_of, step_text,
  tell_all, send_request, fail_turn, finish_turn, after_stream, run_steps,
}
use turnhive.Loop.Tools.{Tool, call_tools}
use turnhive.Loop.Answers.{
  IsAnswered, tool_ids, call_ids, tool_ids-append, call_ids-append, Answers, call_tools-Answers,
}
use turnhive.Loop.Ended.{run_turn-idle, with_history-fine, start_turn-fresh}
use turnhive.Loop.Steps.{compact_after-Settled}
use turnhive.Loop.Plain.{IsPlain, trimmed-IsPlain, same_some}

not_tool : (role : Bytes) → role ≢ codes "tool" → (role == codes "tool") ≡ false
not_tool role h = elim (Bool-cases (role == codes "tool")) [
  | inl e ↦ absurd (h ((==_iff role (codes "tool")).0 e))
  | inr e ↦ e
]

plain_role : (role : Bytes) → (role ≡ user) ⊎ (role ≡ assistant) → (role == codes "tool") ≡ false
unfolding bytes_eqb
plain_role role (inl e) = rw e refl
plain_role role (inr e) = rw e refl

plain_ids : (ms : List Message) → All IsPlain ms → (tool_ids ms ≡ []) × (call_ids ms ≡ [])
plain_ids [] h = (refl, refl)
plain_ids (m ∷ ms) ((role, calls), h) =
    let (tools, called) = plain_ids ms h in (rw (plain_role m.role role) tools, rw calls called)

-- A reply with calls and the answers to them keep every call answered.
IsAnswered-reply :
    (working results : List Message) (m : Message)
    → m.role ≢ codes "tool"
    → tool_ids results ≡ map (λ (tc : ToolCall). tc.id) m.tool_calls
    → call_ids results ≡ []
    → IsAnswered working
    → IsAnswered ((working ++ m ∷ []) ++ results)
IsAnswered-reply working results m role answers calls h =
    let ids : List Bytes = map (λ (tc : ToolCall). tc.id) m.tool_calls in
    let answered : tool_ids ((working ++ m ∷ []) ++ results) ≡ tool_ids working ++ ids =
      rw
        (
          tool_ids-append (working ++ m ∷ []) results,
          tool_ids-append working (m ∷ []),
          answers,
          not_tool m.role role,
          append-nil (tool_ids working),
        )
        refl in
    let called : call_ids ((working ++ m ∷ []) ++ results) ≡ call_ids working ++ ids =
      rw
        (
          call_ids-append (working ++ m ∷ []) results,
          call_ids-append working (m ∷ []),
          calls,
          append-nil ids,
          append-nil (call_ids working ++ ids),
        )
        refl in
    answered ∙ ap (λ x. x ++ ids) h ∙ sym called

-- With `n` steps left: the requests that were sent since, and that they are answered where those before are.
abbrev Sent : Turn → ℕ → Option Ended → Type 0
Sent t n none = Unit
Sent t n (some r) =
    (length r.0.requests ≤ length t.requests + n)
    × (All IsAnswered t.requests → All IsAnswered r.0.requests)

Sent-request :
    (working : List Message) (reports : List Report) (t : Turn) (n : ℕ) (r : Option Ended)
    → IsAnswered working
    → Sent (tell_all reports (send_request working t)) n r
    → Sent t (suc n) r
Sent-request working reports t n none h s = tt
Sent-request working reports t n (some r) h (few, answered) = (
  omega (arith, few, length-append t.requests (working ∷ [])),
  λ a. answered (All-append IsAnswered t.requests _ a (h, tt)),
)

module _ (sections rules : Bytes) (max_context : ℕ) (save_error : List Message → Option Bytes) where
  finish_turn-Sent :
      (m : Message) (usage : Usage) (t : Turn) (n : ℕ)
      → Sent t n (finish_turn sections rules max_context save_error m usage t)
  unfolding finish_turn
  finish_turn-Sent m usage t n =
      let (out, e, settled) =
        compact_after-Settled sections rules max_context save_error usage m.content t in
      rw e (omega arith, λ h. h)

  module _ (tools : List Tool) (spiller : Option Spiller)
      (stream : List Message → List StreamEvent × Streamed) where
    after_stream-Sent :
        (again : List Message → Bytes → Turn → Option Ended) (working : List Message)
        (evs : List StreamEvent) (x : Streamed) (t : Turn) (n : ℕ)
        → IsAnswered working
        → ((m : Message) (usage : Usage) → x ≡ replied m usage → m.role ≢ codes "tool")
        → ((working' : List Message) (text : Bytes) (t' : Turn)
            → IsAnswered working'
            → Sent t' n (again working' text t'))
        → Sent t n (
            after_stream sections rules max_context save_error tools spiller stream again working
              evs x t)
    unfolding after_stream fail_turn
    after_stream-Sent again working evs (failed err) t n h speaks next = (omega arith, λ a. a)
    after_stream-Sent again working evs (replied m usage) t n h speaks next =
        by_calls m.tool_calls refl
      where
        by_calls :
            (tcs : List ToolCall)
            → m.tool_calls ≡ tcs
            → Sent t n (elim tcs [
              | [] ↦ finish_turn sections rules max_context save_error m usage t
              | tc ∷ tcs ↦ (do
                (reports, working') ← call_tools tools spiller (tc ∷ tcs) (working ++ m ∷ [])
                again working' (step_text evs) (tell_all reports t))
            ])
        by_calls [] e = finish_turn-Sent m usage t n
        by_calls (tc ∷ tcs) e =
            let a : Answers tools spiller (tc ∷ tcs) (working ++ m ∷ []) =
              call_tools-Answers tools spiller (tc ∷ tcs) (working ++ m ∷ []) in
            rw a.runs (
              next ((working ++ m ∷ []) ++ a.results) (step_text evs) (tell_all a.reports t) (
                IsAnswered-reply working a.results m (speaks m usage refl)
                  (a.answers ∙ ap (map (λ (tc : ToolCall). tc.id)) (sym e)) a.calls_none h))

    module _
        (speaks : (ws : List Message) (m : Message) (usage : Usage)
          → (stream ws).1 ≡ replied m usage
          → m.role ≢ codes "tool") where
      run_steps-Sent :
          (n : ℕ) (working : List Message) (text : Bytes) (t : Turn)
          → IsAnswered working
          → Sent t n (
              run_steps sections rules max_context save_error tools spiller stream n working text t)
      unfolding run_steps fail_turn
      run_steps-Sent zero working text t h = (omega arith, λ a. a)
      run_steps-Sent (suc n) working text t h =
          Sent-request working (map report_of (stream working).0) t n _ h (
            after_stream-Sent _ working (stream working).0 (stream working).1 _ n h
              (λ m usage. speaks working m usage) (run_steps-Sent n))

      start_turn-unsent :
          (history : List Message) (changed : Bool) (user_text : Bytes)
          → (start_turn sections rules max_context save_error tools spiller stream
              (history, changed)
              user_text).requests
            ≡ []
      start_turn-unsent history true user_text = refl
      start_turn-unsent history false user_text = refl

      with_system-IsAnswered :
          (system_prompt : Bytes) (ms : List Message)
          → All IsPlain ms
          → IsAnswered (
              with_system sections rules max_context save_error tools spiller stream system_prompt
                ms)
      unfolding bytes_eqb
      with_system-IsAnswered [] ms h =
          let (tools_none, calls_none) = plain_ids ms h in tools_none ∙ sym calls_none
      with_system-IsAnswered (c ∷ s) ms h =
          let (tools_none, calls_none) = plain_ids ms h in tools_none ∙ sym calls_none

      abbrev Within : Option Ended → Type 0
      Within none = Unit
      Within (some r) = (length r.0.requests ≤ max_turn_steps) × All IsAnswered r.0.requests

      Sent-Within :
          (t : Turn) (r : Option Ended) → t.requests ≡ [] → Sent t max_turn_steps r → Within r
      Sent-Within t none e s = tt
      Sent-Within t (some r) e (few, answered) =
          (omega (arith, few, ap length e), answered (rw e tt))

      run_loaded-Within :
          (system_prompt user_text : Bytes) (history : List Message)
          → All IsPlain history
          → Within (
              run_loaded sections rules max_context save_error tools spiller stream system_prompt
                history user_text)
      unfolding run_loaded
      run_loaded-Within system_prompt user_text history h =
          let (kept, changed) : List Message × Bool =
            trimmed sections rules max_context save_error tools spiller stream system_prompt
              history in
          let t : Turn =
            start_turn sections rules max_context save_error tools spiller stream (kept, changed)
              user_text in
          let (extended, silent) =
            start_turn-fresh sections rules max_context save_error tools spiller stream kept changed
              user_text in
          let plain : All IsPlain t.history = subst (All IsPlain) (sym extended) (
            All-append IsPlain kept _
              (trimmed-IsPlain sections rules max_context save_error tools spiller stream
                system_prompt history h)
              ((inl refl, refl), tt)) in
          Sent-Within t _ (start_turn-unsent kept changed user_text) (
            run_steps-Sent max_turn_steps _ [] t
              (with_system-IsAnswered system_prompt t.history plain))

      ran_turn-Within :
          (o : Option Ended) (r : Ran)
          → Within o
          → (o >>= λ x. some (ran_turn x)) ≡ some r
          → (length r.requests ≤ max_turn_steps) × All IsAnswered r.requests
      ran_turn-Within none r w e = cc
      ran_turn-Within (some ended) r w e =
          subst (λ (x : Ran). (length x.requests ≤ max_turn_steps) × All IsAnswered x.requests)
            (same_some refl e) w

      -- A turn sends at most 199 requests, and in each of them the tool messages answer exactly the calls
      -- that the replies before made, call by call, failed and unknown tools included: on a loaded
      -- history of plain messages, where the endpoint speaks in no tool's role.
      pub run_turn-answers :
          (system_prompt : Bytes) (loading : Loading) (l : Loop) (user_text : Bytes) (r : Ran)
          → l.busy ≡ false
          → (load_history loading l).1 ≡ none
          → All IsPlain (load_history loading l).0.history
          → run_turn sections rules max_context save_error tools spiller stream system_prompt
              loading l user_text
            ≡ some r
          → (length r.requests ≤ max_turn_steps) × All IsAnswered r.requests
      run_turn-answers system_prompt loading l user_text r idle fine h e =
          ran_turn-Within _ r (run_loaded-Within system_prompt user_text _ h) (
            sym (
              with_history-fine sections rules max_context save_error tools spiller stream
                system_prompt user_text (load_history loading l) fine)
            ∙ sym (
                run_turn-idle sections rules max_context save_error tools spiller stream
                  system_prompt loading l user_text idle)
            ∙ e)
