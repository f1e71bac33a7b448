-- ===== src/Loop/Ended.antt =====
-- How a turn ends, whatever the endpoint and the tools do.
use turnhive.Base.{
  sym, ◌>>=◌, ℕ, ◌≡◌, refl, ap, subst, ◌∙◌, Bool, true, false, Option, none, some, List, [], ◌∷◌,
  ◌++◌, append_assoc, Bytes, bytes_eq, if◌then◌else◌,
}
use turnhive.Llm.{Message}
use turnhive.Llm.Stream.{StreamEvent}
use turnhive.Truncate.{Spiller}
use turnhive.Context.{user}
use turnhive.Hub.Reporter.{Report, error}
use turnhive.Loop.{
  failed, Loop, Loading, Ran, ran_turn, turn_busy, unchanged, load_history, with_history, run_turn,
  trimmed, start_turn, with_system, run_loaded, max_turn_steps, Turn, Ended, Streamed,
}
use turnhive.Loop.Tools.{Tool, plain_message}
use turnhive.Loop.Answers.{IsProgress}
use turnhive.Loop.Steps.{last_answer, Closes, EndsTurn, run_steps-EndsTurn}

module _ (sections rules : Bytes) (max_context : ℕ) (save_error : List Message → Option Bytes) where
  module _ (tools : List Tool) (spiller : Option Spiller)
      (stream : List Message → List StreamEvent × Streamed) where
    abbrev pub no_answer : List StreamEvent × Streamed
    no_answer = ([], failed [])

    -- A call of RunTurn that ended: its reports; the history, whose part before this turn is `kept`; what was
    -- saved, of which the user's message is in the last but one; and that the loop is free again. It closes with what
    -- the endpoint answered to the last of its requests.
    pub record TurnEnds (kept : List Message) (user_text : Bytes) (r : Option Ran) : Type 0 where
      pub ran : Ran
      pub runs : r ≡ some ran
      pub progress : List Report
      pub last : Report
      pub reported : ran.reports ≡ progress ++ last ∷ []
      pub goes_on : IsProgress progress
      pub closes :
          Closes sections rules max_context save_error
            (kept ++ plain_message user user_text ∷ [])
            (last_answer sections rules max_context save_error tools spiller stream no_answer
              ran.requests)
            last
            ran.after.history
            ran.result
      pub before : List (List Message)
      pub saved :
          ran.saved ≡ before ++ (kept ++ plain_message user user_text ∷ []) ∷ ran.after.history ∷ []
      pub idle : ran.after.busy ≡ false

    start_turn-saved :
        (history : List Message) (changed : Bool) (user_text : Bytes)
        → (before : List (List Message)) × ((start_turn sections rules max_context save_error tools
              spiller stream
              (history, changed)
              user_text).saved
            ≡ before ++ (history ++ plain_message user user_text ∷ []) ∷ [])
    start_turn-saved history true user_text = (history ∷ [], refl)
    start_turn-saved history false user_text = ([], refl)

    start_turn-unsent :
        (history : List Message) (changed : Bool) (user_text : Bytes)
        → (start_turn sections rules max_context save_error tools spiller stream
            (history, changed)
            user_text).requests
          ≡ []
    start_turn-unsent history true user_text = refl
    start_turn-unsent history false user_text = refl

    pub start_turn-fresh :
        (history : List Message) (changed : Bool) (user_text : Bytes)
        → let t =
            start_turn sections rules max_context save_error tools spiller stream
              (history, changed)
              user_text in
          (t.history ≡ history ++ plain_message user user_text ∷ []) × (t.reports ≡ [])
    start_turn-fresh history true user_text = (refl, refl)
    start_turn-fresh history false user_text = (refl, refl)

    pub with_history-fine :
        (system_prompt user_text : Bytes) (p : Loop × Option Bytes)
        → p.1 ≡ none
        → with_history sections rules max_context save_error tools spiller stream system_prompt
            user_text p
          ≡ (run_loaded sections rules max_context save_error tools spiller stream system_prompt
                p.0.history user_text
              >>= λ x. some (ran_turn x))
    with_history-fine system_prompt user_text (l, none) h = refl
    with_history-fine system_prompt user_text (l, some err) h = cc

    pub with_history-fails :
        (system_prompt user_text err : Bytes) (p : Loop × Option Bytes)
        → p.1 ≡ some err
        → with_history sections rules max_context save_error tools spiller stream system_prompt
            user_text p
          ≡ some (unchanged p.0 (error err ∷ []) err)
    with_history-fails system_prompt user_text err (l, none) h = cc
    with_history-fails system_prompt user_text err (l, some e) h =
        let same : e ≡ err = cc in rw same refl

    pub run_turn-idle :
        (system_prompt : Bytes) (loading : Loading) (l : Loop) (user_text : Bytes)
        → l.busy ≡ false
        → run_turn sections rules max_context save_error tools spiller stream system_prompt loading
            l user_text
          ≡ with_history sections rules max_context save_error tools spiller stream system_prompt
              user_text
              (load_history loading l)
    unfolding run_turn
    run_turn-idle system_prompt loading l user_text idle =
        ap
          (λ b.
            if b
            then some (unchanged l [] turn_busy)
            else with_history sections rules max_context save_error tools spiller stream
                system_prompt user_text (load_history loading l))
          idle

    -- A turn of an idle loop whose history loads always ends, with no panic, whatever the endpoint and the
    -- tools answer. It reports progress and then exactly one end. If that is `Done`, the user's message and
    -- the endpoint's reply to the last request, which calls no tool, stand behind the history, which may be
    -- compacted, and an error is returned only for a failed save. If it is `Error`, the user's message and the
    -- text that was streamed for the last request stand there, and the same error is returned. The history with
    -- the user's message was saved before, the one that is left was saved last, and the loop is free again.
    pub run_turn-ends :
        (system_prompt : Bytes) (loading : Loading) (l : Loop) (user_text : Bytes)
        → l.busy ≡ false
        → (load_history loading l).1 ≡ none
        → let history : List Message = (load_history loading l).0.history in
          let kept =
            (trimmed sections rules max_context save_error tools spiller stream system_prompt
              history).0 in
          TurnEnds kept user_text (
            run_turn sections rules max_context save_error tools spiller stream system_prompt
              loading l user_text)
    unfolding run_loaded
    run_turn-ends system_prompt loading l user_text idle fine =
        let history : List Message = (load_history loading l).0.history in
        let (kept, changed) : List Message × Bool =
          trimmed sections rules max_context save_error tools spiller stream system_prompt
            history in
        let t : Turn =
          start_turn sections rules max_context save_error tools spiller stream (kept, changed)
            user_text in
        let (before, written) = start_turn-saved kept changed user_text in
        let (extended, silent) = start_turn-fresh kept changed user_text in
        let e : EndsTurn sections rules max_context save_error tools spiller stream no_answer t _ =
          run_steps-EndsTurn sections rules max_context save_error tools spiller stream
            max_turn_steps
            (with_system sections rules max_context save_error tools spiller stream system_prompt
              t.history)
            no_answer t in
        let sent : e.ended.0.requests ≡ e.requests =
          e.sent ∙ ap (λ rs. rs ++ e.requests) (start_turn-unsent kept changed user_text) in
        record {
          ran = ran_turn e.ended;
          runs =
              run_turn-idle system_prompt loading l user_text idle
              ∙ with_history-fine system_prompt user_text (load_history loading l) fine
              ∙ ap (λ (r : Option Ended). r >>= λ x. some (ran_turn x)) e.runs;
          progress = e.progress;
          last = e.last;
          reported = e.reported ∙ rw silent refl;
          goes_on = e.goes_on;
          closes =
              subst
                (λ rs.
                  Closes sections rules max_context save_error
                    (kept ++ plain_message user user_text ∷ [])
                    (last_answer sections rules max_context save_error tools spiller stream
                      no_answer rs)
                    e.last e.ended.0.history e.ended.1)
                (sym sent)
                (subst
                  (λ h.
                    Closes sections rules max_context save_error h
                      (last_answer sections rules max_context save_error tools spiller stream
                        no_answer e.requests)
                      e.last e.ended.0.history e.ended.1)
                  extended e.closes);
          before = before;
          saved = e.saved ∙ ap (λ s. s ++ e.ended.0.history ∷ []) written ∙ append_assoc before _ _;
          idle = refl;
        }
