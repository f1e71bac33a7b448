-- ===== src/Loop/Plain.antt =====
-- What the history carries: messages of the user and of the assistant, without tool calls.
use turnhive.Base.{
  ℕ, Option-cases, ◌≡◌, refl, sym, subst, ◌∙◌, inl, inr, ◌⊎◌, false, Bool-cases, Option, some, List,
  [], ◌∷◌, ◌++◌, Bytes, ltb, All, All-append, All-drop, All-split, bytes_eq,
}
use turnhive.Llm.{Message}
use turnhive.Llm.Stream.{StreamEvent}
use turnhive.Truncate.{Spiller}
use turnhive.Context.{user, assistant, truncate_to_fit}
use turnhive.Context.Trim.{truncate_to_fit-Trimmed}
use turnhive.Context.Summary.{compact_messages, summary_message}
use turnhive.Context.Compact.{compact_messages-Recent}
use turnhive.Hub.Reporter.{Report}
use turnhive.Loop.{Loop, Loading, Ran, load_history, run_turn, trimmed, Streamed}
use turnhive.Loop.Tools.{plain_message, Tool}
use turnhive.Loop.Ended.{TurnEnds, run_turn-ends, run_turn-idle, with_history-fails}
use turnhive.Llm.Stream.Reply.{texts}
use turnhive.Loop.Steps.{Closes, replies, fails, Settled}

abbrev pub IsPlain : Message → Type 0
IsPlain m = ((m.role ≡ user) ⊎ (m.role ≡ assistant)) × (m.tool_calls ≡ [])

pub same_some : {A : Type 0} {o : Option A} {a b : A} → o ≡ some a → o ≡ some b → a ≡ b
same_some f e = cc

truncate_to_fit-IsPlain :
    (history : List Message) (max_context reserve : ℕ)
    → All IsPlain history
    → All IsPlain (truncate_to_fit history max_context reserve).0
truncate_to_fit-IsPlain history max_context reserve h =
    let (t, _) = truncate_to_fit-Trimmed max_context reserve history in
    (All-split IsPlain t.dropped _ (subst (All IsPlain) (sym t.is_tail) h)).1

module _ (sections rules : Bytes) (max_context : ℕ) (save_error : List Message → Option Bytes) where
  summary_message-IsPlain : (summary : Bytes) → IsPlain (summary_message sections rules summary)
  unfolding summary_message
  summary_message-IsPlain summary = (inl refl, refl)

  compact_messages-IsPlain :
      (history out : List Message)
      → compact_messages sections rules history ≡ some out
      → All IsPlain history
      → All IsPlain out
  compact_messages-IsPlain history out e h = elim (compact_messages-Recent sections rules history) [
    | inl (few, f) ↦ subst (All IsPlain) (same_some f e) h
    | inr (more, summary, cutoff, recent, f, bound) ↦
        subst (All IsPlain) (same_some f e)
          (summary_message-IsPlain summary, All-drop IsPlain cutoff history h)
  ]

  with_reply :
      (history : List Message) (text : Bytes)
      → All IsPlain history
      → All IsPlain (history ++ plain_message assistant text ∷ [])
  with_reply history text h = All-append IsPlain history _ h ((inr refl, refl), tt)

  Settled-IsPlain :
      (history out : List Message) (content : Bytes)
      → Settled sections rules max_context save_error history content out
      → All IsPlain history
      → All IsPlain out
  Settled-IsPlain history out content (inl e) h =
      subst (All IsPlain) (sym e) (with_reply history content h)
  Settled-IsPlain history out content (inr e) h =
      compact_messages-IsPlain _ out e (with_reply history content h)

  Closes-IsPlain :
      {history out : List Message} {answer : List StreamEvent × Streamed} {last : Report}
      {result : Option Bytes}
      → Closes sections rules max_context save_error history answer last out result
      → All IsPlain history
      → All IsPlain out
  Closes-IsPlain {history} (replies m usage out answered no_calls settled) h =
      Settled-IsPlain history out m.content settled h
  Closes-IsPlain {history} {answer = answer} (fails err) h = with_reply history (texts answer.0) h

  module _ (tools : List Tool) (spiller : Option Spiller)
      (stream : List Message → List StreamEvent × Streamed) where
    pub trimmed-IsPlain :
        (system_prompt : Bytes) (history : List Message)
        → All IsPlain history
        → All IsPlain
            (trimmed sections rules max_context save_error tools spiller stream system_prompt
              history).0
    trimmed-IsPlain system_prompt history h = elim (Bool-cases (ltb 0 max_context)) [
      | inl managed ↦ rw managed (truncate_to_fit-IsPlain history max_context _ h)
      | inr unmanaged ↦ rw unmanaged h
    ]

    -- The history only ever carries messages of the user and of the assistant, none with tool calls: a turn
    -- of an idle loop on a history of such messages leaves another, however it ends and whatever tools it
    -- called.
    pub run_turn-IsPlain :
        (system_prompt : Bytes) (loading : Loading) (l : Loop) (user_text : Bytes) (r : Ran)
        → l.busy ≡ false
        → All IsPlain (load_history loading l).0.history
        → run_turn sections rules max_context save_error tools spiller stream system_prompt loading
            l user_text
          ≡ some r
        → All IsPlain r.after.history
    run_turn-IsPlain system_prompt loading l user_text r idle h e =
        elim (Option-cases (load_history loading l).1) [
          | inl fine ↦
              let ends : TurnEnds sections rules max_context save_error tools spiller stream _
                  user_text _ =
                run_turn-ends sections rules max_context save_error tools spiller stream
                  system_prompt loading l user_text idle fine in
              subst (λ (x : Ran). All IsPlain x.after.history) (same_some ends.runs e)
                (Closes-IsPlain ends.closes (
                  All-append IsPlain _ _ (trimmed-IsPlain system_prompt _ h)
                    ((inl refl, refl), tt)))
          | inr (err, failing) ↦
              subst (λ (x : Ran). All IsPlain x.after.history)
                (same_some
                  (run_turn-idle sections rules max_context save_error tools spiller stream
                      system_prompt loading l user_text idle
                    ∙ with_history-fails sections rules max_context save_error tools spiller stream
                        system_prompt user_text err _ failing)
                  e)
                h
        ]
