-- ===== src/Tests/Loop.antt =====
-- A turn on a short history: the endpoint asks for a tool that is there and for one that is not, and then
-- replies. Its node fails in the middle of the next turn.
use turnhive.Base.{
  ◌≤◌, ◌≡◌, ◌≢◌, refl, sym, ap, ◌∙◌, inl, inr, true, false, Option, none, List, [], ◌∷◌, Bytes,
  codes, length, All, bytes_eqb, bytes_eqb_iff,
}
use turnhive.Llm.{Message, ToolCall, Usage}
use turnhive.Llm.Stream.{StreamEvent, delta}
use turnhive.Context.{user, assistant}
use turnhive.Loop.{Loop, loaded, load_history, run_turn, Streamed, replied, max_turn_steps}
use turnhive.Loop.Tools.{plain_message, Tool, ran}
use turnhive.Loop.Answers.{IsAnswered}
use turnhive.Loop.Ended.{TurnEnds, run_turn-ends}
use turnhive.Loop.Plain.{IsPlain, run_turn-IsPlain}
use turnhive.Loop.Requests.{run_turn-answers}

abbrev no_error : List Message → Option Bytes
no_error ms = none

abbrev shell : Tool
shell = record {
  name = codes "shell";
  execute = λ working tc. ran (codes "total 0") [];
  self_truncating = false;
}

abbrev call : Bytes → Bytes → ToolCall
call id name = record { id = id; name = name; arguments = codes "{}" }

abbrev asks : Message
asks = record {
  role = assistant;
  content = [];
  tool_calls = call (codes "c1") (codes "shell") ∷ call (codes "c2") (codes "fly") ∷ [];
  tool_call_id = [];
  images = [];
}

abbrev usage : Usage
usage = record { prompt_tokens = 12; completion_tokens = 3; total_tokens = 15 }

-- Three messages are in the first request, six in the second.
abbrev endpoint : List Message → List StreamEvent × Streamed
endpoint (a ∷ b ∷ c ∷ []) = ([], replied asks usage)
endpoint ms = (delta (codes "empty") ∷ [], replied (plain_message assistant (codes "empty")) usage)

abbrev past : List Message
past = plain_message user (codes "hello") ∷ plain_message assistant (codes "hi") ∷ []

abbrev idle : Loop
idle = record { busy = false; history = []; hist_ready = false }

abbrev question : Bytes
question = codes "list it"

past-IsPlain : All IsPlain past
past-IsPlain = ((inl refl, refl), ((inr refl, refl), tt))

run_turn-ends_example :
    TurnEnds [] [] 0 no_error
      (shell ∷ [])
      none
      endpoint
      past
      question
      (run_turn [] [] 0 no_error (shell ∷ []) none endpoint [] (loaded past) idle question)
unfolding load_history
run_turn-ends_example =
    run_turn-ends [] [] 0 no_error (shell ∷ []) none endpoint [] (loaded past) idle question refl
      refl

abbrev answered :
    TurnEnds [] [] 0 no_error
      (shell ∷ [])
      none
      endpoint
      past
      question
      (run_turn [] [] 0 no_error (shell ∷ []) none endpoint [] (loaded past) idle question)
unfolding load_history
answered =
    run_turn-ends [] [] 0 no_error (shell ∷ []) none endpoint [] (loaded past) idle question refl
      refl

run_turn-IsPlain_example : All IsPlain answered.ran.after.history
unfolding load_history
run_turn-IsPlain_example =
    run_turn-IsPlain [] [] 0 no_error (shell ∷ []) none endpoint [] (loaded past) idle question
      answered.ran refl past-IsPlain answered.runs

assistant-ne-tool : assistant ≢ codes "tool"
unfolding bytes_eqb
assistant-ne-tool e = cc ((bytes_eqb_iff assistant (codes "tool")).1 e)

replied-role : {m m' : Message} {u u' : Usage} → replied m u ≡ replied m' u' → m.role ≡ m'.role
replied-role {m} {m'} {u} {u'} e = let same : m ≡ m' = cc in ap (λ (x : Message). x.role) same

speaks_as :
    {s : Streamed} (m0 : Message) (u0 : Usage)
    → s ≡ replied m0 u0
    → m0.role ≡ assistant
    → (m : Message) (u : Usage) → s ≡ replied m u
    → m.role ≢ codes "tool"
speaks_as m0 u0 e r m u h t = assistant-ne-tool (sym r ∙ replied-role (sym e ∙ h) ∙ t)

endpoint_speaks :
    (ws : List Message) (m : Message) (u : Usage)
    → (endpoint ws).1 ≡ replied m u
    → m.role ≢ codes "tool"
endpoint_speaks [] = speaks_as (plain_message assistant (codes "empty")) usage refl refl
endpoint_speaks (a ∷ []) = speaks_as (plain_message assistant (codes "empty")) usage refl refl
endpoint_speaks (a ∷ b ∷ []) = speaks_as (plain_message assistant (codes "empty")) usage refl refl
endpoint_speaks (a ∷ b ∷ c ∷ []) = speaks_as asks usage refl refl
endpoint_speaks (a ∷ b ∷ c ∷ d ∷ ws) =
    speaks_as (plain_message assistant (codes "empty")) usage refl refl

run_turn-answers_example :
    (length answered.ran.requests ≤ max_turn_steps) × All IsAnswered answered.ran.requests
unfolding load_history
run_turn-answers_example =
    run_turn-answers [] [] 0 no_error (shell ∷ []) none endpoint endpoint_speaks [] (loaded past)
      idle question answered.ran refl refl past-IsPlain answered.runs

-- A server's shell behind the loop's own, and its clock.
abbrev mcp_tool : Bytes → Tool
mcp_tool name = record {
  name = name;
  execute = λ working tc. ran (codes "remote") [];
  self_truncating = true;
}
