-- ===== src/Tests/Context.antt =====
-- A history of three turns.
use turnhive.Base.{List, [], ◌∷◌, Bytes, codes}
use turnhive.Llm.{Message}
use turnhive.Context.{user, assistant}

abbrev says : Bytes → Bytes → Message
says role text = record {
  role = role;
  content = text;
  tool_calls = [];
  tool_call_id = [];
  images = [];
}

abbrev chat : List Message
chat =
    says user (codes "first question")
    ∷ says assistant (codes "first answer")
    ∷ says user (codes "second question")
    ∷ says user (codes "third question")
    ∷ says assistant (codes "third answer")
    ∷ []
