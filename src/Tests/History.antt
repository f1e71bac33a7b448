-- ===== src/Tests/History.antt =====
-- A history of a question and its answer, saved with one letter for the role before the text.
use turnhive.Base.{
  ◌≡◌, refl, Option, none, some, List, [], ◌∷◌, ◌++◌, Bytes, codes, arith, eqb, ◌==◌, bytes_eq,
  bytes_eqb, has_prefix, if◌then◌else◌,
}
use turnhive.Patch.Parse.{trim_space, trim_left, trim_right}
use turnhive.Truncate.{newline}
use turnhive.Files.{prefix_length, is_blank, blank_from}
use turnhive.Llm.{Message}
use turnhive.Context.{user, assistant}
use turnhive.Loop.{loaded, seal_interrupted_turn}
use turnhive.Loop.Tools.{plain_message}
use turnhive.History.{found, load, parse_history_jsonl, history_jsonl}
use turnhive.History.Lines.{IsStored, parse_history_jsonl-history_jsonl}
use turnhive.History.Recovery.{new_loop, with_history, interrupted, seal_interrupted_turn-adopts}

encode : Message → Option Bytes
encode m = some ((if m.role == user then b'u' else b'a') ∷ m.content)

decode : Bytes → Option Message
decode [] = none
decode (c ∷ text) =
    if eqb c b'u'
    then some (plain_message user text)
    else if eqb c b'a'
    then some (plain_message assistant text)
    else none

abbrev question : Message
question = plain_message user (codes "why?")

abbrev answer : Message
answer = plain_message assistant (codes "because")

question-IsStored : IsStored encode decode question
unfolding encode decode bytes_eqb trim_space trim_left trim_right prefix_length has_prefix is_blank
    blank_from
question-IsStored = record {
  line = codes "uwhy?";
  encodes = refl;
  one_line = omega arith;
  nonempty = refl;
  untrimmed = refl;
  within = omega arith;
  decodes = refl;
}

answer-IsStored : IsStored encode decode answer
unfolding encode decode bytes_eqb trim_space trim_left trim_right prefix_length has_prefix is_blank
    blank_from
answer-IsStored = record {
  line = codes "abecause";
  encodes = refl;
  one_line = omega arith;
  nonempty = refl;
  untrimmed = refl;
  within = omega arith;
  decodes = refl;
}

parse_history_jsonl-history_jsonl_example :
    (body : Bytes) × (history_jsonl encode (question ∷ answer ∷ []) ≡ some body)
    × (parse_history_jsonl decode body ≡ question ∷ answer ∷ [])
parse_history_jsonl-history_jsonl_example =
    parse_history_jsonl-history_jsonl encode decode (question ∷ answer ∷ [])
      (question-IsStored, (answer-IsStored, tt))

abbrev first_line : Bytes
first_line = codes "uwhy?" ++ newline ∷ []

abbrev second_line : Bytes
second_line = codes "abecause" ++ newline ∷ []

abbrev interrupted_history : List Message
interrupted_history = interrupted (question ∷ answer ∷ []) (codes "why?")

abbrev saved : Bytes
saved = first_line ++ (second_line ++ first_line)

seal_interrupted_turn-adopts_example :
    (seal_interrupted_turn (load decode (found saved)) new_loop
      ≡ (with_history interrupted_history, interrupted_history ∷ []))
    × (seal_interrupted_turn (loaded interrupted_history) new_loop
        ≡ (with_history interrupted_history, []))
unfolding encode history_jsonl bytes_eqb
seal_interrupted_turn-adopts_example =
    seal_interrupted_turn-adopts encode decode (question ∷ answer ∷ []) (codes "why?") saved
      (question-IsStored, (answer-IsStored, (question-IsStored, tt))) refl
