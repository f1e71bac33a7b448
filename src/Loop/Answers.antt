-- ===== src/Loop/Answers.antt =====
-- The tool calls of a reply: each gets its answer, in order, and none stops the turn.
use turnhive.Base.{
  ◌≡◌, refl, sym, ap, ◌∙◌, inl, inr, false, ◌&&◌, Bool-cases, Option, some, List, [], ◌∷◌, ◌++◌,
  map, append_assoc, append-nil, Bytes, codes, leb, length, All, ◌==◌, bytes_eq, bytes_eqb,
  if◌then◌else◌,
}
use turnhive.Base.Split.{split}
use turnhive.Llm.{Message, ToolCall}
use turnhive.Truncate.{
  truncate, truncate_spill, TruncateOptions, Spiller, newline, strict_hint, strict_max_lines,
  strict_max_bytes,
}
use turnhive.Truncate.Preview.{truncate-Shown}
use turnhive.Hub.Reporter.{Report, closes_turn}
use turnhive.Loop.Tools.{
  Executed, ran, broke, Tool, bound_output, dispatch_tool, error_text, call_results, call_tool,
  call_tools, tool_event, tool_message, image_messages,
}

-- The ids that tool messages answer, in the order of the messages.
abbrev pub tool_ids : List Message → List Bytes
tool_ids [] = []
tool_ids (m ∷ ms) = if m.role == codes "tool" then m.tool_call_id ∷ tool_ids ms else tool_ids ms

-- The ids of the calls that replies make, in the order of the messages.
abbrev pub call_ids : List Message → List Bytes
call_ids [] = []
call_ids (m ∷ ms) = map (λ (tc : ToolCall). tc.id) m.tool_calls ++ call_ids ms

-- Every call has its answer, and every answer its call.
abbrev pub IsAnswered : List Message → Type 0
IsAnswered ms = tool_ids ms ≡ call_ids ms

-- Reports that do not end the turn.
abbrev pub IsProgress : List Report → Type 0
IsProgress rs = All (λ r. closes_turn r ≡ false) rs

truncate-Some : (text : Bytes) (o : TruncateOptions) → (out : Bytes) × (truncate text o ≡ some out)
unfolding truncate
truncate-Some text o =
    elim (Bool-cases
      (leb (length (split newline text)) o.max_lines && leb (length text) o.max_bytes)) [
        | inl within ↦ (text, rw within refl)
        | inr over ↦ (_, (truncate-Shown text o over).result)
      ]

truncate_spill-Some :
    (text : Bytes) (spiller : Option Spiller)
    → (out : Bytes) × (truncate_spill text spiller ≡ some out)
unfolding truncate_spill
truncate_spill-Some text spiller = truncate-Some text _

bound_output-Some :
    (t : Tool) (spiller : Option Spiller) (x : Executed)
    → (out : Executed) × (bound_output t spiller x ≡ some out)
bound_output-Some t spiller (broke err) = (broke err, refl)
bound_output-Some t spiller (ran text images) =
    let (out, e) = truncate_spill-Some text spiller in
    elim (Bool-cases t.self_truncating) [
      | inl own ↦ (ran text images, rw own refl)
      | inr generic ↦ (ran out images, rw generic (rw e refl))
    ]

dispatch_tool-Some :
    (tools : List Tool) (spiller : Option Spiller) (working : List Message) (tc : ToolCall)
    → (out : Executed) × (dispatch_tool tools spiller working tc ≡ some out)
unfolding dispatch_tool
dispatch_tool-Some [] spiller working tc = (_, refl)
dispatch_tool-Some (t ∷ tools) spiller working tc =
    let (rest, e) = dispatch_tool-Some tools spiller working tc in
    let (own, f) = bound_output-Some t spiller (t.execute working tc) in
    elim (Bool-cases (t.name == tc.name)) [
      | inl named ↦ (own, rw named f)
      | inr other ↦ (rest, rw other e)
    ]

pub tool_ids-append : (xs ys : List Message) → tool_ids (xs ++ ys) ≡ tool_ids xs ++ tool_ids ys
tool_ids-append [] ys = refl
tool_ids-append (m ∷ xs) ys = elim (Bool-cases (m.role == codes "tool")) [
  | inl e ↦ rw e (ap (◌∷◌ m.tool_call_id) (tool_ids-append xs ys))
  | inr e ↦ rw e (tool_ids-append xs ys)
]

pub call_ids-append : (xs ys : List Message) → call_ids (xs ++ ys) ≡ call_ids xs ++ call_ids ys
call_ids-append [] ys = refl
call_ids-append (m ∷ xs) ys =
    ap (◌++◌ (map (λ (tc : ToolCall). tc.id) m.tool_calls)) (call_ids-append xs ys)
    ∙ sym (append_assoc (map (λ (tc : ToolCall). tc.id) m.tool_calls) (call_ids xs) (call_ids ys))

-- What a call leaves: a report that ends no turn, and messages of which one answers the call.
pub record Answer (tc : ToolCall) (last : Report) (results : List Message) : Type 0 where
  pub goes_on : closes_turn last ≡ false
  pub answers : tool_ids results ≡ tc.id ∷ []
  pub calls_none : call_ids results ≡ []

image_messages-ids :
    (us : List Bytes) → (tool_ids (image_messages us) ≡ []) × (call_ids (image_messages us) ≡ [])
unfolding bytes_eqb
image_messages-ids [] = (refl, refl)
image_messages-ids (u ∷ us) = (refl, refl)

call_results-Answer :
    (tc : ToolCall) (x : Executed)
    → (last : Report) × (results : List Message) × (call_results tc x ≡ some (last, results))
      × Answer tc last results
unfolding bytes_eqb error_text
call_results-Answer tc (ran text images) =
    let (ids, none_called) = image_messages-ids images in
    (_, _, refl, record { goes_on = refl; answers = ap (◌∷◌ tc.id) ids; calls_none = none_called })
call_results-Answer tc (broke err) =
    let (out, e) =
      truncate-Some err (record {
        max_lines = strict_max_lines;
        max_bytes = strict_max_bytes;
        hint = strict_hint;
      }) in
    (
      tool_event tc (codes "error"),
      tool_message tc (codes "error: " ++ out) ∷ [],
      rw e refl,
      record { goes_on = refl; answers = refl; calls_none = refl },
    )

module _ (tools : List Tool) (spiller : Option Spiller) where
  call_tool-Answer :
      (working : List Message) (tc : ToolCall)
      → (last : Report) × (results : List Message) × (call_tool tools spiller working tc
          ≡ some (last, results))
        × Answer tc last results
  unfolding call_tool
  call_tool-Answer working tc =
      let (x, e) = dispatch_tool-Some tools spiller working tc in
      let (last, results, f, a) = call_results-Answer tc x in (last, results, rw e f, a)

  -- The calls of a reply all return, their reports end no turn, and behind the messages so far stand
  -- answers to exactly these calls, in order.
  pub record Answers (tcs : List ToolCall) (working : List Message) : Type 0 where
    pub reports : List Report
    pub results : List Message
    pub runs : call_tools tools spiller tcs working ≡ some (reports, working ++ results)
    pub goes_on : IsProgress reports
    pub answers : tool_ids results ≡ map (λ (tc : ToolCall). tc.id) tcs
    pub calls_none : call_ids results ≡ []

  pub call_tools-Answers : (tcs : List ToolCall) (working : List Message) → Answers tcs working
  unfolding call_tools
  call_tools-Answers [] working = record {
    reports = [];
    results = [];
    runs = ap (λ ws. some ([], ws)) (sym (append-nil working));
    goes_on = tt;
    answers = refl;
    calls_none = refl;
  }
  call_tools-Answers (tc ∷ tcs) working =
      let (last, results, e, a) = call_tool-Answer working tc in
      let rest : Answers tcs (working ++ results) = call_tools-Answers tcs (working ++ results) in
      record {
        reports = tool_event tc (codes "running") ∷ last ∷ rest.reports;
        results = results ++ rest.results;
        runs = rw e (
            rw rest.runs (
              ap (λ ws. some (tool_event tc (codes "running") ∷ last ∷ rest.reports, ws))
                (append_assoc working results rest.results)));
        goes_on = (refl, (a.goes_on, rest.goes_on));
        answers = tool_ids-append results rest.results ∙ rw (a.answers, rest.answers) refl;
        calls_none = call_ids-append results rest.results ∙ rw (a.calls_none, rest.calls_none) refl;
      }
