-- ===== src/Llm/Stream/Calls.antt =====
-- The tool calls of a streamed reply, put together from their fragments.
use turnhive.Base.{
  codes, ℕ, ◌≤◌, ◌≡◌, Bool, false, Option, none, some, List, [], ◌∷◌, ◌++◌, keep, Bytes, eqb, ◌==◌,
  bytes_eq, nat_eq, if◌then◌else◌,
}
use turnhive.Base.Int.{ℤ, pos, negsuc}
use turnhive.Patch.{cut_prefix}
use turnhive.Sse.Client.{trim_line_end, trim_space_prefix}
use turnhive.Llm.{ToolCall}
use turnhive.Llm.Stream.{
  Choice, StreamChunk, Reading, Ending, done, ended, fails, LineStep, goes_on, stops, ToolDelta,
  ToolCallAccumulator, or_new, merge_calls,
}

abbrev pub has_index : ℕ → ℤ → Bool
has_index i (pos j) = eqb j i
has_index i (negsuc n) = false

-- The fragments of one call.
abbrev pub fragments : ℕ → List ToolDelta → List ToolDelta
fragments i ds = keep (λ d. has_index i d.index) ds

abbrev pub joined : (ToolDelta → Bytes) → List ToolDelta → Bytes
joined part [] = []
joined part (d ∷ ds) = part d ++ joined part ds

-- The last id that is not empty.
abbrev pub last_id : Bytes → List ToolDelta → Bytes
last_id id [] = id
last_id id (d ∷ ds) = last_id (if d.id == [] then id else d.id) ds

-- What fragments make of an accumulator.
abbrev pub grown : ToolCallAccumulator → List ToolDelta → ToolCallAccumulator
grown acc ds = record {
  id = last_id acc.id ds;
  name = acc.name ++ joined (λ d. d.name) ds;
  arguments = acc.arguments ++ joined (λ d. d.arguments) ds;
}

-- The accumulator behind some fragments, out of the one before them.
abbrev pub collected : Option ToolCallAccumulator → List ToolDelta → Option ToolCallAccumulator
collected o [] = o
collected o (d ∷ ds) = some (grown (or_new o) (d ∷ ds))

-- Keys in order, from `low` on.
abbrev pub Ascending : ℕ → List (ℕ × ToolCallAccumulator) → Type 0
Ascending low [] = Unit
Ascending low ((i, acc) ∷ calls) = (low ≤ i) × Ascending i calls

-- A call as it is given back: `{}` stands for no arguments.
abbrev pub or_braces : Bytes → Bytes
or_braces [] = codes "{}"
or_braces (c ∷ s) = c ∷ s

abbrev pub whole_call : ℕ × ToolCallAccumulator → ToolCall
whole_call (i, acc) = record { id = acc.id; name = acc.name; arguments = or_braces acc.arguments }

-- The fragments of a chunk are those of its first choice.
abbrev pub choice_deltas : List Choice → List ToolDelta
choice_deltas [] = []
choice_deltas (c ∷ cs) = c.tool_calls

abbrev pub chunk_deltas : Option StreamChunk → List ToolDelta
chunk_deltas none = []
chunk_deltas (some chunk) = choice_deltas chunk.choices

module _ (decode : Bytes → Option StreamChunk) where
  -- The fragments of a body: those of its lines in their order, up to the DONE mark.
  abbrev pub deltas_behind : Option Bytes → List ToolDelta → List ToolDelta
  deltas_behind none rest = rest
  deltas_behind (some value) rest =
      if trim_space_prefix value == codes "[DONE]"
      then []
      else chunk_deltas (decode (trim_space_prefix value)) ++ rest

  unfoldable pub deltas_in : List Bytes → List ToolDelta
  deltas_in [] = []
  deltas_in (l ∷ ls) = deltas_behind (cut_prefix (codes "data:") (trim_line_end l)) (deltas_in ls)

  abbrev after_line : Bytes → List ToolDelta → List ToolDelta
  after_line line rest = deltas_behind (cut_prefix (codes "data:") (trim_line_end line)) rest

  abbrev StepMerges : Option Bytes → Reading → LineStep → Type 0
  StepMerges o r (goes_on r') =
      (rest : List ToolDelta)
      → merge_calls (deltas_behind o rest) r.tool_calls ≡ merge_calls rest r'.tool_calls
  StepMerges o r (stops done) = (rest : List ToolDelta) → deltas_behind o rest ≡ []
  StepMerges o r (stops ended) = ⊥
  StepMerges o r (stops (fails e)) = Unit

  abbrev ChunkMerges : Reading → Option StreamChunk → LineStep → Type 0
  ChunkMerges r o (goes_on r') =
      (rest : List ToolDelta)
      → merge_calls (chunk_deltas o ++ rest) r.tool_calls ≡ merge_calls rest r'.tool_calls
  ChunkMerges r o (stops done) = ⊥
  ChunkMerges r o (stops ended) = ⊥
  ChunkMerges r o (stops (fails e)) = Unit

  -- The calls that the loop leaves, unless it ends with an error.
  abbrev Merged : List Bytes → Reading → Reading × Ending → Type 0
  Merged lines r (r', done) = r'.tool_calls ≡ merge_calls (deltas_in lines) r.tool_calls
  Merged lines r (r', ended) = r'.tool_calls ≡ merge_calls (deltas_in lines) r.tool_calls
  Merged lines r (r', fails e) = Unit
