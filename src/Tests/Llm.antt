-- ===== src/Tests/Llm.antt =====
-- A reply streamed in one line, a reply with two tool calls, a message on the wire, and an endpoint that
-- is overloaded once.
use turnhive.Base.{
  ◌==◌, if◌then◌else◌, bytes_eq, ℕ, zero, suc, nat_eq, ◌≤◌, ◌⊎◌, ◌≡◌, refl, Bool, false, Option,
  none, some, List, [], ◌∷◌, ◌++◌, Bytes, codes, arith, All, has_prefix, bytes_eqb,
}
use turnhive.Base.Int.{ℤ, pos, negsuc}
use turnhive.Base.Split.{split}
use turnhive.Truncate.{newline}
use turnhive.Patch.{cut_prefix}
use turnhive.Sse.Client.{trim_line_end}
use turnhive.Llm.{Message, Usage}
use turnhive.Llm.Stream.{
  StreamChunk, delta, ToolDelta, absorb_chunk, absorb_choice, consume_lines, consume_stream,
  line_step, message_of, replied, sort_calls, merge_calls,
}
use turnhive.Llm.Stream.Reply.{Somewhere, IsDone, Finishes, texts, consume_stream-texts}
use turnhive.Llm.Retry.{Response, post_from}
use turnhive.Llm.Retry.Bounds.{AtMostMinute, Explained, post_from-ends}

abbrev hi : Bytes
hi = codes "hi"

abbrev hi_chunk : StreamChunk
hi_chunk = record {
  choices =
      record {
        content = hi;
        reasoning_content = [];
        reasoning = [];
        tool_calls = [];
        finish_reason = [];
      }
      ∷ [];
  usage = none;
  error = none;
}

abbrev decode : Bytes → Option StreamChunk
decode text = some hi_chunk

abbrev body : Bytes
body = (codes "data: {}" ++ newline ∷ codes "data: [DONE]") ++ newline ∷ []

abbrev no_usage : Usage
no_usage = record { prompt_tokens = 0; completion_tokens = 0; total_tokens = 0 }

abbrev reply : Message
reply = record {
  role = codes "assistant";
  content = hi;
  tool_calls = [];
  tool_call_id = [];
  images = [];
}

streams_hi : consume_stream decode false body ≡ (delta hi ∷ [], replied reply no_usage)
unfolding consume_stream consume_lines line_step absorb_chunk absorb_choice merge_calls sort_calls
    message_of split cut_prefix trim_line_end has_prefix bytes_eqb
streams_hi = refl

consume_stream-texts_example :
    (reply.content ≡ texts (delta hi ∷ []))
    × (reply.role ≡ codes "assistant")
    × (Somewhere decode (IsDone decode) (split newline body)
        ⊎ ((false ≡ false) × Somewhere decode (Finishes decode) (split newline body)))
consume_stream-texts_example =
    consume_stream-texts decode false body (delta hi ∷ []) reply no_usage streams_hi

-- Fragments of the calls 1 and 0, mixed over two chunks, and one with a negative index.
abbrev first_pieces : List ToolDelta
first_pieces =
    record { index = pos 1; id = codes "b"; name = codes "wri"; arguments = [] }
    ∷ record { index = pos 0; id = codes "a"; name = codes "read"; arguments = codes "{" }
    ∷ record { index = negsuc 0; id = codes "x"; name = []; arguments = [] }
    ∷ []

abbrev more_pieces : List ToolDelta
more_pieces =
    record { index = pos 1; id = []; name = codes "te"; arguments = [] }
    ∷ record { index = pos 0; id = []; name = []; arguments = codes "}" }
    ∷ []

abbrev chunk_of : List ToolDelta → StreamChunk
chunk_of ds = record {
  choices =
      record {
        content = [];
        reasoning_content = [];
        reasoning = [];
        tool_calls = ds;
        finish_reason = [];
      }
      ∷ [];
  usage = none;
  error = none;
}

abbrev decode_pieces : Bytes → Option StreamChunk
decode_pieces text = some (chunk_of (if text == codes "1" then first_pieces else more_pieces))

abbrev two_chunks : Bytes
two_chunks =
    (codes "data: 1" ++ newline ∷ codes "data: 2")
    ++ newline ∷ (codes "data: [DONE]" ++ newline ∷ [])

abbrev calling : Message
calling = record {
  role = codes "assistant";
  content = [];
  tool_calls =
      record { id = codes "a"; name = codes "read"; arguments = codes "{}" }
      ∷ record { id = codes "b"; name = codes "write"; arguments = codes "{}" }
      ∷ [];
  tool_call_id = [];
  images = [];
}

abbrev with_image : Message
with_image = record {
  role = codes "user";
  content = codes "look";
  tool_calls = record { id = codes "a"; name = codes "read"; arguments = codes "{}" } ∷ [];
  tool_call_id = [];
  images = codes "data:image/png;base64,AA" ∷ [];
}

abbrev no_date : Bytes → Option ℤ
no_date text = none

-- 429 first, 200 behind it.
abbrev overloaded_once : ℕ → Option Response
overloaded_once zero = some (record { status = 429; retry_after = codes "2" })
overloaded_once (suc n) = some (record { status = 200; retry_after = [] })

abbrev never : ℕ → Bool
never n = false

post_from-ends_example :
    let p = post_from no_date overloaded_once never 4 0 in
    Explained 0 p.outcome p.posts × (p.posts ≤ 4) × (1 ≤ p.posts) × All AtMostMinute p.waits
post_from-ends_example = post_from-ends no_date overloaded_once never 4 (omega arith)
