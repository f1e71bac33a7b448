-- ===== src/Session/Results.antt =====
-- Results of external tools: AddToolResult, and WaitToolResult in its three critical sections.
use turnhive.Base.{
  ℕ, suc, ◌&&◌, Option, none, some, Bytes, leb, length, is_none, bytes_eq, nat_eq, if◌then◌else◌,
}
use turnhive.Base.Assoc.{lookup, insert, remove}
use turnhive.Session.State.{Session, ToolResult}

abbrev pub pending_tool_results_cap : ℕ
pending_tool_results_cap = 256

-- The pending buffer takes a result; `none` is the error "too many pending tool results".
unfoldable pub buffer_result : ToolResult → Session → Option Session
buffer_result r s =
    if is_none (lookup r.call_id s.pending) && leb pending_tool_results_cap (length s.pending)
    then none
    else some (record s { pending = insert r.call_id r s.pending })

unfoldable pub add_tool_result : ToolResult → Session → Option Session
unfolding buffer_result
add_tool_result r s = elim (lookup r.call_id s.waiters) [
  | some ch ↦ some (record s { waiters = remove r.call_id s.waiters; chans = insert ch r s.chans })
  | none ↦ buffer_result r s
]

-- WaitToolResult up to its select: the buffered result, or the channel that it waits on.
pub data Wait : Type 0 where
  got : ToolResult → Wait
  waiting : ℕ → Wait

unfoldable pub begin_wait : Bytes → Session → Session × Wait
begin_wait call_id s = elim (lookup call_id s.pending) [
  | some r ↦ (record s { pending = remove call_id s.pending }, got r)
  | none ↦ (
    record s { waiters = insert call_id s.next_chan s.waiters; next_chan = suc s.next_chan },
    waiting s.next_chan,
  )
]

-- `case r := <-ch`: what the channel holds, if anything.
unfoldable pub take_result : ℕ → Session → Session × Option ToolResult
take_result ch s = (record s { chans = remove ch s.chans }, lookup ch s.chans)

-- `case <-ctx.Done()`
unfoldable pub give_up : Bytes → Session → Session
give_up call_id s = record s { waiters = remove call_id s.waiters }
