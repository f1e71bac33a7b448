-- ===== src/Sse.antt =====
-- controller/sse.go: the text of a session's event stream, and what handleSessionEvents
-- (controller/controller.go) writes into it.
pub mod Client
pub mod Lines
pub mod Frames
pub mod RoundTrip
pub mod Connection
use turnhive.Base.{
  ℕ, Option, none, some, List, [], ◌∷◌, ◌++◌, map, Bytes, codes, ltb, leb, ◌^◌, if◌then◌else◌,
}
use turnhive.Base.Decimal.{decimal}
use turnhive.Base.Int.{ℤ, pos, negsuc, parse_int}
use turnhive.Truncate.{newline}
use turnhive.Hub.{HubEvent, Subscription}

-- fmt.Fprintf(w, "id: %d\nevent: %s\ndata: %s\n\n", ev.seq, ev.name, ev.data)
unfoldable pub write_sse_frame : HubEvent → Bytes
write_sse_frame ev =
    (codes "id: " ++ decimal ev.seq)
    ++ newline
      ∷ ((codes "event: " ++ ev.name)
          ++ newline ∷ ((codes "data: " ++ ev.data_) ++ newline ∷ newline ∷ []))

-- The sync frame, of its marshalled payload.
unfoldable pub write_sse_sync : Bytes → Bytes
write_sse_sync payload =
    codes "event: sync" ++ newline ∷ ((codes "data: " ++ payload) ++ newline ∷ newline ∷ [])

unfoldable pub sse_keepalive_comment : Bytes
sse_keepalive_comment = codes ": keepalive" ++ newline ∷ newline ∷ []

-- What the handler writes, one at a time. A sync frame whose payload does not marshal is left out.
pub data Write : Type 0 where
  frame : HubEvent → Write
  keepalive : Write
  sync : Option Bytes → Write

unfoldable pub written : Write → Bytes
written (frame ev) = write_sse_frame ev
written keepalive = sse_keepalive_comment
written (sync none) = []
written (sync (some payload)) = write_sse_sync payload

-- The body of the response.
unfoldable pub stream_of : List Write → Bytes
stream_of [] = []
stream_of (w ∷ ws) = written w ++ stream_of ws

-- The handler's writes before its loop.
unfoldable pub opening : Option Bytes → Subscription → List Write
opening payload sub = sync payload ∷ map frame sub.backlog
