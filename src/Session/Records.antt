-- ===== src/Session/Records.antt =====
-- What a session remembers beside its turn: persisted objects, attached files, background exits.
use turnhive.Base.{List, [], ◌∷◌, ◌++◌, bytes_eq, if◌then◌else◌}
use turnhive.Base.Assoc.{insert}
use turnhive.Session.State.{Session, PersistedObject, FileRecord, BgProcessExit}

unfoldable pub record_persisted : PersistedObject → Session → Session
record_persisted obj s = record s { persisted = insert obj.path obj s.persisted }

unfoldable pub record_file : FileRecord → Session → Session
record_file u s = record s { files = insert u.name u s.files }

unfoldable pub record_background_exit : BgProcessExit → Session → Session
record_background_exit info s =
    if s.closed then s else record s { bg_exited = s.bg_exited ++ info ∷ [] }

unfoldable pub take_background_exits : Session → Session × List BgProcessExit
take_background_exits s = if s.closed then (s, []) else (record s { bg_exited = [] }, s.bg_exited)

unfoldable pub requeue_background_exits : List BgProcessExit → Session → Session
requeue_background_exits exits s =
    if s.closed then s else record s { bg_exited = exits ++ s.bg_exited }
