-- ===== src/Session/Exits.antt =====
-- Exits of background processes: queued, drained into one notification, put back if that cannot start.
use turnhive.Base.{◌≡◌, ◌∙◌, sym, ap, false, List, [], ◌∷◌, ◌++◌, arith, append_assoc, append-nil}
use turnhive.Session.State.{Session, BgProcessExit}
use turnhive.Session.Records.{
  record_background_exit, take_background_exits, requeue_background_exits,
}

-- The exits that arrive while a drain has the queue in its hands.
unfoldable pub record_all : List BgProcessExit → Session → Session
record_all [] s = s
record_all (e ∷ es) s = record_all es (record_background_exit e s)

record_open :
    (e : BgProcessExit) (s : Session)
    → s.closed ≡ false
    → record_background_exit e s ≡ record s { bg_exited = s.bg_exited ++ e ∷ [] }
unfolding record_background_exit
record_open e s h = ground arith

record_all-open :
    (es : List BgProcessExit) (s : Session)
    → s.closed ≡ false
    → record_all es s ≡ record s { bg_exited = s.bg_exited ++ es }
unfolding record_all
record_all-open [] s h = ap (λ q. record s { bg_exited = q }) (sym (append-nil s.bg_exited))
record_all-open (e ∷ es) s h =
    ap (record_all es) (record_open e s h)
    ∙ record_all-open es (record s { bg_exited = s.bg_exited ++ e ∷ [] }) h
    ∙ ap (λ q. record s { bg_exited = q }) (append_assoc s.bg_exited (e ∷ []) es)

take_open :
    (s : Session)
    → s.closed ≡ false
    → take_background_exits s ≡ (record s { bg_exited = [] }, s.bg_exited)
unfolding take_background_exits
take_open s h = ground arith

requeue_open :
    (es : List BgProcessExit) (s : Session)
    → s.closed ≡ false
    → requeue_background_exits es s ≡ record s { bg_exited = es ++ s.bg_exited }
unfolding requeue_background_exits
requeue_open es s h = ground arith

-- A drain that finds the session busy loses nothing and keeps the order: in an open session the queue
-- is taken, further exits arrive, and what was taken is put back; then the session is as if the exits
-- had arrived with no drain at all.
pub requeue_restores :
    (s : Session) (es : List BgProcessExit)
    → s.closed ≡ false
    → requeue_background_exits
        (take_background_exits s).1
        (record_all es (take_background_exits s).0)
      ≡ record_all es s
requeue_restores s es h =
    ap (λ p. requeue_background_exits p.1 (record_all es p.0)) (take_open s h)
    ∙ ap (requeue_background_exits s.bg_exited) (record_all-open es (record s { bg_exited = [] }) h)
    ∙ requeue_open s.bg_exited (record s { bg_exited = es }) h
    ∙ sym (record_all-open es s h)
