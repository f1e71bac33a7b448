-- ===== src/Session/Sandbox.antt =====
-- The sandbox and its lease renewal: liveSandbox, setSandbox, takeSandbox, takeSandboxIfIdle,
-- closeSession, takeIfCold, getLoop, setLoop.
use turnhive.Base.{
  ℕ, ◌-◌, Bool, true, false, not, Option, none, some, List, [], ◌∷◌, ltb, ◌||◌, ◌==◌, bytes_eq,
  if◌then◌else◌,
}
use turnhive.Session.State.{Session}

-- What is detached, for the caller to stop and to release.
pub record Detached : Type 0 where
  pub sandbox : Option ℕ
  pub stop : Option ℕ

abbrev pub nothing : Detached
nothing = record { sandbox = none; stop = none }

-- The sandbox, if any.
abbrev pub listed : Option ℕ → List ℕ
listed none = []
listed (some sb) = sb ∷ []

unfoldable pub live_sandbox : Session → Option ℕ
live_sandbox s = if s.closed then none else s.sandbox

-- Whether the sandbox was installed.
unfoldable pub set_sandbox : ℕ → ℕ → Session → Session × Bool
set_sandbox sb stop_renew s =
    if s.closed
    then (s, false)
    else (record s { sandbox = some sb; stop_renew = some stop_renew }, true)

unfoldable pub take_sandbox : Session → Session × Detached
take_sandbox s = (
  record s { sandbox = none; stop_renew = none },
  record { sandbox = s.sandbox; stop = s.stop_renew },
)

-- time.Since(s.lastActivity) < d, on a clock that does not run backwards.
abbrev pub active_within : ℕ → ℕ → Session → Bool
active_within d now s = ltb (now - s.last_activity) d

unfoldable pub take_sandbox_if_idle : ℕ → ℕ → Session → Session × Detached
unfolding take_sandbox
take_sandbox_if_idle d now s =
    if not (s.turn_id == []) || active_within d now s then (s, nothing) else take_sandbox s

unfoldable pub close_session : Session → Session × Detached
unfolding take_sandbox
close_session s = take_sandbox (record s { closed = true })

-- Beside what is detached, whether the session was taken.
unfoldable pub take_if_cold : ℕ → ℕ → Session → Session × Detached × Bool
unfolding close_session
take_if_cold d now s =
    if s.closed || not (s.turn_id == []) || active_within d now s
    then (s, nothing, false)
    else ((close_session s).0, (close_session s).1, true)

unfoldable pub set_loop : ℕ → Session → Session
set_loop l s = record s { loop = some l }
