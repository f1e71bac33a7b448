-- ===== src/Provision.antt =====
-- controller/sandbox.go: the sandbox of a session, built anew where none is live, and its lease renewal.
-- What ironhive and the transfers answer is in a `Build`; what other goroutines call on the session
-- meanwhile is a list of operations.
pub mod Accounts
use turnhive.Base.{
  ℕ, ◌/◌, Bool, true, false, not, Option, none, some, List, [], ◌∷◌, Bytes, ltb, is_some,
  if◌then◌else◌,
}
use turnhive.Llm.{Message}
use turnhive.Llm.Retry.{second}
use turnhive.Loop.{Loop, Loading, load_history}
use turnhive.Session.State.{Session}
use turnhive.Session.Sandbox.{Detached, live_sandbox, set_sandbox, take_sandbox, set_loop, listed}
use turnhive.Session.Step.{Op, run}

-- Allocate's sandbox, whether the skills, the persisted files and the user's files went into it, what the
-- history store's Load returns, and the new loop and renewal.
pub record Build : Type 0 where
  pub allocated : Option ℕ
  pub skills_installed : Bool
  pub persisted_restored : Bool
  pub files_injected : Bool
  pub loading : Loading
  pub loop : ℕ
  pub stop_renew : ℕ

pub data BuildError : Type 0 where
  not_allocated skills_failed restore_failed inject_failed history_failed closed_meanwhile :
      BuildError

-- The session, the sandboxes released, the renewals stopped, and the error.
pub record Ensured : Type 0 where
  pub session : Session
  pub released : List ℕ
  pub stopped : List ℕ
  pub failed : Option BuildError

abbrev pub fails : Session → List ℕ → BuildError → Ensured
fails s released err = record { session = s; released = released; stopped = []; failed = some err }

-- A loop that NewLoop made.
abbrev pub fresh_loop : Loop
fresh_loop = record { busy = false; history = []; hist_ready = false }

-- The loop that is built, with its history loaded.
abbrev pub built_loop : Build → Loop
built_loop b = (load_history b.loading fresh_loop).0

abbrev pub install : Build → ℕ → Session → Ensured
install b sb s =
    let (t, installed) = set_sandbox sb b.stop_renew (set_loop b.loop s) in
    if installed
    then record { session = t; released = []; stopped = []; failed = none }
    else record {
      session = t;
      released = sb ∷ [];
      stopped = b.stop_renew ∷ [];
      failed = some closed_meanwhile;
    }

-- From the allocation on.
abbrev pub build : Build → Session → Option ℕ → Ensured
build b s none = fails s [] not_allocated
build b s (some sb) =
    if not b.skills_installed
    then fails s (sb ∷ []) skills_failed
    else if not b.persisted_restored
    then fails s (sb ∷ []) restore_failed
    else if not b.files_injected
    then fails s (sb ∷ []) inject_failed
    else if is_some (load_history b.loading fresh_loop).1
    then fails s (sb ∷ []) history_failed
    else install b sb s

abbrev pub unless_live : Build → List Op → Session → Option ℕ → Ensured
unless_live b meanwhile s (some sb) = record {
  session = s;
  released = [];
  stopped = [];
  failed = none;
}
unless_live b meanwhile s none = build b (run s meanwhile) b.allocated

unfoldable pub ensure_sandbox : Build → List Op → Session → Ensured
ensure_sandbox b meanwhile s = unless_live b meanwhile s (live_sandbox s)

-- releaseSessionSandbox: the session, what is released, and what is stopped.
unfoldable pub release_session_sandbox : Session → Session × List ℕ
release_session_sandbox s = let (t, d) = take_sandbox s in (t, listed d.sandbox)

-- The interval of renewSandbox, in nanoseconds, for a lease of so many.
unfoldable pub renew_interval : ℕ → ℕ
renew_interval lease = if ltb (lease / 2) second then second else lease / 2
