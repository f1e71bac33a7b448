-- ===== src/Provision/Accounts.antt =====
-- Every sandbox that is allocated for a session is installed in it or released.
use turnhive.Base.{ℕ, ◌≡◌, refl, ◌⊎◌, true, Option, none, some, is_some, List, [], ◌++◌, arith}
use turnhive.Loop.{load_history}
use turnhive.Session.State.{Session}
use turnhive.Session.Sandbox.{live_sandbox, set_sandbox, set_loop, listed}
use turnhive.Session.Step.{Op, run}
use turnhive.Provision.{Build, Ensured, build, ensure_sandbox}

-- What a call that found no live sandbox did to the session `s` that it then met: the sandbox built is the
-- live one, with its loop and its renewal; or the call failed, and what was built is released.
pub record Builds (b : Build) (s : Session) (r : Ensured) : Type 0 where
  pub accounted : listed b.allocated ++ listed s.sandbox ≡ r.released ++ listed r.session.sandbox
  pub outcome :
      ((r.failed ≡ none)
        × (live_sandbox r.session ≡ b.allocated)
        × (is_some b.allocated ≡ true)
        × (r.session.loop ≡ some b.loop)
        × (r.session.stop_renew ≡ some b.stop_renew)
        × (r.stopped ≡ []))
      ⊎ ((is_some r.failed ≡ true)
          × (r.released ≡ listed b.allocated)
          × (r.session.sandbox ≡ none)
          × (r.session.closed ≡ s.closed))

build-Builds :
    (b : Build) (s : Session) (o : Option ℕ)
    → b.allocated ≡ o
    → s.sandbox ≡ none
    → Builds b s (build b s o)
unfolding live_sandbox set_sandbox set_loop load_history
build-Builds b s none e alone = record { accounted = ground arith; outcome = ground arith }
build-Builds b s (some sb) e alone = record { accounted = ground arith; outcome = ground arith }

-- Where no sandbox is live when the call comes and no other is installed meanwhile, every sandbox allocated
-- is accounted for on every path, also where the session is closed meanwhile: it is installed, live, with
-- its loop and renewal, or it is released, the session has none, and the call fails.
pub ensure_sandbox-Builds :
    (b : Build) (meanwhile : List Op) (s : Session)
    → live_sandbox s ≡ none
    → (run s meanwhile).sandbox ≡ none
    → Builds b (run s meanwhile) (ensure_sandbox b meanwhile s)
unfolding ensure_sandbox
ensure_sandbox-Builds b meanwhile s idle alone =
    rw idle (build-Builds b (run s meanwhile) b.allocated refl alone)
