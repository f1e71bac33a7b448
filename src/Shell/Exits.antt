-- ===== src/Shell/Exits.antt =====
-- A command in the background that exits by itself: from its outcome to the turn that hears of it.
use turnhive.Base.{
  codes, true, ℕ, ◌≡◌, ◌≢◌, ◌⊎◌, false, Option, none, some, List, [], ◌∷◌, ◌++◌, Bytes, All,
  bytes_eq,
}
use turnhive.Base.Int.{ℤ, int_text, is_negative}
use turnhive.Hub.{Payload}
use turnhive.Session.State.{Session, BgProcessExit}
use turnhive.Session.Turns.{new_turn_id}
use turnhive.Turn.{exit_code_text, Conversation, Fresh, Turn, end_turn}
use turnhive.Shell.Process.{Process}
use turnhive.Shell.Wrapper.{ShellFiles}
use turnhive.Shell.Codes.{reported_code}

-- A text tells of an exit: it has the pid, the command, the exit code, which is unknown below 0, and the files.
abbrev pub IsTold : Bytes → BgProcessExit → Type 0
IsTold content e =
    (before : Bytes) × (code : Bytes) × (after : Bytes) × (((is_negative e.exit_code ≡ true)
        × (code ≡ codes "unknown"))
      ⊎ ((is_negative e.exit_code ≡ false) × (code ≡ int_text e.exit_code)))
    × (content
        ≡ before
          ++ (codes "\n<process>\npid: "
              ++ (int_text e.pid
                  ++ (codes "\ncommand: "
                      ++ (e.command
                          ++ (codes "\nexit_code: "
                              ++ (code
                                  ++ (codes "\nstdout: "
                                      ++ (e.stdout_file
                                          ++ (codes "\nstderr: "
                                              ++ (e.stderr_file
                                                  ++ (codes "\n</process>\n" ++ after))))))))))))

-- A text in parts, in front of another.
glue : List Bytes → Bytes → Bytes
glue [] text = text
glue (p ∷ ps) text = p ++ glue ps text

block : BgProcessExit → List Bytes
block e =
    codes "\n<process>\npid: "
    ∷ int_text e.pid
    ∷ codes "\ncommand: "
    ∷ e.command
    ∷ codes "\nexit_code: "
    ∷ exit_code_text e.exit_code
    ∷ codes "\nstdout: "
    ∷ e.stdout_file
    ∷ codes "\nstderr: "
    ∷ e.stderr_file
    ∷ codes "\n</process>\n"
    ∷ []

-- What is told of a command that exited.
abbrev pub exit_of : Process → ℤ → Bytes → ShellFiles → BgProcessExit
exit_of p n command f = record {
  pid = n;
  command = command;
  exit_code = reported_code p;
  stdout_file = f.stdout;
  stderr_file = f.stderr;
  exit_file = f.exit;
}

module _ (marshal : Payload → Option Bytes) where
  -- A turn whose message tells each of these exits.
  abbrev pub Tells : Fresh → List BgProcessExit → Option Turn → Type 0
  Tells fresh exits t =
      (content : Bytes) × (t
        ≡ some (record { turn_id = new_turn_id fresh.ulid; content = content }))
      × All (IsTold content) exits

  -- The exit is heard: at once, or else when the turn that runs ends.
  abbrev pub Heard :
      Fresh → Fresh → ℕ → List BgProcessExit → Session → Conversation × Option Turn → Type 0
  Heard fresh next now exits s (c', t) =
      ((s.turn_id ≡ []) × Tells fresh exits t × (c'.session.bg_exited ≡ []))
      ⊎ ((s.turn_id ≢ [])
          × (t ≡ none)
          × (c'.session.bg_exited ≡ exits)
          × (c'' : Conversation) × (u : Option Turn) × (end_turn marshal now next c'
              ≡ some (c'', u))
          × Tells next exits u
          × (c''.session.bg_exited ≡ []))
