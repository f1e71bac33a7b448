-- ===== src/Shell/Process.antt =====
-- A command of the shell tool, from its events to its outcome: the goroutine of sandboxShell.Execute and
-- watchBgProcess of agent/tools_sandbox.go. `decode_env` is what json.Unmarshal makes of a map.
use turnhive.Base.{Option, none, some, List, [], ◌∷◌, Bytes, ltb, length, bytes_eq, if◌then◌else◌}
use turnhive.Base.Int.{ℤ, negsuc, parse_int}
use turnhive.Patch.Parse.{trim_space}
use turnhive.Session.State.{BgProcessExit}
use turnhive.Workspace.{Got, missing, unreachable, file, max_get_file_bytes}
use turnhive.Shell.Wrapper.{ShellFiles}

pub data ShellEvent : Type 0 where
  pid exit cwd env : Bytes → ShellEvent
  other : ShellEvent

pub record ShellOutcome : Type 0 where
  pub exit_code : ℤ
  pub cwd : Bytes
  pub env : List (Bytes × Bytes)
  pub err : Option Bytes

-- What the callback has seen of the events: the number that it sent on the pid channel, and its outcome.
pub record Observed : Type 0 where
  pub pid : Option ℤ
  pub outcome : ShellOutcome

-- A command that ran to its end: its events, the error of the stream, and what getFile meets for its exit file.
pub record Process : Type 0 where
  pub events : List ShellEvent
  pub stream_error : Option Bytes
  pub exit_file : Got

-- strconv.Atoi(strings.TrimSpace(data))
abbrev pub atoi : Bytes → Option ℤ
atoi text = parse_int (trim_space text)

abbrev pub first_of : Option ℤ → Option ℤ → Option ℤ
first_of none next = next
first_of (some n) next = some n

abbrev pub or_kept : ℤ → Option ℤ → ℤ
or_kept kept none = kept
or_kept kept (some n) = n

abbrev pub nothing_seen : Observed
nothing_seen = record {
  pid = none;
  outcome = record { exit_code = negsuc 0; cwd = []; env = []; err = none };
}

-- getFile
abbrev pub whole_file : Got → Option Bytes
whole_file missing = none
whole_file unreachable = none
whole_file (file text) = if ltb max_get_file_bytes (length text) then none else some text

abbrev pub file_code : Option Bytes → Option ℤ
file_code none = none
file_code (some text) = atoi text

module _ (decode_env : Bytes → List (Bytes × Bytes) → List (Bytes × Bytes)) where
  abbrev pub observe : ShellEvent → Observed → Observed
  observe (pid text) o = record o { pid = first_of o.pid (atoi text) }
  observe (exit text) o = record o {
    outcome = record o.outcome { exit_code = or_kept o.outcome.exit_code (atoi text) };
  }
  observe (cwd text) o = record o { outcome = record o.outcome { cwd = trim_space text } }
  observe (env text) o = record o {
    outcome = record o.outcome { env = decode_env text o.outcome.env };
  }
  observe other o = o

  unfoldable pub observe_all : List ShellEvent → Observed → Observed
  observe_all [] o = o
  observe_all (e ∷ es) o = observe_all es (observe e o)

  -- The goroutine that runs a command: what it sends on `done`.
  abbrev pub done_with : Got → ShellOutcome → Option Bytes → ShellOutcome
  done_with exit_file o (some e) = record o { err = some e }
  done_with exit_file o none = record o {
    exit_code = or_kept o.exit_code (file_code (whole_file exit_file));
  }

  unfoldable pub ended : Process → ShellOutcome
  ended p = done_with p.exit_file (observe_all p.events nothing_seen).outcome p.stream_error

  unfoldable pub first_pid : Process → Option ℤ
  first_pid p = (observe_all p.events nothing_seen).pid

-- watchBgProcess on the outcome that it waits for.
abbrev pub exit_unless : Option Bytes → BgProcessExit → Option BgProcessExit
exit_unless none info = some info
exit_unless (some e) info = none

unfoldable pub watch_bg_process : ShellOutcome → ℤ → Bytes → ShellFiles → Option BgProcessExit
watch_bg_process o n command f = exit_unless o.err (record {
  pid = n;
  command = command;
  exit_code = o.exit_code;
  stdout_file = f.stdout;
  stderr_file = f.stderr;
  exit_file = f.exit;
})
