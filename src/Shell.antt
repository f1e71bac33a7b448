-- ===== src/Shell.antt =====
-- The shell tool of agent/tools_sandbox.go: a call, on what it meets on its channels and timers (`Met`), and the
-- state that it threads. Shell/Process has what becomes of the command, Shell/Wrapper the text that runs it and
-- its files, Shell/Output the text of a reply. The order of a map's entries is that of its list.
pub mod Process
pub mod Wrapper
pub mod Output
pub mod Codes
pub mod Settled
pub mod Threads
pub mod Exits
use turnhive.Base.{
  ℕ, zero, suc, ◌*◌, ◌-◌, Bool, true, false, ◌&&◌, ◌||◌, Option, none, some, List, [], ◌∷◌, ◌++◌,
  map, Bytes, codes, eqb, ltb, length, take, ◌==◌, bytes_eq, if◌then◌else◌,
}
use turnhive.Base.Int.{ℤ, pos, negsuc, is_negative, int_text, parse_int}
use turnhive.Base.Split.{join}
use turnhive.Truncate.{newline}
use turnhive.Truncate.Utf8.{rune_width, step_width}
use turnhive.Files.{is_alphanumeric}
use turnhive.Patch.Parse.{trim_space}
use turnhive.Session.State.{BgProcessExit}
use turnhive.Workspace.{Got, missing, unreachable, file, max_get_file_bytes, clean, slash}
use turnhive.Shell.Process.{ShellOutcome}
use turnhive.Shell.Wrapper.{ShellFiles, files_of, build_shell_wrapper, shell_logs_dir, log_base}
use turnhive.Shell.Output.{capped, format_output}

-- The state that is threaded through the calls: shellCwd and shellEnv.
pub record ShellState : Type 0 where
  pub cwd : Bytes
  pub env : Option (List Bytes)

pub record ShellOptions : Type 0 where
  pub cwd : Bytes
  pub env : Option (List Bytes)

abbrev pub options_if : ShellState → Option (List Bytes) → Option ShellOptions
options_if s none = if s.cwd == [] then none else some (record { cwd = s.cwd; env = none })
options_if s (some vars) = some (record { cwd = s.cwd; env = some vars })

unfoldable pub shell_options : ShellState → Option ShellOptions
shell_options s = options_if s s.env

-- Which channel or timer the first wait of a call ends with, and the second.
pub data Start : Type 0 where
  pid_came : ℤ → Start
  done_early : ShellOutcome → Start
  no_pid : Start
  start_aborted : Bytes → Start

-- When the foreground window is over, the outcome may have come just then.
pub data Window : Type 0 where
  done : ShellOutcome → Window
  window_over : Option ShellOutcome → Window
  window_aborted : Bytes → Window

pub record Met : Type 0 where
  pub start : Start
  pub window : Window
  pub get_file : Bytes → Got

pub data ShellError : Type 0 where
  command_required no_pid_event stdout_unread stderr_unread : ShellError
  stream_failed aborted : Bytes → ShellError

pub data ShellReply : Type 0 where
  completed in_background : Bytes → ShellReply
  refused : ShellError → ShellReply

-- What a call leaves: the state, its reply, whether it cancelled the command, and whether it watches it.
pub record ShellCall : Type 0 where
  pub state : ShellState
  pub reply : ShellReply
  pub killed : Bool
  pub watched : Bool

abbrev pub pair_text : Bytes × Bytes → Bytes
pair_text (k, v) = k ++ (codes "=" ++ v)

-- The first part of foregroundResult.
unfoldable pub thread_state : ShellOutcome → ShellState → ShellState
thread_state o s = record {
  cwd = if o.cwd == [] then s.cwd else o.cwd;
  env = if eqb (length o.env) 0 then s.env else some (map pair_text o.env);
}

abbrev pub ends : ShellState → ShellReply → ShellCall
ends s reply = record { state = s; reply = reply; killed = false; watched = false }

abbrev pub kills : ShellState → ShellError → ShellCall
kills s e = record { state = s; reply = refused e; killed = true; watched = false }

abbrev pub with_stderr : ShellFiles → ShellState → ℤ → Bytes × Bool → Got → ShellCall
with_stderr f s code out (file text) = ends s (completed (format_output f code out (capped text)))
with_stderr f s code out missing = ends s (refused stderr_unread)
with_stderr f s code out unreachable = ends s (refused stderr_unread)

abbrev pub with_stdout : ShellFiles → ShellState → ℤ → (Bytes → Got) → Got → ShellCall
with_stdout f s code get_file (file text) = with_stderr f s code (capped text) (get_file f.stderr)
with_stdout f s code get_file missing = ends s (refused stdout_unread)
with_stdout f s code get_file unreachable = ends s (refused stdout_unread)

-- foregroundResult
unfoldable pub foreground_result :
    ShellFiles → (Bytes → Got) → ShellState → ShellOutcome → ShellCall
foreground_result f get_file s o =
    with_stdout f (thread_state o s) o.exit_code get_file (get_file f.stdout)

abbrev pub finish_if :
    ShellFiles → (Bytes → Got) → ShellState → ShellOutcome → Option Bytes → ShellCall
finish_if f get_file s o none = foreground_result f get_file s o
finish_if f get_file s o (some e) = ends s (refused (stream_failed e))

abbrev pub finish : ShellFiles → (Bytes → Got) → ShellState → ShellOutcome → ShellCall
finish f get_file s o = finish_if f get_file s o o.err

-- The second line has an em dash, in UTF-8.
abbrev pub notice_text : Bytes
notice_text =
    codes "\nYou will be notified automatically when it exits "
    ++ (0xe2
        ∷ 0x80
        ∷ 0x94
        ∷ codes
            " no need to poll the exit code file.\nCheck output with tail/cat; stop it (whole process group) with: kill -- -")

unfoldable pub background_text : ℤ → ShellFiles → Bytes
background_text n f =
    codes "Command is running in the background (pid "
    ++ (int_text n
        ++ (codes ").\nstdout: "
            ++ (f.stdout
                ++ (codes "\nstderr: "
                    ++ (f.stderr
                        ++ (codes "\nexit code file (written on exit): "
                            ++ (f.exit ++ (notice_text ++ int_text n))))))))

abbrev pub backgrounds : Bool → ShellFiles → ShellState → ℤ → ShellCall
backgrounds on_exit f s n = record {
  state = s;
  reply = in_background (background_text n f);
  killed = false;
  watched = on_exit;
}

abbrev pub after_window : Bool → ShellFiles → (Bytes → Got) → ShellState → ℤ → Window → ShellCall
after_window on_exit f get_file s n (done o) = finish f get_file s o
after_window on_exit f get_file s n (window_over (some o)) = finish f get_file s o
after_window on_exit f get_file s n (window_over none) = backgrounds on_exit f s n
after_window on_exit f get_file s n (window_aborted e) = kills s (aborted e)

abbrev pub after_start : Bool → Bool → ShellFiles → Met → ShellState → Start → ShellCall
after_start on_exit bg f m s (pid_came n) =
    if bg then backgrounds on_exit f s n else after_window on_exit f m.get_file s n m.window
after_start on_exit bg f m s (done_early o) = finish f m.get_file s o
after_start on_exit bg f m s no_pid = kills s no_pid_event
after_start on_exit bg f m s (start_aborted e) = kills s (aborted e)

-- sandboxShell.Execute of decoded arguments; `on_exit` tells whether onBgExit is set.
unfoldable pub execute_shell : Bool → Bytes → Bytes → Bool → Met → ShellState → ShellCall
execute_shell on_exit call_id command bg m s =
    if command == []
    then ends s (refused command_required)
    else after_start on_exit bg (files_of s.cwd call_id) m s m.start

-- What it sends to the sandbox: the text that runs the command, and the options.
unfoldable pub shell_request : Bytes → Bytes → ShellState → Bytes × Option ShellOptions
shell_request call_id command s =
    (build_shell_wrapper command shell_logs_dir (log_base call_id), shell_options s)
