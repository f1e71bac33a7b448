-- ===== src/Shell/Settled.antt =====
-- How a call of the shell tool ends, whichever channel or timer its waits end with.
use turnhive.Base.{◌≡◌, Bool, true, false, none, some, List, ◌∷◌, ◌++◌, Bytes, bytes_eq}
use turnhive.Base.Int.{ℤ}
use turnhive.Truncate.{newline}
use turnhive.Shell.Process.{Process, ended}
use turnhive.Shell.Wrapper.{ShellFiles}
use turnhive.Shell.Output.{exit_line}
use turnhive.Shell.Codes.{pid_of, reported_code}
use turnhive.Shell.{
  ShellState, Start, pid_came, done_early, Window, done, window_over, ShellError, command_required,
  no_pid_event, stdout_unread, stderr_unread, stream_failed, aborted, ShellReply, completed,
  in_background, refused, ShellCall, thread_state, background_text,
}

module _ (decode_env : Bytes → List (Bytes × Bytes) → List (Bytes × Bytes)) (p : Process)
    (on_exit : Bool) (f : ShellFiles) (s : ShellState) where
  -- What a call meets comes from the command: its pid, and its outcome.
  abbrev pub StartFits : Start → Type 0
  StartFits (pid_came n) = pid_of p.events ≡ some n
  StartFits (done_early o) = o ≡ ended decode_env p
  StartFits _ = Unit

  abbrev pub WindowFits : Window → Type 0
  WindowFits (done o) = o ≡ ended decode_env p
  WindowFits (window_over (some o)) = o ≡ ended decode_env p
  WindowFits _ = Unit

  -- The state behind a refusal, and whether the command was killed.
  abbrev pub Refusal : ShellError → ShellState → Bool → Type 0
  Refusal command_required t killed = (t ≡ s) × (killed ≡ false)
  Refusal (stream_failed e) t killed = (p.stream_error ≡ some e) × (t ≡ s) × (killed ≡ false)
  Refusal no_pid_event t killed = (t ≡ s) × (killed ≡ true)
  Refusal (aborted e) t killed = (t ≡ s) × (killed ≡ true)
  Refusal stdout_unread t killed = (t ≡ thread_state (ended decode_env p) s) × (killed ≡ false)
  Refusal stderr_unread t killed = (t ≡ thread_state (ended decode_env p) s) × (killed ≡ false)

  abbrev pub ReplyFits : ShellReply → ShellState → Bool → Bool → Type 0
  ReplyFits (completed text) t killed watched =
      ((head : Bytes) × (text ≡ head ++ newline ∷ exit_line (reported_code p)))
      × (p.stream_error ≡ none)
      × (t ≡ thread_state (ended decode_env p) s)
      × (killed ≡ false)
      × (watched ≡ false)
  ReplyFits (in_background text) t killed watched =
      ((n : ℤ) × (pid_of p.events ≡ some n) × (text ≡ background_text n f))
      × (t ≡ s)
      × (killed ≡ false)
      × (watched ≡ on_exit)
  ReplyFits (refused e) t killed watched = Refusal e t killed × (watched ≡ false)

  abbrev pub Settled : ShellCall → Type 0
  Settled c = ReplyFits c.reply c.state c.killed c.watched
