-- ===== src/Shell/Threads.antt =====
-- The directory and the variables of a session's shell over its calls.
use turnhive.Base.{
  ◌≡◌, refl, sym, ap, ◌∙◌, inl, inr, Bool, true, false, Bool-cases, Option, none, some, List, [],
  ◌∷◌, ◌++◌, map, Bytes, arith, eqb, length, ◌==◌, bytes_eq, if◌then◌else◌,
}
use turnhive.Workspace.{Got, missing, unreachable, file}
use turnhive.Shell.Process.{ShellOutcome}
use turnhive.Shell.Wrapper.{ShellFiles, files_of}
use turnhive.Shell.{
  ShellState, Start, pid_came, done_early, no_pid, start_aborted, Window, done, window_over,
  window_aborted, Met, pair_text, thread_state, with_stderr, with_stdout, foreground_result,
  finish_if, finish, after_window, after_start, execute_shell,
}

-- A call of the shell tool with what it meets.
pub record Asked : Type 0 where
  pub call_id : Bytes
  pub command : Bytes
  pub bg : Bool
  pub met : Met

unfoldable pub run_calls : Bool → List Asked → ShellState → ShellState
run_calls on_exit [] s = s
run_calls on_exit (a ∷ calls) s =
    run_calls on_exit calls (execute_shell on_exit a.call_id a.command a.bg a.met s).state

-- The outcome of a command that ended while its call waited for it, with no error of its stream.
abbrev pub unless_failed : ShellOutcome → Option Bytes → List ShellOutcome
unless_failed o none = o ∷ []
unless_failed o (some e) = []

abbrev pub in_window : Window → List ShellOutcome
in_window (done o) = unless_failed o o.err
in_window (window_over (some o)) = unless_failed o o.err
in_window _ = []

abbrev pub in_foreground : Bool → Window → Start → List ShellOutcome
in_foreground bg w (pid_came n) = if bg then [] else in_window w
in_foreground bg w (done_early o) = unless_failed o o.err
in_foreground bg w _ = []

unfoldable pub ended_in_foreground : Asked → List ShellOutcome
ended_in_foreground a = if a.command == [] then [] else in_foreground a.bg a.met.window a.met.start

abbrev pub or_default {ℓ} : {A : Type ℓ} → Option A → A → A
or_default none a = a
or_default (some b) a = b

abbrev pub or_earlier {ℓ} : {A : Type ℓ} → Option A → Option A → Option A
or_earlier none a = a
or_earlier (some b) a = some b

-- What the last outcome that reports something reports.
abbrev pub cwd_of : ShellOutcome → Option Bytes
cwd_of o = if o.cwd == [] then none else some o.cwd

abbrev pub env_of : ShellOutcome → Option (List Bytes)
env_of o = if eqb (length o.env) 0 then none else some (map pair_text o.env)

unfoldable pub last_reported {ℓ} :
    {A : Type ℓ} → (ShellOutcome → Option A) → List ShellOutcome → Option A
last_reported report [] = none
last_reported report (o ∷ os) = or_earlier (last_reported report os) (report o)

unfoldable pub all_ended : List Asked → List ShellOutcome
all_ended [] = []
all_ended (a ∷ calls) = ended_in_foreground a ++ all_ended calls

-- The outcomes threaded one by one.
unfoldable thread_all : List ShellOutcome → ShellState → ShellState
thread_all [] s = s
thread_all (o ∷ os) s = thread_all os (thread_state o s)

thread_all-append :
    (os ps : List ShellOutcome) (s : ShellState)
    → thread_all (os ++ ps) s ≡ thread_all ps (thread_all os s)
unfolding thread_all
thread_all-append [] ps s = refl
thread_all-append (o ∷ os) ps s = thread_all-append os ps (thread_state o s)

or_default-earlier {ℓ} :
    {A : Type ℓ} (a b : Option A) (c : A)
    → or_default (or_earlier a b) c ≡ or_default a (or_default b c)
or_default-earlier none b c = refl
or_default-earlier (some x) b c = refl

or_earlier_assoc {ℓ} :
    {A : Type ℓ} (a b c : Option A) → or_earlier (or_earlier a b) c ≡ or_earlier a (or_earlier b c)
or_earlier_assoc none b c = refl
or_earlier_assoc (some x) b c = refl

thread_all-cwd :
    (os : List ShellOutcome) (s : ShellState)
    → (thread_all os s).cwd ≡ or_default (last_reported cwd_of os) s.cwd
unfolding thread_all last_reported thread_state
thread_all-cwd [] s = refl
thread_all-cwd (o ∷ os) s =
    thread_all-cwd os (thread_state o s)
    ∙ ap (or_default (last_reported cwd_of os)) (ground arith)
    ∙ sym (or_default-earlier (last_reported cwd_of os) (cwd_of o) s.cwd)

thread_all-env :
    (os : List ShellOutcome) (s : ShellState)
    → (thread_all os s).env ≡ or_earlier (last_reported env_of os) s.env
unfolding thread_all last_reported thread_state
thread_all-env [] s = refl
thread_all-env (o ∷ os) s =
    thread_all-env os (thread_state o s)
    ∙ ap (or_earlier (last_reported env_of os)) (ground arith)
    ∙ sym (or_earlier_assoc (last_reported env_of os) (env_of o) s.env)

finish-threads :
    (f : ShellFiles) (get_file : Bytes → Got) (s : ShellState) (o : ShellOutcome)
    → (finish f get_file s o).state ≡ thread_all (unless_failed o o.err) s
unfolding foreground_result thread_all
finish-threads f get_file s o = by_error o.err
  where
    by_stderr :
        (out : Bytes × Bool) (got : Got)
        → (with_stderr f (thread_state o s) o.exit_code out got).state ≡ thread_state o s
    by_stderr out missing = refl
    by_stderr out unreachable = refl
    by_stderr out (file text) = refl

    by_stdout :
        (got : Got)
        → (with_stdout f (thread_state o s) o.exit_code get_file got).state ≡ thread_state o s
    by_stdout missing = refl
    by_stdout unreachable = refl
    by_stdout (file text) = by_stderr _ (get_file f.stderr)

    by_error :
        (e : Option Bytes) → (finish_if f get_file s o e).state ≡ thread_all (unless_failed o e) s
    by_error none = by_stdout (get_file f.stdout)
    by_error (some e) = refl

after_start-threads :
    (on_exit bg : Bool) (f : ShellFiles) (m : Met) (s : ShellState) (st : Start)
    → (after_start on_exit bg f m s st).state ≡ thread_all (in_foreground bg m.window st) s
unfolding thread_all
after_start-threads on_exit true f m s (pid_came n) = refl
after_start-threads on_exit false f m s (pid_came n) = by_window m.window
  where
    by_window :
        (w : Window) → (after_window on_exit f m.get_file s n w).state ≡ thread_all (in_window w) s
    by_window (done o) = finish-threads f m.get_file s o
    by_window (window_over (some o)) = finish-threads f m.get_file s o
    by_window (window_over none) = refl
    by_window (window_aborted e) = refl
after_start-threads on_exit bg f m s (done_early o) = finish-threads f m.get_file s o
after_start-threads on_exit bg f m s no_pid = refl
after_start-threads on_exit bg f m s (start_aborted e) = refl

execute_shell-threads :
    (on_exit : Bool) (a : Asked) (s : ShellState)
    → (execute_shell on_exit a.call_id a.command a.bg a.met s).state
      ≡ thread_all (ended_in_foreground a) s
unfolding execute_shell ended_in_foreground thread_all
execute_shell-threads on_exit a s = elim (Bool-cases (a.command == [])) [
  | inl empty ↦ rw empty refl
  | inr given ↦
      rw given (after_start-threads on_exit a.bg (files_of s.cwd a.call_id) a.met s a.met.start)
]

run_calls-threads :
    (on_exit : Bool) (calls : List Asked) (s : ShellState)
    → run_calls on_exit calls s ≡ thread_all (all_ended calls) s
unfolding run_calls all_ended thread_all
run_calls-threads on_exit [] s = refl
run_calls-threads on_exit (a ∷ calls) s =
    run_calls-threads on_exit calls _
    ∙ ap (thread_all (all_ended calls)) (execute_shell-threads on_exit a s)
    ∙ sym (thread_all-append (ended_in_foreground a) (all_ended calls) s)

-- cd and export persist: after any calls of the shell tool, the next runs in the directory that the last of them
-- to report one left, and with the variables of the last to report some, or else with those from before. Only
-- commands that ended while their call waited for them count: what was in the background, failed or was killed
-- changes neither, and an outcome without variables clears none.
pub run_calls-reported :
    (on_exit : Bool) (calls : List Asked) (s : ShellState)
    → let t = run_calls on_exit calls s in
      (t.cwd ≡ or_default (last_reported cwd_of (all_ended calls)) s.cwd)
      × (t.env ≡ or_earlier (last_reported env_of (all_ended calls)) s.env)
run_calls-reported on_exit calls s =
    let same = run_calls-threads on_exit calls s in
    (
      ap (λ t. t.cwd) same ∙ thread_all-cwd (all_ended calls) s,
      ap (λ t. t.env) same ∙ thread_all-env (all_ended calls) s,
    )
