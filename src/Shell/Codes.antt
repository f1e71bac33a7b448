-- ===== src/Shell/Codes.antt =====
-- Which exit code and which pid are taken from what a command leaves.
use turnhive.Base.{◌≡◌, refl, sym, ap, ◌∙◌, Option, none, some, List, [], ◌∷◌, Bytes}
use turnhive.Base.Int.{ℤ, negsuc}
use turnhive.Shell.Process.{
  ShellEvent, pid, exit, cwd, env, other, Observed, Process, atoi, first_of, or_kept, nothing_seen,
  whole_file, file_code, observe_all, done_with, ended, first_pid,
}

-- The number of the last exit event that has one.
unfoldable pub last_code : List ShellEvent → Option ℤ
last_code [] = none
last_code (exit text ∷ es) = first_of (last_code es) (atoi text)
last_code (_ ∷ es) = last_code es

-- The number of the first pid event that has one.
unfoldable pub pid_of : List ShellEvent → Option ℤ
pid_of [] = none
pid_of (pid text ∷ es) = first_of (atoi text) (pid_of es)
pid_of (_ ∷ es) = pid_of es

-- What the exit file says, or else the events, or else -1.
unfoldable pub reported_code : Process → ℤ
reported_code p =
    or_kept (negsuc 0) (first_of (file_code (whole_file p.exit_file)) (last_code p.events))

or_kept-first_of :
    (kept : ℤ) (a b : Option ℤ) → or_kept kept (first_of a b) ≡ or_kept (or_kept kept b) a
or_kept-first_of kept none b = refl
or_kept-first_of kept (some n) b = refl

first_of_assoc : (a b c : Option ℤ) → first_of (first_of a b) c ≡ first_of a (first_of b c)
first_of_assoc none b c = refl
first_of_assoc (some n) b c = refl

first_of-none : (a : Option ℤ) → first_of a none ≡ a
first_of-none none = refl
first_of-none (some n) = refl

module _ (decode_env : Bytes → List (Bytes × Bytes) → List (Bytes × Bytes)) where
  observe_all-code :
      (es : List ShellEvent) (o : Observed)
      → (observe_all decode_env es o).outcome.exit_code ≡ or_kept o.outcome.exit_code (last_code es)
  unfolding observe_all last_code
  observe_all-code [] o = refl
  observe_all-code (exit text ∷ es) o =
      observe_all-code es _ ∙ sym (or_kept-first_of o.outcome.exit_code (last_code es) (atoi text))
  observe_all-code (pid text ∷ es) o = observe_all-code es _
  observe_all-code (cwd text ∷ es) o = observe_all-code es _
  observe_all-code (env text ∷ es) o = observe_all-code es _
  observe_all-code (other ∷ es) o = observe_all-code es _

  observe_all-pid :
      (es : List ShellEvent) (o : Observed)
      → (observe_all decode_env es o).pid ≡ first_of o.pid (pid_of es)
  unfolding observe_all pid_of
  observe_all-pid [] o = sym (first_of-none o.pid)
  observe_all-pid (pid text ∷ es) o =
      observe_all-pid es _ ∙ first_of_assoc o.pid (atoi text) (pid_of es)
  observe_all-pid (exit text ∷ es) o = observe_all-pid es _
  observe_all-pid (cwd text ∷ es) o = observe_all-pid es _
  observe_all-pid (env text ∷ es) o = observe_all-pid es _
  observe_all-pid (other ∷ es) o = observe_all-pid es _

  pub first_pid-pid_of : (p : Process) → first_pid decode_env p ≡ pid_of p.events
  unfolding first_pid
  first_pid-pid_of p = observe_all-pid p.events nothing_seen

  pub ended-code :
      (p : Process) → p.stream_error ≡ none → (ended decode_env p).exit_code ≡ reported_code p
  unfolding ended reported_code
  ended-code p fine =
      ap
        (λ e.
          (done_with decode_env p.exit_file (observe_all decode_env p.events nothing_seen).outcome
            e).exit_code)
        fine
      ∙ ap (λ n. or_kept n (file_code (whole_file p.exit_file)))
          (observe_all-code p.events nothing_seen)
      ∙ sym (or_kept-first_of (negsuc 0) (file_code (whole_file p.exit_file)) (last_code p.events))

  observe_all-err :
      (es : List ShellEvent) (o : Observed)
      → (observe_all decode_env es o).outcome.err ≡ o.outcome.err
  unfolding observe_all
  observe_all-err [] o = refl
  observe_all-err (pid text ∷ es) o = observe_all-err es _
  observe_all-err (exit text ∷ es) o = observe_all-err es _
  observe_all-err (cwd text ∷ es) o = observe_all-err es _
  observe_all-err (env text ∷ es) o = observe_all-err es _
  observe_all-err (other ∷ es) o = observe_all-err es _

  pub ended-err : (p : Process) → (ended decode_env p).err ≡ p.stream_error
  unfolding ended
  ended-err p = by_error p.stream_error
    where
      by_error :
          (e : Option Bytes)
          → (done_with decode_env p.exit_file
              (observe_all decode_env p.events nothing_seen).outcome
              e).err
            ≡ e
      by_error none = observe_all-err p.events nothing_seen
      by_error (some e) = refl
