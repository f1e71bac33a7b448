-- ===== src/Tests/Shell.antt =====
-- Calls of the shell tool: a command that fails with 3, one that changes the directory, and one in the background.
use turnhive.Base.{
  ◌≡◌, refl, true, false, Option, none, some, List, [], ◌∷◌, Bytes, codes, bytes_eqb, has_prefix,
}
use turnhive.Base.Int.{pos, parse_int}
use turnhive.Base.Decimal.{parse_decimal, value_from, is_digit}
use turnhive.Patch.Parse.{trim_space, trim_left, trim_right}
use turnhive.Files.{prefix_length, is_blank, blank_from}
use turnhive.Hub.{Payload, new_event_hub}
use turnhive.Session.State.{new_session}
use turnhive.Session.Turns.{new_turn_id, start_turn}
use turnhive.Turn.{Conversation, Fresh, Turn}
use turnhive.Workspace.{missing, file}
use turnhive.Shell.Process.{pid, exit, cwd, env, ShellOutcome, Process, ended}
use turnhive.Shell.Wrapper.{ShellFiles}
use turnhive.Shell.Codes.{reported_code}
use turnhive.Shell.{ShellState, pid_came, done, window_over, Met}
use turnhive.Shell.Settled.{Settled}
use turnhive.Shell.Threads.{
  Asked, run_calls, all_ended, ended_in_foreground, last_reported, cwd_of, env_of, or_default,
  or_earlier, run_calls-reported,
}

-- A decoder that takes the text for the value of one variable.
decode_env : Bytes → List (Bytes × Bytes) → List (Bytes × Bytes)
decode_env text vars = (codes "K", text) ∷ vars

abbrev make : Process
make = record {
  events = pid (codes "12") ∷ env (codes "v") ∷ cwd (codes "/w") ∷ exit (codes "0") ∷ [];
  stream_error = none;
  exit_file = file (codes "3");
}

abbrev met : Met
met = record {
  start = pid_came (pos 12);
  window = done (ended decode_env make);
  get_file = λ path. file (codes "out");
}

abbrev at_home : ShellState
at_home = record { cwd = []; env = none }

make-code : reported_code make ≡ pos 3
unfolding reported_code parse_int parse_decimal value_from is_digit trim_space trim_left trim_right
    prefix_length has_prefix is_blank blank_from
make-code = refl

-- A command that ends in the directory /w, and then one that stays in the background.
abbrev moved : ShellOutcome
moved = record { exit_code = pos 0; cwd = codes "/w"; env = []; err = none }

abbrev calls : List Asked
calls =
    record {
      call_id = codes "c1";
      command = codes "cd /w";
      bg = false;
      met = record { start = pid_came (pos 12); window = done moved; get_file = λ path. missing };
    }
    ∷ record {
      call_id = codes "c2";
      command = codes "sleep 60";
      bg = false;
      met = record {
        start = pid_came (pos 13);
        window = window_over none;
        get_file = λ path. missing;
      };
    }
    ∷ []

run_calls-reported_example :
    ((run_calls true calls at_home).cwd
      ≡ or_default (last_reported cwd_of (all_ended calls)) at_home.cwd)
    × ((run_calls true calls at_home).env
        ≡ or_earlier (last_reported env_of (all_ended calls)) at_home.env)
run_calls-reported_example = run_calls-reported true calls at_home

moved_cwd : or_default (last_reported cwd_of (all_ended calls)) at_home.cwd ≡ codes "/w"
unfolding last_reported all_ended ended_in_foreground bytes_eqb
moved_cwd = refl

abbrev to_json : Payload → Option Bytes
to_json p = some []

abbrev fresh : Fresh
fresh = record { ulid = codes "01B"; cancel = 9; now = 50 }

abbrev next : Fresh
next = record { ulid = codes "01C"; cancel = 10; now = 60 }

abbrev busy : Conversation
busy = record {
  session = (start_turn (new_turn_id (codes "01A")) 7 new_session).0;
  hub = new_event_hub;
}

abbrev files : ShellFiles
files = record { stdout = codes "/out"; stderr = codes "/err"; exit = codes "/exit" }
