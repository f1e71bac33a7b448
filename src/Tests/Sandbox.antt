-- ===== src/Tests/Sandbox.antt =====
-- A sandbox that is built and its files in memory, an edit of one, and the files that were persisted.
use turnhive.Base.{
  ℕ, ==_refl, ◌≡◌, inl, inr, refl, ap, true, false, Option, none, some, List, [], ◌∷◌, Bytes, codes,
  map, ◌==◌, bytes_eq, bytes_eqb, has_prefix, if◌then◌else◌,
}
use turnhive.Base.Split.{split, join}
use turnhive.Loop.{loaded}
use turnhive.Session.State.{PersistedObject, new_session}
use turnhive.Session.Sandbox.{live_sandbox}
use turnhive.Session.Step.{run}
use turnhive.Provision.{Build, ensure_sandbox}
use turnhive.Provision.Accounts.{Builds, ensure_sandbox-Builds}
use turnhive.Workspace.{
  Disk, Got, missing, file, clean, resolve, path_is, is_abs, walk_all, back_to_front, edit_file,
}
use turnhive.Workspace.Inside.{Inside, resolve-Inside}
use turnhive.Workspace.Edits.{Settled, edit_file-Settled}
use turnhive.Storage.{trim_prefix, Page, list_persisted_objects, persisted_key, persisted_prefix}
use turnhive.Storage.Persisted.{
  IsPersisted, info_of, relative, record_all, list_persisted_objects-recorded,
}

abbrev got : Option Bytes → Got
got none = missing
got (some text) = file text

abbrev disk : Disk
disk = record {
  Files = Bytes → Option Bytes;
  get_file = λ p fs. got (fs p);
  put_file = λ p text fs. ((λ q. if p == q then some text else fs q), true);
  get_file-put_file = λ p text fs h. ap (λ b. got (if b then some text else fs p)) (==_refl p);
}

abbrev build : Build
build = record {
  allocated = some 7;
  skills_installed = true;
  persisted_restored = true;
  files_injected = true;
  loading = loaded [];
  loop = 1;
  stop_renew = 1;
}

no_sandbox : live_sandbox new_session ≡ none
unfolding live_sandbox new_session
no_sandbox = refl

none_meanwhile : (run new_session []).sandbox ≡ none
unfolding run new_session
none_meanwhile = refl

ensure_sandbox-Builds_example :
    Builds build (run new_session []) (ensure_sandbox build [] new_session)
ensure_sandbox-Builds_example = ensure_sandbox-Builds build [] new_session no_sandbox none_meanwhile

abbrev winding : Bytes
winding = codes "./a//x/../b"

winding-relative : is_abs winding ≡ false
unfolding has_prefix
winding-relative = refl

winding-resolved : resolve true winding ≡ path_is (codes "a/b")
unfolding resolve bytes_eqb has_prefix clean back_to_front walk_all split join
winding-resolved = refl

resolve-Inside_example : Inside true (codes "a/b")
resolve-Inside_example = resolve-Inside true winding (codes "a/b") winding-relative winding-resolved

abbrev notes : disk.Files
notes p = if p == codes "a/b" then some (codes "one two") else none

edit_file-Settled_example :
    Settled disk
      (resolve true winding)
      (codes "two")
      (codes "three")
      notes
      (edit_file disk winding (codes "two") (codes "three") notes)
edit_file-Settled_example = edit_file-Settled disk winding (codes "two") (codes "three") notes

abbrev report : PersistedObject
report = record {
  path = codes "/out.csv";
  object_key = codes "sessions/s/persisted/out.csv";
  size = 3;
  at = 1;
}

abbrev plot : PersistedObject
plot = record {
  path = codes "p.png";
  object_key = codes "sessions/s/persisted/p.png";
  size = 5;
  at = 2;
}

report-IsPersisted : IsPersisted (codes "s") report
unfolding persisted_key persisted_prefix trim_prefix has_prefix
report-IsPersisted = (refl, λ e. cc)

plot-IsPersisted : IsPersisted (codes "s") plot
unfolding persisted_key persisted_prefix trim_prefix has_prefix
plot-IsPersisted = (refl, λ e. cc)

-- S3 stores an object after the tool has read the clock.
abbrev stored_at : Bytes → ℕ
stored_at key = 70

abbrev pages : List (Option Page)
pages =
    some (record { contents = info_of (codes "t") stored_at report ∷ []; is_truncated = true })
    ∷ some (record { contents = info_of (codes "t") stored_at plot ∷ []; is_truncated = false })
    ∷ []

list_persisted_objects-recorded_example :
    list_persisted_objects (codes "t") (codes "s") pages
    ≡ some (record_all (map (relative stored_at) (report ∷ plot ∷ [])) [])
list_persisted_objects-recorded_example =
    list_persisted_objects-recorded (codes "t") (codes "s") stored_at (report ∷ plot ∷ []) pages
      (report-IsPersisted, (plot-IsPersisted, tt))
      (inr (refl, info_of (codes "t") stored_at plot ∷ [], refl, inl (refl, refl)))
