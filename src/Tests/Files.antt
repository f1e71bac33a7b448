-- ===== src/Tests/Files.antt =====
-- Two files that are attached to a session with a live sandbox.
use turnhive.Base.{
  ℕ, ◌≤◌, ◌≡◌, ◌⊎◌, Bool, true, none, some, List, [], ◌∷◌, codes, arith, length, is_some,
  if◌then◌else◌,
}
use turnhive.Session.State.{Session, FileRecord, new_session}
use turnhive.Session.Sandbox.{live_sandbox, set_sandbox}
use turnhive.Base.Int.{pos}
use turnhive.Files.{FileRef, AttachError, files_name_count_cap, attach_files}
use turnhive.Files.Attach.{Records, attach_files-Bounded}

abbrev refs : List FileRef
refs =
    record { name = codes "a.txt"; object_key = codes "in/a.txt"; size = pos 3 }
    ∷ record { name = codes "b.txt"; object_key = codes "in/b.txt"; size = pos 0 }
    ∷ []

abbrev records : List FileRecord
records =
    record { name = codes "a.txt"; object_key = codes "in/a.txt"; size = 3; at = 7 }
    ∷ record { name = codes "b.txt"; object_key = codes "in/b.txt"; size = 0; at = 7 }
    ∷ []

abbrev put_all : ℕ → FileRecord → Bool
put_all sb u = true

abbrev with_sandbox : Session
with_sandbox = (set_sandbox 1 2 new_session).0

attach_files-Bounded_example :
    let a = attach_files put_all records with_sandbox in
    (length a.session.files ≤ files_name_count_cap)
    × (((a.failed ≡ none)
          × Records records with_sandbox a.session
          × (a.injected ≡ (if is_some (live_sandbox with_sandbox) then records else [])))
        ⊎ ((e : AttachError) × (a.failed ≡ some e) × (a.session ≡ with_sandbox)))
unfolding set_sandbox new_session
attach_files-Bounded_example = attach_files-Bounded put_all records with_sandbox (omega arith)
