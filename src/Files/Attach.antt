-- ===== src/Files/Attach.antt =====
-- What an attach records, and that it keeps the cap on the files of a session. A sandbox that is live keeps what
-- was put into it also where the attach fails after that.
use turnhive.Base.{
  ◌==◌, ◌∙◌, ℕ, ◌+◌, ◌≤◌, ◌≡◌, refl, sym, ap, subst, ◌⊎◌, inl, inr, Bool, true, false, not,
  Bool-cases, Option, none, some, List, [], ◌∷◌, Bytes, arith, ltb, length, is_some, bytes_eq,
  if◌then◌else◌,
}
use turnhive.Base.Assoc.{lookup, insert, length-insert, lookup-insert}
use turnhive.Session.State.{Session, FileRecord}
use turnhive.Session.Sandbox.{live_sandbox}
use turnhive.Session.Records.{record_file}
use turnhive.Files.{
  Attached, AttachError, session_closed, inject_failed, too_many_files, files_name_count_cap,
  count_added, record_files, record_within_cap, inject_files, inject_live, attach_files,
}

abbrev Files : Type 0
Files = List (Bytes × FileRecord)

-- `now` knows every name that `before` knows.
Knows : Files → Files → Type 0
Knows before now = (k : Bytes) → is_some (lookup k before) ≡ true → is_some (lookup k now) ≡ true

insert-Knows :
    (before now : Files) (u : FileRecord) → Knows before now → Knows before (insert u.name u now)
unfolding Knows
insert-Knows before now u h k e = ground (arith, lookup-insert u.name k u now, h k e)

length-insert_known : (u : FileRecord) (now : Files) → length (insert u.name u now) ≤ length now + 1
length-insert_known u now = ground (arith, length-insert u.name u now)

length-insert_old :
    (u : FileRecord) (now : Files)
    → is_some (lookup u.name now) ≡ true
    → length (insert u.name u now) ≡ length now
length-insert_old u now h = ground (arith, h, length-insert u.name u now)

length-record_files :
    (before : Files) (us : List FileRecord) (s : Session)
    → Knows before s.files
    → length (record_files us s).files ≤ length s.files + count_added before us
unfolding record_files count_added record_file Knows
length-record_files before [] s h = omega arith
length-record_files before (u ∷ us) s h =
    let more : Knows before (insert u.name u s.files) = insert-Knows before s.files u h in
    let rest = length-record_files before us (record_file u s) more in
    ground (arith, h u.name, rest, length-insert_known u s.files, length-insert_old u s.files)

-- The last of the files with a name, or else what was recorded under it before.
abbrev pub last_named : Bytes → List FileRecord → Option FileRecord → Option FileRecord
last_named name [] before = before
last_named name (u ∷ us) before = last_named name us (if u.name == name then some u else before)

-- `t` is the session `s` with these files recorded, each under its name, and nothing else changed.
abbrev pub Records : List FileRecord → Session → Session → Type 0
Records us s t =
    ((name : Bytes) → lookup name t.files ≡ last_named name us (lookup name s.files))
    × (t ≡ record s { files = t.files })

record_files-Records : (us : List FileRecord) (s : Session) → Records us s (record_files us s)
unfolding record_files record_file
record_files-Records [] s = (λ name. refl, refl)
record_files-Records (u ∷ us) s =
    let (named, rest) = record_files-Records us (record_file u s) in
    (λ name. named name ∙ ap (last_named name us) (lookup-insert u.name name u s.files), rest)

record_within_cap-Bounded :
    (us : List FileRecord) (s : Session)
    → ((length (record_files us s).files ≤ files_name_count_cap)
        × (record_within_cap us s ≡ (record_files us s, none)))
      ⊎ (record_within_cap us s ≡ (s, some too_many_files))
unfolding record_within_cap Knows
record_within_cap-Bounded us s =
    elim (Bool-cases (ltb files_name_count_cap (length s.files + count_added s.files us))) [
      | inl over ↦ inr (rw over refl)
      | inr within ↦
          inl (ground (arith, within, length-record_files s.files us s (λ k h. h)), rw within refl)
    ]

-- The three ways out of an attach, by whether the session is closed, by the injection, and by the cap.
outcome :
    (us : List FileRecord) (s : Session) {wanted : List FileRecord}
    → length s.files ≤ files_name_count_cap
    → (closed : Bool) (done : List FileRecord × Bool) (capped : Session × Option AttachError)
    → (done.1 ≡ true → done.0 ≡ wanted)
    → ((length (record_files us s).files ≤ files_name_count_cap)
        × (capped ≡ (record_files us s, none)))
      ⊎ (capped ≡ (s, some too_many_files))
    → let a : Attached =
        (if closed
          then record { session = s; injected = []; failed = some session_closed }
          else if not done.1
          then record { session = s; injected = done.0; failed = some inject_failed }
          else record { session = capped.0; injected = done.0; failed = capped.1 }) in
      (length a.session.files ≤ files_name_count_cap)
      × (((a.failed ≡ none) × Records us s a.session × (a.injected ≡ wanted))
          ⊎ ((e : AttachError) × (a.failed ≡ some e) × (a.session ≡ s)))
outcome us s fits true done capped all cap = (fits, inr (session_closed, refl, refl))
outcome us s fits false (xs, false) capped all cap = (fits, inr (inject_failed, refl, refl))
outcome us s fits false (xs, true) (t, full) all (inl (bound, e)) = (
  subst (λ (p : Session × Option AttachError). length p.0.files ≤ files_name_count_cap) (sym e)
      bound,
  inl (
    ap (λ p. p.1) e,
    subst (λ (p : Session × Option AttachError). Records us s p.0) (sym e)
        (record_files-Records us s),
    all refl,
  ),
)
outcome us s fits false (xs, true) (t, full) all (inr e) = (
  subst (λ (p : Session × Option AttachError). length p.0.files ≤ files_name_count_cap) (sym e)
      fits,
  inr (too_many_files, ap (λ p. p.1) e, ap (λ p. p.0) e),
)

module _ (put : ℕ → FileRecord → Bool) where
  inject_files-all :
      (sb : ℕ) (us : List FileRecord)
      → (inject_files put sb us).1 ≡ true
      → (inject_files put sb us).0 ≡ us
  unfolding inject_files
  inject_files-all sb [] e = refl
  inject_files-all sb (u ∷ us) e = ground (arith, e, inject_files-all sb us)

  inject_live-all :
      (o : Option ℕ) (us : List FileRecord)
      → (inject_live put o us).1 ≡ true
      → (inject_live put o us).0 ≡ (if is_some o then us else [])
  unfolding inject_live
  inject_live-all none us e = refl
  inject_live-all (some sb) us e = inject_files-all sb us e

  -- An attach to a session with at most 64 files leaves it with at most 64. It either succeeds, has
  -- recorded every file under its name, the last of a name, kept the others and everything else, and, if a
  -- sandbox is live, put every file into it; or it fails with an error and the session is as it was.
  pub attach_files-Bounded :
      (us : List FileRecord) (s : Session)
      → length s.files ≤ files_name_count_cap
      → let a = attach_files put us s in
        (length a.session.files ≤ files_name_count_cap)
        × (((a.failed ≡ none)
              × Records us s a.session
              × (a.injected ≡ (if is_some (live_sandbox s) then us else [])))
            ⊎ ((e : AttachError) × (a.failed ≡ some e) × (a.session ≡ s)))
  unfolding attach_files
  attach_files-Bounded us s fits =
      outcome us s fits s.closed _ _ (inject_live-all (live_sandbox s) us)
        (record_within_cap-Bounded us s)
