-- ===== src/Workspace/Edits.antt =====
-- What the edit tool does to a file.
use turnhive.Base.{
  ==_ne, ℕ, ◌≡◌, ◌≢◌, refl, sym, ap, subst, ◌∙◌, inl, inr, ◌⊎◌, Bool, true, false, Bool-cases,
  Option, none, some, [], ◌∷◌, ◌++◌, Bytes, arith, eqb, eqb_iff, ltb, length, drop, has_prefix,
  ◌==◌, ==_iff, bytes_eq,
}
use turnhive.Workspace.{
  Resolved, path_is, resolve, Got, file, missing, unreachable, Disk, put_failed, one_further,
  cut_at, count_from, replaced, max_get_file_bytes, put, edit_text, edit_got, edit_at, edit_file,
  Outcome,
}

has_prefix-split : (s old : Bytes) → has_prefix s old ≡ true → s ≡ old ++ drop (length old) s
unfolding has_prefix
has_prefix-split s [] h = refl
has_prefix-split [] (p ∷ old) h = cc
has_prefix-split (c ∷ s) (p ∷ old) h = ground (arith, eqb_iff c p, has_prefix-split s old)

-- A text that is cut is the part before, the text sought and the part behind.
abbrev Splits : Bytes → Bytes → Option (Bytes × Bytes) → Type 0
Splits old s none = Unit
Splits old s (some (before, behind)) = s ≡ before ++ (old ++ behind)

one_further-Splits :
    (old s : Bytes) (c : ℕ) (o : Option (Bytes × Bytes))
    → Splits old s o
    → Splits old (c ∷ s) (one_further c o)
one_further-Splits old s c none h = tt
one_further-Splits old s c (some (before, behind)) h = ap (◌∷◌ c) h

cut_at-Splits : (old s : Bytes) → Splits old s (cut_at old s)
unfolding cut_at
cut_at-Splits old [] = elim (Bool-cases (old == [])) [
  | inl empty ↦ rw empty (sym (ap (λ x. x ++ []) ((==_iff old []).0 empty)))
  | inr text ↦ rw text tt
]
cut_at-Splits old (c ∷ s) = elim (Bool-cases (has_prefix (c ∷ s) old)) [
  | inl here ↦ rw here (has_prefix-split (c ∷ s) old here)
  | inr further ↦ rw further (one_further-Splits old s c (cut_at old s) (cut_at-Splits old s))
]

count_from-cut_at : (old s : Bytes) → old ≢ [] → cut_at old s ≡ none → count_from old 0 s ≡ 0
unfolding count_from cut_at
count_from-cut_at old [] given h = refl
count_from-cut_at old (c ∷ s) given h = ground (arith, count_from-cut_at old s given)

module _ (d : Disk) where
  open d use {Files, get_file, put_file}

  -- An edit that was made: one place of the file where the old text stands, and the file with the new text
  -- in its place.
  pub record Edited (p old new : Bytes) (fs fs' : Files) : Type 0 where
    pub before : Bytes
    pub behind : Bytes
    pub was : get_file p fs ≡ file (before ++ (old ++ behind))
    pub once : count_from old 0 (before ++ (old ++ behind)) ≡ 1
    pub becomes : get_file p fs' ≡ file (before ++ (new ++ behind))

  -- An outcome: an edit that was made at the path, or an error, with the files as they were unless it is the
  -- sandbox's own.
  abbrev pub Settled : Resolved → Bytes → Bytes → Files → Outcome d → Type 0
  Settled r old new fs (fs', none) = (p : Bytes) × (r ≡ path_is p) × Edited p old new fs fs'
  Settled r old new fs (fs', some e) = (e ≡ put_failed) ⊎ (fs' ≡ fs)

  put-Settled :
      (p old new content before behind : Bytes) (fs : Files) (x : Files × Bool)
      → (x.1 ≡ true → get_file p x.0 ≡ file (before ++ (new ++ behind)))
      → get_file p fs ≡ file content
      → content ≡ before ++ (old ++ behind)
      → count_from old 0 content ≡ 1
      → Settled (path_is p) old new fs (put d x)
  put-Settled p old new content before behind fs (fs', false) e held parts once = inl refl
  put-Settled p old new content before behind fs (fs', true) e held parts once = (
    p,
    refl,
    record {
      before = before;
      behind = behind;
      was = held ∙ ap file parts;
      once = sym (ap (count_from old 0) parts) ∙ once;
      becomes = e refl;
    },
  )

  cut-Settled :
      (p old new content : Bytes) (fs : Files) (o : Option (Bytes × Bytes))
      → cut_at old content ≡ o
      → old ≢ []
      → get_file p fs ≡ file content
      → count_from old 0 content ≡ 1
      → Settled (path_is p) old new fs (put d (put_file p (replaced content new o) fs))
  cut-Settled p old new content fs none e given held once =
      absurd (omega (arith, once, count_from-cut_at old content given e))
  cut-Settled p old new content fs (some (before, behind)) e given held once =
      put-Settled p old new content before behind fs _
        (d.get_file-put_file p (before ++ (new ++ behind)) fs) held
        (subst (Splits old content) e (cut_at-Splits old content)) once

  edit_text-Settled :
      (p old new content : Bytes) (fs : Files)
      → old ≢ []
      → get_file p fs ≡ file content
      → Settled (path_is p) old new fs (edit_text d old new p fs content)
  edit_text-Settled p old new content fs given held =
      elim (Bool-cases (eqb (count_from old 0 content) 0)) [
        | inl absent ↦ rw absent (inr refl)
        | inr there ↦ elim (Bool-cases (ltb 1 (count_from old 0 content))) [
          | inl many ↦ rw (there, many) (inr refl)
          | inr few ↦
              rw (there, few)
                (cut-Settled p old new content fs (cut_at old content) refl given held
                  (ground (arith, there, few)))
        ]
      ]

  edit_got-Settled :
      (p old new : Bytes) (fs : Files) (got : Got)
      → old ≢ []
      → get_file p fs ≡ got
      → Settled (path_is p) old new fs (edit_got d old new p fs got)
  edit_got-Settled p old new fs missing given held = inr refl
  edit_got-Settled p old new fs unreachable given held = inr refl
  edit_got-Settled p old new fs (file content) given held =
      elim (Bool-cases (ltb max_get_file_bytes (length content))) [
        | inl large ↦ rw large (inr refl)
        | inr small ↦ rw small (edit_text-Settled p old new content fs given held)
      ]

  edit_at-Settled :
      (r : Resolved) (old new : Bytes) (fs : Files)
      → old ≢ []
      → Settled r old new fs (edit_at d old new fs r)
  edit_at-Settled (path_is p) old new fs given =
      edit_got-Settled p old new fs (get_file p fs) given refl
  edit_at-Settled Resolved.path_required old new fs given = inr refl
  edit_at-Settled Resolved.escapes old new fs given = inr refl
  edit_at-Settled Resolved.read_only old new fs given = inr refl

  -- An edit is made or refused. Made, the old text, which is not empty and was counted once, stood in the file
  -- that the path resolves to for a write, and the file is as it was but for the new text in its place.
  -- Refused, the files of the sandbox are as they were, unless the sandbox itself failed to write.
  pub edit_file-Settled :
      (file_path old new : Bytes) (fs : Files)
      → Settled (resolve true file_path) old new fs (edit_file d file_path old new fs)
  unfolding edit_file
  edit_file-Settled file_path old new fs = elim (Bool-cases (old == [])) [
    | inl empty ↦ rw empty (inr refl)
    | inr text ↦ rw text (edit_at-Settled (resolve true file_path) old new fs (==_ne old [] text))
  ]
