-- ===== src/Storage/Persisted.antt =====
-- The manifest of persisted files, rebuilt from the listing of their keys.
use turnhive.Base.{
  ℕ, ne_==, ◌<◌, ◌≡◌, ◌≢◌, refl, sym, ap, ◌∙◌, inl, inr, ◌⊎◌, true, false, Bool-cases, Option, none,
  some, List, [], ◌∷◌, ◌++◌, append_assoc, map, Bytes, codes, arith, length, length-append,
  drop-append, All, has_prefix, ◌==◌, bytes_eq, if◌then◌else◌,
}
use turnhive.Base.Assoc.{insert}
use turnhive.Session.State.{PersistedObject}
use turnhive.Storage.{
  store_key, trim_prefix, ObjectInfo, stripped, Page, strip_all, behind_page, list_objects,
  persisted_prefix, persisted_key, add_listed, add_persisted, manifest_of, list_persisted_objects,
}

has_prefix-append : (p s : Bytes) → has_prefix (p ++ s) p ≡ true
unfolding has_prefix
has_prefix-append [] s = refl
has_prefix-append (c ∷ p) s = ground (arith, has_prefix-append p s)

trim_prefix-append : (p s : Bytes) → trim_prefix (p ++ s) p ≡ s
unfolding trim_prefix
trim_prefix-append p s = rw (has_prefix-append p s) (drop-append p s)

store_key-trim : (prefix k : Bytes) → trim_prefix (store_key prefix k) (store_key prefix []) ≡ k
unfolding store_key
store_key-trim prefix k = elim (Bool-cases (prefix == [])) [
  | inl none_given ↦ rw none_given (trim_prefix-append [] k)
  | inr given ↦ rw given (
      ap (λ x. trim_prefix x (prefix ++ (codes "/" ++ [])))
        (sym (append_assoc prefix (codes "/") k))
      ∙ trim_prefix-append (prefix ++ codes "/") k)
]

-- The object of a persisted file as S3 lists it, with the time at which S3 stored the object under its key.
abbrev pub info_of : Bytes → (Bytes → ℕ) → PersistedObject → ObjectInfo
info_of prefix modified o = record {
  key = store_key prefix o.object_key;
  size = o.size;
  last_modified = modified o.object_key;
}

-- A file as the persist tool stores it, at a path that names one.
abbrev pub IsPersisted : Bytes → PersistedObject → Type 0
IsPersisted session_id o =
    (o.object_key ≡ persisted_key session_id o.path) × (trim_prefix o.path (codes "/") ≢ [])

-- The manifest keeps the path without the slash that it may start with, and S3's time in place of the recorded.
abbrev pub relative : (Bytes → ℕ) → PersistedObject → PersistedObject
relative modified o = record {
  path = trim_prefix o.path (codes "/");
  object_key = o.object_key;
  size = o.size;
  at = modified o.object_key;
}

-- recordPersisted, one file after the other
abbrev pub record_all :
    List PersistedObject → List (Bytes × PersistedObject) → List (Bytes × PersistedObject)
record_all [] m = m
record_all (o ∷ os) m = record_all os (insert o.path o m)

longer : (p s : Bytes) → 0 < length p → s ≢ p ++ s
longer p s h e = omega (arith, h, ap length e, length-append p s)

prefix-pos : (session_id : Bytes) → 0 < length (persisted_prefix session_id)
unfolding persisted_prefix
prefix-pos session_id = omega arith

add_listed-persisted :
    (session_id prefix : Bytes) (modified : Bytes → ℕ) (o : PersistedObject)
    (m : List (Bytes × PersistedObject))
    → IsPersisted session_id o
    → add_listed
        (trim_prefix
          (stripped prefix (info_of prefix modified o)).key
          (persisted_prefix session_id))
        (stripped prefix (info_of prefix modified o))
        m
      ≡ insert (relative modified o).path (relative modified o) m
unfolding persisted_key
add_listed-persisted session_id prefix modified o m (keyed, named) =
    let rel : Bytes = trim_prefix o.path (codes "/") in
    let key : (stripped prefix (info_of prefix modified o)).key ≡ o.object_key =
      store_key-trim prefix o.object_key in
    let path : trim_prefix o.object_key (persisted_prefix session_id) ≡ rel =
      ap (λ k. trim_prefix k (persisted_prefix session_id)) keyed
      ∙ trim_prefix-append (persisted_prefix session_id) rel in
    let given : (rel == []) ≡ false = ne_== rel [] named in
    let apart : (rel == o.object_key) ≡ false =
      ne_== rel o.object_key
        (λ same. longer (persisted_prefix session_id) rel (prefix-pos session_id) (same ∙ keyed)) in
    let info : Bytes → ObjectInfo =
      λ k. record { key = k; size = o.size; last_modified = modified o.object_key } in
    ap (λ k. add_listed (trim_prefix k (persisted_prefix session_id)) (info k) m) key
    ∙ ap (λ p. add_listed p (info o.object_key) m) path
    ∙ rw (given, apart) refl

add_persisted-recorded :
    (session_id prefix : Bytes) (modified : Bytes → ℕ) (os : List PersistedObject)
    (m : List (Bytes × PersistedObject))
    → All (IsPersisted session_id) os
    → add_persisted session_id (strip_all prefix (map (info_of prefix modified) os)) m
      ≡ record_all (map (relative modified) os) m
unfolding add_persisted
add_persisted-recorded session_id prefix modified [] m h = refl
add_persisted-recorded session_id prefix modified (o ∷ os) m (ho, h) =
    ap (add_persisted session_id (strip_all prefix (map (info_of prefix modified) os)))
      (add_listed-persisted session_id prefix modified o m ho)
    ∙ add_persisted-recorded session_id prefix modified os
        (insert (relative modified o).path (relative modified o) m) h

-- The pages that S3 answers are those of a listing.
abbrev pub Lists : List (Option Page) → List ObjectInfo → Type 0
Lists [] infos = ⊥
Lists (none ∷ answers) infos = ⊥
Lists (some page ∷ answers) infos =
    ((page.is_truncated ≡ false) × (page.contents ≡ infos))
    ⊎ ((page.is_truncated ≡ true)
        × (rest : List ObjectInfo) × (page.contents ++ rest ≡ infos)
        × Lists answers rest)

strip_all-append :
    (prefix : Bytes) (xs ys : List ObjectInfo)
    → strip_all prefix (xs ++ ys) ≡ strip_all prefix xs ++ strip_all prefix ys
strip_all-append prefix [] ys = refl
strip_all-append prefix (x ∷ xs) ys = ap (◌∷◌ (stripped prefix x)) (strip_all-append prefix xs ys)

list_objects-listed :
    (prefix : Bytes) (answers : List (Option Page)) (infos : List ObjectInfo)
    → Lists answers infos
    → list_objects prefix answers ≡ some (strip_all prefix infos)
unfolding list_objects
list_objects-listed prefix [] infos h = absurd h
list_objects-listed prefix (none ∷ answers) infos h = absurd h
list_objects-listed prefix (some page ∷ answers) infos (inl (last, same)) =
    ap
      (λ b.
        if b
        then behind_page (strip_all prefix page.contents) (list_objects prefix answers)
        else some (strip_all prefix page.contents))
      last
    ∙ ap (λ xs. some (strip_all prefix xs)) same
list_objects-listed prefix (some page ∷ answers) infos (inr (more, rest, same, h)) =
    ap
      (λ b.
        if b
        then behind_page (strip_all prefix page.contents) (list_objects prefix answers)
        else some (strip_all prefix page.contents))
      more
    ∙ ap (behind_page (strip_all prefix page.contents)) (list_objects-listed prefix answers rest h)
    ∙ ap some (sym (strip_all-append prefix page.contents rest))
    ∙ ap (λ xs. some (strip_all prefix xs)) same

-- An adopted session knows the files that were persisted: the manifest rebuilt from the listing of their
-- keys, over any number of pages and with any prefix of the store, is that of the files recorded one by one,
-- with their keys and sizes, except that a path that starts with a slash comes back without it, and that the
-- time of a file is the one at which S3 stored its object, not the one that was recorded.
pub list_persisted_objects-recorded :
    (prefix session_id : Bytes) (modified : Bytes → ℕ) (os : List PersistedObject)
    (answers : List (Option Page))
    → All (IsPersisted session_id) os
    → Lists answers (map (info_of prefix modified) os)
    → list_persisted_objects prefix session_id answers
      ≡ some (record_all (map (relative modified) os) [])
unfolding list_persisted_objects
list_persisted_objects-recorded prefix session_id modified os answers h listed =
    ap (manifest_of session_id) (list_objects-listed prefix answers _ listed)
    ∙ ap some (add_persisted-recorded session_id prefix modified os [] h)
