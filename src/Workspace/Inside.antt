-- ===== src/Workspace/Inside.antt =====
-- Where a path of a tool leads.
use turnhive.Base.{
  ==_ne, ◌≡◌, ◌≢◌, refl, sym, ap, ◌∙◌, inl, inr, ◌⊎◌, Bool, true, false, ◌&&◌, ◌||◌, Bool-cases,
  some, List, [], ◌∷◌, ◌++◌, Bytes, codes, last?, All, has_prefix, ◌==◌, ==_iff, bytes_eq,
  bytes_eqb, if◌then◌else◌,
}
use turnhive.Base.Split.{split, join, count, split-clean}
use turnhive.Workspace.{
  slash, dot, parent, climb, walk, walk_all, back_to_front, is_abs, render, clean, Resolved,
  path_required, path_is, escapes, read_only, in_skills, resolve_relative, resolve,
}

-- The name of an entry of a directory: it leads one level down.
abbrev pub IsEntry : Bytes → Type 0
IsEntry c = (c ≢ []) × (c ≢ dot) × (c ≢ parent) × (count slash c ≡ 0)

-- Entries in front of `..`s, the last component first.
abbrev Shape : List Bytes → Type 0
Shape [] = Unit
Shape (c ∷ acc) = (IsEntry c × Shape acc) ⊎ ((c ≡ parent) × All (λ d. d ≡ parent) acc)

climb-Shape : (acc : List Bytes) → Shape acc → Shape (climb false acc)
climb-Shape [] h = inr (refl, tt)
climb-Shape (d ∷ acc) h = elim (Bool-cases (d == parent)) [
  | inl up ↦ rw up (inr (refl, parents d acc ((==_iff d parent).0 up) h))
  | inr down ↦ rw down (below d acc down h)
]
  where
    parents :
        (d : Bytes) (acc : List Bytes)
        → d ≡ parent
        → Shape (d ∷ acc)
        → All (λ x. x ≡ parent) (d ∷ acc)
    parents d acc e (inl (entry, rest)) = absurd (entry.2 e)
    parents d acc e (inr (same, rest)) = (e, rest)

    below : (d : Bytes) (acc : List Bytes) → (d == parent) ≡ false → Shape (d ∷ acc) → Shape acc
    below d acc other (inl (entry, rest)) = rest
    below d acc other (inr (same, rest)) = cc (sym other ∙ (==_iff d parent).1 same)

walk-Shape :
    (acc : List Bytes) (c : Bytes) → count slash c ≡ 0 → Shape acc → Shape (walk false acc c)
walk-Shape acc c whole h = elim (Bool-cases (c == [])) [
  | inl empty ↦ rw empty h
  | inr some_text ↦ elim (Bool-cases (c == dot)) [
    | inl here ↦ rw (some_text, here) h
    | inr other ↦ elim (Bool-cases (c == parent)) [
      | inl up ↦ rw (some_text, other, up) (climb-Shape acc h)
      | inr down ↦
          rw (some_text, other, down)
            (inl ((==_ne c [] some_text, ==_ne c dot other, ==_ne c parent down, whole), h))
    ]
  ]
]

walk_all-Shape :
    (acc cs : List Bytes)
    → All (λ c. count slash c ≡ 0) cs
    → Shape acc
    → Shape (walk_all false acc cs)
unfolding walk_all
walk_all-Shape acc [] whole h = h
walk_all-Shape acc (c ∷ cs) (w, whole) h =
    walk_all-Shape (walk false acc c) cs whole (walk-Shape acc c w h)

-- Entries only, or a path that starts with `..`.
Shape-cases : (acc : List Bytes) → Shape acc → All IsEntry acc ⊎ (last? acc ≡ some parent)
Shape-cases [] h = inl tt
Shape-cases (c ∷ []) (inl (entry, rest)) = inl (entry, tt)
Shape-cases (c ∷ []) (inr (up, rest)) = inr (ap some up)
Shape-cases (c ∷ d ∷ acc) (inl (entry, rest)) = elim (Shape-cases (d ∷ acc) rest) [
  | inl entries ↦ inl (entry, entries)
  | inr climbs ↦ inr climbs
]
Shape-cases (c ∷ d ∷ acc) (inr (up, rest)) = inr (last_parent d acc rest)
  where
    last_parent :
        (d : Bytes) (acc : List Bytes)
        → All (λ x. x ≡ parent) (d ∷ acc)
        → last? (d ∷ acc) ≡ some parent
    last_parent d [] (e, rest) = ap some e
    last_parent d (x ∷ acc) (e, rest) = last_parent x acc rest

back_to_front-first :
    (acc out : List Bytes) (d : Bytes)
    → last? acc ≡ some d
    → (rest : List Bytes) × (back_to_front acc out ≡ d ∷ rest)
unfolding back_to_front
back_to_front-first [] out d h = cc
back_to_front-first (c ∷ []) out d h = let same : c ≡ d = cc in (out, ap (λ x. x ∷ out) same)
back_to_front-first (c ∷ x ∷ acc) out d h = back_to_front-first (x ∷ acc) (c ∷ out) d h

back_to_front-All :
    (P : Bytes → Type 0) (acc out : List Bytes)
    → All P acc
    → All P out
    → All P (back_to_front acc out)
unfolding back_to_front
back_to_front-All P [] out h o = o
back_to_front-All P (c ∷ acc) out (hc, h) o = back_to_front-All P acc (c ∷ out) h (hc, o)

-- A path that starts with `..` is refused.
starts_up :
    (rest : List Bytes)
    → (render false (parent ∷ rest) == parent
        || has_prefix (render false (parent ∷ rest)) (parent ++ slash ∷ []))
      ≡ true
unfolding join bytes_eqb has_prefix
starts_up [] = refl
starts_up (c ∷ rest) = refl

-- A path into the skills tree is in it.
starts_in_skills :
    (rest : List Bytes) → in_skills (render false (codes ".agents" ∷ codes "skills" ∷ rest)) ≡ true
unfolding join bytes_eqb has_prefix
starts_in_skills [] = refl
starts_in_skills (c ∷ rest) = refl

-- The entries from the working directory down, which are not those of the skills tree if `write`.
pub record Inside (write : Bool) (rel : Bytes) : Type 0 where
  pub entries : List Bytes
  pub rendered : rel ≡ render false entries
  pub descends : All IsEntry entries
  pub spares :
      (rest : List Bytes) → write ≡ true → entries ≢ codes ".agents" ∷ codes "skills" ∷ rest

path_is-eq : (p q : Bytes) → path_is p ≡ path_is q → p ≡ q
path_is-eq p q e = cc

resolve_relative-Inside :
    (write : Bool) (acc : List Bytes) (q : Bytes)
    → Shape acc
    → resolve_relative write (render false (back_to_front acc [])) ≡ path_is q
    → Inside write q
resolve_relative-Inside write acc q shape e =
    elim (Bool-cases (rel == parent || has_prefix rel (parent ++ slash ∷ []))) [
      | inl up ↦ absurd (not_path q (sym (ap (λ b. if b then escapes else kept) up) ∙ e))
      | inr stays ↦
          let inner : kept ≡ path_is q = sym (ap (λ b. if b then escapes else kept) stays) ∙ e in
          elim (Bool-cases (write && in_skills rel)) [
            | inl skill ↦ absurd (
                not_path_either q
                  (sym (ap (λ b. if b then read_only else path_is rel) skill) ∙ inner))
            | inr free ↦ record {
              entries = cs;
              rendered = sym (
                  path_is-eq rel q
                    (sym (ap (λ b. if b then read_only else path_is rel) free) ∙ inner));
              descends = entries_only stays (Shape-cases acc shape);
              spares = λ rest writes same. cc (
                  sym free
                  ∙ ap (λ b. b && in_skills rel) writes
                  ∙ ap (λ x. in_skills (render false x)) same
                  ∙ starts_in_skills rest);
            }
          ]
    ]
  where
    cs : List Bytes
    cs = back_to_front acc []

    rel : Bytes
    rel = render false cs

    kept : Resolved
    kept = if write && in_skills rel then read_only else path_is rel

    not_path : (x : Bytes) → escapes ≢ path_is x
    not_path x h = cc

    not_path_either : (x : Bytes) → read_only ≢ path_is x
    not_path_either x h = cc

    entries_only :
        (rel == parent || has_prefix rel (parent ++ slash ∷ [])) ≡ false
        → (All IsEntry acc ⊎ (last? acc ≡ some parent))
        → All IsEntry cs
    entries_only stays (inl entries) = back_to_front-All IsEntry acc [] entries tt
    entries_only stays (inr climbs) =
        let (rest, first) = back_to_front-first acc [] parent climbs in
        cc (
          sym stays
          ∙ ap (λ x. render false x == parent || has_prefix (render false x) (parent ++ slash ∷ []))
              first
          ∙ starts_up rest)

-- A relative path that a tool takes leads down from the working directory, entry by entry, whatever `.`,
-- `..` and empty components it was given with; and a tool that writes is not led into the skills tree.
pub resolve-Inside :
    (write : Bool) (p q : Bytes) → is_abs p ≡ false → resolve write p ≡ path_is q → Inside write q
unfolding resolve clean
resolve-Inside write p q relative e = elim (Bool-cases (p == [])) [
  | inl empty ↦ absurd (not_path q (sym (ap (λ b. if b then path_required else rest) empty) ∙ e))
  | inr given ↦
      resolve_relative-Inside write (walk_all false [] (split slash p)) q
        (walk_all-Shape [] (split slash p) (split-clean slash p) tt)
        (sym (
            ap
              (λ b.
                resolve_relative write
                  (render b (back_to_front (walk_all b [] (split slash p)) [])))
              relative)
          ∙ sym
              (ap (λ b. if b then path_is (clean p) else resolve_relative write (clean p)) relative)
          ∙ sym (ap (λ b. if b then path_required else rest) given)
          ∙ e)
]
  where
    rest : Resolved
    rest = if is_abs p then path_is (clean p) else resolve_relative write (clean p)

    not_path : (x : Bytes) → path_required ≢ path_is x
    not_path x h = cc
