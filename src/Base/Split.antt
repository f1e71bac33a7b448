-- ===== src/Base/Split.antt =====
-- strings.Split by one byte, strings.Join with one byte, strings.Count of one byte.
use Prim.Native.Nat.{ℕ, suc, ◌+◌}
use mathlib.Core.Path.{◌≡◌, refl, ap, sym, ◌∙◌}
use mathlib.Core.Logic.{◌≢◌, inl, inr}
use mathlib.Core.List.{List, [], ◌∷◌, ◌++◌, append_assoc}
use native.Mathlib.Omega.{arith}
use turnhive.Base.Tests.{eqb, if◌then◌else◌, Bool-cases}
use turnhive.Base.Lists.{length, All}
use turnhive.Base.Text.{Bytes}

-- A byte put in front of the first piece.
abbrev pub onto_first : ℕ → List Bytes → List Bytes
onto_first c [] = (c ∷ []) ∷ []
onto_first c (p ∷ ps) = (c ∷ p) ∷ ps

unfoldable pub split : ℕ → Bytes → List Bytes
split sep [] = [] ∷ []
split sep (c ∷ s) = let rest = split sep s in if eqb c sep then [] ∷ rest else onto_first c rest

abbrev join_onto : ℕ → Bytes → Bytes → List Bytes → Bytes
join_onto sep p rest [] = p
join_onto sep p rest (_ ∷ _) = p ++ sep ∷ rest

unfoldable pub join : ℕ → List Bytes → Bytes
join sep [] = []
join sep (p ∷ ps) = join_onto sep p (join sep ps) ps

unfoldable pub count : ℕ → Bytes → ℕ
count sep [] = 0
count sep (c ∷ s) = let rest = count sep s in if eqb c sep then suc rest else rest

pub split-cons : (sep : ℕ) (s : Bytes) → (p : Bytes) × (ps : List Bytes) × (split sep s ≡ p ∷ ps)
unfolding split
split-cons sep [] = ([], [], refl)
split-cons sep (c ∷ s) =
    let (p, ps, e) = split-cons sep s in
    elim (Bool-cases (eqb c sep)) [
      | inl yes_sep ↦ ([], split sep s, rw yes_sep)
      | inr no_sep ↦ (c ∷ p, ps, rw (no_sep, e))
    ]

-- Splitting gives one piece more than there are separators, so at least one.
pub length-split : (sep : ℕ) (s : Bytes) → length (split sep s) ≡ suc (count sep s)
unfolding split count
length-split sep [] = refl
length-split sep (c ∷ s) =
    let (p, ps, e) = split-cons sep s in
    let ih = rw e at (length-split sep s) in
    elim (Bool-cases (eqb c sep)) [
      | inl yes_sep ↦ rw (yes_sep, e) (ap suc ih)
      | inr no_sep ↦ rw (no_sep, e) ih
    ]

join-onto_first :
    (sep c : ℕ) (p : Bytes) (ps : List Bytes) → join sep ((c ∷ p) ∷ ps) ≡ c ∷ join sep (p ∷ ps)
unfolding join
join-onto_first sep c p [] = refl
join-onto_first sep c p (q ∷ ps) = refl

join-nil_first :
    (sep : ℕ) (p : Bytes) (ps : List Bytes) → join sep ([] ∷ p ∷ ps) ≡ sep ∷ join sep (p ∷ ps)
unfolding join
join-nil_first sep p ps = refl

join-one_nil : (sep : ℕ) → join sep ([] ∷ []) ≡ []
unfolding join
join-one_nil sep = refl

pub join-split : (sep : ℕ) (s : Bytes) → join sep (split sep s) ≡ s
unfolding split
join-split sep [] = join-one_nil sep
join-split sep (c ∷ s) =
    let (p, ps, e) = split-cons sep s in
    let ih = rw e at (join-split sep s) in
    elim (Bool-cases (eqb c sep)) [
      | inl yes_sep ↦ rw (yes_sep, e) (join-nil_first sep p ps ∙ ground (arith, ih, yes_sep))
      | inr no_sep ↦ rw (no_sep, e) (join-onto_first sep c p ps ∙ ap (◌∷◌ c) ih)
    ]

-- Pieces without the separator come back.
pub split-join :
    (sep : ℕ) (p : Bytes) (ps : List Bytes)
    → All (All (λ c. c ≢ sep)) (p ∷ ps)
    → split sep (join sep (p ∷ ps)) ≡ p ∷ ps
unfolding split join
split-join sep [] [] h = refl
split-join sep [] (q ∷ ps) h = let ih = split-join sep q ps h.1 in ground (arith, ih)
split-join sep (c ∷ p) ps h =
    let ih = split-join sep p ps (h.0.1, h.1) in
    rw (join-onto_first sep c p ps) (ground (arith, ih, h.0.0))

-- Joining in two parts.
pub join-append :
    (sep : ℕ) (p : Bytes) (ps : List Bytes) (q : Bytes) (qs : List Bytes)
    → join sep ((p ∷ ps) ++ q ∷ qs) ≡ join sep (p ∷ ps) ++ sep ∷ join sep (q ∷ qs)
unfolding join
join-append sep p [] q qs = refl
join-append sep p (p' ∷ ps) q qs =
    ap (λ t. p ++ sep ∷ t) (join-append sep p' ps q qs)
    ∙ sym (append_assoc p (sep ∷ join sep (p' ∷ ps)) (sep ∷ join sep (q ∷ qs)))

pub join-one : (sep : ℕ) (p : Bytes) → join sep (p ∷ []) ≡ p
unfolding join
join-one sep p = refl

pub join-nil : (sep : ℕ) → join sep [] ≡ []
unfolding join
join-nil sep = refl

pub count-append : (sep : ℕ) (s t : Bytes) → count sep (s ++ t) ≡ count sep s + count sep t
unfolding count
count-append sep [] t = omega arith
count-append sep (c ∷ s) t = ground (arith, count-append sep s t)

-- The pieces hold no separator.
pub split-clean : (sep : ℕ) (s : Bytes) → All (λ p. count sep p ≡ 0) (split sep s)
unfolding split count
split-clean sep [] = (refl, tt)
split-clean sep (c ∷ s) =
    let (p, ps, e) = split-cons sep s in
    let ih : All (λ q. count sep q ≡ 0) (p ∷ ps) = rw e at (split-clean sep s) in
    elim (Bool-cases (eqb c sep)) [
      | inl yes_sep ↦ rw (yes_sep, e) (refl, ih)
      | inr no_sep ↦ rw (no_sep, e) (rw no_sep ih.0, ih.1)
    ]
