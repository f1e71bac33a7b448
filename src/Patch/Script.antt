-- ===== src/Patch/Script.antt =====
-- Hunks that fit the file: what `applyHunksToText` makes of them.
use turnhive.Base.{
  ℕ, zero, suc, ◌+◌, ◌-◌, min, ◌≤◌, ◌<◌, ◌≡◌, refl, sym, ap, ◌∙◌, inl, inr, true, false, Bool-cases,
  some, List, [], ◌∷◌, ◌++◌, append_assoc, append-nil, Bytes, codes, arith, ltb, length,
  length-append, length-drop, drop, drop-append, drop-drop, take-append, get_elem?, has_prefix,
  ==_refl, bytes_eq,
}
use native.Mathlib.Nat.{add-zero, suc-add, add-suc}
use turnhive.Patch.{
  Applying, Result, ok, cut_prefix, hunk_start, atoi, move_to, apply_header, is_line, apply_line,
  then_ok, apply_lines, finish, patched_lines,
}

-- A line of a hunk's body.
pub data Edit : Type 0 where
  keeps removes adds : Bytes → Edit

abbrev pub render : Edit → Bytes
render (keeps l) = b' ' ∷ l
render (removes l) = b'-' ∷ l
render (adds l) = b'+' ∷ l

-- The lines that edits go over, and those that they leave.
abbrev pub old_lines : List Edit → List Bytes
old_lines [] = []
old_lines (keeps l ∷ es) = l ∷ old_lines es
old_lines (removes l ∷ es) = l ∷ old_lines es
old_lines (adds l ∷ es) = old_lines es

abbrev pub new_lines : List Edit → List Bytes
new_lines [] = []
new_lines (keeps l ∷ es) = l ∷ new_lines es
new_lines (removes l ∷ es) = new_lines es
new_lines (adds l ∷ es) = l ∷ new_lines es

abbrev pub rendered : List Edit → List Bytes
rendered [] = []
rendered (e ∷ es) = render e ∷ rendered es

-- The state with the first `n` lines of the file behind it.
abbrev at_line : List Bytes → ℕ → Applying
at_line out n = record { out = out; cursor = n; copied_cursor = n }

get_elem?-drop :
    (n : ℕ) (xs : List Bytes) (y : Bytes) (ys : List Bytes)
    → drop n xs ≡ y ∷ ys
    → (get_elem? xs n ≡ some y) × (drop (suc n) xs ≡ ys)
get_elem?-drop zero [] y ys e = cc
get_elem?-drop zero (x ∷ xs) y ys e = (cc, cc)
get_elem?-drop (suc n) [] y ys e = cc
get_elem?-drop (suc n) (x ∷ xs) y ys e = get_elem?-drop n xs y ys e

is_line-drop :
    (n : ℕ) (file : List Bytes) (l : Bytes) (rest : List Bytes)
    → drop n file ≡ l ∷ rest
    → is_line l (get_elem? file n) ≡ true
is_line-drop n file l rest e = rw (get_elem?-drop n file l rest e).0 (==_refl l)

apply_line-keeps :
    (file : List Bytes) (l : Bytes) (rest out : List Bytes) (n : ℕ)
    → drop n file ≡ l ∷ rest
    → apply_line file false (b' ' ∷ l) (at_line out n) ≡ ok (at_line (out ++ l ∷ []) (suc n))
unfolding apply_line has_prefix
apply_line-keeps file l rest out n e = rw (is_line-drop n file l rest e) refl

apply_line-removes :
    (file : List Bytes) (l : Bytes) (rest out : List Bytes) (n : ℕ)
    → drop n file ≡ l ∷ rest
    → apply_line file false (b'-' ∷ l) (at_line out n) ≡ ok (at_line (out ++ []) (suc n))
unfolding apply_line has_prefix
apply_line-removes file l rest out n e = rw (is_line-drop n file l rest e) refl

apply_line-adds :
    (file : List Bytes) (l : Bytes) (out : List Bytes) (n : ℕ)
    → apply_line file false (b'+' ∷ l) (at_line out n) ≡ ok (at_line (out ++ l ∷ []) n)
unfolding apply_line has_prefix
apply_line-adds file l out n = refl

-- The body of a hunk, at its place in the file.
apply_lines-rendered :
    (es : List Edit) (file rest out more : List Bytes) (n : ℕ)
    → drop n file ≡ old_lines es ++ rest
    → apply_lines file false (rendered es ++ more) (at_line out n)
      ≡ apply_lines file false more (at_line (out ++ new_lines es) (n + length (old_lines es)))
unfolding apply_lines
apply_lines-rendered [] file rest out more n e = rw (append-nil out, add-zero n) refl
apply_lines-rendered (keeps l ∷ es) file rest out more n e =
    rw (apply_line-keeps file l (old_lines es ++ rest) out n e) (
      apply_lines-rendered es file rest (out ++ l ∷ []) more (suc n) (get_elem?-drop n file l _ e).1
      ∙ rw (append_assoc out (l ∷ []) (new_lines es), suc-add, add-suc) refl)
apply_lines-rendered (removes l ∷ es) file rest out more n e =
    rw (apply_line-removes file l (old_lines es ++ rest) out n e) (
      apply_lines-rendered es file rest (out ++ []) more (suc n) (get_elem?-drop n file l _ e).1
      ∙ rw (append-nil out, suc-add, add-suc) refl)
apply_lines-rendered (adds l ∷ es) file rest out more n e = rw apply_line-adds (
    apply_lines-rendered es file rest (out ++ l ∷ []) more n e
    ∙ rw (append_assoc out (l ∷ []) (new_lines es)) refl)

starts_with_mark : (h start : Bytes) → hunk_start h ≡ some start → has_prefix h (codes "@@") ≡ true
unfolding hunk_start cut_prefix
starts_with_mark h start e = elim (Bool-cases (has_prefix h (codes "@@"))) [
  | inl marked ↦ marked
  | inr bare ↦ absurd (ground (arith, bare, e))
]

length-gap :
    (n : ℕ) (file gap rest : List Bytes)
    → drop n file ≡ gap ++ rest
    → 0 < length gap
    → n + length gap ≤ length file
length-gap n file gap rest e h =
    omega (arith, h, length-drop n file, ap length e, length-append gap rest)

not_ltb : (n : ℕ) → ltb n n ≡ false
not_ltb n = ground arith

move_to-gap :
    (file gap rest out : List Bytes) (n : ℕ)
    → drop n file ≡ gap ++ rest
    → move_to file false (n + length gap) (at_line out n)
      ≡ ok (at_line (out ++ gap) (n + length gap))
unfolding move_to
move_to-gap file [] rest out n e = rw (append-nil out, add-zero n) (rw (not_ltb n) refl)
move_to-gap file (g ∷ gap) rest out n e =
    let place : ℕ = n + length (g ∷ gap) in
    let inside : place ≤ length file = length-gap n file (g ∷ gap) rest e (omega arith) in
    let stop : min place (length file) ≡ place = omega (arith, inside) in
    let forward : ltb n place ≡ true = ground arith in
    let no_panic : ltb place n ≡ false = ground arith in
    let count : place - n ≡ length (g ∷ gap) = omega arith in
    rw forward (rw stop (rw no_panic (rw count (rw e (rw (take-append (g ∷ gap) rest) refl)))))

apply_line-header :
    (file gap rest out : List Bytes) (n : ℕ) (h start : Bytes)
    → hunk_start h ≡ some start
    → atoi start ≡ suc (n + length gap)
    → drop n file ≡ gap ++ rest
    → apply_line file false h (at_line out n) ≡ ok (at_line (out ++ gap) (n + length gap))
unfolding apply_line apply_header
apply_line-header file gap rest out n h start at_start address e =
    let place : atoi start - 1 ≡ n + length gap = omega (arith, address) in
    rw (starts_with_mark h start at_start)
      (rw (at_start, apply_header) (rw place (move_to-gap file gap rest out n e)))

-- A hunk with the lines of the file that stand between it and the hunk before, or the file's start.
pub record Hunk : Type 0 where
  pub gap : List Bytes
  pub header : Bytes
  pub start : Bytes
  pub edits : List Edit

-- The lines of a patch; the file that it is for; and the file that it describes.
abbrev pub script : List Hunk → List Bytes
script [] = []
script (h ∷ hs) = h.header ∷ rendered h.edits ++ script hs

abbrev pub old_file : List Hunk → List Bytes → List Bytes
old_file [] tail = tail
old_file (h ∷ hs) tail = h.gap ++ (old_lines h.edits ++ old_file hs tail)

abbrev pub new_file : List Hunk → List Bytes → List Bytes
new_file [] tail = tail
new_file (h ∷ hs) tail = h.gap ++ (new_lines h.edits ++ new_file hs tail)

-- Every header gives the number of the line that its hunk starts at, with `n` lines before the first gap.
abbrev pub Addressed : ℕ → List Hunk → Type 0
Addressed n [] = Unit
Addressed n (h ∷ hs) =
    (hunk_start h.header ≡ some h.start)
    × (atoi h.start ≡ suc (n + length h.gap))
    × Addressed (n + length h.gap + length (old_lines h.edits)) hs

finish-tail :
    (file tail out : List Bytes) (n : ℕ)
    → drop n file ≡ tail
    → finish file false (at_line out n) ≡ out ++ tail
finish-tail file tail out n e = elim (Bool-cases (ltb n (length file))) [
  | inl more ↦ rw more (rw e refl)
  | inr over ↦ rw over (
      sym (append-nil out)
      ∙ ap (◌++◌ out) (
          sym (no_lines tail (omega (arith, length-drop n file, ap length e, not_below n _ over)))))
]
  where
    not_below : (a b : ℕ) → ltb a b ≡ false → b ≤ a
    not_below a b h = ground (arith, h)

    no_lines : (xs : List Bytes) → length xs ≤ 0 → xs ≡ []
    no_lines [] h = refl
    no_lines (x ∷ xs) h = absurd (omega (arith, h))

drop_further :
    (n : ℕ) (file gap olds rest : List Bytes)
    → drop n file ≡ gap ++ (olds ++ rest)
    → (drop (n + length gap) file ≡ olds ++ rest)
      × (drop (n + length gap + length olds) file ≡ rest)
drop_further n file gap olds rest e =
    let first : drop (n + length gap) file ≡ olds ++ rest =
      sym (drop-drop (length gap) n file)
      ∙ ap (drop (length gap)) e
      ∙ drop-append gap (olds ++ rest) in
    (
      first,
      sym (drop-drop (length olds) (n + length gap) file)
          ∙ ap (drop (length olds)) first
          ∙ drop-append olds rest,
    )

then_finish : List Bytes → Result Applying → Result (List Bytes)
then_finish file r = then_ok r (λ st. ok (finish file false st))

run_script :
    (hs : List Hunk) (file tail out : List Bytes) (n : ℕ)
    → Addressed n hs
    → drop n file ≡ old_file hs tail
    → then_finish file (apply_lines file false (script hs) (at_line out n))
      ≡ ok (out ++ new_file hs tail)
unfolding apply_lines then_finish
run_script [] file tail out n a e = ap ok (finish-tail file tail out n e)
run_script (h ∷ hs) file tail out n a e =
    let (first, second) = drop_further n file h.gap (old_lines h.edits) (old_file hs tail) e in
    ap
      (λ r.
        then_finish file
          (then_ok r (λ st. apply_lines file false (rendered h.edits ++ script hs) st)))
      (apply_line-header file h.gap (old_lines h.edits ++ old_file hs tail) out n h.header h.start
        a.0 a.1 e)
    ∙ ap (then_finish file) (
        apply_lines-rendered h.edits file (old_file hs tail) (out ++ h.gap) (script hs)
          (n + length h.gap) first)
    ∙ run_script hs file tail (out ++ h.gap ++ new_lines h.edits) _ a.2 second
    ∙ ap ok (
        append_assoc (out ++ h.gap) (new_lines h.edits) (new_file hs tail)
        ∙ append_assoc out h.gap (new_lines h.edits ++ new_file hs tail))

-- A patch whose hunks fit the file: between its hunks and behind them the file stays as it is, and each
-- hunk, found at the line that its header names, replaces its old lines by its new ones, in order.
pub patched_lines-script :
    (hs : List Hunk) (tail : List Bytes)
    → Addressed 0 hs
    → patched_lines (old_file hs tail) (script hs) false ≡ ok (new_file hs tail)
unfolding patched_lines then_finish
patched_lines-script hs tail a = run_script hs (old_file hs tail) tail [] 0 a refl
