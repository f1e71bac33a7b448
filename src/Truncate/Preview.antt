-- ===== src/Truncate/Preview.antt =====
-- What `Truncate` shows: a head of the text within both limits, and a notice whose numbers are right.
use turnhive.Base.{
  codes, ◌⊎◌, ℕ, suc, ◌+◌, ◌-◌, ◌≤◌, ◌<◌, ◌≡◌, refl, sym, ap, subst, ◌∙◌, inl, inr, false,
  Bool-cases, Option, some, List, [], ◌∷◌, ◌++◌, append_assoc, append-nil, Bytes, arith, ltb, leb,
  length, length-append, length-take, take, drop, take-append-drop, All, ◌&&◌, if◌then◌else◌,
}
use native.Mathlib.Nat.{zero-add}
use turnhive.Base.Split.{
  split, join, count, join-split, join-append, join-one, join-nil, count-append, split-clean,
  length-split,
}
use turnhive.Truncate.{
  TruncateOptions, Kept, newline, is_empty, push_line, line_bytes, hard_cut, accumulate, notice,
  no_lines, truncate,
}
use turnhive.Base.Decimal.{decimal}
use turnhive.Truncate.Cut.{cut_to_bytes-take}

-- `p` is a head of `t`.
abbrev pub IsHead : Bytes → Bytes → Type 0
IsHead p t = (rest : Bytes) × (p ++ rest ≡ t)

-- The state of the loop: the bytes counted are those of the preview, and it is within the limits.
record Fits (o : TruncateOptions) (k : Kept) : Type 0 where
  pub counted : k.accumulated_bytes ≡ length (join newline k.kept)
  pub within : k.accumulated_bytes ≤ o.max_bytes
  pub few : length k.kept ≤ o.max_lines
  pub lines : count newline (join newline k.kept) ≡ length k.kept - 1

-- The line in front of the rest, or behind the newline there, is over the budget.
abbrev pub Overfull : ℕ → Bytes → Bytes → Type 0
Overfull max_bytes preview rest =
    (line : Bytes) × (after : Bytes) × (count newline line ≡ 0)
    × (((line ++ after ≡ rest) × (max_bytes < length preview + length line))
        ⊎ ((newline ∷ line ++ after ≡ rest) × (max_bytes < length preview + (length line + 1))))

-- Why the loop stops: at the number of lines, at the end of the text, or before the budget.
abbrev IsFull : TruncateOptions → Kept → Bytes → Type 0
IsFull o k rest =
    (o.max_lines ≤ length k.kept) ⊎ ((rest ≡ []) ⊎ Overfull o.max_bytes (join newline k.kept) rest)

-- The loop ends in such a state, with a head of the text, and no earlier than it has to.
Ends : TruncateOptions → Bytes → Option Kept → Type 0
Ends o text m =
    (k : Kept) × (m ≡ some k)
    × Fits o k
    × (rest : Bytes) × (join newline k.kept ++ rest ≡ text)
    × IsFull o k rest

kept-IsHead :
    (kept : List Bytes) (line : Bytes) (lines : List Bytes)
    → IsHead (join newline kept) (join newline (kept ++ line ∷ lines))
kept-IsHead [] line lines = (join newline (line ∷ lines), rw (join-nil newline))
kept-IsHead (p ∷ ps) line lines =
    (newline ∷ join newline (line ∷ lines), sym (join-append newline p ps line lines))

length-push :
    (k : Kept) (line : Bytes)
    → length (join newline (k.kept ++ line ∷ []))
      ≡ length (join newline k.kept) + (if is_empty k.kept then length line else length line + 1)
length-push k line = of_kept k.kept
  where
    of_kept :
        (kept : List Bytes)
        → length (join newline (kept ++ line ∷ []))
          ≡ length (join newline kept) + (if is_empty kept then length line else length line + 1)
    of_kept [] = rw (join-one newline line, join-nil newline) (omega arith)
    of_kept (p ∷ ps) =
        rw (join-append newline p ps line [], join-one newline line)
          (omega (arith, length-append (join newline (p ∷ ps)) (newline ∷ line)))

line-IsHead : (line : Bytes) (lines : List Bytes) → IsHead line (join newline (line ∷ lines))
line-IsHead line [] = ([], append-nil line ∙ sym (join-one newline line))
line-IsHead line (l ∷ lines) = (
  newline ∷ join newline (l ∷ lines),
  sym (
      join-append newline line [] l lines
      ∙ ap (λ t. t ++ newline ∷ join newline (l ∷ lines)) (join-one newline line)),
)

-- Behind kept lines, the next one with its newline is over the budget.
kept-Overfull :
    (max_bytes : ℕ) (p : Bytes) (ps : List Bytes) (line : Bytes) (lines : List Bytes)
    → count newline line ≡ 0
    → max_bytes < length (join newline (p ∷ ps)) + (length line + 1)
    → (rest : Bytes) × (join newline (p ∷ ps) ++ rest ≡ join newline ((p ∷ ps) ++ line ∷ lines))
      × Overfull max_bytes (join newline (p ∷ ps)) rest
unfolding count
kept-Overfull max_bytes p ps line lines clean over =
    let (after, e) = line-IsHead line lines in
    (
      newline ∷ join newline (line ∷ lines),
      sym (join-append newline p ps line lines),
      (line, after, clean, inr (ap (◌∷◌ newline) e, over)),
    )

length-take-le : (n : ℕ) (s : Bytes) → n ≤ length s → length (take n s) ≡ n
length-take-le n s h = omega (arith, length-take n s)

count-take : (n : ℕ) (s : Bytes) → count newline s ≡ 0 → count newline (take n s) ≡ 0
count-take n s h = omega (
  arith,
  h,
  ap (count newline) (take-append-drop n s),
  count-append newline (take n s) (drop n s),
)

count-push :
    (kept : List Bytes) (line : Bytes)
    → count newline line ≡ 0
    → count newline (join newline kept) ≡ length kept - 1
    → count newline (join newline (kept ++ line ∷ [])) ≡ length kept
unfolding count
count-push [] line h e = rw (join-one newline line) h
count-push (p ∷ ps) line h e =
    rw (join-append newline p ps line [], join-one newline line)
      (ground (arith, h, e, count-append newline (join newline (p ∷ ps)) (newline ∷ line)))

hard_cut-Ends :
    (o : TruncateOptions) (line : Bytes) (lines : List Bytes)
    → o.max_bytes < length line
    → 0 < o.max_lines
    → count newline line ≡ 0
    → Ends o (join newline (line ∷ lines)) (hard_cut o no_lines line)
unfolding hard_cut Ends
hard_cut-Ends o line lines over some_line clean =
    let (n, fits, e) = cut_to_bytes-take line o.max_bytes (omega arith) in
    let size : length (take n line) ≡ n = length-take-le n line (omega arith) in
    let (after, whole) = line-IsHead line lines in
    (
      push_line no_lines (take n line) (length (take n line)),
      rw (e, hard_cut),
      record {
        counted = rw (join-one newline (take n line)) (omega arith);
        within = omega arith;
        few = omega arith;
        lines = rw (join-one newline (take n line)) (count-take n line clean);
      },
      drop n line ++ after,
      rw (join-one newline (take n line)) (
          sym (append_assoc (take n line) (drop n line) after)
          ∙ ap (λ t. t ++ after) (take-append-drop n line)
          ∙ whole),
      inr (
          inr (
            drop n line,
            after,
            omega (
              arith,
              clean,
              ap (count newline) (take-append-drop n line),
              count-append newline (take n line) (drop n line),
            ),
            inl (
              refl,
              rw (join-one newline (take n line)) (
                  omega (
                    arith,
                    over,
                    ap length (take-append-drop n line),
                    length-append (take n line) (drop n line),
                  )),
            ),
          )),
    )

stop-Ends :
    (o : TruncateOptions) (k : Kept) (line : Bytes) (lines : List Bytes)
    → Fits o k
    → o.max_lines ≤ length k.kept
    → Ends o (join newline (k.kept ++ line ∷ lines)) (some k)
unfolding Ends
stop-Ends o k line lines f full =
    let (rest, whole) = kept-IsHead k.kept line lines in (k, refl, f, rest, whole, inl full)

push-Fits :
    (o : TruncateOptions) (k : Kept) (line : Bytes) (n : ℕ)
    → n ≡ (if is_empty k.kept then length line else length line + 1)
    → Fits o k
    → k.accumulated_bytes + n ≤ o.max_bytes
    → length k.kept < o.max_lines
    → count newline line ≡ 0
    → Fits o (push_line k line n)
push-Fits o k line n e f room more clean = record {
  counted = omega (arith, length-push k line, e, f.counted);
  within = room;
  few = omega (arith, length-append k.kept (line ∷ []));
  lines = omega (arith, count-push k.kept line clean f.lines, length-append k.kept (line ∷ []));
}

over-Ends :
    (o : TruncateOptions) (k : Kept) (line : Bytes) (lines : List Bytes)
    → Fits o k
    → o.max_bytes < k.accumulated_bytes + (if is_empty k.kept then length line else length line + 1)
    → length k.kept < o.max_lines
    → count newline line ≡ 0
    → Ends o
        (join newline (k.kept ++ line ∷ lines))
        (if is_empty k.kept then hard_cut o k line else some k)
unfolding Ends
over-Ends o k line lines f over more clean = by_kept k.kept refl
  where
    by_kept :
        (kept : List Bytes)
        → k.kept ≡ kept
        → Ends o
            (join newline (k.kept ++ line ∷ lines))
            (if is_empty k.kept then hard_cut o k line else some k)
    by_kept [] e =
        let none_yet : k ≡ no_lines = ground (
          arith,
          e,
          f.counted,
          ap (λ ls. length (join newline ls)) e,
          ap length (join-nil newline),
        ) in
        rw none_yet (
          hard_cut-Ends o line lines (omega (arith, rw zero-add at (rw none_yet at over)))
            (rw none_yet at more) clean)
    by_kept (p ∷ ps) e =
        subst
          (λ ls.
            Ends o (join newline (k.kept ++ line ∷ lines))
              (if is_empty ls then hard_cut o k line else some k))
          (sym e)
          (let room : o.max_bytes < length (join newline (p ∷ ps)) + (length line + 1) =
              omega (arith, rw e at over, f.counted, ap (λ ls. length (join newline ls)) e) in
            let (rest, whole, overfull) =
              subst
                (λ ls.
                  (rest : Bytes) × (join newline ls ++ rest ≡ join newline (ls ++ line ∷ lines))
                  × Overfull o.max_bytes (join newline ls) rest)
                (sym e) (kept-Overfull o.max_bytes p ps line lines clean room) in
            (k, refl, f, rest, whole, inr (inr overfull)))

-- The loop never panics, and ends within the limits with a head of the text.
accumulate-Ends :
    (o : TruncateOptions) (i : ℕ) (k : Kept) (lines : List Bytes)
    → i ≡ length k.kept
    → Fits o k
    → All (λ l. count newline l ≡ 0) lines
    → Ends o (join newline (k.kept ++ lines)) (accumulate o i k lines)
unfolding accumulate Ends
accumulate-Ends o i k [] e f clean = (
  k,
  refl,
  f,
  [],
  append-nil (join newline k.kept) ∙ ap (join newline) (sym (append-nil k.kept)),
  inr (inl refl),
)
accumulate-Ends o i k (line ∷ lines) e f clean = elim (Bool-cases (leb o.max_lines i)) [
  | inl full ↦ rw full (stop-Ends o k line lines f (ground (arith, e, full)))
  | inr more ↦ elim (Bool-cases (ltb o.max_bytes (k.accumulated_bytes + line_bytes k line))) [
    | inl over ↦ rw (more, over) (over-Ends o k line lines f (ground arith) (ground arith) clean.0)
    | inr room ↦
        let k' : Kept = push_line k line (line_bytes k line) in
        let f' : Fits o k' =
          push-Fits o k line (line_bytes k line) refl f (ground arith) (ground arith) clean.0 in
        rw (more, room)
          (subst (λ ls. Ends o (join newline ls) (accumulate o (suc i) k' lines))
            (append_assoc k.kept (line ∷ []) lines)
            (accumulate-Ends o (suc i) k' lines (omega (arith, e, length-append k.kept (line ∷ [])))
              f' clean.1))
  ]
]

-- What a call shows of a text that is over a limit.
pub record Shown (text : Bytes) (o : TruncateOptions) : Type 0 where
  pub preview : Bytes
  pub rest : Bytes
  pub shown_lines : ℕ
  pub removed_lines : ℕ
  pub result :
      truncate text o
      ≡ some (
          preview
          ++ (codes "\n\n..."
              ++ (decimal removed_lines
                  ++ (codes " lines ("
                      ++ (decimal (length rest) ++ (codes " bytes) truncated...\n\n" ++ o.hint))))))
  pub is_text : preview ++ rest ≡ text
  pub within : length preview ≤ o.max_bytes
  pub few : shown_lines ≤ o.max_lines
  pub preview_lines : count newline preview ≡ shown_lines - 1
  pub full : (shown_lines ≡ o.max_lines) ⊎ Overfull o.max_bytes preview rest
  pub all_lines : shown_lines + removed_lines ≡ length (split newline text)

no_lines-Fits : (o : TruncateOptions) → Fits o no_lines
unfolding join count
no_lines-Fits o = record {
  counted = refl;
  within = omega arith;
  few = omega arith;
  lines = omega arith;
}

-- Text that is over a limit and shown to its end is over the number of lines.
reaches :
    (text : Bytes) (o : TruncateOptions) (k : Kept) (rest : Bytes)
    → (leb (length (split newline text)) o.max_lines && leb (length text) o.max_bytes) ≡ false
    → Fits o k
    → join newline k.kept ++ rest ≡ text
    → rest ≡ []
    → o.max_lines ≤ length k.kept
reaches text o k rest over f whole nothing_left =
    let all_shown : join newline k.kept ≡ text =
      sym (append-nil _) ∙ ap (◌++◌ (join newline k.kept)) (sym nothing_left) ∙ whole in
    let bytes : length text ≤ o.max_bytes =
      omega (arith, f.counted, f.within, ap length all_shown) in
    let lines : length (split newline text) ≡ (length k.kept - 1) + 1 =
      omega (arith, length-split newline text, f.lines, ap (count newline) all_shown) in
    ground (arith, over, bytes, lines)

-- Text over a limit: the call returns, and shows a head of the text of at most `max_bytes` bytes and
-- `max_lines` lines, with none of its bytes altered, then a notice with the number of the lines left out,
-- that of the bytes left out, and the hint; they add up to the text's own. It shows as much as it may: it has
-- `max_lines` lines, or with the next line, or the rest of the line that is cut, it would be over `max_bytes`.
pub truncate-Shown :
    (text : Bytes) (o : TruncateOptions)
    → (leb (length (split newline text)) o.max_lines && leb (length text) o.max_bytes) ≡ false
    → Shown text o
unfolding truncate Ends notice count
truncate-Shown text o over =
    let (k, e, f, rest, whole, fullness) =
      accumulate-Ends o 0 no_lines (split newline text) refl (no_lines-Fits o)
        (split-clean newline text) in
    let is_text : join newline k.kept ++ rest ≡ text = whole ∙ join-split newline text in
    let bytes : length text - k.accumulated_bytes ≡ length rest =
      omega (arith, f.counted, ap length is_text, length-append (join newline k.kept) rest) in
    record {
      preview = join newline k.kept;
      rest = rest;
      shown_lines = length k.kept;
      removed_lines = length (split newline text) - length k.kept;
      result = rw (over, e, bytes);
      is_text = is_text;
      within = rw (← f.counted) f.within;
      few = f.few;
      full = elim fullness [
        | inl reached ↦ inl (omega (arith, reached, f.few))
        | inr (inr overfull) ↦ inr overfull
        | inr (inl nothing_left) ↦
            inl (omega (arith, f.few, reaches text o k rest over f is_text nothing_left))
      ];
      preview_lines = f.lines;
      all_lines = omega (
        arith,
        length-split newline text,
        f.lines,
        ap (count newline) is_text,
        count-append newline (join newline k.kept) rest,
      );
    }
