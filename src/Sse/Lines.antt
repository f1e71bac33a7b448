-- ===== src/Sse/Lines.antt =====
-- One line of the stream at a time, as the client reads it.
use turnhive.Base.{
  ℕ, ◌≤◌, ◌<◌, ◌≡◌, refl, Bool, true, false, ◌&&◌, Option, [], ◌∷◌, ◌++◌, Bytes, arith, eqb, length,
  All, All-map, ◌==◌, bytes_eq, bytes_eqb, if◌then◌else◌,
}
use turnhive.Base.Decimal.{is_digit, decimal, decimal-are_digits}
use turnhive.Base.Split.{split, split-cons}
use turnhive.Truncate.{newline, is_empty}
use turnhive.Sse.Client.{
  Frame, EventPayload, new_frame, trim_line_end, parse_line, dispatch, run_lines,
}

-- Text without control characters.
abbrev pub IsText : Bytes → Type 0
IsText s = All (λ c. 32 ≤ c) s

pub decimal-IsText : (n : ℕ) → IsText (decimal n)
unfolding is_digit
decimal-IsText n =
    All-map (λ c. is_digit c ≡ true) (λ c. 32 ≤ c) (λ c d. ground (arith, d)) (decimal n)
      (decimal-are_digits n)

not_newline : (c : ℕ) → 32 ≤ c → eqb c newline ≡ false
not_newline c h = ground (arith, h)

not_return : (c : ℕ) → 32 ≤ c → eqb c b'\r' ≡ false
not_return c h = ground (arith, h)

pub not_blank : (l : Bytes) → 0 < length l → (l == []) ≡ false
unfolding bytes_eqb
not_blank [] h = absurd (omega (arith, h))
not_blank (c ∷ l) h = refl

split-line :
    (l rest : Bytes) → IsText l → split newline (l ++ newline ∷ rest) ≡ l ∷ split newline rest
unfolding split
split-line [] rest h = refl
split-line (c ∷ l) rest h = rw (not_newline c h.0) (rw (split-line l rest h.1) refl)

keep_head : (b : Bool) (c : ℕ) (l : Bytes) → (if b && false then [] else c ∷ l) ≡ c ∷ l
keep_head true c l = refl
keep_head false c l = refl

pub trim_line_end-text : (l : Bytes) → IsText l → trim_line_end l ≡ l
unfolding trim_line_end
trim_line_end-text [] h = refl
trim_line_end-text (c ∷ l) h =
    rw (not_newline c h.0)
      (rw (not_return c h.0) (rw (trim_line_end-text l h.1) (keep_head (is_empty l) c l)))

module _ (decode : Bytes → Option EventPayload) where
  -- A line with text goes into the frame.
  pub run_lines-field :
      (failed : Bool) (f : Frame) (l rest : Bytes)
      → IsText l
      → 0 < length l
      → run_lines decode failed f (split newline (l ++ newline ∷ rest))
        ≡ run_lines decode failed (parse_line l f) (split newline rest)
  unfolding run_lines
  run_lines-field failed f l rest h ne =
      let (p, ps, e) = split-cons newline rest in
      rw (split-line l rest h) (rw e (rw (trim_line_end-text l h) (rw (not_blank l ne) refl)))

  -- A blank line dispatches it.
  pub run_lines-blank :
      (failed : Bool) (f : Frame) (rest : Bytes)
      → run_lines decode failed f (split newline (newline ∷ rest))
        ≡ dispatch decode f (run_lines decode failed new_frame (split newline rest))
  unfolding run_lines trim_line_end bytes_eqb
  run_lines-blank failed f rest =
      let (p, ps, e) = split-cons newline rest in rw (split-line [] rest tt) (rw e refl)
