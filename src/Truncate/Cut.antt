-- ===== src/Truncate/Cut.antt =====
-- What `cutToBytes` keeps.
use turnhive.Base.{
  ℕ, zero, suc, ◌+◌, ◌-◌, ◌≤◌, ◌<◌, ◌⊎◌, ◌≡◌, ◌≢◌, refl, sym, ◌∙◌, inl, inr, Bool, true, false,
  Bool-cases, some, List, [], ◌∷◌, Bytes, arith, ltb, length, take,
}
use native.Mathlib.Nat.{add-zero, zero-add, suc-add}
use turnhive.Truncate.Utf8.{
  step_width, rune_len, tail_ok, announced, rune_width, rune_lens, cut_length, cut_to_bytes,
}

-- The text is valid UTF-8, `skip` bytes of the current rune still to pass.
unfoldable pub valid_from : ℕ → Bytes → Bool
valid_from zero [] = true
valid_from (suc skip) [] = false
valid_from (suc skip) (b ∷ s) = valid_from skip s
valid_from zero (b ∷ s) = elim (rune_width b s) [ zero ↦ false | suc w ↦ valid_from w s ]

-- utf8.ValidString
abbrev pub valid_utf8 : Bytes → Bool
valid_utf8 = valid_from 0

cut_length-le : (budget n : ℕ) (ws : List ℕ) → n ≤ budget → cut_length budget n ws ≤ budget
unfolding cut_length
cut_length-le budget n [] h = h
cut_length-le budget n (w ∷ ws) h = elim (Bool-cases (ltb budget (n + w))) [
  | inl over ↦ rw over h
  | inr fits ↦ rw fits (cut_length-le budget (n + w) ws (ground arith))
]

-- With a budget that the text reaches the cut does not panic, and keeps a head within the budget.
pub cut_to_bytes-take :
    (s : Bytes) (budget : ℕ)
    → budget ≤ length s
    → (n : ℕ) × (n ≤ budget) × (cut_to_bytes s budget ≡ some (take n s))
unfolding cut_to_bytes
cut_to_bytes-take s zero h = (0, omega arith, refl)
cut_to_bytes-take s (suc b) h =
    let n : ℕ = cut_length (suc b) 0 (rune_lens 0 s) in
    let fits : n ≤ suc b = cut_length-le (suc b) 0 (rune_lens 0 s) (omega arith) in
    (n, fits, ground (arith, fits))

tail_ok-take :
    (b w m : ℕ) (s : Bytes) → w ≤ suc m → tail_ok b w s ≡ true → tail_ok b w (take m s) ≡ true
tail_ok-take b zero m s h t = cc
tail_ok-take b (suc zero) m s h t = refl
tail_ok-take b (suc (suc zero)) (suc m) (c ∷ s) h t = t
tail_ok-take b (suc (suc (suc zero))) (suc (suc m)) (c ∷ d ∷ s) h t = t
tail_ok-take b (suc (suc (suc (suc zero)))) (suc (suc (suc m))) (c ∷ d ∷ e ∷ s) h t = t
tail_ok-take b w m s h t = ground arith

-- A cut behind the first rune leaves it whole.
rune_width-take :
    (b m w : ℕ) (s : Bytes) → rune_width b s ≡ suc w → w ≤ m → rune_width b (take m s) ≡ suc w
unfolding rune_width
rune_width-take b m w s e h = elim (Bool-cases (tail_ok b (announced b) s)) [
  | inl good ↦
      let a : announced b ≡ suc w = rw good at e in
      rw (tail_ok-take b (announced b) m s (omega (arith, a)) good) a
  | inr bad ↦ absurd (ground (arith, bad, e))
]

valid-head :
    (b : ℕ) (s : Bytes)
    → valid_from 0 (b ∷ s) ≡ true
    → (w : ℕ) × (rune_width b s ≡ suc w) × (valid_from w s ≡ true)
unfolding valid_from
valid-head b s h = by_width (rune_width b s) refl
  where
    by_width :
        (v : ℕ) → rune_width b s ≡ v → (w : ℕ) × (rune_width b s ≡ suc w) × (valid_from w s ≡ true)
    by_width zero e = absurd (ground (arith, e, h))
    by_width (suc w) e = (w, e, ground (arith, e, h))

valid_from-cons :
    (b w : ℕ) (s : Bytes)
    → rune_width b s ≡ suc w
    → valid_from w s ≡ true
    → valid_from 0 (b ∷ s) ≡ true
unfolding valid_from
valid_from-cons b w s e h = ground (arith, e, h)

valid-pass : (skip b : ℕ) (s : Bytes) → valid_from (suc skip) (b ∷ s) ≡ valid_from skip s
unfolding valid_from
valid-pass skip b s = refl

valid-nil : valid_from 0 [] ≡ true
unfolding valid_from
valid-nil = refl

not-valid-nil : (skip : ℕ) → valid_from (suc skip) [] ≢ true
unfolding valid_from
not-valid-nil skip h = cc

-- The cut, behind the bytes of the rune in hand, is a rune boundary.
Boundary : ℕ → ℕ → ℕ → Bytes → Type 0
Boundary budget n skip s =
    (m : ℕ) × (cut_length budget n (rune_lens skip s) ≡ n + m)
    × (valid_from skip (take (skip + m) s) ≡ true)

Boundary-pass :
    (budget n skip b : ℕ) (s : Bytes)
    → Boundary budget n skip s
    → Boundary budget n (suc skip) (b ∷ s)
unfolding Boundary rune_lens
Boundary-pass budget n skip b s (m, e, v) =
    (m, e, rw suc-add (valid-pass skip b (take (skip + m) s) ∙ v))

Boundary-rune :
    (budget n w b : ℕ) (s : Bytes)
    → rune_width b s ≡ suc w
    → Boundary budget (n + suc w) w s
    → Boundary budget n zero (b ∷ s)
unfolding Boundary rune_lens cut_length
Boundary-rune budget n w b s e (m, cut, v) = elim (Bool-cases (ltb budget (n + suc w))) [
  | inl over ↦ (0, rw (e, over) (sym (add-zero n)), valid-nil)
  | inr fits ↦
      let size : suc w - 1 ≡ w = omega arith in
      (
        suc w + m,
        rw (e, fits, size) (cut ∙ omega arith),
        rw (zero-add, suc-add)
            (valid_from-cons b w (take (w + m) s) (rune_width-take b (w + m) w s e (omega arith))
              v),
      )
]

boundary : (budget n skip : ℕ) (s : Bytes) → valid_from skip s ≡ true → Boundary budget n skip s
unfolding Boundary rune_lens cut_length
boundary budget n zero [] h = (0, sym (add-zero n), valid-nil)
boundary budget n (suc skip) [] h = absurd (not-valid-nil skip h)
boundary budget n (suc skip) (b ∷ s) h =
    Boundary-pass budget n skip b s (boundary budget n skip s (sym (valid-pass skip b s) ∙ h))
boundary budget n zero (b ∷ s) h =
    let (w, e, v) = valid-head b s h in
    Boundary-rune budget n w b s e (boundary budget (n + suc w) w s v)

rune_len-small : (b : ℕ) (s : Bytes) → rune_len (rune_width b s) ≤ 4
unfolding rune_width announced
rune_len-small b s = ground arith

step_width-rune_len : (w : ℕ) → step_width w ≤ rune_len w
step_width-rune_len zero = omega arith
step_width-rune_len (suc w) = omega arith

step_width-pos : (w : ℕ) → 1 ≤ step_width w
step_width-pos zero = omega arith
step_width-pos (suc w) = omega arith

-- The runes that the cut takes leave less than four bytes of the budget, if the text reaches it.
cut_length-near :
    (budget n skip : ℕ) (s : Bytes)
    → budget + skip ≤ n + length s
    → budget ≤ cut_length budget n (rune_lens skip s) + 3
unfolding cut_length rune_lens
cut_length-near budget n skip [] h = omega (arith, h)
cut_length-near budget n (suc skip) (b ∷ s) h = cut_length-near budget n skip s (omega (arith, h))
cut_length-near budget n zero (b ∷ s) h =
    let w : ℕ = rune_width b s in
    let further : budget ≤ cut_length budget (n + rune_len w) (rune_lens (step_width w - 1) s) + 3 =
      cut_length-near budget (n + rune_len w) (step_width w - 1) s
        (omega (arith, h, step_width-rune_len w, step_width-pos w)) in
    elim (Bool-cases (ltb budget (n + rune_len w))) [
      | inl over ↦ rw over (ground (arith, over, rune_len-small b s))
      | inr fits ↦ rw fits further
    ]

-- The hard cut of a text that reaches the budget: it does not panic, and keeps a head of the text within the
-- budget, of which less than four bytes, a rune, are left over. Of valid UTF-8 it makes valid UTF-8: no rune is
-- broken.
pub cut_to_bytes-head :
    (s : Bytes) (budget : ℕ)
    → budget ≤ length s
    → (n : ℕ) × (n ≤ budget)
      × (budget < n + 4)
      × (cut_to_bytes s budget ≡ some (take n s))
      × ((valid_utf8 s ≡ false) ⊎ (valid_utf8 (take n s) ≡ true))
unfolding cut_to_bytes Boundary
cut_to_bytes-head s zero h = (0, omega arith, omega arith, refl, inr valid-nil)
cut_to_bytes-head s (suc b) h =
    let n : ℕ = cut_length (suc b) 0 (rune_lens 0 s) in
    let fits : n ≤ suc b = cut_length-le (suc b) 0 (rune_lens 0 s) (omega arith) in
    (
      n,
      fits,
      omega (arith, cut_length-near (suc b) 0 0 s (omega (arith, h))),
      ground (arith, fits),
      elim (Bool-cases (valid_utf8 s)) [
        | inr broken ↦ inl broken
        | inl v ↦ let (m, e, whole) = boundary (suc b) 0 0 s v in inr (rw e whole)
      ],
    )
