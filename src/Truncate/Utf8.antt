-- ===== src/Truncate/Utf8.antt =====
-- The range loop over a Go string, and `cutToBytes` of agent/truncate.go.
use turnhive.Base.{
  ℕ, zero, suc, ◌+◌, ◌-◌, Bool, true, false, ◌&&◌, Option, none, some, List, [], ◌∷◌, Bytes, ltb,
  leb, eqb, length, take, if◌then◌else◌,
}

abbrev pub between : ℕ → ℕ → ℕ → Bool
between lo hi c = leb lo c && leb c hi

-- A continuation byte of UTF-8, and the narrower range of the second byte behind some first bytes.
abbrev pub follows : ℕ → Bool
follows c = between 0x80 0xbf c

abbrev pub second_ok : ℕ → ℕ → Bool
second_ok b c =
    if eqb b 0xe0
    then between 0xa0 0xbf c
    else if eqb b 0xed
    then between 0x80 0x9f c
    else if eqb b 0xf0
    then between 0x90 0xbf c
    else if eqb b 0xf4
    then between 0x80 0x8f c
    else follows c

-- The number of bytes that a first byte announces; 0 if no rune starts with it.
unfoldable pub announced : ℕ → ℕ
announced b =
    if ltb b 0x80
    then 1
    else if between 0xc2 0xdf b
    then 2
    else if between 0xe0 0xef b
    then 3
    else if between 0xf0 0xf4 b
    then 4
    else 0

abbrev pub tail_ok : ℕ → ℕ → Bytes → Bool
tail_ok b zero s = false
tail_ok b (suc zero) s = true
tail_ok b (suc (suc zero)) (c ∷ s) = second_ok b c
tail_ok b (suc (suc (suc zero))) (c ∷ d ∷ s) = second_ok b c && follows d
tail_ok b (suc (suc (suc (suc zero)))) (c ∷ d ∷ e ∷ s) = second_ok b c && follows d && follows e
tail_ok b _ s = false

-- The width of the rune at the head of `b ∷ s` if its encoding is valid, else 0.
unfoldable pub rune_width : ℕ → Bytes → ℕ
rune_width b s = if tail_ok b (announced b) s then announced b else 0

-- What the loop takes: an invalid byte is one step, and yields RuneError.
abbrev pub step_width : ℕ → ℕ
step_width zero = 1
step_width (suc w) = suc w

-- utf8.RuneLen of what the loop yields; RuneError is U+FFFD, three bytes long.
abbrev pub rune_len : ℕ → ℕ
rune_len zero = 3
rune_len (suc w) = suc w

-- The runes' lengths in the order of the loop, `skip` bytes of the current one still to pass.
unfoldable pub rune_lens : ℕ → Bytes → List ℕ
rune_lens skip [] = []
rune_lens (suc skip) (b ∷ s) = rune_lens skip s
rune_lens zero (b ∷ s) = rune_len (rune_width b s) ∷ rune_lens (step_width (rune_width b s) - 1) s

unfoldable pub cut_length : ℕ → ℕ → List ℕ → ℕ
cut_length budget n [] = n
cut_length budget n (w ∷ ws) =
    let rest = cut_length budget (n + w) ws in if ltb budget (n + w) then n else rest

-- `s[:n]` panics past the end of `s`.
unfoldable pub slice_to : ℕ → Bytes → Option Bytes
slice_to n s = if leb n (length s) then some (take n s) else none

unfoldable pub cut_to_bytes : Bytes → ℕ → Option Bytes
unfolding slice_to cut_length rune_lens rune_width announced
cut_to_bytes s budget =
    if leb budget 0 then some [] else slice_to (cut_length budget 0 (rune_lens 0 s)) s
