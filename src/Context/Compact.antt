-- ===== src/Context/Compact.antt =====
-- What `CompactMessages` keeps, and how large its summary is.
use turnhive.Base.{
  ℕ, zero, suc, ◌+◌, ◌-◌, ◌*◌, ◌≤◌, ◌<◌, ◌≡◌, refl, ap, subst, ◌∙◌, inl, inr, ◌⊎◌, Bool, true,
  false, not, ◌&&◌, Bool-cases, some, List, [], ◌∷◌, ◌++◌, Bytes, codes, arith, ltb, leb, leb→le,
  le→leb, length, length-append, length-take, take, drop, keep, get_elem?, ◌==◌, ==_iff, bytes_eq,
  bytes_eqb,
}
use native.Mathlib.Nat.{zero-add}
use turnhive.Base.Split.{join}
use turnhive.Llm.{Message}
use turnhive.Truncate.{newline}
use turnhive.Truncate.Cut.{cut_to_bytes-take}
use turnhive.Context.{
  estimate_tokens, chars_per_token, user, assistant, user_indexes, compact_cutoff, or_zero,
  keep_recent_turns,
}
use turnhive.Context.Summary.{
  truncate_text, truncated_mark, append_mark, request_lines, response_lines, last_n, under_heading,
  closing_lines, generate_summary, summary_message, compact_messages, max_summary_tokens,
  summary_request_tokens, summary_response_tokens, key_response_count, min_response_chars,
}

-- The number of user messages, that is of turns.
abbrev pub turns : List Message → ℕ
turns ms = length (keep (λ m. m.role == user) ms)

-- The part of a history from a user message on, with `k` turns.
pub record Recent (k : ℕ) (ms : List Message) : Type 0 where
  pub head : Message
  pub rest : List Message
  pub is_head : ms ≡ head ∷ rest
  pub by_user : head.role ≡ user
  pub count : turns ms ≡ k

length-user_indexes : (i : ℕ) (ms : List Message) → length (user_indexes i ms) ≡ turns ms
unfolding user_indexes keep
length-user_indexes i [] = refl
length-user_indexes i (m ∷ ms) = ground (arith, length-user_indexes (suc i) ms)

-- The `j`-th of the places counted from `i` on is where the turns from the `j`-th on begin.
abbrev Place : ℕ → ℕ → List Message → Type 0
Place i j ms =
    (c : ℕ) × (get_elem? (user_indexes i ms) j ≡ some (i + c)) × Recent (turns ms - j) (drop c ms)

turns-user :
    (m : Message) (ms : List Message) → (m.role == user) ≡ true → turns (m ∷ ms) ≡ suc (turns ms)
unfolding keep
turns-user m ms u = rw u refl

turns-other :
    (m : Message) (ms : List Message) → (m.role == user) ≡ false → turns (m ∷ ms) ≡ turns ms
unfolding keep
turns-other m ms u = rw u refl

Place-cons :
    (i : ℕ) (m : Message) (ms : List Message)
    → ((j : ℕ) → j < turns ms → Place (suc i) j ms)
    → (j : ℕ) → j < turns (m ∷ ms)
    → (b : Bool) → (m.role == user) ≡ b
    → Place i j (m ∷ ms)
unfolding user_indexes keep
Place-cons i m ms next zero h true u = (
  0,
  rw u (ap some (omega arith)),
  record {
    head = m;
    rest = ms;
    is_head = refl;
    by_user = (==_iff m.role user).0 u;
    count = omega arith;
  },
)
Place-cons i m ms next (suc j) h true u =
    let (c, e, r) = next j (omega (arith, h, turns-user m ms u)) in
    (
      suc c,
      rw u (e ∙ ap some (omega arith)),
      subst (λ k. Recent k (drop c ms)) (omega (arith, turns-user m ms u)) r,
    )
Place-cons i m ms next j h false u =
    let (c, e, r) = next j (omega (arith, h, turns-other m ms u)) in
    (
      suc c,
      rw u (e ∙ ap some (omega arith)),
      subst (λ k. Recent k (drop c ms)) (omega (arith, turns-other m ms u)) r,
    )

place : (i j : ℕ) (ms : List Message) → j < turns ms → Place i j ms
unfolding keep
place i j [] h = absurd (omega (arith, h))
place i j (m ∷ ms) h = Place-cons i m ms (λ k. place (suc i) k ms) j h _ refl

rough : (text : Bytes) (n : ℕ) → leb (estimate_tokens text) n ≡ true → length text ≤ n * 4 + 39
unfolding estimate_tokens bytes_eqb
rough [] n h = omega arith
rough (b ∷ text) n h = omega (arith, leb→le _ _ h)

shorter : (k : ℕ) (text : Bytes) → length (take k text) ≤ k
shorter k text = omega (arith, length-take k text)

truncate_text-Bounded :
    (text : Bytes) (n : ℕ)
    → (t : Bytes) × (truncate_text text n ≡ some t)
      × (length t ≤ n * chars_per_token + length truncated_mark)
unfolding truncate_text
truncate_text-Bounded text n = elim (Bool-cases (leb (estimate_tokens text) n)) [
  | inl small ↦ (text, rw small refl, rough text n small)
  | inr big ↦ elim (Bool-cases (leb (length text) (n * chars_per_token))) [
    | inl short ↦ (text, rw big (rw short refl), omega (arith, leb→le _ _ short))
    | inr long ↦
        let (k, le, e) = cut_to_bytes-take text (n * chars_per_token) (ground (arith, long)) in
        (
          take k text ++ truncated_mark,
          rw big (rw long (ap append_mark e)),
          rw length-append (omega (arith, le, shorter k text)),
        )
  ]
]

request_lines-Some : (ms : List Message) → (lines : List Bytes) × (request_lines ms ≡ some lines)
unfolding request_lines
request_lines-Some [] = ([], refl)
request_lines-Some (m ∷ ms) =
    let (rest, e) = request_lines-Some ms in
    let (t, f, _) = truncate_text-Bounded m.content summary_request_tokens in
    elim (Bool-cases (m.role == user && not (m.content == []))) [
      | inl u ↦ (codes "## Original Request" ∷ t ∷ [] ∷ [], rw u (rw f refl))
      | inr u ↦ (rest, rw u e)
    ]

response_lines-Some : (ms : List Message) → (lines : List Bytes) × (response_lines ms ≡ some lines)
unfolding response_lines
response_lines-Some [] = ([], refl)
response_lines-Some (m ∷ ms) =
    let (rest, e) = response_lines-Some ms in
    let (t, f, _) = truncate_text-Bounded m.content summary_response_tokens in
    elim (Bool-cases (ltb min_response_chars (length m.content))) [
      | inl u ↦ (t ∷ [] ∷ rest, rw u (rw f (rw e refl)))
      | inr u ↦ (rest, rw u e)
    ]

not_zero : (c : ℕ) → 0 < c → leb c 0 ≡ false
not_zero c p = ground (arith, p)

not_le : {n k : ℕ} → k < n → leb n k ≡ false
not_le h = ground (arith, h)

compact_cutoff-few :
    (history : List Message) → turns history ≤ 2 → compact_cutoff history keep_recent_turns ≡ 0
unfolding compact_cutoff
compact_cutoff-few history h = rw (length-user_indexes 0 history) (rw (le→leb _ _ h) refl)

positive :
    (c : ℕ) (history : List Message)
    → 2 < turns history
    → turns (drop c history) ≡ turns history - (turns history - 2)
    → 0 < c
positive zero history h e = absurd (omega (arith, h, e))
positive (suc c) history h e = omega arith

compact_cutoff-many :
    (history : List Message)
    → 2 < turns history
    → (c : ℕ) × (compact_cutoff history keep_recent_turns ≡ c) × (0 < c) × Recent 2 (drop c history)
unfolding compact_cutoff
compact_cutoff-many history h =
    let (c, e, r) = place 0 (turns history - 2) history (omega (arith, h)) in
    (
      c,
      rw (length-user_indexes 0 history) (rw (not_le h) (ap or_zero e ∙ zero-add c)),
      positive c history h r.count,
      subst (λ k. Recent k (drop c history)) (omega (arith, h)) r,
    )

-- The texts `summarySections` and `summaryRules`.
module _ (sections rules : Bytes) where
  generate_summary-Bounded :
      (old : List Message) (n : ℕ)
      → (t : Bytes) × (generate_summary sections rules old n ≡ some t)
        × (length t ≤ n * chars_per_token + length truncated_mark)
  unfolding generate_summary
  generate_summary-Bounded old n =
      let (request, e) = request_lines-Some old in
      let (responses, f) =
        response_lines-Some (last_n key_response_count (keep (λ m. m.role == assistant) old)) in
      let (t, g, b) =
        truncate_text-Bounded
          (join newline (request ++ (under_heading responses ++ closing_lines sections rules))) n in
      (t, rw e (rw f g), b)

  -- `CompactMessages` returns a history of at most two turns unchanged. Of a longer one it keeps as it is
  -- the part from its last user message but one on, in which there are exactly two user messages, and puts
  -- in place of all that stands before it one message with a summary of at most 16,000 bytes and the mark of
  -- a cut. It does not panic.
  pub compact_messages-Recent :
      (history : List Message)
      → ((turns history ≤ keep_recent_turns)
          × (compact_messages sections rules history ≡ some history))
        ⊎ ((keep_recent_turns < turns history)
            × (summary : Bytes) × (cutoff : ℕ) × Recent keep_recent_turns (drop cutoff history)
            × (compact_messages sections rules history
                ≡ some (summary_message sections rules summary ∷ drop cutoff history))
            × (length summary ≤ 16000 + length truncated_mark))
  unfolding compact_messages
  compact_messages-Recent history = elim (Bool-cases (leb (turns history) keep_recent_turns)) [
    | inl few ↦ inl (leb→le _ _ few, rw (compact_cutoff-few history (leb→le _ _ few)) refl)
    | inr many ↦
        let more : keep_recent_turns < turns history = ground (arith, many) in
        let (c, e, p, r) = compact_cutoff-many history more in
        let (t, g, b) = generate_summary-Bounded (take c history) max_summary_tokens in
        inr (more, t, c, r, rw e (rw (not_zero c p) (rw g refl)), b)
  ]
