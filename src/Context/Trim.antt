-- ===== src/Context/Trim.antt =====
-- What `TruncateToFit` keeps.
use turnhive.Base.{
  subst, ℕ, ◌+◌, ◌≤◌, ◌<◌, ◌≡◌, ◌≢◌, refl, ap, ◌∙◌, ◌⊎◌, inl, inr, Bool, true, false, List, [], ◌∷◌,
  ◌++◌, arith, ltb, length, length-append, ◌==◌, bytes_eq, ==_iff, sym, false≢true, ◌↔◌, ltb→lt,
  lt→ltb, Bool, if◌then◌else◌,
}
use turnhive.Llm.{Message}
use turnhive.Context.{estimate_message_tokens, fits, drop_turns, truncate_to_fit, user, assistant}

-- The messages and what is reserved are within the context; or they are not, or nothing is left by the reserve.
abbrev pub Within : ℕ → ℕ → List Message → Type 0
Within mc reserve ms = (reserve < mc) × (estimate_message_tokens ms + reserve ≤ mc)

abbrev pub Over : ℕ → ℕ → List Message → Type 0
Over mc reserve ms = (mc ≤ reserve) ⊎ (mc < estimate_message_tokens ms + reserve)

-- A run of whole turns in front of `out`, each a user message, with the assistant's reply or without, and each
-- over the budget with what is behind it.
pub data WholeTurns (mc reserve : ℕ) (out : List Message) : List Message → Type 0 where
  none_dropped : WholeTurns mc reserve out []
  lone :
      {m : Message} {ms : List Message}
      → m.role ≡ user
      → Over mc reserve (m ∷ ms ++ out)
      → WholeTurns mc reserve out ms
      → WholeTurns mc reserve out (m ∷ ms)
  pair :
      {m n : Message} {ms : List Message}
      → m.role ≡ user
      → n.role ≡ assistant
      → Over mc reserve (m ∷ n ∷ ms ++ out)
      → WholeTurns mc reserve out ms
      → WholeTurns mc reserve out (m ∷ n ∷ ms)

-- Why the loop stopped at `out`: it is within the budget, or down to its last two messages, or its head is no
-- user message.
abbrev pub Stopped : ℕ → ℕ → List Message → Type 0
Stopped mc reserve [] = Unit
Stopped mc reserve (m ∷ ms) = Within mc reserve (m ∷ ms) ⊎ ((length (m ∷ ms) ≤ 2) ⊎ (m.role ≢ user))

fits-Within :
    (mc reserve : ℕ) (ms : List Message) → fits mc reserve ms ≡ true → Within mc reserve ms
unfolding fits
fits-Within mc reserve ms h = ground (arith, h)

fits-Over : (mc reserve : ℕ) (ms : List Message) → fits mc reserve ms ≡ false → Over mc reserve ms
unfolding fits
fits-Over mc reserve ms h = ground (arith, h)

pub record Trimmed (mc reserve : ℕ) (history out : List Message) : Type 0 where
  pub dropped : List Message
  pub whole : WholeTurns mc reserve out dropped
  pub is_tail : dropped ++ out ≡ history
  pub nonempty : (history ≡ []) ⊎ (0 < length out)
  pub stopped : Stopped mc reserve out

empty_or_not : (ms : List Message) → (ms ≡ []) ⊎ (0 < length ms)
empty_or_not [] = inl refl
empty_or_not (m ∷ ms) = inr (omega arith)

still_there :
    (ms out : List Message) → 0 < length ms → (ms ≡ []) ⊎ (0 < length out) → 0 < length out
still_there ms out hl (inl e) = absurd (omega (arith, hl, ap length e))
still_there ms out hl (inr some_left) = some_left

abbrev drop_one :
    {mc reserve : ℕ} {m : Message} {ms out : List Message}
    → m.role ≡ user
    → Over mc reserve (m ∷ ms)
    → 0 < length ms
    → Trimmed mc reserve ms out
    → Trimmed mc reserve (m ∷ ms) out
drop_one {mc} {reserve} {m} {ms} {out} hu over hl t = record {
  dropped = m ∷ t.dropped;
  whole =
      lone hu (subst (λ (l : List Message). Over mc reserve (m ∷ l)) (sym t.is_tail) over) t.whole;
  is_tail = ap (◌∷◌ m) t.is_tail;
  nonempty = inr (still_there ms out hl t.nonempty);
  stopped = t.stopped;
}

abbrev drop_pair :
    {mc reserve : ℕ} {m n : Message} {ms out : List Message}
    → m.role ≡ user
    → n.role ≡ assistant
    → Over mc reserve (m ∷ n ∷ ms)
    → 0 < length ms
    → Trimmed mc reserve ms out
    → Trimmed mc reserve (m ∷ n ∷ ms) out
drop_pair {mc} {reserve} {m} {n} {ms} {out} hu ha over hl t = record {
  dropped = m ∷ n ∷ t.dropped;
  whole =
      pair hu ha (subst (λ (l : List Message). Over mc reserve (m ∷ n ∷ l)) (sym t.is_tail) over)
        t.whole;
  is_tail = ap (λ (l : List Message). m ∷ n ∷ l) t.is_tail;
  nonempty = inr (still_there ms out hl t.nonempty);
  stopped = t.stopped;
}

abbrev drop_none :
    {mc reserve : ℕ} {ms : List Message} → Stopped mc reserve ms → Trimmed mc reserve ms ms
drop_none {ms = ms} h = record {
  dropped = [];
  whole = none_dropped;
  is_tail = refl;
  nonempty = empty_or_not ms;
  stopped = h;
}

-- One round of the loop, with the results of the next rounds at hand.
round_Trimmed :
    (mc reserve : ℕ) (m n o : Message) (rest past_pair past_one : List Message)
    → Trimmed mc reserve (o ∷ rest) past_pair
    → Trimmed mc reserve (n ∷ o ∷ rest) past_one
    → (f u a : Bool) → fits mc reserve (m ∷ n ∷ o ∷ rest) ≡ f
    → (m.role == user) ≡ u
    → (n.role == assistant) ≡ a
    → Trimmed mc reserve (m ∷ n ∷ o ∷ rest) (
        if f
        then m ∷ n ∷ o ∷ rest
        else if u
        then if a then past_pair else past_one
        else m ∷ n ∷ o ∷ rest)
round_Trimmed mc reserve m n o rest pp po tp to true u a hf hu ha =
    drop_none (inl (fits-Within _ _ _ hf))
round_Trimmed mc reserve m n o rest pp po tp to false true true hf hu ha =
    drop_pair ((==_iff m.role user).0 hu) ((==_iff n.role assistant).0 ha) (fits-Over _ _ _ hf)
      (omega arith) tp
round_Trimmed mc reserve m n o rest pp po tp to false true false hf hu ha =
    drop_one ((==_iff m.role user).0 hu) (fits-Over _ _ _ hf) (omega arith) to
round_Trimmed mc reserve m n o rest pp po tp to false false a hf hu ha =
    drop_none (inr (inr (λ e. false≢true (sym hu ∙ (==_iff m.role user).1 e))))

pub drop_turns-Trimmed :
    (mc reserve : ℕ) (history : List Message)
    → Trimmed mc reserve history (drop_turns mc reserve history)
unfolding drop_turns
drop_turns-Trimmed mc reserve [] = drop_none tt
drop_turns-Trimmed mc reserve (m ∷ []) = drop_none (inr (inl (omega arith)))
drop_turns-Trimmed mc reserve (m ∷ n ∷ []) = drop_none (inr (inl (omega arith)))
drop_turns-Trimmed mc reserve (m ∷ n ∷ o ∷ rest) =
    round_Trimmed mc reserve m n o rest _ _ (drop_turns-Trimmed mc reserve (o ∷ rest))
      (drop_turns-Trimmed mc reserve (n ∷ o ∷ rest)) _ _ _ refl refl refl

fitting : (mc reserve : ℕ) (ms : List Message) → fits mc reserve ms ≡ true → Stopped mc reserve ms
fitting mc reserve [] h = tt
fitting mc reserve (m ∷ ms) h = inl (fits-Within mc reserve (m ∷ ms) h)

flag_lem :
    (mc reserve : ℕ) (history out : List Message) (t : Trimmed mc reserve history out)
    → (ltb (length out) (length history) ≡ true) ↔ (0 < length t.dropped)
flag_lem mc reserve history out t =
    let total : length t.dropped + length out ≡ length history =
      sym (length-append t.dropped out) ∙ ap length t.is_tail in
    (λ h. omega (arith, ltb→lt _ _ h, total), λ h. lt→ltb _ _ (omega (arith, h, total)))

pub truncate_to_fit-Trimmed :
    (mc reserve : ℕ) (history : List Message)
    → (t : Trimmed mc reserve history (truncate_to_fit history mc reserve).0) × (((truncate_to_fit
            history mc reserve).1
          ≡ true)
        ↔ (0 < length t.dropped))
unfolding truncate_to_fit
truncate_to_fit-Trimmed mc reserve history = answer _ refl
  where
    answer :
        (b : Bool)
        → fits mc reserve history ≡ b
        → let p : List Message × Bool =
            (if b then (history, false) else (
              drop_turns mc reserve history,
              ltb (length (drop_turns mc reserve history)) (length history),
            )) in
          (t : Trimmed mc reserve history p.0) × ((p.1 ≡ true) ↔ (0 < length t.dropped))
    answer true h = (
      drop_none (fitting mc reserve history h),
      (λ e. absurd (false≢true e), λ e. absurd (omega (arith, e))),
    )
    answer false h =
        let t = drop_turns-Trimmed mc reserve history in (t, flag_lem mc reserve history _ t)
