-- ===== src/Llm/Retry/Bounds.antt =====
-- The waits of the retry loop, and its end.
use turnhive.Base.{
  ℕ, zero, suc, ◌+◌, ◌≤◌, ◌<◌, ◌≡◌, ◌≢◌, refl, inl, inr, ◌⊎◌, Bool, true, false, not, ◌||◌, Option,
  none, some, [], ◌∷◌, Bytes, arith, leb, eqb, All, ◌==◌, bytes_eq, if◌then◌else◌,
}
use turnhive.Base.Int.{ℤ, pos, negsuc, parse_int}
use turnhive.Patch.Parse.{trim_space}
use turnhive.Llm.Retry.{
  max_rate_limit_wait, cap_wait, wait_until, wait_seconds, rate_limit_wait, Response, Outcome,
  established, transport_error, cancelled_wait, out_of_fuel, Posting, one_post, after_wait,
  after_attempt, post_from,
}

-- At most a minute.
abbrev pub AtMostMinute : ℤ → Type 0
AtMostMinute (pos n) = n ≤ max_rate_limit_wait
AtMostMinute (negsuc n) = Unit

cap_wait-AtMostMinute : (d : ℤ) → AtMostMinute (cap_wait d)
unfolding cap_wait
cap_wait-AtMostMinute (pos n) = ground arith
cap_wait-AtMostMinute (negsuc n) = tt

-- What an outcome says of the number of posts, with `before` of them behind it.
abbrev pub Explained : ℕ → Outcome → ℕ → Type 0
Explained before out_of_fuel posts = 1 ≤ 0
Explained before (established answer) posts = (answer.status ≢ 429) ⊎ (before + posts ≡ 4)
Explained before _ posts = Unit

Explained-suc :
    (before : ℕ) (o : Outcome) (posts : ℕ)
    → Explained (suc before) o posts
    → Explained before o (suc posts)
Explained-suc before out_of_fuel posts x = x
Explained-suc before (established answer) posts x = elim x [
  | inl n ↦ inl n
  | inr e ↦ inr (omega (arith, e))
]
Explained-suc before transport_error posts x = x
Explained-suc before cancelled_wait posts x = x

abbrev Fair : ℕ → Posting → Type 0
Fair before p =
    Explained before p.outcome p.posts
    × (before + p.posts ≤ 4)
    × (1 ≤ p.posts)
    × All AtMostMinute p.waits

module _ (until : Bytes → Option ℤ) where
  wait_until-AtMostMinute :
      (date : Option ℤ) (attempt : ℕ) → AtMostMinute (wait_until until date attempt)
  wait_until-AtMostMinute none attempt = cap_wait-AtMostMinute _
  wait_until-AtMostMinute (some d) attempt = cap_wait-AtMostMinute _

  wait_seconds-AtMostMinute :
      (secs date : Option ℤ) (attempt : ℕ) → AtMostMinute (wait_seconds until secs date attempt)
  wait_seconds-AtMostMinute none date attempt = wait_until-AtMostMinute date attempt
  wait_seconds-AtMostMinute (some (pos secs)) date attempt = cap_wait-AtMostMinute _
  wait_seconds-AtMostMinute (some (negsuc n)) date attempt = wait_until-AtMostMinute date attempt

  rate_limit_wait-AtMostMinute :
      (retry_after : Bytes) (attempt : ℕ) → AtMostMinute (rate_limit_wait until retry_after attempt)
  unfolding rate_limit_wait
  rate_limit_wait-AtMostMinute retry_after attempt = by_header (retry_after == [])
    where
      by_header :
          (b : Bool)
          → AtMostMinute (
              if b
              then wait_until until none attempt
              else wait_seconds until
                  (parse_int (trim_space retry_after))
                  (until retry_after)
                  attempt)
      by_header true = wait_until-AtMostMinute none attempt
      by_header false = wait_seconds-AtMostMinute _ _ attempt

  answered-Fair :
      (attempt : ℕ) (answer : Response) (again : Posting) (wait : ℤ) (final stop : Bool)
      → attempt ≤ 3
      → AtMostMinute wait
      → (final ≡ true → (answer.status ≢ 429) ⊎ (attempt ≡ 3))
      → (final ≡ false → Fair (suc attempt) again)
      → Fair attempt (
          if final
          then one_post (established answer)
          else if stop
          then record { outcome = cancelled_wait; posts = 1; waits = wait ∷ [] }
          else after_wait wait again)
  answered-Fair attempt answer again wait true stop h w last next = (
    elim (last refl) [ inl n ↦ inl n | inr e ↦ inr (omega (arith, e)) ],
    omega (arith, h),
    omega arith,
    tt,
  )
  answered-Fair attempt answer again wait false true h w last next =
      (tt, omega (arith, h), omega arith, (w, tt))
  answered-Fair attempt answer again wait false false h w last next =
      let (explained, few, some_post, bounded) = next refl in
      (
        Explained-suc attempt again.outcome again.posts explained,
        omega (arith, few),
        omega arith,
        (w, bounded),
      )

  final_case :
      (status attempt : ℕ)
      → attempt ≤ 3
      → not (eqb status 429) || leb 3 attempt ≡ true
      → (status ≢ 429) ⊎ (attempt ≡ 3)
  final_case status attempt h e = grind arith

  retry_case : (status attempt : ℕ) → not (eqb status 429) || leb 3 attempt ≡ false → attempt < 3
  retry_case status attempt e = grind arith

  module _ (respond : ℕ → Option Response) (cancelled : ℕ → Bool) where
    after_attempt-Fair :
        (attempt : ℕ) (again : Posting) (o : Option Response)
        → attempt ≤ 3
        → (attempt < 3 → Fair (suc attempt) again)
        → Fair attempt (after_attempt until respond cancelled attempt again o)
    after_attempt-Fair attempt again none h next = (tt, omega (arith, h), omega arith, tt)
    after_attempt-Fair attempt again (some answer) h next =
        answered-Fair attempt answer again _ (not (eqb answer.status 429) || leb 3 attempt)
          (cancelled attempt) h (rate_limit_wait-AtMostMinute answer.retry_after attempt)
          (final_case answer.status attempt h) (λ e. next (retry_case answer.status attempt e))

    post_from-Fair :
        (fuel attempt : ℕ)
        → attempt ≤ 3
        → 4 ≤ fuel + attempt
        → Fair attempt (post_from until respond cancelled fuel attempt)
    unfolding post_from
    post_from-Fair zero attempt h enough = absurd (omega (arith, h, enough))
    post_from-Fair (suc fuel) attempt h enough =
        after_attempt-Fair attempt _ (respond attempt) h
          (λ l. post_from-Fair fuel (suc attempt) l (omega (arith, enough)))

    -- Four posts of fuel are enough: the loop ends, after one to four posts, every wait is at most a
    -- minute, and an answer that it hands on is no 429 or is the fourth.
    pub post_from-ends :
        (fuel : ℕ)
        → 4 ≤ fuel
        → let p = post_from until respond cancelled fuel 0 in
          Explained 0 p.outcome p.posts × (p.posts ≤ 4) × (1 ≤ p.posts) × All AtMostMinute p.waits
    post_from-ends fuel enough =
        let (explained, few, some_post, waits) =
          post_from-Fair fuel 0 (omega arith) (omega (arith, enough)) in
        (explained, omega (arith, few), some_post, waits)
