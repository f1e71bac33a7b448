-- ===== src/Llm/Retry.antt =====
-- llm/llm.go: the wait behind a 429 answer, and the loop that posts again. Durations are nanoseconds in
-- an int64. The endpoint's answers are `respond`, by the number of the attempt; http.ParseTime with the time
-- until then is `until`.
pub mod Bounds
use turnhive.Base.{
  ℕ, zero, suc, ◌+◌, ◌-◌, ◌*◌, ◌%◌, ◌^◌, ◌≤◌, ◌<◌, ◌≡◌, ◌≢◌, refl, inl, inr, ◌⊎◌, Bool, true, false,
  not, ◌||◌, ◌&&◌, Bool-cases, Option, none, some, List, [], ◌∷◌, Bytes, arith, ltb, leb, eqb,
  length, All, ◌==◌, bytes_eq, if◌then◌else◌,
}
use turnhive.Base.Int.{ℤ, pos, negsuc, minus, is_negative, parse_int}
use turnhive.Patch.Parse.{trim_space}

abbrev pub max_rate_limit_retries : ℕ
max_rate_limit_retries = 3

abbrev pub second : ℕ
second = 1000000000

abbrev pub max_rate_limit_wait : ℕ
max_rate_limit_wait = 60 * second

-- An int64 product of numbers that are not negative: it wraps.
unfoldable pub wrap_int64 : ℕ → ℤ
wrap_int64 n = let r = n % 2 ^ 64 in if ltb r (2 ^ 63) then pos r else minus (2 ^ 64 - r)

-- min(d, maxRateLimitWait)
unfoldable pub cap_wait : ℤ → ℤ
cap_wait (pos n) = if ltb n max_rate_limit_wait then pos n else pos max_rate_limit_wait
cap_wait (negsuc n) = negsuc n

-- max(d, 0)
abbrev pub at_least_zero : ℤ → ℤ
at_least_zero (pos n) = pos n
at_least_zero (negsuc n) = pos 0

module _ (until : Bytes → Option ℤ) where
  abbrev pub wait_until : Option ℤ → ℕ → ℤ
  wait_until (some d) attempt = cap_wait (at_least_zero d)
  wait_until none attempt = cap_wait (wrap_int64 (second * 2 ^ attempt))

  abbrev pub wait_seconds : Option ℤ → Option ℤ → ℕ → ℤ
  wait_seconds (some (pos secs)) date attempt = cap_wait (wrap_int64 (secs * second))
  wait_seconds _ date attempt = wait_until date attempt

  unfoldable pub rate_limit_wait : Bytes → ℕ → ℤ
  rate_limit_wait retry_after attempt =
      if retry_after == []
      then wait_until none attempt
      else wait_seconds (parse_int (trim_space retry_after)) (until retry_after) attempt

pub record Response : Type 0 where
  pub status : ℕ
  pub retry_after : Bytes

pub data Outcome : Type 0 where
  established : Response → Outcome
  transport_error cancelled_wait out_of_fuel : Outcome

-- How the loop ended, how often it posted, and the waits between.
pub record Posting : Type 0 where
  pub outcome : Outcome
  pub posts : ℕ
  pub waits : List ℤ

abbrev pub one_post : Outcome → Posting
one_post o = record { outcome = o; posts = 1; waits = [] }

abbrev pub after_wait : ℤ → Posting → Posting
after_wait wait p = record { outcome = p.outcome; posts = suc p.posts; waits = wait ∷ p.waits }

-- `respond` is the endpoint's answer to an attempt, or nothing where the transport fails; `cancelled`
-- tells whether the context ends in the wait behind it.
module _ (until : Bytes → Option ℤ) (respond : ℕ → Option Response) (cancelled : ℕ → Bool) where
  -- What an attempt's answer leads to, `again` being the loop from the next attempt on.
  abbrev pub after_attempt : ℕ → Posting → Option Response → Posting
  after_attempt attempt again none = one_post transport_error
  after_attempt attempt again (some answer) =
      let wait = rate_limit_wait until answer.retry_after attempt in
      if not (eqb answer.status 429) || leb max_rate_limit_retries attempt
      then one_post (established answer)
      else if cancelled attempt
      then record { outcome = cancelled_wait; posts = 1; waits = wait ∷ [] }
      else after_wait wait again

  -- postWithRateLimitRetry from an attempt on.
  unfoldable pub post_from : ℕ → ℕ → Posting
  post_from zero attempt = record { outcome = out_of_fuel; posts = 0; waits = [] }
  post_from (suc fuel) attempt =
      after_attempt attempt (post_from fuel (suc attempt)) (respond attempt)
