-- ===== src/Gates/Rate.antt =====
-- gates.py: `RateLimiter`, a token bucket for each caller, in exact arithmetic: the clock counts
-- nanoseconds, and a bucket counts parts of a token, as many to a token as the window has
-- nanoseconds, so that a nanosecond adds `calls` parts. The clock does not run backwards.
pub mod Level
pub mod Bound
use beherouter.Prelude.{
  ℕ, ◌+◌, ◌-◌, ◌*◌, ◌/◌, ◌%◌, ◌≤◌, min, max, String, Bool, true, false, ◌&&◌, not, Option, none,
  some, [], ◌∷◌, Dict, lookup, put, select_keys, is_empty, ltb, leb, ◌==◌, ◌===◌, if◌then◌else◌,
}
use beherouter.Data.{Value, int, pos}
use beherouter.Errors.{Result, ok, raise, bare, tag, reasons, unavailable}
use beherouter.Identity.{truthy}
use beherouter.Identity.Policy.{or_empty}
use beherouter.Audit.{Caller}

pub record Bucket : Type 0 where
  pub tokens : ℕ
  pub at : ℕ

pub record RateLimiter : Type 0 where
  pub calls : ℕ
  pub per : ℕ
  pub burst : ℕ
  pub buckets : Dict Bucket
  pub swept : Option ℕ  -- `none` is minus infinity

-- The parts of a full bucket.
abbrev pub capacity : RateLimiter → ℕ
capacity r = r.burst * r.per

-- What a bucket holds with the refill up to `now`, before the cut at the capacity.
abbrev pub refilled : RateLimiter → Bucket → ℕ → ℕ
refilled r b now = b.tokens + (now - b.at) * r.calls

abbrev pub is_full : RateLimiter → ℕ → Option Bucket → Bool
is_full r now none = false
is_full r now (some b) = leb (capacity r) (refilled r b now)

abbrev due : RateLimiter → ℕ → Bool
due r now = elim r.swept [ none ↦ true | some at ↦ leb r.per (now - at) ]

-- Drops the buckets that have refilled completely, at most once per window.
pub sweep : RateLimiter → ℕ → RateLimiter
sweep r now =
    if due r now
    then record r {
      swept = some now;
      buckets = select_keys (λ k. not (is_full r now (lookup k r.buckets))) r.buckets;
    }
    else r

abbrev pub bucket_of : RateLimiter → ℕ → Option Bucket → Bucket
bucket_of r now none = record { tokens = capacity r; at = now }
bucket_of r now (some b) = b

-- The parts that are missing for a token: 0 if one was taken.
pub spend : RateLimiter → ℕ → String → ℕ → ℕ × RateLimiter
spend r tokens key now =
    if leb r.per tokens
    then (
      0,
      record r { buckets = put key (record { tokens = tokens - r.per; at = now }) r.buckets },
    )
    else (
      r.per - tokens,
      record r { buckets = put key (record { tokens = tokens; at = now }) r.buckets },
    )

-- `take`; the wait is `missing / calls` nanoseconds.
unfoldable pub take : RateLimiter → String → ℕ → ℕ × RateLimiter
unfolding sweep spend
take r key now =
    let s = sweep r now in
    let b = bucket_of s now (lookup key s.buckets) in
    spend s (min (capacity s) (refilled s b now)) key now

-- Division rounded to the nearest, ties to the even one.
abbrev pub round_div : ℕ → ℕ → ℕ
round_div a b =
    let q = a / b in
    let r = a % b in if ltb (2 * r) b then q else if ltb b (2 * r) then q + 1 else q + q % 2

-- `max(1, math.ceil(round(wait, 6)))`, in seconds.
pub retry_after : RateLimiter → ℕ → ℕ
retry_after r missing = max 1 ((round_div missing (r.calls * 1000) + 999_999) / 1_000_000)

abbrev pub shared_key : String
shared_key = "<shared>"

-- Every caller that is no verified user shares one bucket.
abbrev pub key_of : Caller → String
key_of caller =
    if (caller.auth === "oidc") && truthy caller.sub then or_empty caller.sub else shared_key

-- The stage. `limit` is the text of the limit, `calls/per_s`.
unfoldable pub stage : String → Caller → ℕ → RateLimiter → Result (Unit {0}) × RateLimiter
unfolding tag reasons retry_after
stage limit caller now r =
    let (missing, r') = take r (key_of caller) now in
    (
      if missing == 0
          then ok tt
          else raise (
              tag (bare unavailable) "rate_limited" (
                ("retry_after_s", int (pos (retry_after r missing)))
                ∷ ("limit", Value.str limit)
                ∷ [])),
      r',
    )
