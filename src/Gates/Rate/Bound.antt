-- ===== src/Gates/Rate/Bound.antt =====
-- The rate that a caller gets: never more than the burst and the refill, never less than promised,
-- and whatever the other callers do.
use native.Mathlib.Nat.{add-mul}
use beherouter.Prelude.{
  ℕ, suc, ◌+◌, ◌-◌, ◌*◌, ◌≤◌, ◌<◌, min, String, ◌≡◌, refl, sym, subst, subst₂, ◌∙◌, ◌≢◌, ◌↔◌, ap,
  ap₂, Bool, true, false, ◌&&◌, List, [], ◌∷◌, arith, lookup, lookup-put, lookup-select_keys, leb,
  ◌==◌, ◌===◌, eq_iff, if◌then◌else◌, Bool-cases, Option-cases, inl, inr,
}
use beherouter.Gates.Rate.{RateLimiter, capacity, refilled, sweep, bucket_of, spend, take}
use beherouter.Gates.Rate.Level.{
  level, IsBefore, kept, level-sweep, level_of-grows, level-later, level-spend_other,
  level-spend_self,
}

module _ (r : RateLimiter) (now : ℕ) where
  -- The limit itself is no state.
  record SameLimit (r' : RateLimiter) : Type 0 where
    calls : r'.calls ≡ r.calls
    per : r'.per ≡ r.per
    burst : r'.burst ≡ r.burst

  sweep-SameLimit : SameLimit (sweep r now)
  unfolding sweep
  sweep-SameLimit = record { calls = ground arith; per = ground arith; burst = ground arith }

  take-SameLimit : (key : String) → SameLimit (take r key now).1
  unfolding take
  take-SameLimit key = record { calls = ground arith; per = ground arith; burst = ground arith }

  sweep-IsBefore : IsBefore r now → IsBefore (sweep r now) now
  unfolding sweep kept
  sweep-IsBefore h = record {
    filled = λ k b e. ground (arith, lookup-select_keys (kept r now) k r.buckets, h.filled k b);
  }

spend-IsBefore :
    (r : RateLimiter) (tokens : ℕ) (key : String) (now : ℕ)
    → IsBefore r now
    → IsBefore (spend r tokens key now).1 now
unfolding spend
spend-IsBefore r tokens key now h = record {
  filled = λ k b e. ground (
    arith,
    h.filled k b,
    lookup-put key k (record { tokens = tokens - r.per; at = now }) r.buckets,
    lookup-put key k (record { tokens = tokens; at = now }) r.buckets,
  );
}

take-IsBefore :
    (r : RateLimiter) (key : String) (now : ℕ) → IsBefore r now → IsBefore (take r key now).1 now
unfolding take
take-IsBefore r key now h = spend-IsBefore (sweep r now) _ key now (sweep-IsBefore r now h)

-- The tokens that `take` finds are the level.
found-level :
    (r : RateLimiter) (key : String) (now : ℕ)
    → min (capacity r) (refilled r (bucket_of r now (lookup key r.buckets)) now) ≡ level r key now
unfolding level
found-level r key now = elim (Option-cases (lookup key r.buckets)) [
  | inl e ↦ rw e (omega arith)
  | inr (b, e) ↦ rw e refl
]

capacity-sweep : (r : RateLimiter) (now : ℕ) → capacity (sweep r now) ≡ capacity r
unfolding sweep
capacity-sweep r now = ground arith

level-le : (r : RateLimiter) (key : String) (now : ℕ) → level r key now ≤ capacity r
unfolding level
level-le r key now = ground arith

module _ (r : RateLimiter) (key : String) (now : ℕ) (before : IsBefore r now) where
  take-spend : take r key now ≡ spend (sweep r now) (level r key now) key now
  unfolding take
  take-spend =
      rw found-level
        (ap (λ n. spend (sweep r now) n key now) (level-sweep r key now now before (omega arith)))

  take_missing :
      (take r key now).0 ≡ (if leb r.per (level r key now) then 0 else r.per - level r key now)
  unfolding spend
  take_missing = rw take-spend (ground (arith, (sweep-SameLimit r now).per))

  -- A call takes a whole token or nothing.
  take_level :
      level (take r key now).1 key now
      ≡ (if leb r.per (level r key now) then level r key now - r.per else level r key now)
  take_level =
      let l = level r key now in
      rw take-spend (
        level-spend_self (sweep r now) l key now
          (omega (arith, level-le r key now, capacity-sweep r now))
        ∙ ap (λ p. if leb p l then l - p else l) (sweep-SameLimit r now).per)

  take_other :
      (other : String) (later : ℕ)
      → now ≤ later
      → (key === other) ≡ false
      → level (take r key now).1 other later ≡ level r other later
  take_other other later le ne = rw take-spend (
      level-spend_other (sweep r now) (level r key now) key other now later ne
      ∙ level-sweep r other now later before le)

-- One call that reaches the limiter.
pub record Arrival : Type 0 where
  pub key : String
  pub at : ℕ

abbrev pub InOrder : ℕ → List Arrival → Type 0
InOrder t [] = Unit {0}
InOrder t (c ∷ cs) = (t ≤ c.at) × InOrder c.at cs

abbrev pub last_time : ℕ → List Arrival → ℕ
last_time t [] = t
last_time t (c ∷ cs) = last_time c.at cs

-- How many of the calls of `key` are allowed.
abbrev pub count_if : Bool → ℕ → ℕ
count_if true n = suc n
count_if false n = n

pub allowed : RateLimiter → String → List Arrival → ℕ
allowed r key [] = 0
allowed r key (c ∷ cs) =
    let (missing, r') = take r c.key c.at in
    count_if ((c.key === key) && missing == 0) (allowed r' key cs)

last_time-le : (t : ℕ) (cs : List Arrival) → InOrder t cs → t ≤ last_time t cs
last_time-le t [] h = omega arith
last_time-le t (c ∷ cs) (h, hs) = omega (arith, last_time-le c.at cs hs)

level-grows :
    (r : RateLimiter) (key : String) (now later : ℕ)
    → IsBefore r now
    → now ≤ later
    → level r key later ≤ level r key now + (later - now) * r.calls
unfolding level
level-grows r key now later h le =
    level_of-grows (capacity r) r.calls (lookup key r.buckets) now later (h.filled key) le

refill_add : (t u v c : ℕ) → t ≤ u → u ≤ v → (u - t) * c + (v - u) * c ≡ (v - t) * c
refill_add t u v c h k =
    let e : v - t ≡ (u - t) + (v - u) = omega arith in sym (rw e (add-mul (u - t) (v - u) c))

take_spends_self :
    (r : RateLimiter) (key : String) (now : ℕ)
    → IsBefore r now
    → count_if ((take r key now).0 == 0) 0 * r.per + level (take r key now).1 key now
      ≤ level r key now
take_spends_self r key now h = ground (arith, take_missing r key now h, take_level r key now h)

-- One call takes what it spends from the level of its own caller, and nothing from another's.
take_spends :
    (r : RateLimiter) (key : String) (c : Arrival)
    → IsBefore r c.at
    → count_if ((c.key === key) && (take r c.key c.at).0 == 0) 0 * r.per
        + level (take r c.key c.at).1 key c.at
      ≤ level r key c.at
take_spends r key c h = elim (Bool-cases (c.key === key)) [
  | inl e ↦
      let same : c.key ≡ key = (eq_iff c.key key).0 e in
      rw e (
        subst
          (λ k.
            count_if ((take r c.key c.at).0 == 0) 0 * r.per + level (take r c.key c.at).1 k c.at
            ≤ level r k c.at)
          same (take_spends_self r c.key c.at h))
  | inr e ↦ rw (e, take_other r c.key c.at h key c.at (omega arith) e) (omega arith)
]

count_if_add : (b : Bool) (n p : ℕ) → count_if b n * p ≡ count_if b 0 * p + n * p
count_if_add true n p = omega arith
count_if_add false n p = omega arith

allowed_le :
    (r : RateLimiter) (key : String) (t : ℕ) (cs : List Arrival)
    → IsBefore r t
    → InOrder t cs
    → allowed r key cs * r.per ≤ level r key t + (last_time t cs - t) * r.calls
unfolding allowed
allowed_le r key t [] h o = omega arith
allowed_le r key t (c ∷ cs) h (le, o) =
    let here : IsBefore r c.at = record { filled = λ k b e. omega (arith, h.filled k b e, le) } in
    let (missing, r') = take r c.key c.at in
    let same = take-SameLimit r c.at c.key in
    let rest : allowed r' key cs * r.per
        ≤ level r' key c.at + (last_time c.at cs - c.at) * r.calls =
      subst₂ (λ p q. allowed r' key cs * p ≤ level r' key c.at + (last_time c.at cs - c.at) * q)
        same.per same.calls (allowed_le r' key c.at cs (take-IsBefore r c.key c.at here) o) in
    omega (
      arith,
      rest,
      take_spends r key c here,
      count_if_add ((c.key === key) && missing == 0) (allowed r' key cs) r.per,
      level-grows r key t c.at h le,
      refill_add t c.at (last_time c.at cs) r.calls le (last_time-le c.at cs o),
    )

-- Over any calls of any callers, in the order of their times from `t` on, by which no bucket was
-- touched later, a caller is allowed at most its burst and what refills from `t` to the last call:
-- with `per` parts to a token, `allowed * per ≤ burst * per + elapsed * calls`. So a limit of
-- `calls` in `per` nanoseconds holds over every stretch of time, whatever the other callers do and
-- whenever the sweeps come.
pub allowed_bound :
    (r : RateLimiter) (key : String) (t : ℕ) (cs : List Arrival)
    → IsBefore r t
    → InOrder t cs
    → allowed r key cs * r.per ≤ r.burst * r.per + (last_time t cs - t) * r.calls
allowed_bound r key t cs h o = omega (arith, allowed_le r key t cs h o, level-le r key t)

IsBefore-later : (r : RateLimiter) (now later : ℕ) → IsBefore r now → now ≤ later → IsBefore r later
IsBefore-later r now later h le = record { filled = λ k b e. omega (arith, h.filled k b e, le) }

-- A caller's allowance does not depend on the others: where no bucket is of a later time, a call
-- of one caller leaves what another may spend, then and at any later time, as it was.
pub take_isolated :
    (r : RateLimiter) (key other : String) (now later : ℕ)
    → IsBefore r now
    → now ≤ later
    → key ≢ other
    → (take (take r key now).1 other later).0 ≡ (take r other later).0
take_isolated r key other now later h le ne =
    let apart : (key === other) ≡ false = ground (arith, eq_iff key other) in
    let r' = (take r key now).1 in
    ground (
      arith,
      take_missing r other later (IsBefore-later r now later h le),
      take_missing r' other later (IsBefore-later r' now later (take-IsBefore r key now h) le),
      take_other r key now h other later le apart,
      (take-SameLimit r now key).per,
    )

-- A refused call is told exactly how long to wait, where the burst is positive and no bucket is of
-- a later time: with no other call of the caller in between, the next one is allowed if and only
-- if the time since has refilled what was missing.
pub take_wait_exact :
    (r : RateLimiter) (key : String) (now later : ℕ)
    → IsBefore r now
    → now ≤ later
    → 0 < r.burst
    → 0 < (take r key now).0
    → ((take (take r key now).1 key later).0 ≡ 0) ↔ ((take r key now).0 ≤ (later - now) * r.calls)
take_wait_exact r key now later h le b refused =
    let r' = (take r key now).1 in
    let same = take-SameLimit r now key in
    let after = take-IsBefore r key now h in
    let room : r.per ≤ r.burst * r.per = grind arith in
    let full : capacity r' ≡ r.burst * r.per = ap₂ (λ m n. m * n) same.burst same.per in
    let refill : (later - now) * r'.calls ≡ (later - now) * r.calls =
      ap (λ c. (later - now) * c) same.calls in
    ground (
      arith,
      take_missing r key now h,
      take_missing r' key later (IsBefore-later r' now later after le),
      take_level r key now h,
      level-later r' key now later after le,
      same.per,
    )
