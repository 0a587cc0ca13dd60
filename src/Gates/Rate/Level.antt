-- ===== src/Gates/Rate/Level.antt =====
-- What a caller may still spend, and what the operations do to it.
use native.Mathlib.Nat.{add-mul}
use beherouter.Prelude.{
  ℕ, ◌+◌, ◌-◌, ◌*◌, ◌≤◌, min, String, ◌≡◌, refl, sym, Bool, true, false, not, Option, none, some,
  arith, lookup, lookup-put, lookup-select_keys, leb, ◌===◌, eq_refl, if◌then◌else◌, Bool-cases,
  Option-cases, inl, inr,
}
use beherouter.Gates.Rate.{Bucket, RateLimiter, capacity, is_full, sweep, spend, due}

-- The parts that a caller with this bucket could spend at the time `now`; with none, a full bucket.
abbrev pub level_of : ℕ → ℕ → Option Bucket → ℕ → ℕ
level_of cap calls none now = cap
level_of cap calls (some b) now = min cap (b.tokens + (now - b.at) * calls)

unfoldable pub level : RateLimiter → String → ℕ → ℕ
level r key now = level_of (capacity r) r.calls (lookup key r.buckets) now

-- No bucket was filled after `now`.
pub record IsBefore (r : RateLimiter) (now : ℕ) : Type 0 where
  pub filled : (k : String) (b : Bucket) → lookup k r.buckets ≡ some b → b.at ≤ now

refill_split : (a t u c : ℕ) → a ≤ t → t ≤ u → (u - a) * c ≡ (t - a) * c + (u - t) * c
refill_split a t u c h k =
    let e : u - a ≡ (t - a) + (u - t) = omega arith in rw e (add-mul (t - a) (u - t) c)

full_stays :
    (r : RateLimiter) (b : Bucket) (now later : ℕ)
    → b.at ≤ now
    → now ≤ later
    → is_full r now (some b) ≡ true
    → level_of (capacity r) r.calls (some b) later ≡ capacity r
full_stays r b now later h le f = ground (arith, refill_split b.at now later r.calls)

unfoldable pub kept : (r : RateLimiter) (now : ℕ) → String → Bool
kept r now k = not (is_full r now (lookup k r.buckets))

-- A bucket that is swept out is full, and would be full at any later time.
pub level-sweep :
    (r : RateLimiter) (key : String) (now later : ℕ)
    → IsBefore r now
    → now ≤ later
    → level (sweep r now) key later ≡ level r key later
unfolding level sweep kept
level-sweep r key now later h le = elim (Bool-cases (due r now)) [
  | inr e ↦ rw (e, sweep)
  | inl e ↦
      rw (e, sweep, lookup-select_keys (kept r now) key r.buckets)
        (elim (Option-cases (lookup key r.buckets)) [
          | inl absent ↦ rw absent
          | inr (b, found) ↦ elim (Bool-cases (is_full r now (some b))) [
            | inl full ↦
                let out : kept r now key ≡ false = rw (found, kept) (rw full) in
                rw (out, level, found)
                  (sym (full_stays r b now later (h.filled key b found) le full))
            | inr room ↦
                let stays : kept r now key ≡ true = rw (found, kept) (rw room) in rw (stays, level)
          ]
        ])
]

-- The level of a caller whose bucket is left alone grows by the refill, and by no more.
pub level_of-grows :
    (cap calls : ℕ) (o : Option Bucket) (now later : ℕ)
    → ((b : Bucket) → o ≡ some b → b.at ≤ now)
    → now ≤ later
    → level_of cap calls o later ≤ level_of cap calls o now + (later - now) * calls
level_of-grows cap calls none now later h le = omega arith
level_of-grows cap calls (some b) now later h le =
    omega (arith, refill_split b.at now later calls (h b refl) le)

-- What `take` does to the levels, at any time from then on, once the sweep is out of the way.
pub level-spend_other :
    (r : RateLimiter) (tokens : ℕ) (key other : String) (now later : ℕ)
    → (key === other) ≡ false
    → level (spend r tokens key now).1 other later ≡ level r other later
unfolding level spend
level-spend_other r tokens key other now later e = ground (
  arith,
  lookup-put key other (record { tokens = tokens - r.per; at = now }) r.buckets,
  lookup-put key other (record { tokens = tokens; at = now }) r.buckets,
)

pub level-spend_self :
    (r : RateLimiter) (tokens : ℕ) (key : String) (now : ℕ)
    → tokens ≤ capacity r
    → level (spend r tokens key now).1 key now
      ≡ (if leb r.per tokens then tokens - r.per else tokens)
unfolding level spend
level-spend_self r tokens key now h = ground (
  arith,
  eq_refl key,
  lookup-put key key (record { tokens = tokens - r.per; at = now }) r.buckets,
  lookup-put key key (record { tokens = tokens; at = now }) r.buckets,
)

-- The level at a later time, exactly.
pub level-later :
    (r : RateLimiter) (key : String) (now later : ℕ)
    → IsBefore r now
    → now ≤ later
    → level r key later ≡ min (capacity r) (level r key now + (later - now) * r.calls)
unfolding level
level-later r key now later h le = elim (Option-cases (lookup key r.buckets)) [
  | inl e ↦ rw e (omega arith)
  | inr (b, e) ↦ rw e (omega (arith, refill_split b.at now later r.calls (h.filled key b e) le))
]
