-- ===== src/Gates/Table/Limit.antt =====
-- A validated limit makes a limiter, and a reload with the same limit keeps the one that there is.
use beherouter.Prelude.{
  ℕ, suc, ◌<◌, ◌*◌, ◌≡◌, refl, sym, ap, ◌∙◌, true, Option, none, some, [], Dict, lookup, arith, all,
  keys, elem, ◌==◌,
}
use beherouter.Data.{Value, Fields, null, int, float, obj, pos, nanos, to_dict, get}
use beherouter.Errors.{ok, ◌>>=◌, require, >>=-eq-ok, check-eq-ok}
use beherouter.Gates.Rate.{RateLimiter}
use beherouter.Gates.Table.{
  positive_int, positive_seconds, validate_rate_limit, limits, from_table, matches, reused,
  burst_ok, rate_keys, count_at, seconds_at, count_or,
}

-- A limiter that can be run: it lets calls through, and refills.
pub record IsPositive (r : RateLimiter) : Type 0 where
  pub calls : 0 < r.calls
  pub per : 0 < r.per
  pub burst : 0 < r.burst

positive_count :
    (o : Option Value)
    → positive_int (elim o [ none ↦ null | some v ↦ v ]) ≡ true
    → (n : ℕ) × (count_at o ≡ ok n) × (0 < n)
unfolding positive_int
positive_count (some (int (pos (suc n)))) h = (suc n, refl, omega arith)
positive_count none h = cc
positive_count (some _) h = cc

positive_window :
    (o : Option Value)
    → positive_seconds (elim o [ none ↦ null | some v ↦ v ]) ≡ true
    → (n : ℕ) × (seconds_at o ≡ ok n) × (0 < n)
unfolding positive_seconds
positive_window (some (int (pos (suc n)))) h = (suc n * 1_000_000_000, refl, omega arith)
positive_window (some (float (nanos (pos (suc n))))) h = (suc n, refl, omega arith)
positive_window none h = cc
positive_window (some _) h = cc

positive_burst :
    (d : ℕ) (o : Option Value)
    → 0 < d
    → burst_ok o ≡ true
    → (n : ℕ) × (count_or d o ≡ ok n) × (0 < n)
positive_burst d none p h = (d, refl, p)
positive_burst d (some v) p h = positive_count (some v) h

-- Every table that passes validation makes a limiter, with no exception, and its limit is positive in
-- each of its numbers.
pub from_table_valid :
    (fs : Fields)
    → validate_rate_limit (obj fs) ≡ ok tt
    → (r : RateLimiter) × (from_table (to_dict fs) ≡ ok r) × IsPositive r
unfolding validate_rate_limit from_table
from_table_valid fs h =
    let raw = to_dict fs in
    let (_, _, h₁) = >>=-eq-ok (require (all (λ k. elem k rate_keys) (keys raw))) _ h in
    let (_, calls_ok, h₂) = >>=-eq-ok (require (positive_int (get "calls" raw))) _ h₁ in
    let (_, per_ok, burst_is) = >>=-eq-ok (require (positive_seconds (get "per_s" raw))) _ h₂ in
    let (calls, c, c_pos) = positive_count (lookup "calls" raw) (check-eq-ok _ _ calls_ok) in
    let (per, p, p_pos) = positive_window (lookup "per_s" raw) (check-eq-ok _ _ per_ok) in
    let (burst, b, b_pos) =
      positive_burst calls (lookup "burst" raw) c_pos (check-eq-ok _ _ burst_is) in
    (
      record { calls = calls; per = per; burst = burst; buckets = []; swept = none },
      rw (c, p, b),
      record { calls = c_pos; per = p_pos; burst = b_pos },
    )

eq_self : (n : ℕ) → (n == n) ≡ true
eq_self n = ground arith

from_table-limits :
    (raw : Dict Value) (r : RateLimiter)
    → from_table raw ≡ ok r
    → limits raw ≡ ok (r.calls, r.per, r.burst)
unfolding from_table
from_table-limits raw r h =
    let ((calls, per, burst), l, e) = >>=-eq-ok (limits raw) _ h in
    l ∙ ap (λ m. m >>= λ x. ok (x.calls, x.per, x.burst)) e

-- A reload is never a free refill: where a table makes a limiter, a limiter with the same limit,
-- whatever it has counted since, is the one that the same table is given again, with its buckets.
pub reused_same :
    (raw : Dict Value) (r r' : RateLimiter)
    → from_table raw ≡ ok r
    → r'.calls ≡ r.calls
    → r'.per ≡ r.per
    → r'.burst ≡ r.burst
    → reused (some r') raw ≡ ok r'
unfolding reused matches
reused_same raw r r' h c p b = rw (
  from_table-limits raw r h,
  sym c,
  sym p,
  sym b,
  eq_self r'.calls,
  eq_self r'.per,
  eq_self r'.burst,
)
