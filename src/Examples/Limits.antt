-- ===== src/Examples/Limits.antt =====
-- A limit of 2 calls in a second, with a burst of 2.
use beherouter.Prelude.{◌+◌, ◌-◌, ◌*◌, ◌≤◌, none, List, [], ◌∷◌, arith}
use beherouter.Gates.Rate.{RateLimiter}
use beherouter.Gates.Rate.Level.{IsBefore}
use beherouter.Gates.Rate.Bound.{Arrival, InOrder, last_time, allowed, allowed_bound}

abbrev limiter : RateLimiter
limiter = record { calls = 2; per = 1_000_000_000; burst = 2; buckets = []; swept = none }

new_IsBefore : IsBefore limiter 0
new_IsBefore = record { filled = λ k b e. cc }

abbrev arrivals : List Arrival
arrivals =
    record { key = "ann"; at = 10 }
    ∷ record { key = "bob"; at = 20 }
    ∷ record { key = "ann"; at = 30 }
    ∷ record { key = "ann"; at = 40 }
    ∷ []

in_order : InOrder 0 arrivals
in_order = (omega arith, (omega arith, (omega arith, (omega arith, tt))))

allowed_example :
    allowed limiter "ann" arrivals * 1_000_000_000
    ≤ 2 * 1_000_000_000 + (last_time 0 arrivals - 0) * 2
allowed_example = allowed_bound limiter "ann" 0 arrivals new_IsBefore in_order
