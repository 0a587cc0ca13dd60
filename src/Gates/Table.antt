-- ===== src/Gates/Table.antt =====
-- gates.py: the `[surface.rate_limit]` table, and the gates that a registry entry configures.
pub mod Limit
use beherouter.Prelude.{
  ℕ, ◌*◌, ◌≤◌, zero, suc, String, Bool, true, false, ◌&&◌, ◌||◌, not, Option, none, some, List, [],
  ◌∷◌, ◌++◌, Dict, lookup, has, keys, elem, all, put, sorted_set, select, is_nil, ◌==◌,
  if◌then◌else◌,
}
use beherouter.Data.{
  Value, Float, Fields, Items, null, bool, int, float, arr, obj, end, field, pos, nanos, to_dict,
  is_true, get, texts_of,
}
use beherouter.Errors.{
  Result, ok, raise, ◌>>=◌, ◌>>◌, fail, usage_error, require, type_error, key_error,
}
use beherouter.Identity.Tables.{Entry}
use beherouter.Identity.Tables.Authz.{table_of, tool_roles}
use beherouter.Gates.{ToolRoleGate, ConfirmGate, Gates}
use beherouter.Gates.Rate.{RateLimiter}

abbrev rate_keys : List String
rate_keys = "calls" ∷ "per_s" ∷ "burst" ∷ []

pub positive_int : Value → Bool
positive_int (int (pos (suc n))) = true
positive_int _ = false

-- A finite number above 0: a whole number of seconds, or a float.
pub positive_seconds : Value → Bool
positive_seconds (int (pos (suc n))) = true
positive_seconds (float (nanos (pos (suc n)))) = true
positive_seconds _ = false

abbrev burst_ok : Option Value → Bool
burst_ok none = true
burst_ok (some v) = positive_int v

unfoldable pub validate_rate_limit : Value → Result (Unit {0})
unfolding positive_int positive_seconds
validate_rate_limit null = ok tt
validate_rate_limit (obj fs) = do
  let raw = to_dict fs
  require (all (λ k. elem k rate_keys) (keys raw))
  require (positive_int (get "calls" raw))
  require (positive_seconds (get "per_s" raw))
  require (burst_ok (lookup "burst" raw))
validate_rate_limit _ = fail usage_error

abbrev second : ℕ
second = 1_000_000_000

-- `int(raw[k])` and `float(raw[k])` of a validated value; the second in nanoseconds.
abbrev count_at : Option Value → Result ℕ
count_at none = raise key_error
count_at (some (int (pos n))) = ok n
count_at (some _) = raise type_error

abbrev seconds_at : Option Value → Result ℕ
seconds_at none = raise key_error
seconds_at (some (int (pos n))) = ok (n * second)
seconds_at (some (float (nanos (pos n)))) = ok n
seconds_at (some _) = raise type_error

abbrev count_or : ℕ → Option Value → Result ℕ
count_or d none = ok d
count_or d (some v) = count_at (some v)

-- The limit of a table: `calls`, `per_s` and `burst`.
pub limits : Dict Value → Result (ℕ × ℕ × ℕ)
limits raw = do
  calls ← count_at (lookup "calls" raw)
  per ← seconds_at (lookup "per_s" raw)
  burst ← count_or calls (lookup "burst" raw)
  ok (calls, per, burst)

-- `RateLimiter.from_table`
unfoldable pub from_table : Dict Value → Result RateLimiter
unfolding limits
from_table raw = do
  (calls, per, burst) ← limits raw
  ok (record { calls = calls; per = per; burst = burst; buckets = []; swept = none })

-- `RateLimiter.matches`
pub matches : RateLimiter → Dict Value → Result Bool
unfolding limits
matches r raw = do
  (calls, per, burst) ← limits raw
  ok (calls == r.calls && per == r.per && burst == r.burst)

-- The stages of a surface, in the order that they run in.
pub data Stage : Type 0 where
  role_stage : ToolRoleGate → Stage
  rate_stage : RateLimiter → Stage
  confirm_stage : ConfirmGate → Stage

abbrev roles_of : String → Entry → Option ToolRoleGate
roles_of claim e =
    if is_nil (tool_roles e)
    then none
    else some (record { surface = e.name; tools = tool_roles e; roles_claim = claim })

-- The limiter that the gateway has for the surface, if it has this very limit, or a new one.
pub reused : Option RateLimiter → Dict Value → Result RateLimiter
unfolding matches from_table
reused none raw = from_table raw
reused (some r) raw = do equal ← matches r raw; if equal then ok r else from_table raw

abbrev limiter_of : Option RateLimiter → Value → Result (Option RateLimiter)
limiter_of old v = if is_true v then (do r ← reused old (table_of v); ok (some r)) else ok none

abbrev exempt_names : Value → List String
exempt_names (arr vs) = texts_of vs
exempt_names _ = []

abbrev confirm_of : Entry → Option ConfirmGate
confirm_of e =
    if is_true (get "confirm_mutating" (table_of e.authz))
    then some (record {
      surface = e.name;
      exempt = exempt_names (get "confirm_exempt" (table_of e.authz));
    })
    else none

abbrev one {ℓ} : {A : Type ℓ} → (A → Stage) → Option A → List Stage
one c none = []
one c (some a) = c a ∷ []

abbrev hide_of : Option Value → Bool
hide_of (some (bool b)) = b
hide_of _ = true

abbrev gates_of : Entry → Option ToolRoleGate → Gates
gates_of e roles = record {
  roles = roles;
  hide = hide_of (lookup "hide_tools" (table_of e.authz));
  confirm_gate = confirm_of e;
}

abbrev pub stages_of : Option ToolRoleGate → Option RateLimiter → Option ConfirmGate → List Stage
stages_of roles limiter confirm =
    one role_stage roles ++ (one rate_stage limiter ++ one confirm_stage confirm)

abbrev kept : String → Option RateLimiter → Dict RateLimiter → Dict RateLimiter
kept n none limiters = limiters
kept n (some r) limiters = put n r limiters

-- `gates_from_entry` of a validated entry: the stages and the gates, and the limiters of the gateway.
unfoldable pub gates_from_entry :
    String → Entry → Dict RateLimiter → Result (Option (List Stage × Gates) × Dict RateLimiter)
unfolding tool_roles reused
gates_from_entry claim e limiters = do
  limiter ← limiter_of (lookup e.name limiters) e.rate_limit
  let roles = roles_of claim e
  let stages = stages_of roles limiter (confirm_of e)
  ok (if is_nil stages then none else some (stages, gates_of e roles), kept e.name limiter limiters)

-- The gated or exempted names that the backend does not serve.
pub unserved_names : Entry → List String → List String
unfolding tool_roles
unserved_names e served =
    let named = keys (tool_roles e) ++ exempt_names (get "confirm_exempt" (table_of e.authz)) in
    sorted_set (select (λ n. not (elem n served)) named)
