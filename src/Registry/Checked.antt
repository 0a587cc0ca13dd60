-- ===== src/Registry/Checked.antt =====
-- What an entry that was validated can be relied on for.
use beherouter.Prelude.{
  ℕ, zero, suc, ◌<◌, String, ◌≡◌, ◌≢◌, refl, ◌∙◌, ap, sym, Bool, true, false, not, some, List, [],
  ◌∷◌, Dict, lookup, has, keys, elem, arith, eq_iff,
}
use beherouter.Data.{
  Value, Fields, pos, negsuc, nanos, infinite, nan, null, bool, int, float, str, arr, obj, to_dict,
  is_true, get,
}
use beherouter.Errors.{Result, ok, ◌>>◌, require, usage_error, axi, bare, >>=-eq-ok, check-eq-ok}
use beherouter.Identity.Tables.Authz.{validate_authz, table_of}
use beherouter.Identity.Tables.Modes.{validate_identity}
use beherouter.Gates.Table.{validate_rate_limit, from_table}
use beherouter.Gates.Table.Limit.{IsPositive, from_table_valid}
use beherouter.Gates.Rate.{RateLimiter}
use beherouter.Registry.{
  RegistryEntry, reserved_names, Plugin, Plugins, names_in, within, timeout_ok, stateless_ok,
  pinned_ok, aliases_ok, required_in, check_published, is_table, validate_entry,
}

-- The inversion of a check that is followed by others.
require-eq-ok :
    {A : Type 0} (b : Bool) (next : Result A) {a : A}
    → (require b >> next) ≡ ok a
    → (b ≡ true) × (next ≡ ok a)
require-eq-ok true next h = (refl, h)
require-eq-ok false next h = cc

not-eq-true : (b : Bool) → not b ≡ true → b ≡ false
not-eq-true true h = cc
not-eq-true false h = refl

-- A time limit: none, or a positive number of seconds, whole or not.
pub data IsTimeLimit (v : Value) : Type 0 where
  unlimited : v ≡ null → IsTimeLimit v
  whole : (n : ℕ) → v ≡ int (pos n) → 0 < n → IsTimeLimit v
  fraction : (n : ℕ) → v ≡ float (nanos (pos n)) → 0 < n → IsTimeLimit v

timeout_ok-IsTimeLimit : (v : Value) → timeout_ok v ≡ true → IsTimeLimit v
timeout_ok-IsTimeLimit null h = unlimited refl
timeout_ok-IsTimeLimit (int (pos (suc n))) h = whole (suc n) refl (omega arith)
timeout_ok-IsTimeLimit (float (nanos (pos (suc n)))) h = fraction (suc n) refl (omega arith)
timeout_ok-IsTimeLimit (int (pos zero)) h = cc
timeout_ok-IsTimeLimit (int (negsuc n)) h = cc
timeout_ok-IsTimeLimit (float (nanos (pos zero))) h = cc
timeout_ok-IsTimeLimit (float (nanos (negsuc n))) h = cc
timeout_ok-IsTimeLimit (float (infinite b)) h = cc
timeout_ok-IsTimeLimit (float nan) h = cc
timeout_ok-IsTimeLimit (bool b) h = cc
timeout_ok-IsTimeLimit (str s) h = cc
timeout_ok-IsTimeLimit (arr vs) h = cc
timeout_ok-IsTimeLimit (obj fs) h = cc

-- Whether a surface keeps sessions; one that keeps none cannot ask to confirm a call.
pub data IsSessionChoice (v authz : Value) : Type 0 where
  unsaid : v ≡ null → IsSessionChoice v authz
  with_sessions : v ≡ bool false → IsSessionChoice v authz
  without_sessions :
      v ≡ bool true
      → is_true (get "confirm_mutating" (table_of authz)) ≡ false
      → IsSessionChoice v authz

stateless_ok-IsSessionChoice :
    (v authz : Value) → stateless_ok v authz ≡ true → IsSessionChoice v authz
stateless_ok-IsSessionChoice null authz h = unsaid refl
stateless_ok-IsSessionChoice (bool false) authz h = with_sessions refl
stateless_ok-IsSessionChoice (bool true) authz h =
    without_sessions refl (not-eq-true (is_true (get "confirm_mutating" (table_of authz))) h)
stateless_ok-IsSessionChoice (int n) authz h = cc
stateless_ok-IsSessionChoice (float x) authz h = cc
stateless_ok-IsSessionChoice (str s) authz h = cc
stateless_ok-IsSessionChoice (arr vs) authz h = cc
stateless_ok-IsSessionChoice (obj fs) authz h = cc

within-elem :
    (n : String) (xs ys : List String) → within xs ys ≡ true → elem n xs ≡ true → elem n ys ≡ true
within-elem n [] ys h e = cc
within-elem n (x ∷ xs) ys h e = ground (arith, eq_iff x n, h, e, within-elem n xs ys)

elem-keys : (n : String) (env : Dict Bool) → elem n (keys env) ≡ true → has n env ≡ true
elem-keys n [] h = cc
elem-keys n ((k, b) ∷ env) h = ground (arith, h, eq_iff k n, elem-keys n env)

elem-required_in :
    (n : String) (env : Dict Bool) → lookup n env ≡ some true → elem n (required_in env) ≡ true
elem-required_in n [] h = cc
elem-required_in n ((k, b) ∷ env) h = ground (arith, h, eq_iff k n, elem-required_in n env)

pub record IsChecked (e : RegistryEntry) (plugin : Plugin) : Type 0 where
  pub not_reserved : (e.name ≢ "admin") × (e.name ≢ "healthz") × (e.name ≢ "metrics")
  pub limiter :
      (fs : Fields)
      → get "rate_limit" e.body ≡ obj fs
      → (r : RateLimiter) × (from_table (to_dict fs) ≡ ok r) × IsPositive r
  pub timeout : IsTimeLimit (get "call_timeout_s" e.body)
  pub stateless : IsSessionChoice (get "stateless" e.body) (get "authz" e.body)
  pub supplied : List String
  pub is_supplied : names_in (get "env" e.body) ≡ ok supplied
  pub declared : (n : String) → elem n supplied ≡ true → has n plugin.env ≡ true
  pub complete : (n : String) → lookup n plugin.env ≡ some true → elem n supplied ≡ true

unreserved :
    (name : String)
    → elem name reserved_names ≡ false
    → (name ≢ "admin") × (name ≢ "healthz") × (name ≢ "metrics")
unreserved name h = (
  λ e. ground (arith, h, e, eq_iff name "admin"),
  λ e. ground (arith, h, e, eq_iff name "healthz"),
  λ e. ground (arith, h, e, eq_iff name "metrics"),
)

-- An entry that passes the validation names a plugin; its name is none of "admin", "healthz" and
-- "metrics"; its rate limit, if it has one, makes a limiter with a positive rate; its time limit, if it
-- has one, is a number, finite and positive; `stateless` is unset, false or true, and if it is true the
-- entry asks for no confirmation; and every credential that it supplies is declared by the plugin, and
-- every one that the plugin requires is supplied.
pub validate_entry-IsChecked :
    (ps : Plugins) (e : RegistryEntry)
    → validate_entry ps e ≡ ok tt
    → (plugin : Plugin) × (ps.find e.plugin ≡ ok plugin) × IsChecked e plugin
unfolding validate_entry
validate_entry-IsChecked ps e h =
    let (a, h₁) = require-eq-ok (not (elem e.name reserved_names)) _ h in
    let (plugin, p, h₂) = >>=-eq-ok (ps.find e.plugin) _ h₁ in
    let (config, _, h₃) = >>=-eq-ok (plugin.config e.name (get "config" e.body)) _ h₂ in
    let (_, _, h₄) = >>=-eq-ok (plugin.validate config) _ h₃ in
    let (_, h₅) = require-eq-ok _ _ h₄ in
    let (_, _, h₆) = >>=-eq-ok (check_published (plugin.published config) e.body) _ h₅ in
    let (_, _, h₇) =
      >>=-eq-ok (validate_identity ps.host ps.map_env plugin.spec (get "identity" e.body)) _ h₆ in
    let (_, _, h₈) = >>=-eq-ok (validate_authz (get "authz" e.body)) _ h₇ in
    let (_, rate, h₉) = >>=-eq-ok (validate_rate_limit (get "rate_limit" e.body)) _ h₈ in
    let (_, h₁₀) = require-eq-ok _ _ h₉ in
    let (t, h₁₁) = require-eq-ok _ _ h₁₀ in
    let (s, h₁₂) = require-eq-ok _ _ h₁₁ in
    let (_, h₁₃) = require-eq-ok (pinned_ok (get "pinned" e.body)) _ h₁₂ in
    let (_, h₁₄) = require-eq-ok (is_table (get "probe_args" e.body)) _ h₁₃ in
    let (_, h₁₅) = require-eq-ok (aliases_ok (get "search_aliases" e.body)) _ h₁₄ in
    let (supplied, n, h₁₆) = >>=-eq-ok (names_in (get "env" e.body)) _ h₁₅ in
    let (d, h₁₇) = require-eq-ok _ _ h₁₆ in
    (
      plugin,
      p,
      record {
        not_reserved = unreserved e.name (not-eq-true (elem e.name reserved_names) a);
        limiter = λ fs l. from_table_valid fs (ap validate_rate_limit (sym l) ∙ rate);
        timeout = timeout_ok-IsTimeLimit (get "call_timeout_s" e.body) t;
        stateless = stateless_ok-IsSessionChoice (get "stateless" e.body) (get "authz" e.body) s;
        supplied = supplied;
        is_supplied = n;
        declared = λ n m. elem-keys n plugin.env (within-elem n supplied (keys plugin.env) d m);
        complete = λ n m.
            within-elem n (required_in plugin.env) supplied
              (check-eq-ok _ (axi (bare usage_error)) h₁₇) (elem-required_in n plugin.env m);
      },
    )
