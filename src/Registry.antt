-- ===== src/Registry.antt =====
-- registry.py: what a registry file must be to be loaded, and an entry to be served. An entry is its name,
-- its plugin and its other fields, of which one left out reads as `None`. The plugins and the check of
-- their configuration are given. A name among the pins that is no text is left to the later check.
pub mod Checked
use beherouter.Prelude.{
  ℕ, zero, suc, String, Bool, true, false, not, ◌&&◌, ◌||◌, Option, none, some, List, [], ◌∷◌, Dict,
  lookup, has, keys, elem, all, select, is_nil, is_empty, ◌===◌, if◌then◌else◌,
}
use beherouter.Data.{
  Value, Fields, Items, ℤ, pos, negsuc, Float, nanos, infinite, nan, null, bool, int, float, str,
  arr, obj, nil, cons, end, field, to_dict, is_true, is_null, is_bool, is_text, get,
}
use beherouter.Errors.{Result, ok, raise, ◌>>=◌, ◌>>◌, require, fail, usage_error, type_error}
use beherouter.Identity.{Host}
use beherouter.Identity.Tables.{PluginSpec}
use beherouter.Identity.Tables.Authz.{validate_authz, table_of}
use beherouter.Identity.Tables.Modes.{validate_identity}
use beherouter.Gates.Table.{validate_rate_limit}
use beherouter.Args.{set_of}

pub record RegistryEntry : Type 0 where
  pub name : String
  pub plugin : Value
  pub body : Dict Value

abbrev reserved_names : List String
reserved_names = "admin" ∷ "healthz" ∷ "metrics" ∷ []

-- What the validation asks of a plugin. A credential that it declares is required or not.
pub record Plugin : Type 0 where
  pub spec : PluginSpec
  pub config : String → Value → Result (Dict Value)
  pub validate : Dict Value → Result (Unit {0})
  pub requires_entry : List String
  pub published : Dict Value → Option (List String)
  pub env : Dict Bool

-- `plugins.get`, and what the identity's validation reads of its surroundings.
pub record Plugins : Type 0 where
  pub host : Host
  pub map_env : Option String
  pub find : Value → Result Plugin

abbrev pub names_in : Value → Result (List String)
names_in v = if is_true v then set_of v else ok []

abbrev pub within : List String → List String → Bool
within xs ys = all (λ x. elem x ys) xs

abbrev pub probe_in : Value → List String → Bool
probe_in (str s) published = is_empty s || elem s published
probe_in v published = not (is_true v)

abbrev check_published : Option (List String) → Dict Value → Result (Unit {0})
check_published none body = ok tt
check_published (some published) body = do
  pinned ← names_in (get "pinned" body)
  require (within pinned published)
  require (probe_in (get "probe" body) published)

abbrev pub ttl_ok : Value → Bool
ttl_ok null = true
ttl_ok (int (pos n)) = true
ttl_ok _ = false

abbrev pub timeout_ok : Value → Bool
timeout_ok null = true
timeout_ok (int (pos (suc n))) = true
timeout_ok (float (nanos (pos (suc n)))) = true
timeout_ok _ = false

abbrev pub stateless_ok : Value → Value → Bool
stateless_ok null authz = true
stateless_ok (bool b) authz = not b || not (is_true (get "confirm_mutating" (table_of authz)))
stateless_ok _ authz = false

abbrev all_texts : Items → Bool
all_texts nil = true
all_texts (cons v vs) = is_text v && all_texts vs

abbrev pub pinned_ok : Value → Bool
pinned_ok null = true
pinned_ok (arr vs) = all_texts vs
pinned_ok _ = false

abbrev is_table : Value → Bool
is_table null = true
is_table (obj _) = true
is_table _ = false

abbrev is_words : Value → Bool
is_words (arr vs) = all_texts vs
is_words _ = false

abbrev pub aliases_ok : Value → Bool
aliases_ok null = true
aliases_ok (obj fs) = all (λ p. is_words p.1) (to_dict fs)
aliases_ok _ = false

abbrev pub required_in : Dict Bool → List String
required_in [] = []
required_in ((n, b) ∷ env) = let rest = required_in env in if b then n ∷ rest else rest

-- `validate_entry`
unfoldable pub validate_entry : Plugins → RegistryEntry → Result (Unit {0})
validate_entry ps e = do
  require (not (elem e.name reserved_names))
  plugin ← ps.find e.plugin
  config ← plugin.config e.name (get "config" e.body)
  plugin.validate config
  require (all (λ k. is_true (get k e.body)) plugin.requires_entry)
  check_published (plugin.published config) e.body
  validate_identity ps.host ps.map_env plugin.spec (get "identity" e.body)
  validate_authz (get "authz" e.body)
  validate_rate_limit (get "rate_limit" e.body)
  require (ttl_ok (get "catalogue_ttl_ms" e.body))
  require (timeout_ok (get "call_timeout_s" e.body))
  require (stateless_ok (get "stateless" e.body) (get "authz" e.body))
  require (pinned_ok (get "pinned" e.body))
  require (is_table (get "probe_args" e.body))
  require (aliases_ok (get "search_aliases" e.body))
  supplied ← names_in (get "env" e.body)
  require (within supplied (keys plugin.env))
  require (within (required_in plugin.env) supplied)

abbrev known_keys : List String
known_keys =
    "plugin" ∷ "config" ∷ "env" ∷ "pinned" ∷ "probe" ∷ "probe_args" ∷ "catalogue_ttl_ms"
    ∷ "call_timeout_s" ∷ "stateless" ∷ "identity" ∷ "authz" ∷ "rate_limit" ∷ "search_aliases" ∷ []

-- `RegistryEntry(name=name, **body)`
abbrev made_entry : String → Value → Result RegistryEntry
made_entry name (obj fs) = elim (lookup "plugin" (to_dict fs)) [
  | none ↦ raise type_error
  | some p ↦ ok (record { name = name; plugin = p; body = to_dict fs })
]
made_entry name _ = raise type_error

unfoldable pub load_entries : Dict Value → Result (Dict RegistryEntry)
load_entries [] = ok []
load_entries ((name, body) ∷ more) = do
  given ← set_of body
  require (within given known_keys)
  e ← made_entry name body
  rest ← load_entries more
  ok ((name, e) ∷ rest)

-- `load_registry`: no file is an empty registry.
unfoldable pub load_registry : Option (Result (Dict Value)) → Result (Dict RegistryEntry)
unfolding load_entries
load_registry none = ok []
load_registry (some parsed) = do d ← parsed; load_entries d
