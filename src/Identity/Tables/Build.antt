-- ===== src/Identity/Tables/Build.antt =====
-- identity.py: `policy_from_entry`, the policy that a registry entry makes.
use beherouter.Prelude.{
  String, Bool, true, Option, none, some, List, [], ◌∷◌, Dict, lookup, is_empty, ◌===◌,
  if◌then◌else◌,
}
use beherouter.Data.{
  Value, Fields, null, bool, str, arr, obj, end, field, is_true, get, all_names, texts_of,
}
use beherouter.Errors.{Result, ok, raise, ◌>>=◌, type_error}
use beherouter.Identity.Policy.{IdentityPolicy, ExchangeConfig}
use beherouter.Identity.Tables.{Entry, PluginSpec}
use beherouter.Identity.Tables.Authz.{audiences_of, table_of}
use beherouter.Identity.Tables.Exchange.{from_table, text_or}

-- `raw.get("mode") or ""`, and "none" read as no mode.
abbrev mode_of : Value → Result String
mode_of (str s) = ok (if s === "none" then "" else s)
mode_of v = if is_true v then raise type_error else ok ""

-- `tuple(value or ())` of a list of texts.
abbrev names_of : Value → Result (List String)
names_of (arr vs) = if all_names vs then ok (texts_of vs) else raise type_error
names_of v = if is_true v then raise type_error else ok []

abbrev flag_of : Option Value → Result Bool
flag_of none = ok true
flag_of (some (bool b)) = ok b
flag_of (some _) = raise type_error

-- `dict(raw.get("map") or {})`
abbrev sources : Fields → Result (Dict String)
sources end = ok []
sources (field key (str s) more) = do rest ← sources more; ok ((key, s) ∷ rest)
sources (field key _ more) = raise type_error

abbrev map_of : Value → Result (Dict String)
map_of (obj fs) = sources fs
map_of v = if is_true v then raise type_error else ok []

abbrev path_of : Value → Result (Option String)
path_of null = ok none
path_of (str s) = ok (some s)
path_of _ = raise type_error

abbrev exchange_of : String → Dict Value → Result (Option ExchangeConfig)
exchange_of mode raw =
    if mode === "exchange" then (do config ← from_table raw; ok (some config)) else ok none

abbrev no_forwarding : String → List String → String → List String → Bool → IdentityPolicy
no_forwarding surface gate claim audiences hide = record {
  surface = surface;
  mode = "";
  target = "";
  map = [];
  header = "authorization";
  prefix = "Bearer ";
  exchange = none;
  key = "sub";
  path = none;
  require_roles = gate;
  roles_claim = claim;
  audiences = audiences;
  hide_tools = hide;
}

-- `claim` is `roles_claim()`. A value of a type that validation refuses, which Python would store, is
-- a `TypeError` here.
pub policy_from_entry : String → Entry → PluginSpec → Result IdentityPolicy
policy_from_entry claim e spec = do
  let raw = table_of e.identity
  let authz = table_of e.authz
  mode ← mode_of (get "mode" raw)
  gate ← names_of (get "require_roles" authz)
  let audiences = audiences_of (get "audience" authz)
  hide ← flag_of (lookup "hide_tools" authz)
  let plain = no_forwarding e.name gate claim audiences hide
  if is_empty mode then ok plain else do
    map ← map_of (get "map" raw)
    header ← text_or "authorization" (lookup "header" raw)
    prefix ← text_or "Bearer " (lookup "prefix" raw)
    key ← text_or "sub" (lookup "key" raw)
    path ← path_of (get "path" raw)
    exchange ← exchange_of mode raw
    ok (record plain {
      mode = mode;
      target = spec.identity.target;
      map = map;
      header = header;
      prefix = prefix;
      key = key;
      path = path;
      exchange = exchange;
    })
